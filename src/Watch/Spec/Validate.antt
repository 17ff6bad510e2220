-- ===== src/Watch/Spec/Validate.antt =====
-- internal/watch/service.go: the checks of a parsed watch, and net.SplitHostPort.
use open_light.Base.{
  ℕ, ◌==◌, Bool, true, false, ◌||◌, not, Option, none, some, [], ◌∷◌, if◌then◌else◌, leb,
}
use open_light.Base.Int.{ℤ, pos, ltb_ℤ}
use open_light.Base.Text.{Text, is_empty_text, to_lower, trim_space}
use open_light.Base.Decimal.{parse_int}
use open_light.Errors.{Result, ok, err, invalid_arguments, ◌>>=◌}
use open_light.Models.{
  Float64, WatchKind, cpu_high, memory_high, disk_high, temperature_high, port_down, cert_expiring,
}
use open_light.Watch.Numerics.{Numerics}
use open_light.Watch.Spec.{AddSpec}

unfoldable pub has_rune : ℕ → Text → Bool
has_rune r [] = false
has_rune r (c ∷ s) = c == r || has_rune r s

-- The text before and behind the last colon.
unfoldable pub cut_last_colon : Text → Option (Text × Text)
cut_last_colon [] = none
cut_last_colon (c ∷ s) = elim (cut_last_colon s) [
  | some (before, behind) ↦ some (c ∷ before, behind)
  | none ↦ if c == b':' then some ([], s) else none
]

-- `host]` without the bracket, if it has no other.
unfoldable pub close_bracket : Text → Option Text
close_bracket [] = none
close_bracket (c ∷ []) = if c == b']' then some [] else none
close_bracket (c ∷ d ∷ s) = elim (close_bracket (d ∷ s)) [
  | none ↦ none
  | some host ↦ if c == b'[' || c == b']' then none else some (c ∷ host)
]

-- The host of what stands before the last colon.
unfoldable pub host_of : Text → Option Text
host_of [] = some []
host_of (c ∷ s) =
    if c == b'['
    then close_bracket s
    else if has_rune b':' (c ∷ s) || has_rune b'[' (c ∷ s) || has_rune b']' (c ∷ s)
    then none
    else some (c ∷ s)

abbrev with_port : Option Text → Text → Option (Text × Text)
with_port none port = none
with_port (some host) port =
    if has_rune b'[' port || has_rune b']' port then none else some (host, port)

abbrev joined : Option (Text × Text) → Option (Text × Text)
joined none = none
joined (some (before, port)) = with_port (host_of before) port

-- net.SplitHostPort; `none` is an error
unfoldable pub split_host_port : Text → Option (Text × Text)
unfolding cut_last_colon host_of close_bracket has_rune
split_host_port hostport = joined (cut_last_colon hostport)

-- `err != nil || port <= 0 || port > 65535`
unfoldable pub port_number : Text → Option ℤ → Result (Text × ℕ)
port_number host (some (pos port)) =
    if port == 0 || not (leb port 65535) then err invalid_arguments else ok (to_lower host, port)
port_number host _ = err invalid_arguments

unfoldable pub host_and_port : Option (Text × Text) → Result (Text × ℕ)
unfolding port_number
host_and_port none = err invalid_arguments
host_and_port (some (host, port)) = port_number host (parse_int port)

unfoldable pub split_host_port_target : Text → Result (Text × ℕ)
unfolding host_and_port split_host_port parse_int
split_host_port_target target =
    if is_empty_text (trim_space target)
    then err invalid_arguments
    else host_and_port (split_host_port (trim_space target))

unfoldable pub split_host_port_target_default : Text → ℕ → Result (Text × ℕ)
unfolding has_rune
split_host_port_target_default target default_port =
    if is_empty_text (trim_space target)
    then err invalid_arguments
    else if not (has_rune b':' (trim_space target))
    then ok (to_lower (trim_space target), default_port)
    else split_host_port_target (trim_space target)

infixl 5 ◌>>◌
abbrev ◌>>◌ : Result (Unit {0}) → Result (Unit {0}) → Result (Unit {0})
m >> k = m >>= λ _. k

abbrev check : Bool → Result (Unit {0})
check true = err invalid_arguments
check false = ok tt

module _ (num : Numerics) where
  open num use {lt, le, of_nat}

  percentage : Float64 → Result (Unit {0})
  percentage threshold = check (le threshold (of_nat 0) || lt (of_nat 100) threshold)

  -- The switch on the kind.
  validate_kind : WatchKind → AddSpec → Result (Unit {0})
  unfolding percentage
  validate_kind cpu_high spec = percentage spec.threshold
  validate_kind memory_high spec = percentage spec.threshold
  validate_kind disk_high spec = percentage spec.threshold
  validate_kind temperature_high spec = check (le spec.threshold (of_nat 0))
  validate_kind port_down spec = do
    check (is_empty_text spec.target)
    target ← split_host_port_target spec.target
    ok tt
  validate_kind cert_expiring spec =
      check (is_empty_text spec.target || lt spec.threshold (of_nat 0))
  validate_kind _ spec = ok tt

  unfoldable pub validate_spec : AddSpec → Result (Unit {0})
  unfolding validate_kind
  validate_spec spec =
      if not (ltb_ℤ (pos 0) spec.duration)
      then err invalid_arguments
      else if ltb_ℤ spec.cooldown (pos 0)
      then err invalid_arguments
      else validate_kind spec.kind spec
