-- ===== src/Watch/Spec.antt =====
-- internal/watch/spec.go: the text of a new watch. The four loops over the words behind the target
-- are one function over the words of each: what a word does is read off its list of words.
pub mod Parse
pub mod Validate
pub mod Loop
pub mod Safe
pub mod Ports
mod Examples
use open_light.Base.{
  ℕ, ◌*◌, ◌==◌, Bool, true, false, not, ◌&&◌, ◌||◌, Option, none, some, List, [], ◌∷◌, ◌++◌,
  if◌then◌else◌,
}
use open_light.Base.Int.{pos}
use open_light.Base.Text.{
  Text, codes, eqt, one_of, to_lower, trim_space, fields, equal_fold, has_prefix, is_empty_text,
}
use open_light.Base.Time.{Duration, second, minute, hour}
use open_light.Errors.{Error, Result, ok, err, invalid_arguments, ◌>>=◌}
use open_light.Models.{Float64, WatchKind, Reaction, is_notify}
use open_light.Watch.Numerics.{Numerics}

pub record AddSpec : Type 0 where
  pub name : Text
  pub kind : WatchKind
  pub target : Text
  pub threshold : Float64
  pub duration : Duration
  pub reaction_mode : Reaction
  pub action_type : Text
  pub cooldown : Duration

abbrev pub action_none : Text
unfolding codes
action_none = codes "none"

abbrev pub action_service_restart : Text
unfolding codes
action_service_restart = codes "service_restart"

-- What a word without a value changes.
pub data Change : Type 0 where
  noise : Change
  mode : Reaction → Change
  quiet : Change
  act : Reaction → Change
  restart : Change

pub data Word : Type 0 where
  plain : Change → Word
  duration_value duration_or_restart cooldown_value days_value refused : Word

-- The case "restart": a watch that would only notify asks instead.
unfoldable pub with_restart : AddSpec → AddSpec
with_restart spec = record spec {
  reaction_mode = if is_notify spec.reaction_mode then Reaction.ask else spec.reaction_mode;
  action_type = action_service_restart;
}

unfoldable pub change : Change → AddSpec → AddSpec
unfolding with_restart
change noise spec = spec
change (mode r) spec = record spec { reaction_mode = r }
change quiet spec = record spec { reaction_mode = Reaction.notify; action_type = action_none }
change (act r) spec = record spec { reaction_mode = r; action_type = action_service_restart }
change restart spec = with_restart spec

-- token := strings.ToLower(strings.TrimSpace(fields[idx]))
abbrev token_of : Text → Text
token_of field = to_lower (trim_space field)

-- The cases of the switch in parsePortAddSpec.
unfoldable pub port_word : Text → Word
port_word token =
    if one_of token (
      codes "down"
      ∷ codes "closed"
      ∷ codes "unreachable"
      ∷ codes "is"
      ∷ codes "if"
      ∷ codes "when"
      ∷ codes "then"
      ∷ [])
    then plain noise
    else if eqt token (codes "notify")
    then plain (mode Reaction.notify)
    else if eqt token (codes "ask")
    then plain (mode Reaction.ask)
    else if eqt token (codes "for")
    then duration_value
    else if eqt token (codes "cooldown")
    then cooldown_value
    else refused

-- The cases of the switch in parseCertAddSpec.
unfoldable pub cert_word : Text → Word
cert_word token =
    if one_of token (
      codes "expiring"
      ∷ codes "expires"
      ∷ codes "soon"
      ∷ codes "is"
      ∷ codes "if"
      ∷ codes "when"
      ∷ codes "then"
      ∷ [])
    then plain noise
    else if eqt token (codes "notify")
    then plain (mode Reaction.notify)
    else if eqt token (codes "ask")
    then plain (mode Reaction.ask)
    else if one_of token (codes "in" ∷ codes "expires-in" ∷ codes "within" ∷ [])
    then days_value
    else if eqt token (codes "for")
    then duration_value
    else if eqt token (codes "cooldown")
    then cooldown_value
    else refused

-- The cases of the switch in parseServiceAddSpec.
unfoldable pub service_word : Text → Word
service_word token =
    if one_of token
      (codes "down" ∷ codes "stopped" ∷ codes "stop" ∷ codes "failed" ∷ codes "unhealthy" ∷ [])
    then plain noise
    else if one_of token (
        codes "if"
        ∷ codes "when"
        ∷ codes "then"
        ∷ codes "is"
        ∷ codes "goes"
        ∷ codes "becomes"
        ∷ codes "stays"
        ∷ codes "remains"
        ∷ [])
    then plain noise
    else if eqt token (codes "notify")
    then plain quiet
    else if eqt token (codes "ask")
    then plain (act Reaction.ask)
    else if eqt token (codes "auto")
    then plain (act Reaction.auto)
    else if eqt token (codes "restart")
    then plain restart
    else if eqt token (codes "for")
    then duration_or_restart
    else if eqt token (codes "cooldown")
    then cooldown_value
    else refused

-- The cases of the switch in parseMetricAddSpec.
unfoldable pub metric_word : Text → Word
metric_word token =
    if eqt token (codes "notify")
    then plain noise
    else if eqt token (codes "for")
    then duration_value
    else if eqt token (codes "cooldown")
    then cooldown_value
    else refused

-- strings.TrimSuffix by one rune
unfoldable pub trim_suffix : ℕ → Text → Text
trim_suffix r [] = []
trim_suffix r (c ∷ []) = if c == r then [] else c ∷ []
trim_suffix r (c ∷ d ∷ s) = c ∷ trim_suffix r (d ∷ s)

-- `if err != nil { return addSpec{}, … }`
abbrev pub required : Option Duration → Result Duration
required none = err invalid_arguments
required (some d) = ok d

module _ (num : Numerics) where
  open num use {parse_float, parse_duration, lt, le, of_nat}

  -- days of a non-empty value
  days_of : Option Float64 → Result Float64
  days_of none = err invalid_arguments
  days_of (some n) = if lt n (of_nat 0) then err invalid_arguments else ok n

  unfoldable pub parse_days : Text → Result Float64
  unfolding days_of trim_suffix trim_space
  parse_days value =
      let trimmed = trim_space value in
      if is_empty_text trimmed
      then err invalid_arguments
      else days_of (parse_float (trim_suffix b'd' trimmed))

  threshold_of : Option Float64 → Result Float64
  threshold_of none = err invalid_arguments
  threshold_of (some t) = if le t (of_nat 0) then err invalid_arguments else ok t

  unfoldable pub parse_threshold : Text → Result Float64
  unfolding threshold_of trim_suffix trim_space
  parse_threshold value = threshold_of (parse_float (trim_suffix b'%' (trim_space value)))

  -- A word behind which no field follows.
  last_word : Word → AddSpec → Result AddSpec
  unfolding change
  last_word (plain c) spec = ok (change c spec)
  last_word _ spec = err invalid_arguments

  -- `for idx < len(fields)`: a word that takes a value reads the next field and skips it.
  unfoldable pub options : (Text → Word) → AddSpec → List Text → Result AddSpec
  unfolding last_word change with_restart parse_days
  options word spec [] = ok spec
  options word spec (f ∷ []) = last_word (word (token_of f)) spec
  options word spec (f ∷ g ∷ rest) = elim (word (token_of f)) [
    | plain c ↦ options word (change c spec) (g ∷ rest)
    | duration_value ↦ do
      d ← required (parse_duration g)
      options word (record spec { duration = d }) rest
    | duration_or_restart ↦ elim (equal_fold (trim_space g) (codes "restart")) [
      | true ↦ options word (with_restart spec) rest
      | false ↦ do d ← required (parse_duration g); options word (record spec { duration = d }) rest
    ]
    | cooldown_value ↦ do
      d ← required (parse_duration g)
      options word (record spec { cooldown = d }) rest
    | days_value ↦ do n ← parse_days g; options word (record spec { threshold = n }) rest
    | refused ↦ err invalid_arguments
  ]

  blank : WatchKind → Text → AddSpec
  blank kind target = record {
    name = [];
    kind = kind;
    target = target;
    threshold = of_nat 0;
    duration = pos 0;
    reaction_mode = Reaction.notify;
    action_type = action_none;
    cooldown = pos 0;
  }

  -- What a port watch is when no word has been read; so for the others.
  unfoldable pub port_start : Text → AddSpec
  unfolding blank
  port_start target = record (blank WatchKind.port_down (trim_space target)) {
    duration = pos (30 * second);
    cooldown = pos (10 * minute);
  }

  unfoldable pub parse_port : List Text → Result AddSpec
  parse_port (first ∷ target ∷ rest) = options port_word (port_start target) rest
  parse_port _ = err invalid_arguments

  unfoldable pub cert_start : Text → AddSpec
  unfolding blank
  cert_start target = record (blank WatchKind.cert_expiring (trim_space target)) {
    threshold = of_nat 14;
    duration = pos minute;
    cooldown = pos (24 * hour);
  }

  unfoldable pub parse_cert : List Text → Result AddSpec
  parse_cert (first ∷ target ∷ rest) = options cert_word (cert_start target) rest
  parse_cert _ = err invalid_arguments

  unfoldable pub service_start : Text → AddSpec
  unfolding blank
  service_start target = record (blank WatchKind.service_down (trim_space target)) {
    duration = pos (30 * second);
    cooldown = pos (10 * minute);
  }

  unfoldable pub service_named : AddSpec → AddSpec
  service_named spec = record spec { name = codes "service/" ++ spec.target ++ codes " down" }

  unfoldable pub parse_service : List Text → Result AddSpec
  parse_service (first ∷ target ∷ rest) =
      if is_empty_text (trim_space target)
      then err invalid_arguments
      else do spec ← options service_word (service_start target) rest; ok (service_named spec)
  parse_service _ = err invalid_arguments

  timed : WatchKind → Text → ℕ → AddSpec
  unfolding blank
  timed kind target minutes = record (blank kind target) {
    duration = pos (minutes * minute);
    cooldown = pos (15 * minute);
  }

  -- The switch on the metric: its kind, its target and how long it must last.
  unfoldable pub metric_spec : Text → Option AddSpec
  unfolding timed
  metric_spec metric =
      if eqt metric (codes "cpu")
      then some (timed WatchKind.cpu_high metric 5)
      else if eqt metric (codes "memory")
      then some (timed WatchKind.memory_high metric 5)
      else if eqt metric (codes "disk")
      then some (timed WatchKind.disk_high (codes "/") 3)
      else if eqt metric (codes "temperature")
      then some (timed WatchKind.temperature_high metric 5)
      else none
