-- ===== src/Watch/Spec/Loop.antt =====
-- The rule of the loop over the words of a new watch.
use mathlib.Core.Path.{subst}
use open_light.Base.{◌≡◌, inl, inr, refl, List, [], ◌∷◌, arith, Bool-cases}
use open_light.Base.Text.{Text, codes, trim_space, equal_fold}
use open_light.Base.Time.{Duration}
use open_light.Errors.{ok, >>=-eq-ok}
use open_light.Models.{Float64}
use open_light.Watch.Numerics.{Numerics}
use open_light.Watch.Spec.{
  AddSpec, Change, Word, plain, duration_value, duration_or_restart, cooldown_value, days_value,
  refused, with_restart, change, token_of, parse_days, required, options,
}

-- The loops keep what every word and every value keeps.
module _ (num : Numerics) (word : Text → Word) (P : AddSpec → Type 0)
    (keep_change : (t : Text) (c : Change) (s : AddSpec) → word t ≡ plain c → P s → P (change c s))
    (keep_restart : (t : Text) (s : AddSpec)
      → word t ≡ duration_or_restart
      → P s
      → P (with_restart s))
    (keep_duration : (d : Duration) (s : AddSpec) → P s → P (record s { duration = d }))
    (keep_cooldown : (d : Duration) (s : AddSpec) → P s → P (record s { cooldown = d }))
    (keep_threshold : (n : Float64) (s : AddSpec) → P s → P (record s { threshold = n })) where
  last_keeps :
      (f : Text) (w : Word) (s r : AddSpec)
      → word (token_of f) ≡ w
      → P s
      → options num word s (f ∷ []) ≡ ok r
      → P r
  unfolding options
  last_keeps f (plain c) s r e p h = subst P (ground arith) (keep_change (token_of f) c s e p)
  last_keeps f _ s r e p h = absurd (ground arith)

  -- One round, with the claim for the fields behind the word and for those behind its value.
  round_keeps :
      (f g : Text) (rest : List Text) (w : Word) (s r : AddSpec)
      → word (token_of f) ≡ w
      → ((s' : AddSpec) → P s' → options num word s' (g ∷ rest) ≡ ok r → P r)
      → ((s' : AddSpec) → P s' → options num word s' rest ≡ ok r → P r)
      → P s
      → options num word s (f ∷ g ∷ rest) ≡ ok r
      → P r
  unfolding options
  round_keeps f g rest (plain c) s r e next skip p h =
      next (change c s) (keep_change (token_of f) c s e p) (rw (e, options) at h)
  round_keeps f g rest duration_value s r e next skip p h =
      let (d, _, k) = >>=-eq-ok (required (num.parse_duration g)) _ (rw (e, options) at h) in
      skip (record s { duration = d }) (keep_duration d s p) k
  round_keeps f g rest duration_or_restart s r e next skip p h =
      elim (Bool-cases (equal_fold (trim_space g) (codes "restart"))) [
        | inl b ↦ skip (with_restart s) (keep_restart (token_of f) s e p) (rw (e, options, b) at h)
        | inr b ↦
            let (d, _, k) =
              >>=-eq-ok (required (num.parse_duration g)) _ (rw (e, options, b) at h) in
            skip (record s { duration = d }) (keep_duration d s p) k
      ]
  round_keeps f g rest cooldown_value s r e next skip p h =
      let (d, _, k) = >>=-eq-ok (required (num.parse_duration g)) _ (rw (e, options) at h) in
      skip (record s { cooldown = d }) (keep_cooldown d s p) k
  round_keeps f g rest days_value s r e next skip p h =
      let (n, _, k) = >>=-eq-ok (parse_days num g) _ (rw (e, options) at h) in
      skip (record s { threshold = n }) (keep_threshold n s p) k
  round_keeps f g rest refused s r e next skip p h = absurd (ground (arith, h))

  pub options_keeps : (fs : List Text) (s r : AddSpec) → P s → options num word s fs ≡ ok r → P r
  options_keeps [] s r p h = unfold options in subst P (ground arith) p
  options_keeps (f ∷ []) s r p h = last_keeps f (word (token_of f)) s r refl p h
  options_keeps (f ∷ g ∷ rest) s r p h =
      round_keeps f g rest (word (token_of f)) s r refl (λ s'. options_keeps (g ∷ rest) s' r)
        (λ s'. options_keeps rest s' r) p h
