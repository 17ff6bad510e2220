-- ===== src/Router/Rules/Services.antt =====
-- internal/router/rules/rules.go: which word of a request becomes the name of a service.
use mathlib.Core.Path.{subst}
use open_light.Base.{
  Bool, true, false, not, Option, none, some, List, [], ◌∷◌, ◌++◌, ◌≡◌, refl, sym, ◌⊎◌, inl, inr,
  if◌then◌else◌, arith, append_assoc, ◌&&◌,
}
use open_light.Base.Text.{Text, codes, eqt, is_empty_text}
use open_light.Router.Rules.{
  is_generic_service_word, is_logs_context_word, first_without, last_without,
  first_concrete_service_token, last_concrete_service_token, first_meaningful_token,
  last_meaningful_token, after_keyword, logs_service, around, status_of, service_status,
  status_service,
}

-- The text is one of the words.
unfoldable pub Among : Text → List Text → Type 0
Among t [] = (t ≡ []) × (true ≡ false)
Among t (f ∷ fs) = (t ≡ f) ⊎ Among t fs

-- Nothing, or one of the words that is not a filler.
unfoldable pub Named : List Text → Text → Type 0
unfolding Among is_generic_service_word
Named fs t = (t ≡ []) ⊎ ((is_generic_service_word t ≡ false) × Among t fs)

Named-cons : (f : Text) (fs : List Text) (t : Text) → Named fs t → Named (f ∷ fs) t
unfolding Named Among
Named-cons f fs t (inl e) = inl e
Named-cons f fs t (inr (g, m)) = inr (g, inr m)

Named-here : (f : Text) (fs : List Text) → is_generic_service_word f ≡ false → Named (f ∷ fs) f
unfolding Named Among
Named-here f fs g = inr (g, inl refl)

Named-empty : (fs : List Text) → Named fs []
unfolding Named
Named-empty fs = inl refl

Among-append : (t : Text) (xs ys : List Text) → Among t ys → Among t (xs ++ ys)
unfolding Among
Among-append t [] ys m = m
Among-append t (x ∷ xs) ys m = inr (Among-append t xs ys m)

Among-prefix : (t : Text) (xs ys : List Text) → Among t xs → Among t (xs ++ ys)
unfolding Among
Among-prefix t [] ys (_, e) = cc
Among-prefix t (x ∷ xs) ys (inl e) = inl e
Among-prefix t (x ∷ xs) ys (inr m) = inr (Among-prefix t xs ys m)

if-Named :
    (fs : List Text) (b : Bool) (x y : Text)
    → (b ≡ true → Named fs x)
    → (b ≡ false → Named fs y)
    → Named fs (if b then x else y)
if-Named fs true x y hx hy = hx refl
if-Named fs false x y hx hy = hy refl

first_without-Named : (fs : List Text) → Named fs (first_without is_generic_service_word fs)
unfolding first_without
first_without-Named [] = Named-empty []
first_without-Named (f ∷ fs) =
    if-Named (f ∷ fs) (not (is_generic_service_word f)) f (first_without is_generic_service_word fs)
      (λ h. Named-here f fs (ground arith))
      (λ _. Named-cons f fs (first_without is_generic_service_word fs) (first_without-Named fs))

last_without-Named : (fs : List Text) → Named fs (last_without is_generic_service_word fs)
unfolding last_without
last_without-Named [] = Named-empty []
last_without-Named (f ∷ fs) =
    if-Named (f ∷ fs) (not (is_empty_text later)) later
      (if not (is_generic_service_word f) then f else [])
      (λ _. Named-cons f fs later (last_without-Named fs))
      (λ _.
        if-Named (f ∷ fs) (not (is_generic_service_word f)) f []
          (λ h. Named-here f fs (ground arith)) (λ _. Named-empty (f ∷ fs)))
  where
    later : Text
    later = last_without is_generic_service_word fs

Named-append : (xs ys : List Text) (t : Text) → Named ys t → Named (xs ++ ys) t
unfolding Named
Named-append xs ys t (inl e) = inl e
Named-append xs ys t (inr (g, m)) = inr (g, Among-append t xs ys m)

Named-prefix : (xs ys : List Text) (t : Text) → Named xs t → Named (xs ++ ys) t
unfolding Named
Named-prefix xs ys t (inl e) = inl e
Named-prefix xs ys t (inr (g, m)) = inr (g, Among-prefix t xs ys m)

first_concrete-Named : (fs : List Text) → Named fs (first_concrete_service_token fs)
unfolding first_concrete_service_token
first_concrete-Named fs = first_without-Named fs

last_concrete-Named : (fs : List Text) → Named fs (last_concrete_service_token fs)
unfolding last_concrete_service_token
last_concrete-Named fs = last_without-Named fs

first_meaningful-Named : (fs : List Text) → Named fs (first_meaningful_token fs)
unfolding first_meaningful_token is_logs_context_word
first_meaningful-Named fs = first_without-Named fs

last_meaningful-Named : (fs : List Text) → Named fs (last_meaningful_token fs)
unfolding last_meaningful_token is_logs_context_word
last_meaningful-Named fs = last_without-Named fs

pub after_keyword-Named : (k : Text) (fs : List Text) → Named fs (after_keyword k fs)
unfolding after_keyword
after_keyword-Named k [] = Named-empty []
after_keyword-Named k (f ∷ fs) =
    if-Named (f ∷ fs) (not (eqt f k)) (after_keyword k fs) _
      (λ _. Named-cons f fs (after_keyword k fs) (after_keyword-Named k fs))
      (λ _.
        if-Named (f ∷ fs) (not (is_empty_text (first_concrete_service_token fs)))
          (first_concrete_service_token fs) (after_keyword k fs)
          (λ _. Named-cons f fs (first_concrete_service_token fs) (first_concrete-Named fs))
          (λ _. Named-cons f fs (after_keyword k fs) (after_keyword-Named k fs)))

logs_service-step :
    (before fs : List Text) (f rest : Text)
    → Named (before ++ f ∷ fs) rest
    → Named (before ++ f ∷ fs) (
        if not (eqt f (codes "logs")) && not (eqt f (codes "log"))
        then rest
        else if not (is_empty_text (first_meaningful_token fs))
        then first_meaningful_token fs
        else if not (is_empty_text (last_meaningful_token before))
        then last_meaningful_token before
        else rest)
logs_service-step before fs f rest h =
    if-Named (before ++ f ∷ fs) (not (eqt f (codes "logs")) && not (eqt f (codes "log"))) rest _
      (λ _. h)
      (λ _.
        if-Named (before ++ f ∷ fs) (not (is_empty_text (first_meaningful_token fs)))
          (first_meaningful_token fs) _
          (λ _.
            Named-append before (f ∷ fs) _
              (Named-cons f fs (first_meaningful_token fs) (first_meaningful-Named fs)))
          (λ _.
            if-Named (before ++ f ∷ fs) (not (is_empty_text (last_meaningful_token before)))
              (last_meaningful_token before) rest
              (λ _. Named-prefix before (f ∷ fs) _ (last_meaningful-Named before)) (λ _. h)))

pub logs_service-Named : (before fs : List Text) → Named (before ++ fs) (logs_service before fs)
unfolding logs_service
logs_service-Named before [] = Named-empty (before ++ [])
logs_service-Named before (f ∷ fs) =
    logs_service-step before fs f (logs_service (before ++ f ∷ []) fs) (
      subst (λ l. Named l (logs_service (before ++ f ∷ []) fs)) (append_assoc before (f ∷ []) fs)
        (logs_service-Named (before ++ f ∷ []) fs))

-- The two parts around a sequence are parts of the words.
unfoldable pub PartsOf : List Text → Option (List Text × List Text) → Type 0
PartsOf all none = Unit
PartsOf all (some (before, behind)) = (mid : List Text) × (all ≡ before ++ mid ++ behind)

if-PartsOf :
    (all : List Text) (b : Bool) (x y : Option (List Text × List Text))
    → PartsOf all x
    → PartsOf all y
    → PartsOf all (if b then x else y)
if-PartsOf all true x y hx hy = hx
if-PartsOf all false x y hx hy = hy

around-PartsOf :
    (a b : Text) (before fs : List Text) → PartsOf (before ++ fs) (around a b before fs)
unfolding around PartsOf
around-PartsOf a b before [] = tt
around-PartsOf a b before (f ∷ []) = tt
around-PartsOf a b before (f ∷ g ∷ fs) =
    if-PartsOf (before ++ f ∷ g ∷ fs) (eqt f a && eqt g b) (some (before, fs))
      (around a b (before ++ f ∷ []) (g ∷ fs))
      (f ∷ g ∷ [], sym (append_assoc before (f ∷ g ∷ []) fs))
      (subst (λ l. PartsOf l (around a b (before ++ f ∷ []) (g ∷ fs)))
        (append_assoc before (f ∷ []) (g ∷ fs)) (around-PartsOf a b (before ++ f ∷ []) (g ∷ fs)))

status_of-Named :
    (all : List Text) (parts : Option (List Text × List Text))
    → PartsOf all parts
    → Named all (status_of parts)
unfolding PartsOf
status_of-Named all none h = Named-empty all
status_of-Named all (some (before, behind)) (mid, e) =
    subst (λ l. Named l (first_concrete_service_token behind)) (sym e)
      (Named-append (before ++ mid) behind _ (first_concrete-Named behind))

service_status-Named :
    (all : List Text) (parts : Option (List Text × List Text))
    → PartsOf all parts
    → Named all (service_status parts all)
unfolding PartsOf
service_status-Named all none h =
    status_of-Named all (around (codes "status") (codes "of") [] all)
      (around-PartsOf (codes "status") (codes "of") [] all)
service_status-Named all (some ([], behind)) h =
    status_of-Named all (around (codes "status") (codes "of") [] all)
      (around-PartsOf (codes "status") (codes "of") [] all)
service_status-Named all (some (f ∷ before, behind)) (mid, e) =
    subst (λ l. Named l (last_concrete_service_token (f ∷ before))) (sym e)
      (Named-prefix (f ∷ before ++ mid) behind _
        (Named-prefix (f ∷ before) mid _ (last_concrete-Named (f ∷ before))))

pub status_service-Named : (fs : List Text) → Named fs (status_service fs)
unfolding status_service
status_service-Named [] = Named-empty []
status_service-Named (f ∷ fs) =
    if-Named (f ∷ fs) (eqt f (codes "status")) (first_concrete_service_token fs) _
      (λ _. Named-cons f fs (first_concrete_service_token fs) (first_concrete-Named fs))
      (λ _.
        if-Named (f ∷ fs) (eqt f (codes "service")) (first_concrete_service_token fs) _
          (λ _. Named-cons f fs (first_concrete_service_token fs) (first_concrete-Named fs))
          (λ _.
            service_status-Named (f ∷ fs) (around (codes "service") (codes "status") [] (f ∷ fs))
              (around-PartsOf (codes "service") (codes "status") [] (f ∷ fs))))
