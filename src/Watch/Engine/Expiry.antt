-- ===== src/Watch/Engine/Expiry.antt =====
-- internal/watch/service.go: the alerts whose window for an answer has closed.
pub mod Done
use mathlib.Core.Option.{some-injective}
use mathlib.Core.Path.{subst}
use open_light.Base.{
  ℕ, ◌≤◌, ◌<◌, ◌==◌, leb, Bool, true, false, not, ◌&&◌, Option, none, some, List, [], ◌∷◌, ◌++◌,
  ◌≡◌, refl, sym, ap, ◌∙◌, arith, if◌then◌else◌, select, insert_by, sort_by, All, Bool-cases, ◌≢◌,
  ◌⊎◌, inl, inr, ==_iff,
}
use open_light.Base.Int.{pos}
use open_light.Base.Text.{Text, codes}
use open_light.Base.Decimal.{itoa}
use open_light.Base.Time.{Time}
use open_light.Errors.{Result, ok}
use open_light.Models.{Watch, WatchIncident, is_opened, is_pending}
use open_light.Watch.World.{World}
use open_light.Watch.Env.{Env}
use open_light.Watch.Repository.{
  find_watch, replace_incident, set_columns, joined, older, closed_window, list_expired_incidents,
}
use open_light.Watch.Handle.Scope.{row_keys, row_keys-replace_incident}
use open_light.Watch.Engine.{expire_incident, expire_each, expire_pending_incidents}
use open_light.Watch.Engine.Calm.{update_incident-calm, send-calm}
use open_light.Watch.Steps.{Ascends, IsNumbered, Ascends-row_keys}

-- An open alert that waits for an answer although its window has closed.
unfoldable pub waits : Time → WatchIncident → Bool
unfolding closed_window
waits now i = is_opened i.status && is_pending i.action_status && closed_window now i

-- A row with the id.
abbrev pub Has : ℕ → List WatchIncident → Type 0
Has n [] = true ≡ false
Has n (i ∷ is) = (i.id ≡ n) ⊎ Has n is

Has-row_keys :
    (n : ℕ) (is js : List WatchIncident) → row_keys js ≡ row_keys is → Has n is → Has n js
unfolding row_keys
Has-row_keys n [] js e h = cc
Has-row_keys n (i ∷ is) [] e h = cc
Has-row_keys n (i ∷ is) (j ∷ js) e (inl h) = let same : j.id ≡ i.id = cc in inl (same ∙ h)
Has-row_keys n (i ∷ is) (j ∷ js) e (inr h) =
    let rest : row_keys js ≡ row_keys is = cc in inr (Has-row_keys n is js rest h)

Has-insert_by :
    (n : ℕ) (f : WatchIncident → WatchIncident → Bool) (x : WatchIncident) (ys : List WatchIncident)
    → (x.id ≡ n) ⊎ Has n ys
    → Has n (insert_by f x ys)
Has-insert_by n f x [] h = h
Has-insert_by n f x (y ∷ ys) h = go (f x y) h (Has-insert_by n f x ys)
  where
    go :
        (b : Bool)
        → (x.id ≡ n) ⊎ Has n (y ∷ ys)
        → ((x.id ≡ n) ⊎ Has n ys → Has n (insert_by f x ys))
        → Has n (elim b [ true ↦ x ∷ y ∷ ys | false ↦ y ∷ insert_by f x ys ])
    go true k ih = k
    go false (inl e) ih = inr (ih (inl e))
    go false (inr (inl e)) ih = inl e
    go false (inr (inr k)) ih = inr (ih (inr k))

pub Has-sort_by :
    (n : ℕ) (f : WatchIncident → WatchIncident → Bool) (xs : List WatchIncident)
    → Has n xs
    → Has n (sort_by f xs)
Has-sort_by n f (x ∷ xs) (inl e) = Has-insert_by n f x (sort_by f xs) (inl e)
Has-sort_by n f (x ∷ xs) (inr h) = Has-insert_by n f x (sort_by f xs) (inr (Has-sort_by n f xs h))
Has-sort_by n f [] h = h

module _ (P : WatchIncident → Type 0) (f : WatchIncident → WatchIncident → Bool) where
  All-insert_by :
      (x : WatchIncident) (ys : List WatchIncident) → P x → All P ys → All P (insert_by f x ys)
  All-insert_by x [] px h = (px, tt)
  All-insert_by x (y ∷ ys) px h = go (f x y) (All-insert_by x ys px h.1)
    where
      go :
          (b : Bool)
          → All P (insert_by f x ys)
          → All P (elim b [ true ↦ x ∷ y ∷ ys | false ↦ y ∷ insert_by f x ys ])
      go true ih = (px, h)
      go false ih = (h.0, ih)

  pub All-sort_by : (xs : List WatchIncident) → All P xs → All P (sort_by f xs)
  All-sort_by [] h = tt
  All-sort_by (x ∷ xs) h = All-insert_by x (sort_by f xs) h.0 (All-sort_by xs h.1)

pub All-map :
    {P Q : WatchIncident → Type 0}
    → ((i : WatchIncident) → P i → Q i)
    → (is : List WatchIncident) → All P is
    → All Q is
All-map f [] h = tt
All-map f (i ∷ is) h = (f i h.0, All-map f is h.1)

module _ (env : Env) (watches : List Watch) (now : Time) where
  -- A row that does not wait, or is of no watch, or has its id in the list.
  abbrev pub Settled : List WatchIncident → WatchIncident → Type 0
  Settled left r = (waits now r ≡ false) ⊎ (find_watch r.watch_id watches ≡ none) ⊎ Has r.id left

  other_id :
      (i r : WatchIncident) (left : List WatchIncident)
      → r.id ≢ i.id
      → Settled (i ∷ left) r
      → Settled left r
  other_id i r left ne (inl h) = inl h
  other_id i r left ne (inr (inl h)) = inr (inl h)
  other_id i r left ne (inr (inr (inl e))) = elim (ne (sym e)) [ ]
  other_id i r left ne (inr (inr (inr h))) = inr (inr h)

  expired_row :
      (j i : WatchIncident) (left : List WatchIncident)
      → Settled left (set_columns j (expire_incident env i now))
  unfolding waits set_columns expire_incident
  expired_row j i left = inl (ground arith)

  above : (low high : ℕ) (is : List WatchIncident) → Ascends low high is → All (λ r. low < r.id) is
  unfolding Ascends
  above low high [] h = tt
  above low high (i ∷ is) h =
      (h.0, All-map (λ r l. omega (arith, l, h.0)) is (above i.id high is h.1))

  -- The rows behind the one that is replaced have other ids.
  rest-Settled :
      (i j : WatchIncident) (left is : List WatchIncident)
      → j.id ≡ i.id
      → All (λ r. j.id < r.id) is
      → All (Settled (i ∷ left)) is
      → All (Settled left) is
  rest-Settled i j left [] e l h = tt
  rest-Settled i j left (r ∷ is) e l h = (
    other_id i r left (λ same. omega (arith, same, e, l.0)) h.0,
    rest-Settled i j left is e l.1 h.1,
  )

  replace_incident-Settled :
      (low high : ℕ) (i : WatchIncident) (left is : List WatchIncident) {js : List WatchIncident}
      → replace_incident (expire_incident env i now) is ≡ some js
      → Ascends low high is
      → All (Settled (i ∷ left)) is
      → All (Settled left) js
  unfolding replace_incident Ascends expire_incident
  replace_incident-Settled low high i left [] e a h = cc
  replace_incident-Settled low high i left (j ∷ is) {js} e a h =
      step (replace_incident (expire_incident env i now) is)
        (λ ks k. replace_incident-Settled j.id high i left is k a.1 h.1) (j.id == i.id) refl e
    where
      step :
          (r : Option (List WatchIncident))
          → ((ks : List WatchIncident) → r ≡ some ks → All (Settled left) ks)
          → (b : Bool) → (j.id == i.id) ≡ b
          → elim b as (λ _. Option (List WatchIncident)) [
            | true ↦ some (set_columns j (expire_incident env i now) ∷ is)
            | false ↦ elim r [ none ↦ none | some ks ↦ some (j ∷ ks) ]
          ]
            ≡ some js
          → All (Settled left) js
      step r hr true hb k = subst (All (Settled left)) (some-injective _ _ k) (
        expired_row j i left,
        rest-Settled i j left is ((==_iff j.id i.id).0 hb) (above j.id high is a.1) h.1,
      )
      step none hr false hb k = cc
      step (some ks) hr false hb k =
          subst (All (Settled left)) (some-injective _ _ k)
            (other_id i j left (λ same. ground (arith, same, hb)) h.0, hr ks refl)

replace_incident-Has :
    (i : WatchIncident) (is : List WatchIncident)
    → Has i.id is
    → (js : List WatchIncident) × (replace_incident i is ≡ some js)
unfolding replace_incident
replace_incident-Has i [] h = cc
replace_incident-Has i (j ∷ is) h = go (j.id == i.id) refl h (λ k. replace_incident-Has i is k)
  where
    go :
        (b : Bool)
        → (j.id == i.id) ≡ b
        → Has i.id (j ∷ is)
        → (Has i.id is → (js : List WatchIncident) × (replace_incident i is ≡ some js))
        → (js : List WatchIncident) × (elim b as (λ _. Option (List WatchIncident)) [
          | true ↦ some (set_columns j i ∷ is)
          | false ↦ elim (replace_incident i is) [ none ↦ none | some ks ↦ some (j ∷ ks) ]
        ]
            ≡ some js)
    go true e k rec = (set_columns j i ∷ is, refl)
    go false e (inl same) rec = ground (arith, e, same)
    go false e (inr k) rec = let (js, f) = rec k in (j ∷ js, rw f refl)

module _ (env : Env) (now : Time) where
  notice : WatchIncident → Text
  notice i =
      codes "Alert #"
      ++ itoa i.id
      ++ codes " expired: reply window closed for "
      ++ i.watch_name
      ++ codes "."

  -- The state after one alert of the loop.
  abbrev told : WatchIncident → List WatchIncident → World → World
  told i js w = record w {
    incidents = js;
    sent =
        record {
          chat_id = i.chat_id;
          text = notice i;
          buttons = if env.sends_buttons then [] else [];
        }
        ∷ w.sent;
    messages = record { user_id = pos 0; chat_id = i.chat_id; text = notice i } ∷ w.messages;
  }

  expire_each-step :
      (i : WatchIncident) (left : List WatchIncident) (w : World) {js : List WatchIncident}
      → w.faults ≡ []
      → env.has_notifier ≡ true
      → is_pending i.action_status ≡ true
      → replace_incident (expire_incident env i now) w.incidents ≡ some js
      → expire_each env (i ∷ left) now w ≡ expire_each env left now (told i js w)
  unfolding expire_each notice
  expire_each-step i left w {js} h n p e =
      rw
        (
          p,
          update_incident-calm (expire_incident env i now) w h e,
          send-calm env i.chat_id (pos 0) (notice i) [] (record w { incidents = js }) n h,
        )
        refl

  module _ (watches : List Watch) where
    unfoldable pub Outcome : Result (Unit {0}) × World → Type 0
    Outcome r =
        (r.0 ≡ ok tt) × (r.1.watches ≡ watches) × All (Settled env watches now []) r.1.incidents

    pub expire_each-Outcome :
        (left : List WatchIncident) (w : World)
        → w.faults ≡ []
        → env.has_notifier ≡ true
        → w.watches ≡ watches
        → All (λ i. is_pending i.action_status ≡ true) left
        → All (λ i. Has i.id w.incidents) left
        → Ascends 0 w.last_incident_id w.incidents
        → All (Settled env watches now left) w.incidents
        → Outcome (expire_each env left now w)
    unfolding Outcome
    expire_each-Outcome [] w h n hw hp hh a s = unfold expire_each in (refl, hw, s)
    expire_each-Outcome (i ∷ left) w h n hw hp hh a s =
        let found : (js : List WatchIncident) × (replace_incident (expire_incident env i now)
                w.incidents
              ≡ some js) =
          replace_incident-Has (expire_incident env i now) w.incidents
            (unfold expire_incident in hh.0) in
        let keys : row_keys found.0 ≡ row_keys w.incidents =
          row_keys-replace_incident (expire_incident env i now) w.incidents found.1 in
        subst Outcome (sym (expire_each-step i left w h n hp.0 found.1)) (
          expire_each-Outcome left (told i found.0 w) h n hw hp.1
            (All-map (λ k l. Has-row_keys k.id w.incidents found.0 keys l) left hh.1)
            (Ascends-row_keys 0 w.last_incident_id w.incidents found.0 keys a)
            (replace_incident-Settled env watches now 0 w.last_incident_id i left w.incidents
              found.1 a s))
