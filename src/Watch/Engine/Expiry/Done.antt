-- ===== src/Watch/Engine/Expiry/Done.antt =====
-- internal/watch/service.go: what is left to wait after expirePendingIncidents.
use mathlib.Core.Path.{subst}
use open_light.Base.{
  Bool, true, false, ◌&&◌, Option, none, some, List, [], ◌∷◌, ◌≡◌, refl, sym, ap, ◌∙◌, arith,
  select, sort_by, All, ◌⊎◌, inl, inr,
}
use open_light.Base.Time.{Time}
use open_light.Errors.{Result, ok}
use open_light.Models.{Watch, WatchIncident, is_opened, is_pending}
use open_light.Watch.World.{World, continue}
use open_light.Watch.Env.{Env}
use open_light.Watch.Repository.{find_watch, joined, older, closed_window, list_expired_incidents}
use open_light.Watch.Steps.{IsNumbered}
use open_light.Watch.Engine.{expire_each, expire_pending_incidents}
use open_light.Watch.Engine.Closes.{read-calm}
use open_light.Watch.Engine.Expiry.{
  waits, Has, Has-sort_by, All-sort_by, All-map, Settled, Outcome, expire_each-Outcome,
}

All-select :
    (P : WatchIncident → Type 0) (p : WatchIncident → Bool) (is : List WatchIncident)
    → All P is
    → All P (select p is)
All-select P p [] h = tt
All-select P p (i ∷ is) h = go (p i) (All-select P p is h.1)
  where
    go :
        (b : Bool)
        → All P (select p is)
        → All P (elim b [ true ↦ i ∷ select p is | false ↦ select p is ])
    go true k = (h.0, k)
    go false k = k

select-true :
    (p : WatchIncident → Bool) (i : WatchIncident) (is : List WatchIncident)
    → p i ≡ true
    → select p (i ∷ is) ≡ i ∷ select p is
select-true p i is h = rw (h, select) refl

select-false :
    (p : WatchIncident → Bool) (i : WatchIncident) (is : List WatchIncident)
    → p i ≡ false
    → select p (i ∷ is) ≡ select p is
select-false p i is h = rw (h, select) refl

select-pending :
    (now : Time) (is : List WatchIncident)
    → All (λ i. is_pending i.action_status ≡ true) (select (waits now) is)
select-pending now [] = tt
select-pending now (i ∷ is) = go (waits now i) refl (select-pending now is)
  where
    go :
        (b : Bool)
        → waits now i ≡ b
        → All (λ k. is_pending k.action_status ≡ true) (select (waits now) is)
        → All
            (λ k. is_pending k.action_status ≡ true)
            (elim b [ true ↦ i ∷ select (waits now) is | false ↦ select (waits now) is ])
    go true e k = (unfold waits in ground (arith, e), k)
    go false e k = k

module _ (env : Env) (s : World) (now : Time) where
  abbrev named : WatchIncident → Watch → WatchIncident
  named i v = record i { watch_name = v.name }

  waits-named : (i : WatchIncident) (v : Watch) → waits now (named i v) ≡ waits now i
  unfolding waits closed_window
  waits-named i v = refl

  joined-none :
      (i : WatchIncident) (is : List WatchIncident)
      → find_watch i.watch_id s.watches ≡ none
      → joined s (i ∷ is) ≡ joined s is
  unfolding joined
  joined-none i is h = rw (h, joined) refl

  joined-some :
      (i : WatchIncident) (is : List WatchIncident) {v : Watch}
      → find_watch i.watch_id s.watches ≡ some v
      → joined s (i ∷ is) ≡ named i v ∷ joined s is
  unfolding joined
  joined-some i is h = rw (h, joined) refl

  -- What the query takes of one row more: nothing, or the row.
  abbrev RowCase : WatchIncident → List WatchIncident → Type 0
  RowCase i is =
      ((select (waits now) (joined s (i ∷ is)) ≡ select (waits now) (joined s is))
        × ((waits now i ≡ false) ⊎ (find_watch i.watch_id s.watches ≡ none)))
      ⊎ ((v : Watch) × (select (waits now) (joined s (i ∷ is))
            ≡ named i v ∷ select (waits now) (joined s is))
          × (waits now i ≡ true)
          × (find_watch i.watch_id s.watches ≡ some v))

  row_case : (i : WatchIncident) (is : List WatchIncident) → RowCase i is
  row_case i is = go (find_watch i.watch_id s.watches) refl (waits now i) refl
    where
      go :
          (o : Option Watch)
          → find_watch i.watch_id s.watches ≡ o
          → (b : Bool) → waits now i ≡ b
          → RowCase i is
      go none e b f = inl (ap (select (waits now)) (joined-none i is e), inr e)
      go (some v) e true f = inr (
        v,
        ap (select (waits now)) (joined-some i is e)
            ∙ select-true (waits now) (named i v) (joined s is) (waits-named i v ∙ f),
        f,
        e,
      )
      go (some v) e false f = inl (
        ap (select (waits now)) (joined-some i is e)
            ∙ select-false (waits now) (named i v) (joined s is) (waits-named i v ∙ f),
        inl f,
      )

  joined-Has : (is : List WatchIncident) → All (λ k. Has k.id is) (joined s is)
  unfolding joined
  joined-Has [] = tt
  joined-Has (i ∷ is) =
      go (find_watch i.watch_id s.watches) (All-map (λ k h. inr h) (joined s is) (joined-Has is))
    where
      go :
          (o : Option Watch)
          → All (λ k. Has k.id (i ∷ is)) (joined s is)
          → All
              (λ k. Has k.id (i ∷ is))
              (elim o [ none ↦ joined s is | some v ↦ named i v ∷ joined s is ])
      go none h = h
      go (some v) h = (inl refl, h)

  weaken :
      (k r : WatchIncident) (left : List WatchIncident)
      → Settled env s.watches now left r
      → Settled env s.watches now (k ∷ left) r
  weaken k r left (inl h) = inl h
  weaken k r left (inr (inl h)) = inr (inl h)
  weaken k r left (inr (inr h)) = inr (inr (inr h))

  joined-Settled :
      (is : List WatchIncident)
      → All (Settled env s.watches now (select (waits now) (joined s is))) is
  joined-Settled [] = tt
  joined-Settled (i ∷ is) = elim (row_case i is) [
    | inl (e, inl calm) ↦
        subst (λ l. All (Settled env s.watches now l) (i ∷ is)) (sym e)
          (inl calm, joined-Settled is)
    | inl (e, inr gone) ↦
        subst (λ l. All (Settled env s.watches now l) (i ∷ is)) (sym e)
          (inr (inl gone), joined-Settled is)
    | inr (v, e, due, there) ↦
        subst (λ l. All (Settled env s.watches now l) (i ∷ is)) (sym e)
          (
            inr (inr (inl refl)),
            All-map (λ r h. weaken (named i v) r (select (waits now) (joined s is)) h) is
                (joined-Settled is),
          )
  ]

  Settled-none :
      (is : List WatchIncident)
      → All (Settled env s.watches now []) is
      → select (waits now) (joined s is) ≡ []
  Settled-none [] h = unfold joined in refl
  Settled-none (i ∷ is) h = elim (row_case i is) [
    | inl (e, why) ↦ e ∙ Settled-none is h.1
    | inr (v, e, due, there) ↦ waiting_not h.0 due there
  ]
    where
      waiting_not :
          {v : Watch}
          → Settled env s.watches now [] i
          → waits now i ≡ true
          → find_watch i.watch_id s.watches ≡ some v
          → select (waits now) (joined s (i ∷ is)) ≡ []
      waiting_not (inl calm) due there = cc
      waiting_not (inr (inl gone)) due there = cc
      waiting_not (inr (inr has)) due there = cc

list_expired-calm :
    (now : Time) (w : World)
    → w.faults ≡ []
    → list_expired_incidents now w
      ≡ (ok (sort_by older (select (waits now) (joined w w.incidents))), w)
unfolding list_expired_incidents waits
list_expired-calm now w h =
    read-calm
      (λ s. sort_by older (
        select (λ i. is_opened i.status && is_pending i.action_status && closed_window now i)
          (joined s s.incidents)))
      w h

finish :
    (env : Env) (now : Time) (watches : List Watch) (r : Result (Unit {0}) × World)
    → Outcome env now watches r
    → (r.0 ≡ ok tt) × (select (waits now) (joined r.1 r.1.incidents) ≡ [])
unfolding Outcome
finish env now watches r (fine, same, settled) = (
  fine,
  Settled-none env r.1 now r.1.incidents
      (subst (λ ws. All (Settled env ws now []) r.1.incidents) (sym same) settled),
)

-- While no call fails, messages can be sent and the alerts are numbered, the expiry succeeds, and
-- afterwards no open alert with a watch still waits for an answer behind its window.
pub expire_pending_incidents-done :
    (env : Env) (now : Time) (w : World)
    → w.faults ≡ []
    → env.has_notifier ≡ true
    → IsNumbered w
    → ((expire_pending_incidents env now w).0 ≡ ok tt)
      × (select (waits now) (
            joined
              (expire_pending_incidents env now w).1
              (expire_pending_incidents env now w).1.incidents)
          ≡ [])
unfolding expire_pending_incidents
expire_pending_incidents-done env now w h n a =
    subst
      (λ r.
        ((continue r.0 (λ is. expire_each env is now) r.1).0 ≡ ok tt)
        × (select (waits now) (
              joined (continue r.0 (λ is. expire_each env is now) r.1).1
                (continue r.0 (λ is. expire_each env is now) r.1).1.incidents)
            ≡ []))
      (sym (list_expired-calm now w h))
      (finish env now w.watches (expire_each env expired now w) outcome)
  where
    expired : List WatchIncident
    expired = sort_by older (select (waits now) (joined w w.incidents))

    outcome : Outcome env now w.watches (expire_each env expired now w)
    outcome =
        expire_each-Outcome env now w.watches expired w h n refl
          (All-sort_by _ older _ (select-pending now (joined w w.incidents)))
          (All-sort_by _ older _
            (All-select _ (waits now) (joined w w.incidents) (joined-Has env w now w.incidents)))
          (unfold IsNumbered in a)
          (All-map (λ r k. sorted-Settled r k) w.incidents (joined-Settled env w now w.incidents))
      where
        sorted-Settled :
            (r : WatchIncident)
            → Settled env w.watches now (select (waits now) (joined w w.incidents)) r
            → Settled env w.watches now expired r
        sorted-Settled r (inl k) = inl k
        sorted-Settled r (inr (inl k)) = inr (inl k)
        sorted-Settled r (inr (inr k)) = inr (inr (Has-sort_by r.id older _ k))
