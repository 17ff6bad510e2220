-- ===== src/Watch/Steps.antt =====
-- internal/watch/service.go: every sequence of cycles, messages and requests, and the ids it gives.
use mathlib.Core.Option.{some-injective}
use mathlib.Core.Path.{subst}
use open_light.Base.{
  ℕ, suc, ◌≤◌, ◌<◌, ◌==◌, Bool, true, false, not, Option, none, some, List, [], ◌∷◌, ◌++◌, ◌≡◌,
  refl, sym, arith, select,
}
use open_light.Base.Int.{ℤ, pos}
use open_light.Base.Text.{Text}
use open_light.Base.Time.{Time}
use open_light.Models.{Watch, WatchIncident}
use open_light.Watch.World.{World, store}
use open_light.Watch.World.Triples.{
  Keeps, bind-Keeps, same-Keeps, FreeOfFaults, draw-keeps, read-Keeps, write-Keeps,
}
use open_light.Watch.Env.{Env}
use open_light.Watch.Repository.{create_watch, get_watch, delete_watch, find_watch, remove_watch}
use open_light.Watch.Spec.Parse.{parse_add_spec}
use open_light.Watch.Spec.Validate.{validate_spec}
use open_light.Watch.Handle.{
  validate_target, new_watch, add_watch, toggle_watch, delete_chat_watch, handle_action,
}
use open_light.Watch.Handle.Keeps.{Closed}
use open_light.Watch.Handle.Scope.{row_keys, row_keys-replace_incident}
use open_light.Watch.Handle.Replies.{handle_action-Keeps}
use open_light.Watch.Engine.{run_cycle}
use open_light.Watch.Engine.Calm.{with_next_id}
use open_light.Watch.Engine.Keeps.{CycleClosed, run_cycle-Keeps, update_watch-Keeps}

-- The ids of the rows are above `low`, ascend, and are at most `high`.
unfoldable pub Ascends : ℕ → ℕ → List WatchIncident → Type 0
Ascends low high [] = low ≤ high
Ascends low high (i ∷ is) = (low < i.id) × Ascends i.id high is

-- Every alert has an id of its own, and none is above the counter that gives the next.
unfoldable pub IsNumbered : World → Type 0
unfolding Ascends
IsNumbered w = Ascends 0 w.last_incident_id w.incidents

Ascends-append :
    (low high : ℕ) (is : List WatchIncident) (i : WatchIncident)
    → i.id ≡ suc high
    → Ascends low high is
    → Ascends low (suc high) (is ++ i ∷ [])
unfolding Ascends
Ascends-append low high [] i e h = (omega (arith, e, h), omega (arith, e))
Ascends-append low high (j ∷ is) i e h = (h.0, Ascends-append j.id high is i e h.1)

-- The ids alone matter.
pub Ascends-row_keys :
    (low high : ℕ) (is js : List WatchIncident)
    → row_keys js ≡ row_keys is
    → Ascends low high is
    → Ascends low high js
unfolding row_keys Ascends
Ascends-row_keys low high [] [] e h = h
Ascends-row_keys low high [] (j ∷ js) e h = cc
Ascends-row_keys low high (i ∷ is) [] e h = cc
Ascends-row_keys low high (i ∷ is) (j ∷ js) e h =
    let same : j.id ≡ i.id = cc in
    let rest : row_keys js ≡ row_keys is = cc in
    (
      omega (arith, same, h.0),
      Ascends-row_keys j.id high is js rest (subst (λ n. Ascends n high is) (sym same) h.1),
    )

Ascends-lower :
    (low lower high : ℕ) (is : List WatchIncident)
    → lower ≤ low
    → Ascends low high is
    → Ascends lower high is
unfolding Ascends
Ascends-lower low lower high [] h a = omega (arith, h, a)
Ascends-lower low lower high (i ∷ is) h a = (omega (arith, h, a.0), a.1)

Ascends-cons :
    (low high : ℕ) (i : WatchIncident) (is : List WatchIncident)
    → low < i.id
    → Ascends i.id high is
    → Ascends low high is
Ascends-cons low high i is h a = Ascends-lower i.id low high is (omega (arith, h)) a

Ascends-select :
    (p : WatchIncident → Bool) (low high : ℕ) (is : List WatchIncident)
    → Ascends low high is
    → Ascends low high (select p is)
Ascends-select p low high [] h = h
Ascends-select p low high (i ∷ is) h =
    go (p i) (unfold Ascends in h.0) (Ascends-select p i.id high is (unfold Ascends in h.1))
  where
    go :
        (b : Bool)
        → low < i.id
        → Ascends i.id high (select p is)
        → Ascends low high (elim b [ true ↦ i ∷ select p is | false ↦ select p is ])
    go true l a = unfold Ascends in (l, a)
    go false l a = Ascends-cons low high i (select p is) l a

-- A message of a chat.
IsNumbered-message :
    (env : Env)
    → ((w : World) → IsNumbered w → IsNumbered (env.meanwhile w))
    → (chat : ℤ) → Closed env chat IsNumbered
unfolding IsNumbered
IsNumbered-message env others chat = record {
  faults = record { free = λ w fs p. p };
  answered = λ w s e p. p;
  noted = λ w m e p. p;
  called = λ w call p. p;
  edited = λ w i is e p.
      Ascends-row_keys 0 w.last_incident_id w.incidents is
        (row_keys-replace_incident i w.incidents e) p;
  meanwhile = others;
}

IsNumbered-cycle :
    (env : Env)
    → ((w : World) → IsNumbered w → IsNumbered (env.meanwhile w))
    → CycleClosed env IsNumbered
unfolding IsNumbered
IsNumbered-cycle env others = record {
  anywhere = IsNumbered-message env others;
  watched = λ w ws p. p;
  opened =
      λ w now i p. Ascends-append 0 w.last_incident_id w.incidents (with_next_id now i w) refl p;
}

-- One step of the engine: a cycle, a text of a chat, or a request that adds, toggles or removes a watch.
pub data Step (env : Env) (w : World) : World → Type 0 where
  cycle : (now : Time) → Step env w (run_cycle env now w).1
  message :
      (chat user : ℤ) (text : Text) (now : Time)
      → Step env w (handle_action env chat user text now w).1
  add : (chat user : ℤ) (text : Text) → Step env w (add_watch env chat user text w).1
  toggle : (chat : ℤ) (id : ℕ) → Step env w (toggle_watch env chat id w).1
  remove : (chat : ℤ) (id : ℕ) → Step env w (delete_chat_watch env chat id w).1

-- The states that the engine reaches.
pub data Reachable (env : Env) (start : World) : World → Type 0 where
  here : Reachable env start start
  next : {v w : World} → Reachable env start v → Step env v w → Reachable env start w

module _ (env : Env) (others : (w : World) → IsNumbered w → IsNumbered (env.meanwhile w)) where
  abbrev faults : FreeOfFaults IsNumbered
  faults = ((IsNumbered-cycle env others).anywhere (pos 0)).faults

  create_watch-Keeps : (v : Watch) → Keeps IsNumbered (create_watch v)
  unfolding create_watch store IsNumbered
  create_watch-Keeps v = record { keeps = λ w p. let q = draw-keeps faults w p in ground arith }

  add_watch-Keeps : (chat user : ℤ) (text : Text) → Keeps IsNumbered (add_watch env chat user text)
  unfolding add_watch
  add_watch-Keeps chat user text = bind-Keeps (same-Keeps (parse_add_spec env.num text)) λ spec.
      bind-Keeps (same-Keeps (validate_target env spec.kind spec.target)) λ _.
        bind-Keeps (same-Keeps (validate_spec env.num spec))
          λ _. create_watch-Keeps (new_watch env chat user spec)

  toggle_watch-Keeps : (chat : ℤ) (id : ℕ) → Keeps IsNumbered (toggle_watch env chat id)
  unfolding toggle_watch get_watch
  toggle_watch-Keeps chat id = bind-Keeps (read-Keeps faults _) λ row.
      bind-Keeps (same-Keeps _)
        λ v. bind-Keeps (update_watch-Keeps (IsNumbered-cycle env others) _) λ _. same-Keeps _

  removed-IsNumbered :
      (id : ℕ) (v : Option Watch) (w w' : World)
      → (elim v as (λ _. Option World) [
        | none ↦ none
        | some found ↦ some (record w {
          watches = remove_watch id w.watches;
          incidents = select (λ i. not (i.watch_id == id)) w.incidents;
        })
      ])
        ≡ some w'
      → IsNumbered w
      → IsNumbered w'
  unfolding IsNumbered
  removed-IsNumbered id none w w' e p = cc
  removed-IsNumbered id (some v) w w' e p =
      subst IsNumbered (some-injective _ _ e)
        (Ascends-select (λ i. not (i.watch_id == id)) 0 w.last_incident_id w.incidents p)

  delete_watch-Keeps : (id : ℕ) → Keeps IsNumbered (delete_watch id)
  unfolding delete_watch
  delete_watch-Keeps id =
      write-Keeps faults _ (λ w w' e p. removed-IsNumbered id (find_watch id w.watches) w w' e p)

  delete_chat_watch-Keeps : (chat : ℤ) (id : ℕ) → Keeps IsNumbered (delete_chat_watch env chat id)
  unfolding delete_chat_watch get_watch
  delete_chat_watch-Keeps chat id =
      bind-Keeps (read-Keeps faults _)
        λ row. bind-Keeps (same-Keeps _) λ v. bind-Keeps (delete_watch-Keeps id) λ _. same-Keeps _

  step-IsNumbered : (v w : World) → IsNumbered v → Step env v w → IsNumbered w
  step-IsNumbered v _ p (cycle now) = (run_cycle-Keeps (IsNumbered-cycle env others) now).keeps v p
  step-IsNumbered v _ p (message chat user text now) =
      (handle_action-Keeps (IsNumbered-message env others chat) user text now).keeps v p
  step-IsNumbered v _ p (add chat user text) = (add_watch-Keeps chat user text).keeps v p
  step-IsNumbered v _ p (toggle chat id) = (toggle_watch-Keeps chat id).keeps v p
  step-IsNumbered v _ p (remove chat id) = (delete_chat_watch-Keeps chat id).keeps v p

  -- Whatever cycles, messages and requests follow each other, and whatever calls fail on the way, every
  -- alert keeps an id of its own, below the next that is given: the ids of the table ascend up to the
  -- counter, if they did at the start and what else writes during a skill call keeps it so.
  pub Reachable-IsNumbered :
      (start w : World) → IsNumbered start → Reachable env start w → IsNumbered w
  Reachable-IsNumbered start _ p here = p
  Reachable-IsNumbered start w p (next {v} r s) =
      step-IsNumbered v w (Reachable-IsNumbered start v p r) s
