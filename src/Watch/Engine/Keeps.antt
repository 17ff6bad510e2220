-- ===== src/Watch/Engine/Keeps.antt =====
-- internal/watch/service.go: what a cycle keeps, whatever fails on the way.
use mathlib.Core.Option
use mathlib.Core.Option.{some-injective}
use mathlib.Core.Path.{subst}
use open_light.Base.{suc, not, Option, none, some, List, [], ◌∷◌, ◌++◌, ◌≡◌, arith}
use open_light.Base.Int.{ℤ, pos, ltb_ℤ}
use open_light.Base.Text.{Text, is_empty_text}
use open_light.Base.Time.{Time, time_sub}
use open_light.Models.{
  Watch, WatchIncident, Reaction, notify, ask, auto, is_pending, is_raised, is_running,
}
use open_light.Watch.World.{World, draw, store}
use open_light.Watch.World.Triples.{
  Keeps, bind-Keeps, if-Keeps, same-Keeps, draw-keeps, read-Keeps, write-Keeps,
}
use open_light.Watch.Env.{Env}
use open_light.Watch.Repository.{
  to_row, replace_watch, update_watch, create_incident, list_watches, get_open_incident,
  get_incident, list_expired_incidents,
}
use open_light.Watch.Actions.{execute_action, default_auto_action_id}
use open_light.Watch.Evaluate.{Evaluation}
use open_light.Watch.Handle.Keeps.{
  Closed, send-Keeps, update_incident-Keeps, execute_incident_action-Keeps,
}
use open_light.Watch.Engine.{
  in_cooldown, trigger, react, condition_holds, close_latest, close_found, condition_gone,
  evaluated, process_watch, process_watches, expire_each, expire_pending_incidents, run_cycle,
  latest,
}
use open_light.Watch.Engine.Calm.{with_next_id}

-- The steps of a cycle: those of a message to any chat, and the two by which it alone writes.
pub record CycleClosed (env : Env) (P : World → Type 0) : Type 0 where
  pub anywhere : (chat : ℤ) → Closed env chat P
  pub watched : (w : World) (ws : List Watch) → P w → P (record w { watches = ws })
  pub opened :
      (w : World) (now : Time) (i : WatchIncident)
      → P w
      → P (record w {
        incidents = w.incidents ++ with_next_id now i w ∷ [];
        last_incident_id = suc w.last_incident_id;
      })

module _ {env : Env} {P : World → Type 0} (c : CycleClosed env P) where
  rewatch :
      (w : World) (r : Option (List Watch)) {w' : World}
      → Option.map (λ ws. record w { watches = ws }) r ≡ some w'
      → P w
      → P w'
  rewatch w none e p = cc
  rewatch w (some ws) e p = subst P (some-injective _ _ e) (c.watched w ws p)

  pub update_watch-Keeps : (v : Watch) → Keeps P (update_watch v)
  unfolding update_watch
  update_watch-Keeps v =
      write-Keeps (c.anywhere (pos 0)).faults _
        (λ w w' e p. rewatch w (replace_watch (to_row v) w.watches) e p)

  create_incident-Keeps : (now : Time) (i : WatchIncident) → Keeps P (create_incident now i)
  unfolding create_incident store
  create_incident-Keeps now i = record {
    keeps = λ w p.
        let q = draw-keeps (c.anywhere (pos 0)).faults w p in
        let r = c.opened (draw w).1 now i q in ground arith;
  }

  execute_action-Keeps :
      (watch : Watch) (incident : WatchIncident) (reason : Text)
      → Keeps P (execute_action env watch incident reason)
  unfolding execute_action
  execute_action-Keeps watch incident reason =
      if-Keeps (is_empty_text (default_auto_action_id watch)) (same-Keeps _) (
        execute_incident_action-Keeps (c.anywhere watch.chat_id) watch incident
          (default_auto_action_id watch) reason)

  react-Keeps :
      (mode : Reaction) (watch : Watch) (incident : WatchIncident) (now : Time)
      → Keeps P (react env mode watch incident now)
  unfolding react
  react-Keeps ask watch incident now =
      bind-Keeps (update_incident-Keeps (c.anywhere watch.chat_id) _)
        (λ _. send-Keeps (c.anywhere watch.chat_id) watch.user_id _ _)
  react-Keeps auto watch incident now = bind-Keeps (execute_action-Keeps watch incident _) λ result.
      bind-Keeps (update_incident-Keeps (c.anywhere watch.chat_id) _)
        λ _. send-Keeps (c.anywhere watch.chat_id) watch.user_id _ _
  react-Keeps notify watch incident now = send-Keeps (c.anywhere watch.chat_id) watch.user_id _ _

  trigger-Keeps :
      (watch : Watch) (eval : Evaluation) (now : Time) → Keeps P (trigger env watch eval now)
  unfolding trigger
  trigger-Keeps watch eval now =
      bind-Keeps (update_watch-Keeps _)
        λ _. bind-Keeps (create_incident-Keeps now _) λ i. react-Keeps watch.reaction_mode _ i now

  condition_holds-Keeps :
      (watch : Watch) (eval : Evaluation) (now : Time)
      → Keeps P (condition_holds env watch eval now)
  unfolding condition_holds
  condition_holds-Keeps watch eval now =
      if-Keeps (is_raised watch.incident_state) (update_watch-Keeps watch) (
        if-Keeps (ltb_ℤ (time_sub now watch.condition_since) watch.duration)
          (update_watch-Keeps watch)
          (if-Keeps (in_cooldown watch now) (update_watch-Keeps watch)
            (trigger-Keeps watch eval now)))

  close_latest-Keeps :
      (watch : Watch) (incident : WatchIncident) (now : Time)
      → Keeps P (close_latest env watch incident now)
  unfolding close_latest
  close_latest-Keeps watch incident now =
      if-Keeps (is_running incident.action_status) (update_watch-Keeps watch) (
        bind-Keeps (update_incident-Keeps (c.anywhere watch.chat_id) _) λ _.
          bind-Keeps (send-Keeps (c.anywhere watch.chat_id) watch.user_id _ _)
            λ _. update_watch-Keeps _)

  close_found-Keeps :
      (watch : Watch) (incident : Option WatchIncident) (now : Time)
      → Keeps P (close_found env watch incident now)
  unfolding close_found get_incident
  close_found-Keeps watch none now = update_watch-Keeps _
  close_found-Keeps watch (some i) now =
      bind-Keeps (read-Keeps (c.anywhere (pos 0)).faults _)
        (λ again. close_latest-Keeps watch (latest env i again) now)

  condition_gone-Keeps : (watch : Watch) (now : Time) → Keeps P (condition_gone env watch now)
  unfolding condition_gone get_open_incident
  condition_gone-Keeps watch now =
      if-Keeps (is_raised watch.incident_state)
        (bind-Keeps (read-Keeps (c.anywhere (pos 0)).faults _)
          (λ incident. close_found-Keeps watch incident now))
        (update_watch-Keeps watch)

  evaluated-Keeps :
      (watch : Watch) (eval : Evaluation) (now : Time) → Keeps P (evaluated env watch eval now)
  unfolding evaluated
  evaluated-Keeps watch eval now =
      if-Keeps eval.condition (condition_holds-Keeps _ eval now) (condition_gone-Keeps _ now)

  process_watch-Keeps : (watch : Watch) (now : Time) → Keeps P (process_watch env watch now)
  unfolding process_watch
  process_watch-Keeps watch now = bind-Keeps (same-Keeps _) (λ eval. evaluated-Keeps watch eval now)

  process_watches-keeps :
      (ws : List Watch) (now : Time) (w : World) → P w → P (process_watches env ws now w).1
  unfolding process_watches
  process_watches-keeps [] now w p = p
  process_watches-keeps (v ∷ ws) now w p =
      process_watches-keeps ws now (process_watch env v now w).1
        ((process_watch-Keeps v now).keeps w p)

  expire_each-Keeps : (is : List WatchIncident) (now : Time) → Keeps P (expire_each env is now)
  unfolding expire_each
  expire_each-Keeps [] now = same-Keeps _
  expire_each-Keeps (i ∷ is) now =
      if-Keeps (not (is_pending i.action_status)) (expire_each-Keeps is now) (
        bind-Keeps (update_incident-Keeps (c.anywhere i.chat_id) _) λ _.
          bind-Keeps (send-Keeps (c.anywhere i.chat_id) (pos 0) _ _) λ _. expire_each-Keeps is now)

  pub run_cycle-Keeps : (now : Time) → Keeps P (run_cycle env now)
  unfolding run_cycle expire_pending_incidents list_expired_incidents list_watches
  run_cycle-Keeps now =
      bind-Keeps
        (bind-Keeps (read-Keeps (c.anywhere (pos 0)).faults _) (λ is. expire_each-Keeps is now))
        λ _.
          bind-Keeps (read-Keeps (c.anywhere (pos 0)).faults _)
            λ ws. record { keeps = process_watches-keeps ws now }
