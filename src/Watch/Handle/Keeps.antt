-- ===== src/Watch/Handle/Keeps.antt =====
-- internal/watch/service.go: what every message of a chat keeps, whatever fails on the way.
use mathlib.Core.Option
use mathlib.Core.Option.{some-injective}
use mathlib.Core.Path.{subst}
use open_light.Base.{not, Option, none, some, List, ◌∷◌, ◌≡◌, refl, arith}
use open_light.Base.Int.{ℤ}
use open_light.Base.Text.{Text}
use open_light.Errors.{Result, ok, err, skill_not_found, unavailable}
use open_light.Models.{Watch, WatchIncident}
use open_light.Watch.World.{World, Button, Sent, Message, SkillCall, draw}
use open_light.Watch.World.Triples.{
  Keeps, bind-Keeps, if-Keeps, same-Keeps, FreeOfFaults, draw-keeps, write-Keeps,
}
use open_light.Watch.Env.{Env}
use open_light.Watch.Repository.{replace_incident, update_incident}
use open_light.Watch.Actions.{
  Action, Handler, save_message, deliver, send_assistant_message, save_skill_call, run_skill,
  execute_skill, handle, execute_incident_action, resolve_action, resolved_action,
  handle_restart_service, handle_show_logs, handle_show_service_status, handle_show_system_status,
  after_restart, restart_service, show_logs, show_service_status, show_system_status, ignore_alert,
}

-- The steps that a message of `chat` consists of, each of which keeps the predicate.
pub record Closed (env : Env) (chat : ℤ) (P : World → Type 0) : Type 0 where
  pub faults : FreeOfFaults P
  pub answered :
      (w : World) (s : Sent) → s.chat_id ≡ chat → P w → P (record w { sent = s ∷ w.sent })
  pub noted :
      (w : World) (m : Message)
      → m.chat_id ≡ chat
      → P w
      → P (record w { messages = m ∷ w.messages })
  pub called : (w : World) (c : SkillCall) → P w → P (record w { skill_calls = c ∷ w.skill_calls })
  pub edited :
      (w : World) (i : WatchIncident) (is : List WatchIncident)
      → replace_incident i w.incidents ≡ some is
      → P w
      → P (record w { incidents = is })
  pub meanwhile : (w : World) → P w → P (env.meanwhile w)

module _ {env : Env} {chat : ℤ} {P : World → Type 0} (c : Closed env chat P) where
  edit :
      (w : World) (i : WatchIncident) (r : Option (List WatchIncident)) {w' : World}
      → replace_incident i w.incidents ≡ r
      → Option.map (λ is. record w { incidents = is }) r ≡ some w'
      → P w
      → P w'
  edit w i none e e' p = cc
  edit w i (some is) e e' p = subst P (some-injective _ _ e') (c.edited w i is e p)

  pub update_incident-Keeps : (i : WatchIncident) → Keeps P (update_incident i)
  unfolding update_incident
  update_incident-Keeps i = write-Keeps c.faults _ (λ w w' e p. edit w i _ refl e p)

  save_message-Keeps : (user : ℤ) (text : Text) → Keeps P (save_message env chat user text)
  unfolding save_message
  save_message-Keeps user text = record {
    keeps = λ w p.
        let q = draw-keeps c.faults w p in
        let r =
          c.noted (draw w).1 (record { user_id = user; chat_id = chat; text = text }) refl q in
        ground arith;
  }

  deliver-Keeps :
      (text : Text) (buttons : List (List Button)) → Keeps P (deliver env chat text buttons)
  unfolding deliver
  deliver-Keeps text buttons = record {
    keeps = λ w p.
        let q = draw-keeps c.faults w p in
        let r =
          c.answered (draw w).1 (record { chat_id = chat; text = text; buttons = buttons }) refl
            q in
        ground arith;
  }

  pub send-Keeps :
      (user : ℤ) (text : Text) (buttons : List (List Button))
      → Keeps P (send_assistant_message env chat user text buttons)
  unfolding send_assistant_message
  send-Keeps user text buttons =
      if-Keeps (not env.has_notifier) (same-Keeps (err unavailable))
        (bind-Keeps (deliver-Keeps text _) (λ _. save_message-Keeps user text))

  save_skill_call-keeps : (call : SkillCall) (w : World) → P w → P (save_skill_call env call w)
  unfolding save_skill_call
  save_skill_call-keeps call w p =
      let q = draw-keeps c.faults w p in let r = c.called (draw w).1 call q in ground arith

  run_skill-Keeps :
      (name : Text) (args : List (Text × Text)) (input : Text)
      (e : Option (List (Text × Text) → Result Text))
      → Keeps P (run_skill env name args input e)
  unfolding run_skill
  run_skill-Keeps name args input none = same-Keeps (ok (err skill_not_found))
  run_skill-Keeps name args input (some execute) = record {
    keeps = λ w p. save_skill_call-keeps _ (env.meanwhile w) (c.meanwhile w p);
  }

  execute_skill-Keeps :
      (name : Text) (args : List (Text × Text)) (input : Text)
      → Keeps P (execute_skill env name args input)
  unfolding execute_skill
  execute_skill-Keeps name args input = run_skill-Keeps name args input (env.skill name)

  after_restart-Keeps :
      (watch : Watch) (reason : Text) (r : Result Text) → Keeps P (after_restart env watch reason r)
  unfolding after_restart
  after_restart-Keeps watch reason (err e) = same-Keeps _
  after_restart-Keeps watch reason (ok text) =
      bind-Keeps (execute_skill-Keeps _ _ _) (λ r. same-Keeps _)

  handle-Keeps :
      (handler : Handler) (watch : Watch) (incident : WatchIncident) (reason : Text)
      → Keeps P (handle env handler watch incident reason)
  unfolding handle handle_restart_service handle_show_logs handle_show_service_status
      handle_show_system_status
  handle-Keeps restart_service watch incident reason =
      bind-Keeps (execute_skill-Keeps _ _ _) (after_restart-Keeps watch reason)
  handle-Keeps show_logs watch incident reason =
      bind-Keeps (execute_skill-Keeps _ _ _) (λ r. same-Keeps _)
  handle-Keeps show_service_status watch incident reason =
      bind-Keeps (execute_skill-Keeps _ _ _) (λ r. same-Keeps _)
  handle-Keeps show_system_status watch incident reason =
      bind-Keeps (execute_skill-Keeps _ _ _) (λ r. same-Keeps _)
  handle-Keeps ignore_alert watch incident reason = same-Keeps _

  resolved_action-Keeps :
      (action : Option Action) (watch : Watch) (incident : WatchIncident) (reason : Text)
      → Keeps P (resolved_action env action watch incident reason)
  unfolding resolved_action
  resolved_action-Keeps none watch incident reason = same-Keeps _
  resolved_action-Keeps (some action) watch incident reason =
      handle-Keeps action.handler watch incident reason

  pub execute_incident_action-Keeps :
      (watch : Watch) (incident : WatchIncident) (action_id reason : Text)
      → Keeps P (execute_incident_action env watch incident action_id reason)
  unfolding execute_incident_action
  execute_incident_action-Keeps watch incident action_id reason =
      resolved_action-Keeps (resolve_action watch incident action_id) watch incident reason
