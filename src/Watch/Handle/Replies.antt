-- ===== src/Watch/Handle/Replies.antt =====
-- internal/watch/service.go: what a message of a chat keeps, from the guards to HandleAction.
use open_light.Base.{zero, suc, not, ◌&&◌, ◌||◌, Option, none, some, List, [], ◌∷◌}
use open_light.Base.Int.{ℤ, pos, negsuc, eqb_ℤ}
use open_light.Base.Text.{Text, eqt}
use open_light.Base.Time.{Time}
use open_light.Models.{Watch, WatchIncident, is_opened, is_pending, is_declined}
use open_light.Watch.World.{World}
use open_light.Watch.World.Triples.{Keeps, bind-Keeps, if-Keeps, same-Keeps, read-Keeps}
use open_light.Watch.Env.{Env}
use open_light.Watch.Repository.{get_incident, get_watch, list_pending_incidents}
use open_light.Watch.Actions.{
  Action, ActionResult, mutating_action_expired, ignore_alert_id, restart_service_id,
  default_action_id,
}
use open_light.Watch.Requests.{
  Decision, accept, decline, ConfirmationRequest, ActionRequest, Resolved, found, problem,
  parse_confirmation, parse_action_request,
}
use open_light.Watch.Handle.{
  stale_reply, send_stale_message, already_handled, record_result, mark_started, send_progress,
  perform, expire_window, guarded, with_watch, with_incident, by_id, handle_incident_action,
  accepted, decided, resolved_request, confirmed, by_confirmation, by_action, handle_action,
}
use open_light.Watch.Handle.Keeps.{
  Closed, send-Keeps, update_incident-Keeps, execute_incident_action-Keeps,
}

module _ {env : Env} {chat : ℤ} {P : World → Type 0} (c : Closed env chat P) (user : ℤ) where
  stale_reply-Keeps :
      (id : ℤ) (found_one : Option WatchIncident) → Keeps P (stale_reply env chat user id found_one)
  unfolding stale_reply
  stale_reply-Keeps id none = send-Keeps c user _ _
  stale_reply-Keeps id (some incident) =
      if-Keeps (eqb_ℤ incident.chat_id chat) (send-Keeps c user _ _) (send-Keeps c user _ _)

  send_stale_message-Keeps : (id : ℤ) → Keeps P (send_stale_message env chat user id)
  unfolding send_stale_message get_incident
  send_stale_message-Keeps (pos (suc n)) =
      bind-Keeps (read-Keeps c.faults _) (stale_reply-Keeps (pos (suc n)))
  send_stale_message-Keeps (pos zero) = send-Keeps c user _ _
  send_stale_message-Keeps (negsuc n) = send-Keeps c user _ _

  record_result-Keeps :
      (action : Action) (incident : WatchIncident) (result : ActionResult) (now : Time)
      → Keeps P (record_result env action incident result now)
  unfolding record_result get_incident
  record_result-Keeps action incident result now =
      if-Keeps (eqt action.id restart_service_id || eqt action.id ignore_alert_id)
        (bind-Keeps (read-Keeps c.faults _) (λ again. update_incident-Keeps c _)) (same-Keeps _)

  send_progress-Keeps : (text : Text) → Keeps P (send_progress env chat user text)
  unfolding send_progress
  send_progress-Keeps [] = same-Keeps _
  send_progress-Keeps (x ∷ text) = send-Keeps c user _ _

  perform-Keeps :
      (now : Time) (watch : Watch) (incident : WatchIncident) (action : Action)
      → Keeps P (perform env chat user now watch incident action)
  unfolding perform mark_started
  perform-Keeps now watch incident action =
      bind-Keeps
        (if-Keeps (action.mutating && is_pending incident.action_status) (update_incident-Keeps c _)
          (same-Keeps _))
        λ _. bind-Keeps (send_progress-Keeps action.progress_text) λ _.
          bind-Keeps (execute_incident_action-Keeps c watch _ action.id _) λ result.
            bind-Keeps (record_result-Keeps action _ result now) λ _. send-Keeps c user _ _

  expire_window-Keeps :
      (now : Time) (incident : WatchIncident) → Keeps P (expire_window env chat user now incident)
  unfolding expire_window
  expire_window-Keeps now incident =
      if-Keeps (is_pending incident.action_status)
        (bind-Keeps (update_incident-Keeps c _) (λ _. send-Keeps c user _ _))
        (send-Keeps c user _ _)

  guarded-Keeps :
      (now : Time) (watch : Watch) (incident : WatchIncident) (action : Option Action)
      → Keeps P (guarded env chat user now watch incident action)
  unfolding guarded
  guarded-Keeps now watch incident none = send-Keeps c user _ _
  guarded-Keeps now watch incident (some action) =
      if-Keeps (not (is_opened incident.status)) (send-Keeps c user _ _) (
        if-Keeps (mutating_action_expired incident action now) (expire_window-Keeps now incident) (
          if-Keeps (already_handled env action incident) (send-Keeps c user _ _) (
            if-Keeps (eqt action.id ignore_alert_id && is_declined incident.action_status)
              (send-Keeps c user _ _) (perform-Keeps now watch incident action))))

  with_watch-Keeps :
      (now : Time) (action_id : Text) (incident : WatchIncident) (watch : Option Watch)
      → Keeps P (with_watch env chat user now action_id incident watch)
  unfolding with_watch
  with_watch-Keeps now action_id incident none = send-Keeps c user _ _
  with_watch-Keeps now action_id incident (some watch) = guarded-Keeps now watch incident _

  with_incident-Keeps :
      (now : Time) (request : ActionRequest) (incident : Option WatchIncident)
      → Keeps P (with_incident env chat user now request incident)
  unfolding with_incident get_watch
  with_incident-Keeps now request none = send_stale_message-Keeps _
  with_incident-Keeps now request (some incident) =
      if-Keeps (not (eqb_ℤ incident.chat_id chat)) (send_stale_message-Keeps _)
        (bind-Keeps (read-Keeps c.faults _) (with_watch-Keeps now _ incident))

  by_id-Keeps :
      (now : Time) (request : ActionRequest) (id : ℤ) → Keeps P (by_id env chat user now request id)
  unfolding by_id get_incident
  by_id-Keeps now request (pos (suc n)) =
      bind-Keeps (read-Keeps c.faults _) (with_incident-Keeps now request)
  by_id-Keeps now request (pos zero) = send-Keeps c user _ _
  by_id-Keeps now request (negsuc n) = send-Keeps c user _ _

  handle_incident_action-Keeps :
      (now : Time) (request : ActionRequest)
      → Keeps P (handle_incident_action env chat user now request)
  unfolding handle_incident_action
  handle_incident_action-Keeps now request = by_id-Keeps now request request.incident_id

  accepted-Keeps :
      (now : Time) (incident : WatchIncident) (watch : Option Watch)
      → Keeps P (accepted env chat user now incident watch)
  unfolding accepted
  accepted-Keeps now incident none = send-Keeps c user _ _
  accepted-Keeps now incident (some watch) =
      handle_incident_action-Keeps now
        (record { action_id = default_action_id watch incident; incident_id = pos incident.id })

  resolved_request-Keeps :
      (now : Time) (decision : Decision) (r : Resolved)
      → Keeps P (resolved_request env chat user now decision r)
  unfolding resolved_request decided get_watch
  resolved_request-Keeps now decision (problem text) = send-Keeps c user _ _
  resolved_request-Keeps now decline (found incident) =
      handle_incident_action-Keeps now
        (record { action_id = ignore_alert_id; incident_id = pos incident.id })
  resolved_request-Keeps now accept (found incident) =
      bind-Keeps (read-Keeps c.faults _) (accepted-Keeps now incident)

  confirmed-Keeps :
      (now : Time) (request : ConfirmationRequest) (waiting : List WatchIncident)
      → Keeps P (confirmed env chat user now request waiting)
  unfolding confirmed
  confirmed-Keeps now request [] =
      if-Keeps request.explicit (bind-Keeps (send_stale_message-Keeps _) (λ _. same-Keeps _))
        (same-Keeps _)
  confirmed-Keeps now request (i ∷ is) =
      bind-Keeps (resolved_request-Keeps now _ _) (λ _. same-Keeps _)

  by_action-Keeps :
      (now : Time) (text : Text) (request : Option ActionRequest)
      → Keeps P (by_action env chat user now text request)
  unfolding by_action by_confirmation list_pending_incidents
  by_action-Keeps now text (some request) =
      bind-Keeps (handle_incident_action-Keeps now request) (λ _. same-Keeps _)
  by_action-Keeps now text none = confirmation (parse_confirmation text)
    where
      confirmation :
          (request : Option ConfirmationRequest)
          → Keeps P (by_confirmation env chat user now request)
      confirmation none = same-Keeps _
      confirmation (some request) = bind-Keeps (read-Keeps c.faults _) (confirmed-Keeps now request)

  pub handle_action-Keeps :
      (text : Text) (now : Time) → Keeps P (handle_action env chat user text now)
  unfolding handle_action
  handle_action-Keeps text now = by_action-Keeps now text (parse_action_request text)
