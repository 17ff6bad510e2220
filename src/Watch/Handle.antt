-- ===== src/Watch/Handle.antt =====
-- internal/watch/service.go: the requests of a chat, and the answers to an alert.
pub mod Watches
pub mod Adds
pub mod Keeps
pub mod Replies
pub mod Scope
pub mod Guards
use open_light.Base.{
  suc, Bool, true, false, not, ◌&&◌, ◌||◌, Option, none, some, List, [], ◌∷◌, ◌++◌, if◌then◌else◌,
}
use open_light.Base.Int.{ℤ, pos, eqb_ℤ}
use open_light.Base.Text.{Text, codes, eqt}
use open_light.Base.Decimal.{itoa, itoa_ℤ}
use open_light.Base.Time.{Time}
use open_light.Models.{
  Watch, WatchIncident, is_opened, ActionStatus, unset, inactive, pending, is_pending, is_declined,
}
use open_light.Watch.World.{M, ◌>>=◌, ◌>>◌, pure}
use open_light.Watch.Env.{Env}
use open_light.Watch.Repository.{get_watch, get_incident, list_pending_incidents, update_incident}
use open_light.Watch.Actions.{
  Action, ActionResult, resolve_action, default_action_id, mutating_action_expired,
  join_non_empty_lines, send_assistant_message, execute_incident_action, ignore_alert_id,
  restart_service_id,
}
use open_light.Watch.Requests.{
  Decision, accept, decline, ConfirmationRequest, ActionRequest, parse_confirmation,
  parse_action_request, Resolved, found, problem, resolve_pending_incident, stale_incident_message,
}
pub use open_light.Watch.Handle.Watches.{ProbeResult, minus}
unfoldable pub use open_light.Watch.Handle.Watches.{
  service_listed, validate_target, new_watch, add_watch, list_chat_watches, owned, toggled,
  toggle_watch, delete_chat_watch, list_history, condition_for, cooldown_left, probed, probe_watch,
}

module _ (env : Env) where
  abbrev reply : ℤ → ℤ → Text → M (Unit {0})
  reply chat user text = send_assistant_message env chat user text []

  -- sendStaleConfirmationMessage behind its query
  stale_reply : ℤ → ℤ → ℤ → Option WatchIncident → M (Unit {0})
  stale_reply chat user id none =
      reply chat user (codes "Alert #" ++ itoa_ℤ id ++ codes " is no longer pending.")
  stale_reply chat user id (some incident) =
      if eqb_ℤ incident.chat_id chat
      then reply chat user (stale_incident_message incident)
      else reply chat user (codes "Alert #" ++ itoa_ℤ id ++ codes " is no longer pending.")

  unfoldable pub send_stale_message : ℤ → ℤ → ℤ → M (Unit {0})
  unfolding stale_reply
  send_stale_message chat user (pos (suc n)) = do
    incident ← get_incident (suc n)
    stale_reply chat user (pos (suc n)) incident
  send_stale_message chat user _ = reply chat user (codes "No pending watch actions right now.")

  -- A mutating action that is running or done is not run again.
  unfoldable pub already_handled : Action → WatchIncident → Bool
  already_handled action incident = action.mutating && settled incident.action_status
    where
      settled : ActionStatus → Bool
      settled unset = false
      settled inactive = false
      settled pending = false
      settled _ = true

  unfoldable pub expired_window : WatchIncident → Time → WatchIncident
  expired_window incident now = record incident {
    action_status = ActionStatus.expired;
    action_completed_at = now;
    report = join_non_empty_lines (incident.report ∷ codes "Action window expired." ∷ []);
  }

  unfoldable pub finished : WatchIncident → ActionResult → Time → WatchIncident
  finished incident result now = record incident {
    action_status = result.status;
    action_completed_at = now;
    report = join_non_empty_lines (incident.report ∷ result.text ∷ []);
  }

  latest : WatchIncident → Option WatchIncident → WatchIncident
  latest incident none = incident
  latest incident (some i) = i

  -- The status of a restart and of an ignored alert is recorded; the other actions only answer.
  unfoldable pub record_result : Action → WatchIncident → ActionResult → Time → M (Unit {0})
  unfolding finished latest
  record_result action incident result now =
      if eqt action.id restart_service_id || eqt action.id ignore_alert_id
      then (do
        again ← get_incident incident.id
        update_incident (finished (latest incident again) result now))
      else pure tt

  -- The incident from the moment at which its action starts.
  unfoldable pub started : Action → WatchIncident → WatchIncident
  started action incident =
      if action.mutating && is_pending incident.action_status
      then record incident { action_status = ActionStatus.running }
      else incident

  unfoldable pub mark_started : Action → WatchIncident → M (Unit {0})
  unfolding started
  mark_started action incident =
      if action.mutating && is_pending incident.action_status
      then update_incident (started action incident)
      else pure tt

  unfoldable pub send_progress : ℤ → ℤ → Text → M (Unit {0})
  send_progress chat user [] = pure tt
  send_progress chat user (c ∷ s) = reply chat user (c ∷ s)

  unfoldable pub perform : ℤ → ℤ → Time → Watch → WatchIncident → Action → M (Unit {0})
  unfolding mark_started send_progress record_result started
  perform chat user now watch incident action = do
    mark_started action incident
    send_progress chat user action.progress_text
    result ←
        execute_incident_action env watch (started action incident) action.id
          (codes "from Telegram")
    record_result action (started action incident) result now
    reply chat user result.text

  unfoldable pub expire_window : ℤ → ℤ → Time → WatchIncident → M (Unit {0})
  unfolding expired_window
  expire_window chat user now incident =
      if is_pending incident.action_status
      then (do
        update_incident (expired_window incident now)
        reply chat user (stale_incident_message (expired_window incident now)))
      else reply chat user (stale_incident_message incident)

  unfoldable pub guarded : ℤ → ℤ → Time → Watch → WatchIncident → Option Action → M (Unit {0})
  unfolding perform expire_window already_handled
  guarded chat user now watch incident none =
      reply chat user
        (codes "Alert #" ++ itoa incident.id ++ codes " does not support that action.")
  guarded chat user now watch incident (some action) =
      if not (is_opened incident.status)
      then reply chat user (stale_incident_message incident)
      else if mutating_action_expired incident action now
      then expire_window chat user now incident
      else if already_handled action incident
      then reply chat user (stale_incident_message incident)
      else if eqt action.id ignore_alert_id && is_declined incident.action_status
      then reply chat user (stale_incident_message incident)
      else perform chat user now watch incident action

  with_watch : ℤ → ℤ → Time → Text → WatchIncident → Option Watch → M (Unit {0})
  unfolding guarded
  with_watch chat user now action_id incident none =
      reply chat user (codes "Watch for alert #" ++ itoa incident.id ++ codes " no longer exists.")
  with_watch chat user now action_id incident (some watch) =
      guarded chat user now watch incident (resolve_action watch incident action_id)

  with_incident : ℤ → ℤ → Time → ActionRequest → Option WatchIncident → M (Unit {0})
  unfolding with_watch send_stale_message
  with_incident chat user now request none = send_stale_message chat user request.incident_id
  with_incident chat user now request (some incident) =
      if not (eqb_ℤ incident.chat_id chat)
      then send_stale_message chat user request.incident_id
      else do
        watch ← get_watch incident.watch_id
        with_watch chat user now request.action_id incident watch

  by_id : ℤ → ℤ → Time → ActionRequest → ℤ → M (Unit {0})
  unfolding with_incident
  by_id chat user now request (pos (suc n)) = do
    incident ← get_incident (suc n)
    with_incident chat user now request incident
  by_id chat user now request _ = reply chat user (codes "Alert id is required.")

  unfoldable pub handle_incident_action : ℤ → ℤ → Time → ActionRequest → M (Unit {0})
  unfolding by_id
  handle_incident_action chat user now request = by_id chat user now request request.incident_id

  accepted : ℤ → ℤ → Time → WatchIncident → Option Watch → M (Unit {0})
  unfolding handle_incident_action
  accepted chat user now incident none =
      reply chat user (codes "Watch for alert #" ++ itoa incident.id ++ codes " no longer exists.")
  accepted chat user now incident (some watch) =
      handle_incident_action chat user now
        (record { action_id = default_action_id watch incident; incident_id = pos incident.id })

  decided : ℤ → ℤ → Time → Decision → WatchIncident → M (Unit {0})
  unfolding accepted
  decided chat user now decline incident =
      handle_incident_action chat user now
        (record { action_id = ignore_alert_id; incident_id = pos incident.id })
  decided chat user now accept incident = do
    watch ← get_watch incident.watch_id
    accepted chat user now incident watch

  resolved_request : ℤ → ℤ → Time → Decision → Resolved → M (Unit {0})
  unfolding decided
  resolved_request chat user now decision (problem text) = reply chat user text
  resolved_request chat user now decision (found incident) = decided chat user now decision incident

  -- The result is whether the message was one for the engine.
  confirmed : ℤ → ℤ → Time → ConfirmationRequest → List WatchIncident → M Bool
  unfolding resolved_request
  confirmed chat user now request [] =
      if request.explicit
      then (do send_stale_message chat user request.incident_id; pure true)
      else pure false
  confirmed chat user now request (i ∷ is) = do
    resolved_request chat user now request.decision
        (resolve_pending_incident (i ∷ is) request.incident_id)
    pure true

  by_confirmation : ℤ → ℤ → Time → Option ConfirmationRequest → M Bool
  unfolding confirmed
  by_confirmation chat user now none = pure false
  by_confirmation chat user now (some request) = do
    waiting ← list_pending_incidents chat now
    confirmed chat user now request waiting

  by_action : ℤ → ℤ → Time → Text → Option ActionRequest → M Bool
  unfolding by_confirmation
  by_action chat user now text none = by_confirmation chat user now (parse_confirmation text)
  by_action chat user now text (some request) = do
    handle_incident_action chat user now request
    pure true

  unfoldable pub handle_action : ℤ → ℤ → Text → Time → M Bool
  unfolding by_action
  handle_action chat user text now = by_action chat user now text (parse_action_request text)
