-- ===== src/Watch/Engine.antt =====
-- internal/watch/service.go: the cycle that checks the watches.
pub mod Alerts
pub mod Asks
pub mod Calm
pub mod Closes
pub mod Keeps
pub mod Expiry
use open_light.Base.{
  ℕ, zero, suc, ◌+◌, Bool, true, false, not, ◌||◌, Option, none, some, List, [], ◌∷◌, ◌++◌,
  if◌then◌else◌,
}
use open_light.Base.Int.{ℤ, pos, ltb_ℤ}
use open_light.Base.Text.{Text, codes}
use open_light.Base.Decimal.{itoa}
use open_light.Base.Time.{Time, is_zero, time_sub}
use open_light.Errors.{Error, Result, ok, err}
use open_light.Models.{
  Watch, WatchIncident, Reaction, notify, ask, auto, IncidentState, is_raised, IncidentStatus,
  ActionStatus, is_pending, is_running,
}
use open_light.Watch.World.{World, M, ◌>>=◌, ◌>>◌, pure, lift}
use open_light.Watch.Env.{Env}
use open_light.Watch.Evaluate.{Evaluation, evaluate_watch}
use open_light.Watch.Repository.{
  list_watches, update_watch, create_incident, get_incident, get_open_incident,
  list_expired_incidents, update_incident,
}
use open_light.Watch.Actions.{
  ActionResult, actions_for_incident, join_non_empty_lines, send_assistant_message, execute_action,
  action_buttons,
}
use open_light.Watch.Requests.{render_triggered_alert, recovery_text}

unfoldable pub in_cooldown : Watch → Time → Bool
in_cooldown watch now =
    if not (ltb_ℤ (pos 0) watch.cooldown) || is_zero watch.last_triggered_at
    then false
    else ltb_ℤ (time_sub now watch.last_triggered_at) watch.cooldown

-- `if watch.ConditionSince.IsZero() { watch.ConditionSince = now }`, and the time of the check
unfoldable pub checked : Watch → Time → Watch
checked watch now = record watch { last_checked_at = now }

unfoldable pub since : Watch → Time → Watch
since watch now = record watch {
  condition_since = if is_zero watch.condition_since then now else watch.condition_since;
}

module _ (env : Env) where
  -- The incident that is opened; it has no id yet. A mode other than "ask" has no action status.
  unfoldable pub new_incident : Watch → Evaluation → Time → WatchIncident
  new_incident watch eval now = requested watch.reaction_mode
    where
      plain : WatchIncident
      plain = record {
        id = 0;
        watch_id = watch.id;
        watch_name = [];
        chat_id = watch.chat_id;
        summary = eval.summary;
        details = eval.details;
        status = IncidentStatus.opened;
        reaction_mode = watch.reaction_mode;
        action_type = watch.action_type;
        action_status = ActionStatus.inactive;
        action_prompt = [];
        action_requested_at = 0;
        action_expires_at = 0;
        action_completed_at = 0;
        report = [];
        opened_at = now;
        resolved_at = 0;
      }

      requested : Reaction → WatchIncident
      requested ask = record plain {
        action_status = ActionStatus.pending;
        action_requested_at = now;
        action_expires_at = now + env.ask_ttl;
      }
      requested _ = plain

  -- What follows the creation of the incident.
  unfoldable pub react : Reaction → Watch → WatchIncident → Time → M (Unit {0})
  react ask watch incident now = do
    let text = render_triggered_alert env incident watch
    update_incident (record incident { action_prompt = text })
    send_assistant_message env watch.chat_id watch.user_id text
        (action_buttons env incident.id (actions_for_incident watch incident))
  react auto watch incident now = do
    result ← execute_action env watch incident (codes "automatic recovery")
    update_incident (record incident {
      action_status = result.status;
      action_completed_at = now;
      report = join_non_empty_lines (incident.report ∷ result.text ∷ []);
    })
    send_assistant_message env watch.chat_id watch.user_id
        (render_triggered_alert env incident watch ++ codes "\n" ++ result.text) []
  react notify watch incident now =
      send_assistant_message env watch.chat_id watch.user_id
        (render_triggered_alert env incident watch)
        (action_buttons env incident.id (actions_for_incident watch incident))

  -- `watch.IncidentState = open` and what follows.
  unfoldable pub trigger : Watch → Evaluation → Time → M (Unit {0})
  unfolding new_incident react
  trigger watch eval now = do
    let raised_watch = record watch {
      incident_state = IncidentState.raised;
      last_triggered_at = now;
    }
    update_watch raised_watch
    incident ← create_incident now (new_incident raised_watch eval now)
    react watch.reaction_mode raised_watch incident now

  -- The branch of a condition that holds.
  unfoldable pub condition_holds : Watch → Evaluation → Time → M (Unit {0})
  unfolding trigger in_cooldown
  condition_holds watch eval now =
      if is_raised watch.incident_state
      then update_watch watch
      else if ltb_ℤ (time_sub now watch.condition_since) watch.duration
      then update_watch watch
      else if in_cooldown watch now
      then update_watch watch
      else trigger watch eval now

  -- The fields of an incident whose condition has gone.
  unfoldable pub resolve_incident : WatchIncident → Time → WatchIncident
  resolve_incident incident now = record incident {
    status = IncidentStatus.resolved;
    resolved_at = now;
    action_status =
        if is_pending incident.action_status then ActionStatus.expired else incident.action_status;
    action_completed_at =
        if is_pending incident.action_status
        then (if is_zero incident.action_completed_at then now else incident.action_completed_at)
        else incident.action_completed_at;
    report = join_non_empty_lines (incident.report ∷ codes "Condition resolved." ∷ []);
  }

  latest : WatchIncident → Option WatchIncident → WatchIncident
  latest incident none = incident
  latest incident (some i) = i

  -- The open incident that was found, read once more.
  unfoldable pub close_latest : Watch → WatchIncident → Time → M (Unit {0})
  unfolding resolve_incident
  close_latest watch incident now =
      if is_running incident.action_status then update_watch watch else do
        update_incident (resolve_incident incident now)
        send_assistant_message env watch.chat_id watch.user_id
            (codes "Resolved #" ++ itoa incident.id ++ codes ": " ++ recovery_text watch) []
        update_watch (record watch { incident_state = IncidentState.clear })

  unfoldable pub close_found : Watch → Option WatchIncident → Time → M (Unit {0})
  unfolding close_latest latest
  close_found watch none now = update_watch (record watch { incident_state = IncidentState.clear })
  close_found watch (some incident) now = do
    again ← get_incident incident.id
    close_latest watch (latest incident again) now

  -- The branch of a condition that does not hold.
  unfoldable pub condition_gone : Watch → Time → M (Unit {0})
  unfolding close_found
  condition_gone watch now =
      if is_raised watch.incident_state
      then (do incident ← get_open_incident watch.id; close_found watch incident now)
      else update_watch watch

  unfoldable pub evaluated : Watch → Evaluation → Time → M (Unit {0})
  unfolding condition_holds condition_gone checked since
  evaluated watch eval now =
      if eval.condition
      then condition_holds (since (checked watch now) now) eval now
      else condition_gone (record (checked watch now) { condition_since = 0 }) now

  unfoldable pub process_watch : Watch → Time → M (Unit {0})
  unfolding evaluated
  process_watch watch now = do eval ← lift (evaluate_watch env watch); evaluated watch eval now

  -- A watch that fails is logged, and the cycle goes on.
  unfoldable pub process_watches : List Watch → Time → M (Unit {0})
  unfolding process_watch
  process_watches [] now w = (ok tt, w)
  process_watches (watch ∷ watches) now w =
      process_watches watches now (process_watch watch now w).1

  unfoldable pub expire_incident : WatchIncident → Time → WatchIncident
  expire_incident incident now = record incident {
    action_status = ActionStatus.expired;
    action_completed_at = now;
    report = join_non_empty_lines (incident.report ∷ codes "Action window expired." ∷ []);
  }

  -- The loop of expirePendingIncidents: its first error ends it.
  unfoldable pub expire_each : List WatchIncident → Time → M (Unit {0})
  unfolding expire_incident
  expire_each [] now = pure tt
  expire_each (incident ∷ incidents) now =
      if not (is_pending incident.action_status) then expire_each incidents now else do
        update_incident (expire_incident incident now)
        send_assistant_message env incident.chat_id (pos 0)
            (codes "Alert #"
              ++ itoa incident.id
              ++ codes " expired: reply window closed for "
              ++ incident.watch_name
              ++ codes ".")
            []
        expire_each incidents now

  unfoldable pub expire_pending_incidents : Time → M (Unit {0})
  unfolding expire_each
  expire_pending_incidents now = do
    incidents ← list_expired_incidents now
    expire_each incidents now

  unfoldable pub run_cycle : Time → M (Unit {0})
  unfolding expire_pending_incidents process_watches
  run_cycle now = do
    expire_pending_incidents now
    watches ← list_watches (pos 0) true
    process_watches watches now
