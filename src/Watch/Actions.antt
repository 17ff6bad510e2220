-- ===== src/Watch/Actions.antt =====
-- internal/watch/actions.go, and the skill calls and messages of service.go that it uses.
pub mod Table
use open_light.Base.{
  ℕ, ◌==◌, Bool, true, false, not, ◌&&◌, ◌||◌, Option, none, some, List, [], ◌∷◌, ◌++◌, length,
  if◌then◌else◌,
}
use open_light.Base.Int.{ℤ}
use open_light.Base.Text.{Text, codes, eqt, join, is_empty_text}
use open_light.Base.Decimal.{itoa}
use open_light.Errors.{Result, ok, err, skill_not_found, send_failure, unavailable}
use open_light.Models.{Watch, WatchIncident, ActionStatus}
use open_light.Watch.Env.{Env}
use open_light.Watch.World.{World, M, Button, SkillCall, draw, ◌>>=◌, ◌>>◌, pure, raise}
pub use open_light.Watch.Actions.Table.{
  restart_service_id, show_logs_id, show_status_id, ignore_alert_id, Handler, restart_service,
  show_logs, show_service_status, show_system_status, ignore_alert, Action, ActionResult,
}
unfoldable pub use open_light.Watch.Actions.Table.{
  non_empty_lines, join_non_empty_lines, restart_action, passive, ignore_action, kind_actions,
  actions_for_incident, default_action_id, resolve_action, default_auto_action_id,
  mutating_action_expired,
}

module _ (env : Env) where
  open env use {error_text}

  -- s.repository.SaveMessage: a failure is logged and no more
  unfoldable pub save_message : ℤ → ℤ → Text → M (Unit {0})
  unfolding draw
  save_message chat user text w =
      let (bad, w') = draw w in
      (
        ok tt,
        if bad then w' else record w' {
          messages = record { user_id = user; chat_id = chat; text = text } ∷ w'.messages;
        },
      )

  -- The notifier's SendText or SendTextWithButtons.
  unfoldable pub deliver : ℤ → Text → List (List Button) → M (Unit {0})
  unfolding draw
  deliver chat text buttons w =
      let (bad, w') = draw w in
      if bad then (err send_failure, w') else (
        ok tt,
        record w' { sent = record { chat_id = chat; text = text; buttons = buttons } ∷ w'.sent },
      )

  unfoldable pub send_assistant_message : ℤ → ℤ → Text → List (List Button) → M (Unit {0})
  unfolding save_message deliver
  send_assistant_message chat user text buttons =
      if not env.has_notifier then raise unavailable else do
        deliver chat text (if env.sends_buttons then buttons else [])
        save_message chat user text

  abbrev call_error : Result Text → Text
  call_error (ok text) = []
  call_error (err e) = error_text e

  abbrev call_ok : Result Text → Bool
  call_ok (ok text) = true
  call_ok (err e) = false

  -- s.saveSkillCall: a failure is logged and no more
  unfoldable pub save_skill_call : SkillCall → World → World
  unfolding draw
  save_skill_call call w =
      let (bad, w') = draw w in
      if bad then w' else record w' { skill_calls = call ∷ w'.skill_calls }

  unfoldable pub run_skill :
      Text → List (Text × Text) → Text → Option (List (Text × Text) → Result Text) → M (Result Text)
  unfolding save_skill_call
  run_skill name args input none w = (ok (err skill_not_found), w)
  run_skill name args input (some execute) w =
      let result = execute args in
      (
        ok result,
        save_skill_call
            (record {
              skill_name = name;
              input_text = input;
              args = args;
              succeeded = call_ok result;
              error_text = call_error result;
            })
            (env.meanwhile w),
      )

  -- executeSkill; its error is a value that the handlers test
  unfoldable pub execute_skill : Text → List (Text × Text) → Text → M (Result Text)
  unfolding run_skill
  execute_skill name args input = run_skill name args input (env.skill name)

  abbrev service_args : Watch → List (Text × Text)
  service_args watch = (codes "service", watch.target) ∷ []

  abbrev alert : WatchIncident → Text
  alert incident = codes "Alert #" ++ itoa incident.id

  -- handleRestartService from the post-action status check on.
  unfoldable pub restarted : Watch → Text → Text → Result Text → ActionResult
  unfolding join_non_empty_lines
  restarted watch reason text (err e) = record {
    text = join_non_empty_lines (
        (codes "Action: restarted " ++ watch.target ++ codes " (" ++ reason ++ codes ").")
        ∷ text
        ∷ (codes "Post-action status check failed: " ++ error_text e)
        ∷ []);
    status = ActionStatus.failed;
  }
  restarted watch reason text (ok status_text) = record {
    text = join_non_empty_lines (
        (codes "Action: restarted " ++ watch.target ++ codes " (" ++ reason ++ codes ").")
        ∷ text
        ∷ status_text
        ∷ []);
    status = ActionStatus.succeeded;
  }

  unfoldable pub after_restart : Watch → Text → Result Text → M ActionResult
  unfolding restarted execute_skill
  after_restart watch reason (err e) = pure (record {
    text = codes "Restart failed for " ++ watch.target ++ codes ": " ++ error_text e;
    status = ActionStatus.failed;
  })
  after_restart watch reason (ok text) = do
    status ←
        execute_skill (codes "service_status") (service_args watch)
          (codes "[alert status after restart]")
    pure (restarted watch reason text status)

  unfoldable pub handle_restart_service : Watch → Text → M ActionResult
  unfolding after_restart execute_skill
  handle_restart_service watch reason = do
    result ←
        execute_skill (codes "service_restart") (service_args watch)
          (codes "[alert restart service]")
    after_restart watch reason result

  -- What a handler that shows something answers; it leaves the action's status alone.
  unfoldable pub shown : WatchIncident → Text → Result Text → ActionResult
  shown incident problem (err e) = record {
    text = alert incident ++ codes "\n" ++ problem ++ codes ": " ++ error_text e;
    status = ActionStatus.unset;
  }
  shown incident problem (ok text) = record {
    text = alert incident ++ codes "\n" ++ text;
    status = ActionStatus.unset;
  }

  unfoldable pub handle_show_logs : Watch → WatchIncident → M ActionResult
  unfolding shown execute_skill
  handle_show_logs watch incident = do
    result ← execute_skill (codes "service_logs") (service_args watch) (codes "[alert show logs]")
    pure (shown incident (codes "Could not fetch logs for " ++ watch.target) result)

  unfoldable pub handle_show_service_status : Watch → WatchIncident → M ActionResult
  unfolding shown execute_skill
  handle_show_service_status watch incident = do
    result ←
        execute_skill (codes "service_status") (service_args watch)
          (codes "[alert show service status]")
    pure (shown incident (codes "Could not fetch status for " ++ watch.target) result)

  unfoldable pub handle_show_system_status : WatchIncident → M ActionResult
  unfolding shown execute_skill
  handle_show_system_status incident = do
    result ← execute_skill (codes "status") [] (codes "[alert show system status]")
    pure (shown incident (codes "Could not fetch system status") result)

  unfoldable pub handle_ignore_alert : Watch → WatchIncident → ActionResult
  handle_ignore_alert watch incident = record {
    text =
        codes "Ignoring alert #"
        ++ itoa incident.id
        ++ codes " for "
        ++ watch.name
        ++ codes ". I will wait for the state to change before alerting again.";
    status = ActionStatus.declined;
  }

  unfoldable pub handle : Handler → Watch → WatchIncident → Text → M ActionResult
  unfolding handle_restart_service handle_show_logs handle_show_service_status
      handle_show_system_status handle_ignore_alert
  handle restart_service watch incident reason = handle_restart_service watch reason
  handle show_logs watch incident reason = handle_show_logs watch incident
  handle show_service_status watch incident reason = handle_show_service_status watch incident
  handle show_system_status watch incident reason = handle_show_system_status incident
  handle ignore_alert watch incident reason = pure (handle_ignore_alert watch incident)

  unfoldable pub resolved_action : Option Action → Watch → WatchIncident → Text → M ActionResult
  unfolding handle
  resolved_action none watch incident reason = pure (record {
    text = codes "Unsupported action for alert #" ++ itoa incident.id ++ codes ".";
    status = ActionStatus.failed;
  })
  resolved_action (some action) watch incident reason = handle action.handler watch incident reason

  unfoldable pub execute_incident_action : Watch → WatchIncident → Text → Text → M ActionResult
  unfolding resolved_action resolve_action
  execute_incident_action watch incident action_id reason =
      resolved_action (resolve_action watch incident action_id) watch incident reason

  unfoldable pub execute_action : Watch → WatchIncident → Text → M ActionResult
  unfolding execute_incident_action default_auto_action_id
  execute_action watch incident reason =
      if is_empty_text (default_auto_action_id watch)
      then pure (record {
        text = codes "No automatic action configured.";
        status = ActionStatus.inactive;
      })
      else execute_incident_action watch incident (default_auto_action_id watch) reason

  unfoldable pub button_for : ℕ → Action → Button
  button_for incident_id action = record {
    label = action.label;
    callback_data = codes "watch:action:" ++ itoa incident_id ++ codes ":" ++ action.id;
  }

  abbrev close_row : List Button → List (List Button)
  close_row [] = []
  close_row (b ∷ bs) = (b ∷ bs) ∷ []

  -- The loop: rows of three, and "Ignore" in a row of its own. `current` is the row that is being
  -- filled.
  unfoldable pub button_rows : ℕ → List Action → List Button → List (List Button)
  unfolding button_for
  button_rows incident_id [] current = close_row current
  button_rows incident_id (action ∷ actions) current =
      let button = button_for incident_id action in
      let row = current ++ button ∷ [] in
      elim (eqt action.id ignore_alert_id) [
        | true ↦ close_row current ++ (button ∷ []) ∷ button_rows incident_id actions []
        | false ↦ elim (length row == 3) [
          | true ↦ row ∷ button_rows incident_id actions []
          | false ↦ button_rows incident_id actions row
        ]
      ]

  unfoldable pub supports_buttons : Bool
  supports_buttons = env.has_notifier && env.sends_buttons

  unfoldable pub action_buttons : ℕ → List Action → List (List Button)
  unfolding button_rows supports_buttons
  action_buttons incident_id actions =
      if incident_id == 0 || not supports_buttons then [] else button_rows incident_id actions []
