-- ===== src/Watch/Examples.antt =====
-- The watch engine at concrete values: one watch of a service that asks, and its alert.
use open_light.Base.{
  ℕ, ltb, leb, ◌*◌, ◌/◌, true, Option, none, some, List, [], ◌∷◌, ◌≡◌, ◌≢◌, refl, All, arith,
  select,
}
use open_light.Base.Int.{pos, negsuc, ◌<ℤ◌, ◌≤ℤ◌}
use open_light.Base.Text.{
  Text, codes, fields, trim_space, trim_left, trim_right, trim_cons, equal_fold, fields_from,
  is_space, to_lower, lower, eqt, one_of,
}
use open_light.Base.Decimal.{itoa, parse_digits}
use open_light.Base.Time.{second, minute}
use open_light.Errors.{ok, err, unavailable}
use open_light.Models.{
  Float64, Watch, WatchIncident, service_down, ask, IncidentState, clear, IncidentStatus, resolved,
  ActionStatus, pending,
}
use open_light.Watch.Numerics.{Numerics}
use open_light.Watch.Env.{Env}
use open_light.Watch.World.{World, draw, next_fault, store}
use open_light.Watch.Evaluate.{Evaluation}
use open_light.Watch.Spec.{
  AddSpec, parse_service, options, service_word, change, with_restart, service_start, service_named,
}
use open_light.Watch.Spec.Parse.{parse_add_spec}
use open_light.Watch.Spec.Validate.{validate_spec}
use open_light.Watch.Spec.Safe.{IsSafe, parse_add_spec-IsSafe}
use open_light.Watch.Repository.{
  to_row, whole_seconds, replace_watch, replace_incident, set_columns, create_watch, find_watch,
  find_incident, joined, newer, open_of,
}
use open_light.Watch.Actions.{
  Action, restart_action, actions_for_incident, button_for, mutating_action_expired,
}
use open_light.Watch.Requests.{parse_action_request}
use open_light.Watch.Requests.Buttons.{parse_action_request-button_for}
use open_light.Watch.Engine.{
  trigger, resolve_incident, condition_gone, run_cycle, expire_pending_incidents,
}
use open_light.Watch.Engine.Asks.{raised_watch, asked, trigger-ask}
use open_light.Watch.Engine.Closes.{Reads, cleared, closed, condition_gone-closed}
use open_light.Watch.Handle.{
  toggle_watch, delete_chat_watch, probe_watch, guarded, service_listed, new_watch, add_watch,
  handle_action,
}
use open_light.Watch.Handle.Guards.{
  Foreign, refusal, requests-Foreign, SameTables, is_settled, guarded-refused,
}
use open_light.Watch.Handle.Scope.{Within, handle_action-Within}
use open_light.Watch.Steps.{Ascends, IsNumbered, cycle, message, here, next, Reachable-IsNumbered}
use open_light.Watch.Engine.Expiry.{waits}
use open_light.Watch.Engine.Expiry.Done.{expire_pending_incidents-done}
use open_light.Watch.Handle.Adds.{is_reachable, add_watch-is_reachable}

-- Floats that stand for whole numbers.
abbrev float_of : Option ℕ → Option Float64
float_of none = none
float_of (some n) = some (record { bits = n })

abbrev num : Numerics
num = record {
  parse_float = λ t. float_of (parse_digits t);
  parse_duration = λ t. none;
  lt = λ a b. ltb a.bits b.bits;
  le = λ a b. leb a.bits b.bits;
  of_nat = λ n. record { bits = n };
  percent = λ a b. record { bits = a * 100 / b };
  round1 = λ a. a;
  show1 = λ a. itoa a.bits;
  truncate = λ a. pos a.bits;
}

abbrev nginx : Text
nginx = codes "nginx"

abbrev env : Env
env = record {
  num = num;
  error_text = λ e. codes "failed";
  format_bytes = itoa;
  has_notifier = true;
  sends_buttons = true;
  ask_ttl = 10 * minute;
  service_targets = nginx ∷ [];
  service_status = λ name. ok (record {
    active_state = codes "inactive";
    sub_state = codes "dead";
    description = [];
    host = [];
  });
  cpu_usage = ok (record { bits = 12 });
  memory_stats = ok (record { used = 3; total = 4 });
  disk_stats = λ path. ok (record { used = 3; total = 4 });
  temperature = err unavailable;
  network = none;
  skill = λ name. some (λ args. ok (codes "done"));
  meanwhile = λ w. w;
}

abbrev calm_watch : Watch
calm_watch = record {
  id = 1;
  user_id = pos 7;
  chat_id = negsuc 99;
  name = nginx;
  kind = service_down;
  target = nginx;
  threshold = record { bits = 0 };
  duration = pos (30 * second);
  reaction_mode = ask;
  action_type = codes "service_restart";
  cooldown = pos (15 * minute);
  enabled = true;
  incident_state = IncidentState.clear;
  condition_since = 0;
  last_triggered_at = 0;
  last_checked_at = 0;
}

abbrev alert : WatchIncident
alert = record {
  id = 4;
  watch_id = 1;
  watch_name = nginx;
  chat_id = negsuc 99;
  summary = codes "down";
  details = [];
  status = IncidentStatus.opened;
  reaction_mode = ask;
  action_type = codes "service_restart";
  action_status = ActionStatus.pending;
  action_prompt = [];
  action_requested_at = 1000;
  action_expires_at = 2000;
  action_completed_at = 0;
  report = [];
  opened_at = 1000;
  resolved_at = 0;
}

abbrev running_alert : WatchIncident
running_alert = record alert { action_status = ActionStatus.running }

abbrev raised_up : Watch
raised_up = record calm_watch { incident_state = IncidentState.raised; last_triggered_at = 1000 }

abbrev world_of : Watch → List WatchIncident → World
world_of watch incidents = record {
  watches = watch ∷ [];
  incidents = incidents;
  last_watch_id = 1;
  last_incident_id = 4;
  sent = [];
  messages = [];
  skill_calls = [];
  faults = [];
}

abbrev down : Evaluation
down = record { condition = true; summary = codes "nginx is down"; details = codes "dead" }

abbrev raised_rows : List Watch
raised_rows =
    record calm_watch { incident_state = IncidentState.raised; last_triggered_at = 5000 } ∷ []

trigger-ask_example :
    trigger env calm_watch down 5000 (world_of calm_watch (alert ∷ []))
    ≡ (ok tt, asked env calm_watch down 5000 5 raised_rows (world_of calm_watch (alert ∷ [])))
trigger-ask_example =
    trigger-ask env calm_watch down 5000 (world_of calm_watch (alert ∷ [])) refl refl refl
      (omega arith, tt) (unfold replace_watch to_row whole_seconds raised_watch in refl)

abbrev raised_world : World
raised_world = world_of raised_up (alert ∷ [])

abbrev running_world : World
running_world = world_of raised_up (running_alert ∷ [])

alert_reads : Reads env raised_up 9000 alert alert raised_world
alert_reads = record {
  no_faults = refl;
  is_up = refl;
  newest = unfold newer open_of joined find_watch in refl;
  again = unfold find_incident joined find_watch in refl;
}

abbrev resolved_alert : WatchIncident
resolved_alert = resolve_incident env alert 9000

condition_gone-closed_example :
    (condition_gone env raised_up 9000 raised_world ≡ (
      ok tt,
      closed env raised_up 9000 alert alert raised_world
          (to_row (record raised_up { incident_state = IncidentState.clear }) ∷ [])
          (set_columns alert resolved_alert ∷ []),
    ))
    × (resolved_alert.status ≡ resolved)
    × (resolved_alert.action_status ≢ pending)
condition_gone-closed_example =
    condition_gone-closed env raised_up 9000 alert alert raised_world alert_reads refl refl
      (unfold replace_incident resolve_incident in refl)
      (unfold replace_watch to_row cleared in refl)

abbrev restart : Action
restart = restart_action raised_up

guarded-refused_example :
    SameTables running_world
      (guarded env (negsuc 99) (pos 7) 1500 raised_up running_alert (some restart) running_world).1
guarded-refused_example =
    guarded-refused env (negsuc 99) (pos 7) 1500 raised_up running_alert restart running_world
      (unfold mutating_action_expired is_settled restart_action in refl)

requests-Foreign_example :
    (toggle_watch env (pos 5) 1 raised_world ≡ (err (refusal raised_world), (draw raised_world).1))
    × (delete_chat_watch env (pos 5) 1 raised_world
        ≡ (err (refusal raised_world), (draw raised_world).1))
    × (probe_watch env (pos 5) 1 9000 raised_world
        ≡ (err (refusal raised_world), (draw raised_world).1))
requests-Foreign_example =
    requests-Foreign env (pos 5) 1 9000 raised_world (unfold Foreign find_watch in refl)

handle_action-Within_example :
    Within
      (negsuc 99)
      raised_world
      (handle_action env (negsuc 99) (pos 7) (codes "yes 4") 1500 raised_world).1
handle_action-Within_example =
    handle_action-Within env (negsuc 99) raised_world (λ w. refl) (pos 7) (codes "yes 4") 1500

parse_action_request-button_for_example :
    All
      (λ action.
        parse_action_request (button_for env 4 action).callback_data
        ≡ some (record { action_id = action.id; incident_id = pos 4 }))
      (actions_for_incident raised_up alert)
parse_action_request-button_for_example =
    parse_action_request-button_for env raised_up alert 3 (omega arith)

abbrev typed : Text
typed = codes "service nginx ask"

abbrev asking : AddSpec
asking = record {
  name = codes "service/nginx down";
  kind = service_down;
  target = nginx;
  threshold = record { bits = 0 };
  duration = pos (30 * second);
  reaction_mode = ask;
  action_type = codes "service_restart";
  cooldown = pos (10 * minute);
}

parsed_ask : parse_add_spec num typed ≡ ok asking
unfolding codes parse_add_spec parse_service options service_word change with_restart service_start
    service_named fields trim_space trim_left trim_right trim_cons fields_from is_space to_lower
    lower eqt one_of
parsed_ask = refl

parse_add_spec-IsSafe_example : IsSafe asking
parse_add_spec-IsSafe_example = parse_add_spec-IsSafe num typed parsed_ask

abbrev added : Watch
added = record calm_watch { id = 2; name = asking.name; cooldown = asking.cooldown }

add_ask : (add_watch env (negsuc 99) (pos 7) typed raised_world).0 ≡ ok added
unfolding add_watch new_watch validate_spec service_listed equal_fold create_watch store draw
    next_fault codes
add_ask = rw (parsed_ask) refl

add_watch-is_reachable_example :
    (pos 0 <ℤ added.duration)
    × (pos 0 ≤ℤ added.cooldown)
    × (added.chat_id ≡ negsuc 99)
    × (added.user_id ≡ pos 7)
    × (added.enabled ≡ true)
    × (added.incident_state ≡ clear)
    × (is_reachable env added.kind added.target ≡ true)
add_watch-is_reachable_example =
    add_watch-is_reachable env (negsuc 99) (pos 7) typed raised_world add_ask

Reachable-IsNumbered_example :
    IsNumbered
      (run_cycle env 9000
        (handle_action env (negsuc 99) (pos 7) (codes "yes 4") 1500 raised_world).1).1
Reachable-IsNumbered_example =
    Reachable-IsNumbered env (λ w p. p) raised_world
      (run_cycle env 9000
        (handle_action env (negsuc 99) (pos 7) (codes "yes 4") 1500 raised_world).1).1
      (unfold IsNumbered Ascends in (omega arith, omega arith))
      (next (next here (message (negsuc 99) (pos 7) (codes "yes 4") 1500)) (cycle 9000))

abbrev after_expiry : World
after_expiry = (expire_pending_incidents env 99999999999999 raised_world).1

expire_pending_incidents-done_example :
    ((expire_pending_incidents env 99999999999999 raised_world).0 ≡ ok tt)
    × (select (waits 99999999999999) (joined after_expiry after_expiry.incidents) ≡ [])
expire_pending_incidents-done_example =
    expire_pending_incidents-done env 99999999999999 raised_world refl refl
      (unfold IsNumbered Ascends in (omega arith, omega arith))
