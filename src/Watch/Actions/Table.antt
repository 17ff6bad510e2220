-- ===== src/Watch/Actions/Table.antt =====
-- internal/watch/actions.go: the actions of a watch, and which of them a text names.
use open_light.Base.{
  ltb, Bool, true, false, not, ◌||◌, Option, none, some, List, [], ◌∷◌, ◌++◌, first, if◌then◌else◌,
}
use open_light.Base.Text.{Text, codes, eqt, join, trim_space, to_lower, is_empty_text}
use open_light.Base.Time.{Time, is_zero}
use open_light.Models.{Watch, WatchIncident, WatchKind, service_down, is_ask, is_auto, ActionStatus}

abbrev pub restart_service_id : Text
unfolding codes
restart_service_id = codes "restart_service"

abbrev pub show_logs_id : Text
unfolding codes
show_logs_id = codes "show_logs"

abbrev pub show_status_id : Text
unfolding codes
show_status_id = codes "show_status"

abbrev pub ignore_alert_id : Text
unfolding codes
ignore_alert_id = codes "ignore_alert"

-- The method that an action's handler is.
pub data Handler : Type 0 where
  restart_service show_logs show_service_status show_system_status ignore_alert : Handler

pub record Action : Type 0 where
  pub id : Text
  pub label : Text
  pub target : Text
  pub mutating : Bool
  pub handler : Handler
  pub progress_text : Text

pub record ActionResult : Type 0 where
  pub text : Text
  pub status : ActionStatus

-- joinNonEmptyLines
unfoldable pub non_empty_lines : List Text → List Text
non_empty_lines [] = []
non_empty_lines (line ∷ lines) =
    let rest = non_empty_lines lines in
    if is_empty_text (trim_space line) then rest else trim_space line ∷ rest

unfoldable pub join_non_empty_lines : List Text → Text
unfolding non_empty_lines
join_non_empty_lines lines = join (non_empty_lines lines) (codes "\n")

unfoldable pub restart_action : Watch → Action
restart_action watch = record {
  id = restart_service_id;
  label = codes "Restart";
  target = watch.target;
  mutating = true;
  handler = restart_service;
  progress_text = codes "Restarting " ++ watch.target ++ codes "...";
}

unfoldable pub passive : Text → Text → Text → Handler → Action
passive id label target handler = record {
  id = id;
  label = label;
  target = target;
  mutating = false;
  handler = handler;
  progress_text = [];
}

unfoldable pub ignore_action : WatchIncident → Action
unfolding passive
ignore_action incident = passive ignore_alert_id (codes "Ignore") incident.watch_name ignore_alert

-- The switch on the kind.
unfoldable pub kind_actions : WatchKind → Watch → WatchIncident → List Action
unfolding restart_action passive
kind_actions service_down watch incident =
    let shown =
      passive show_logs_id (codes "Logs") watch.target show_logs
      ∷ passive show_status_id (codes "Status") watch.target show_service_status
      ∷ [] in
    if is_ask watch.reaction_mode || is_auto watch.reaction_mode
    then restart_action watch ∷ shown
    else shown
kind_actions _ watch incident =
    passive show_status_id (codes "Status") incident.watch_name show_system_status ∷ []

unfoldable pub actions_for_incident : Watch → WatchIncident → List Action
unfolding kind_actions ignore_action
actions_for_incident watch incident =
    kind_actions watch.kind watch incident ++ ignore_action incident ∷ []

first_id : List Action → Text
first_id [] = []
first_id (a ∷ rest) = a.id

default_id : Option Action → List Action → Text
unfolding first_id
default_id none actions = first_id actions
default_id (some a) actions = a.id

unfoldable pub default_action_id : Watch → WatchIncident → Text
unfolding default_id actions_for_incident
default_action_id watch incident =
    let actions = actions_for_incident watch incident in
    default_id (first (λ a. a.mutating) actions) actions

unfoldable pub resolve_action : Watch → WatchIncident → Text → Option Action
unfolding actions_for_incident
resolve_action watch incident action_id =
    first (λ a. eqt a.id (trim_space (to_lower action_id))) (actions_for_incident watch incident)

unfoldable pub default_auto_action_id : Watch → Text
default_auto_action_id watch =
    let action_type = trim_space (to_lower watch.action_type) in
    if is_empty_text action_type || eqt action_type (codes "none")
    then []
    else if eqt action_type (codes "service_restart") || eqt action_type restart_service_id
    then restart_service_id
    else []

unfoldable pub mutating_action_expired : WatchIncident → Action → Time → Bool
mutating_action_expired incident action now =
    if not action.mutating
    then false
    else if is_zero incident.action_expires_at
    then false
    else ltb incident.action_expires_at now
