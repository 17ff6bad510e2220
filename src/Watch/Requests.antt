-- ===== src/Watch/Requests.antt =====
-- internal/watch/service.go: what a message of a chat asks of an alert, and the texts of alerts.
pub mod Buttons
use open_light.Base.{
  ℕ, zero, suc, ◌==◌, Bool, true, false, not, ◌&&◌, ◌||◌, Option, none, some, List, [], ◌∷◌, ◌++◌,
  map, if◌then◌else◌,
}
use open_light.Base.Int.{ℤ, pos, negsuc, ltb_ℤ, eqb_ℤ}
use open_light.Base.Text.{
  Text, codes, eqt, one_of, to_lower, trim_space, fields, split, has_prefix, trim_prefix, join,
  is_empty_text,
}
use open_light.Base.Decimal.{itoa, itoa_ℤ, parse_int}
use open_light.Models.{
  Watch, WatchIncident, WatchKind, service_down, cpu_high, memory_high, disk_high, temperature_high,
  port_down, cert_expiring, Reaction, IncidentStatus, ActionStatus,
}
use open_light.Watch.Env.{Env}
use open_light.Watch.Actions.{Action, actions_for_incident, join_non_empty_lines, supports_buttons}

pub data Decision : Type 0 where
  accept decline : Decision

pub record ConfirmationRequest : Type 0 where
  pub decision : Decision
  pub incident_id : ℤ
  pub explicit : Bool

pub record ActionRequest : Type 0 where
  pub action_id : Text
  pub incident_id : ℤ

-- `err != nil || id <= 0`
unfoldable pub positive : Option ℤ → Option ℤ
positive (some (pos (suc n))) = some (pos (suc n))
positive _ = none

unfoldable pub optional_id : Option ℤ → ℤ
optional_id none = pos 0
optional_id (some id) = id

unfoldable pub parse_optional_id : List Text → ℤ
unfolding optional_id
parse_optional_id [] = pos 0
parse_optional_id (f ∷ fs) = optional_id (parse_int (trim_prefix f (codes "#")))

abbrev decided : Text → Option Decision
decided part =
    if eqt part (codes "yes")
    then some accept
    else if eqt part (codes "no")
    then some decline
    else none

abbrev explicit_request : Option Decision → Option ℤ → Option ConfirmationRequest
explicit_request none id = none
explicit_request (some d) none = none
explicit_request (some d) (some id) =
    some (record { decision = d; incident_id = id; explicit = true })

callback_parts : List Text → Option ConfirmationRequest
callback_parts (head ∷ decision ∷ id ∷ []) =
    explicit_request (decided decision) (positive (parse_int (trim_space id)))
callback_parts _ = none

unfoldable pub parse_callback_confirmation : Text → Option ConfirmationRequest
unfolding callback_parts
parse_callback_confirmation text =
    if not (has_prefix text (codes "watch:")) then none else callback_parts (split text b':')

word_confirmation : List Text → Option ConfirmationRequest
word_confirmation [] = none
word_confirmation (f ∷ fs) =
    if one_of f (codes "yes" ∷ codes "y" ∷ codes "да" ∷ [])
    then some (record { decision = accept; incident_id = parse_optional_id fs; explicit = false })
    else if one_of f (codes "no" ∷ codes "n" ∷ codes "нет" ∷ [])
    then some (record { decision = decline; incident_id = parse_optional_id fs; explicit = false })
    else none

or_words : Option ConfirmationRequest → Text → Option ConfirmationRequest
unfolding word_confirmation
or_words (some request) trimmed = some request
or_words none trimmed = word_confirmation (fields trimmed)

unfoldable pub parse_confirmation : Text → Option ConfirmationRequest
unfolding or_words
parse_confirmation text =
    let trimmed = to_lower (trim_space text) in
    if is_empty_text trimmed then none else or_words (parse_callback_confirmation trimmed) trimmed

abbrev action_request : Text → Option ℤ → Option ActionRequest
action_request action_id none = none
action_request action_id (some id) =
    if is_empty_text action_id
    then none
    else some (record { action_id = action_id; incident_id = id })

unfoldable pub action_parts : List Text → Option ActionRequest
action_parts (head ∷ word ∷ id ∷ action_id ∷ []) =
    action_request (trim_space action_id) (positive (parse_int (trim_space id)))
action_parts _ = none

unfoldable pub parse_action_request : Text → Option ActionRequest
parse_action_request text =
    let trimmed = to_lower (trim_space text) in
    if not (has_prefix trimmed (codes "watch:action:"))
    then none
    else action_parts (split trimmed b':')

-- resolvePendingIncident; an error is the text that is sent to the chat
pub data Resolved : Type 0 where
  found : WatchIncident → Resolved
  problem : Text → Resolved

unfoldable pub with_id : ℤ → List WatchIncident → Option WatchIncident
with_id id [] = none
with_id id (i ∷ is) = elim (eqb_ℤ (pos i.id) id) [ true ↦ some i | false ↦ with_id id is ]

abbrev resolve_id : ℤ → Option WatchIncident → Resolved
resolve_id id none = problem (codes "No pending alert with id " ++ itoa_ℤ id ++ codes ".")
resolve_id id (some i) = found i

resolve_only : List WatchIncident → Resolved
resolve_only (i ∷ []) = found i
resolve_only is = problem (
    join
      ((codes "Multiple watch actions are waiting:"
          ∷ map (λ i. codes "- #" ++ itoa i.id ++ codes " " ++ i.watch_name) is)
        ++ codes "Reply yes <id> or no <id>." ∷ [])
      (codes "\n"))

unfoldable pub resolve_pending_incident : List WatchIncident → ℤ → Resolved
unfolding with_id resolve_only
resolve_pending_incident incidents id =
    if not (eqb_ℤ id (pos 0)) then resolve_id id (with_id id incidents) else resolve_only incidents

abbrev alert_said : WatchIncident → Text → Text
alert_said incident words = codes "Alert #" ++ itoa incident.id ++ words

closing_words : ActionStatus → IncidentStatus → Text
closing_words ActionStatus.running status = codes " is already being handled."
closing_words ActionStatus.succeeded status = codes " was already completed."
closing_words ActionStatus.declined status = codes " was already declined."
closing_words ActionStatus.expired status = codes " already expired."
closing_words ActionStatus.failed status = codes " was already attempted and failed."
closing_words _ IncidentStatus.resolved = codes " is already resolved."
closing_words _ status = codes " is no longer pending."

unfoldable pub stale_incident_message : WatchIncident → Text
unfolding closing_words
stale_incident_message incident =
    alert_said incident (closing_words incident.action_status incident.status)

recovery_of : WatchKind → Text → Text
recovery_of service_down target = target ++ codes " is healthy again."
recovery_of cpu_high target = codes "CPU is back below threshold."
recovery_of memory_high target = codes "Memory usage is back below threshold."
recovery_of disk_high target = codes "Disk usage is back below threshold."
recovery_of temperature_high target = codes "Temperature is back below threshold."
recovery_of port_down target = target ++ codes " is reachable again."
recovery_of cert_expiring target =
    target ++ codes " certificate is no longer in the warning window."
recovery_of _ target = codes "Condition is back to normal."

unfoldable pub recovery_text : Watch → Text
unfolding recovery_of
recovery_text watch = recovery_of watch.kind watch.target

module _ (env : Env) where
  -- The switch on the reaction.
  reaction_lines : Reaction → WatchIncident → List Action → List Text
  reaction_lines Reaction.ask incident actions =
      (if supports_buttons env
        then codes "Choose an action below."
        else codes "Reply yes "
          ++ itoa incident.id
          ++ codes " to act or no "
          ++ itoa incident.id
          ++ codes " to ignore.")
      ∷ []
  reaction_lines Reaction.notify incident [] = []
  reaction_lines Reaction.notify incident (a ∷ actions) =
      if supports_buttons env then codes "Quick actions are available below." ∷ [] else []
  reaction_lines Reaction.auto incident actions =
      codes "Automatic recovery is enabled for this alert." ∷ []

  unfoldable pub render_triggered_alert : WatchIncident → Watch → Text
  unfolding reaction_lines
  render_triggered_alert incident watch = join_non_empty_lines (
      (codes "Alert #" ++ itoa incident.id)
        ∷ incident.summary
        ∷ (if is_empty_text incident.details then [] else incident.details ∷ [])
      ++ reaction_lines watch.reaction_mode incident (actions_for_incident watch incident))
