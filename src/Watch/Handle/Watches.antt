-- ===== src/Watch/Handle/Watches.antt =====
-- internal/watch/service.go: adding, toggling, deleting and probing a watch of a chat.
use open_light.Base.{
  ℕ, ◌+◌, Bool, true, false, not, ◌&&◌, ◌||◌, Option, none, some, List, [], ◌∷◌, if◌then◌else◌,
}
use open_light.Base.Int.{ℤ, pos, ltb_ℤ, eqb_ℤ, sub_ℕ, pos_part, neg_part}
use open_light.Base.Text.{Text, equal_fold}
use open_light.Base.Time.{Time, Duration, is_zero, time_sub}
use open_light.Errors.{Result, ok, err, not_found, access_denied}
use open_light.Models.{Watch, WatchIncident, WatchKind, service_down, IncidentState, is_raised}
use open_light.Watch.World.{M, ◌>>=◌, ◌>>◌, pure, lift}
use open_light.Watch.Env.{Env}
use open_light.Watch.Spec.{AddSpec}
use open_light.Watch.Spec.Parse.{parse_add_spec}
use open_light.Watch.Spec.Validate.{validate_spec}
use open_light.Watch.Evaluate.{Evaluation, evaluate_watch}
use open_light.Watch.Repository.{
  create_watch, get_watch, update_watch, delete_watch, list_watches, list_incidents,
}

pub record ProbeResult : Type 0 where
  pub watch : Watch
  pub condition_met : Bool
  pub condition_for : Duration
  pub summary : Text
  pub details : Text
  pub trigger_ready : Bool
  pub cooldown_left : Duration
  pub open_incident : Bool

-- strings.EqualFold(service.Name, target) for one of the targets
unfoldable pub service_listed : Text → List Text → Bool
service_listed target [] = false
service_listed target (name ∷ names) = equal_fold name target || service_listed target names

-- d - e on durations within range
abbrev pub minus : Duration → Duration → Duration
minus d e = sub_ℕ (pos_part d + neg_part e) (neg_part d + pos_part e)

module _ (env : Env) where
  unfoldable pub validate_target : WatchKind → Text → Result (Unit {0})
  validate_target service_down target =
      if service_listed target env.service_targets then ok tt else err access_denied
  validate_target _ target = ok tt

  unfoldable pub new_watch : ℤ → ℤ → AddSpec → Watch
  new_watch chat user spec = record {
    id = 0;
    user_id = user;
    chat_id = chat;
    name = spec.name;
    kind = spec.kind;
    target = spec.target;
    threshold = spec.threshold;
    duration = spec.duration;
    reaction_mode = spec.reaction_mode;
    action_type = spec.action_type;
    cooldown = spec.cooldown;
    enabled = true;
    incident_state = IncidentState.clear;
    condition_since = 0;
    last_triggered_at = 0;
    last_checked_at = 0;
  }

  unfoldable pub add_watch : ℤ → ℤ → Text → M Watch
  unfolding validate_target new_watch
  add_watch chat user raw = do
    spec ← lift (parse_add_spec env.num raw)
    lift (validate_target spec.kind spec.target)
    lift (validate_spec env.num spec)
    create_watch (new_watch chat user spec)

  unfoldable pub list_chat_watches : ℤ → M (List Watch)
  list_chat_watches chat = list_watches chat false

  -- `!ok || watch.TelegramChatID != chatID`
  unfoldable pub owned : ℤ → Option Watch → Result Watch
  owned chat none = err not_found
  owned chat (some watch) = if eqb_ℤ watch.chat_id chat then ok watch else err not_found

  unfoldable pub toggled : Watch → Watch
  toggled watch = record watch {
    enabled = not watch.enabled;
    condition_since = if watch.enabled then 0 else watch.condition_since;
  }

  unfoldable pub toggle_watch : ℤ → ℕ → M Watch
  unfolding owned toggled
  toggle_watch chat id = do
    row ← get_watch id
    watch ← lift (owned chat row)
    update_watch (toggled watch)
    pure (toggled watch)

  unfoldable pub delete_chat_watch : ℤ → ℕ → M Watch
  unfolding owned
  delete_chat_watch chat id = do
    row ← get_watch id
    watch ← lift (owned chat row)
    delete_watch id
    pure watch

  unfoldable pub list_history : ℤ → ℕ → ℕ → M (List WatchIncident)
  list_history chat watch_id limit = list_incidents chat watch_id limit

  unfoldable pub condition_for : Watch → Evaluation → Time → Duration
  condition_for watch eval now =
      if eval.condition && not (is_zero watch.condition_since)
      then time_sub now watch.condition_since
      else pos 0

  unfoldable pub cooldown_left : Watch → Time → Duration
  cooldown_left watch now =
      if not (is_zero watch.last_triggered_at) && ltb_ℤ (pos 0) watch.cooldown
      then (if ltb_ℤ (time_sub now watch.last_triggered_at) watch.cooldown
          then minus watch.cooldown (time_sub now watch.last_triggered_at)
          else pos 0)
      else pos 0

  unfoldable pub probed : Watch → Evaluation → Time → ProbeResult
  unfolding condition_for cooldown_left
  probed watch eval now = record {
    watch = watch;
    condition_met = eval.condition;
    condition_for = condition_for watch eval now;
    summary = eval.summary;
    details = eval.details;
    trigger_ready =
        eval.condition
        && not (ltb_ℤ (condition_for watch eval now) watch.duration)
        && eqb_ℤ (cooldown_left watch now) (pos 0);
    cooldown_left = cooldown_left watch now;
    open_incident = is_raised watch.incident_state;
  }

  unfoldable pub probe_watch : ℤ → ℕ → Time → M ProbeResult
  unfolding owned probed
  probe_watch chat id now = do
    row ← get_watch id
    watch ← lift (owned chat row)
    eval ← lift (evaluate_watch env watch)
    pure (probed watch eval now)
