-- ===== src/Watch/Handle/Guards.antt =====
-- internal/watch/service.go: the requests that are refused.
use open_light.Base.{
  Bool, ℕ, true, false, not, ◌&&◌, ◌||◌, Option, none, some, List, [], ◌≡◌, ◌⊎◌, refl, arith,
  if◌then◌else◌,
}
use open_light.Base.Int.{ℤ, eqb_ℤ}
use open_light.Base.Text.{Text}
use open_light.Base.Time.{Time}
use open_light.Errors.{Error, err, storage_failure, not_found}
use open_light.Models.{
  ActionStatus, running, declined, succeeded, failed, expired, Watch, WatchIncident, is_opened,
}
use open_light.Watch.World.{World, Button, draw, read, write}
use open_light.Watch.Env.{Env}
use open_light.Watch.Repository.{find_watch, get_watch, update_incident, replace_incident}
use open_light.Watch.Actions.{
  Action, send_assistant_message, deliver, save_message, mutating_action_expired,
}
use open_light.Watch.Requests.{stale_incident_message}
use open_light.Watch.Handle.{
  owned, toggle_watch, delete_chat_watch, probe_watch, already_handled, guarded, expired_window,
  expire_window,
}

-- The watch `id` does not exist or stands in another chat.
unfoldable pub Foreign : ℤ → Option Watch → Type 0
Foreign chat none = Unit {0}
Foreign chat (some watch) = eqb_ℤ watch.chat_id chat ≡ false

unfoldable pub refusal : World → Error
refusal w = if (draw w).0 then storage_failure else not_found

module _ (env : Env) (chat : ℤ) (id : ℕ) where
  owned-Foreign : (r : Option Watch) → Foreign chat r → owned env chat r ≡ err not_found
  unfolding Foreign owned
  owned-Foreign none h = refl
  owned-Foreign (some watch) h = ground arith

  -- A watch that does not exist or stands in another chat cannot be toggled, removed or probed: each
  -- of the three requests answers "not found", or an error of the database when it fails, and
  -- changes no table.
  pub requests-Foreign :
      (now : Time) (w : World)
      → Foreign chat (find_watch id w.watches)
      → (toggle_watch env chat id w ≡ (err (refusal w), (draw w).1))
        × (delete_chat_watch env chat id w ≡ (err (refusal w), (draw w).1))
        × (probe_watch env chat id now w ≡ (err (refusal w), (draw w).1))
  unfolding toggle_watch delete_chat_watch probe_watch get_watch read draw refusal
  requests-Foreign now w h = let q = owned-Foreign (find_watch id w.watches) h in ground arith

-- The action of the alert is under way or over.
unfoldable pub is_settled : ActionStatus → Bool
is_settled running = true
is_settled declined = true
is_settled succeeded = true
is_settled failed = true
is_settled expired = true
is_settled _ = false

-- The tables and the skill calls are as before.
unfoldable pub SameTables : World → World → Type 0
SameTables before after =
    (after.watches ≡ before.watches)
    × (after.incidents ≡ before.incidents)
    × (after.skill_calls ≡ before.skill_calls)

module _ (env : Env) (chat user : ℤ) where
  pub send-SameTables :
      (text : Text) (buttons : List (List Button)) (w : World)
      → SameTables w (send_assistant_message env chat user text buttons w).1
  unfolding SameTables send_assistant_message deliver save_message draw
  send-SameTables text buttons w = ground arith

  update_incident-kept :
      (i : WatchIncident) (w : World)
      → ((update_incident i w).1.skill_calls ≡ w.skill_calls)
        × ((update_incident i w).1.watches ≡ w.watches)
        × (((update_incident i w).1.incidents ≡ w.incidents)
            ⊎ (replace_incident i w.incidents ≡ some (update_incident i w).1.incidents))
  unfolding update_incident write draw
  update_incident-kept i w = ground arith

  -- An action is refused when its alert is resolved, or when its window is open but it changes a
  -- service and its alert was already acted on, declined or left to expire: no skill
  -- is called and no table changes.
  pub guarded-refused :
      (now : Time) (watch : Watch) (incident : WatchIncident) (action : Action) (w : World)
      → (not (is_opened incident.status)
          || (not (mutating_action_expired incident action now)
              && action.mutating
              && is_settled incident.action_status))
        ≡ true
      → SameTables w (guarded env chat user now watch incident (some action) w).1
  unfolding guarded SameTables already_handled is_settled
  guarded-refused now watch incident action w h =
      let stale = send-SameTables (stale_incident_message incident) [] w in ground arith

  -- An action that changes a service, asked for behind the end of its window, is not carried out: no
  -- skill is called and no watch changes, and of the incidents only the waiting one may be updated.
  pub guarded-expired :
      (now : Time) (watch : Watch) (incident : WatchIncident) (action : Action) (w : World)
      → mutating_action_expired incident action now ≡ true
      → (guarded env chat user now watch incident (some action) w).1.skill_calls ≡ w.skill_calls
        × (guarded env chat user now watch incident (some action) w).1.watches ≡ w.watches
        × ((guarded env chat user now watch incident (some action) w).1.incidents ≡ w.incidents
            ⊎ (replace_incident (expired_window env incident now) w.incidents
                ≡ some (guarded env chat user now watch incident (some action) w).1.incidents))
  unfolding guarded expire_window SameTables
  guarded-expired now watch incident action w h =
      let stale = send-SameTables (stale_incident_message incident) [] w in
      let stored = update_incident (expired_window env incident now) w in
      let replied =
        send-SameTables (stale_incident_message (expired_window env incident now)) [] stored.1 in
      let kept = update_incident-kept (expired_window env incident now) w in ground arith
