-- ===== src/Watch/Engine/Asks.antt =====
-- internal/watch/service.go: an alert that asks before it acts.
use open_light.Base.{
  ℕ, suc, ◌+◌, ◌≤◌, true, some, List, [], ◌∷◌, ◌++◌, ◌≡◌, refl, ap, ◌∙◌, All, arith, if◌then◌else◌,
}
use open_light.Base.Text.{Text}
use open_light.Base.Time.{Time}
use open_light.Errors.{ok}
use open_light.Models.{
  Watch, WatchIncident, Reaction, ask, IncidentState, IncidentStatus, ActionStatus,
}
use open_light.Watch.World.{World}
use open_light.Watch.Env.{Env}
use open_light.Watch.Evaluate.{Evaluation}
use open_light.Watch.Repository.{
  to_row, replace_watch, set_columns, replace_incident, with_defaults,
}
use open_light.Watch.Actions.{action_buttons, actions_for_incident}
use open_light.Watch.Requests.{render_triggered_alert}
use open_light.Watch.Engine.{new_incident, react, trigger}
use open_light.Watch.Engine.Calm.{
  with_next_id, update_watch-calm, create_incident-calm, update_incident-calm, send-calm,
}

-- An incident at the end of the table, whose id no other has, is the one that is replaced.
replace_incident-last :
    (is : List WatchIncident) (i j : WatchIncident) (n : ℕ)
    → All (λ k. k.id ≤ n) is
    → i.id ≡ suc n
    → j.id ≡ suc n
    → replace_incident i (is ++ j ∷ []) ≡ some (is ++ set_columns j i ∷ [])
unfolding replace_incident
replace_incident-last [] i j n h ei ej = ground arith
replace_incident-last (k ∷ is) i j n (hk, h) ei ej =
    let rest = replace_incident-last is i j n h ei ej in ground arith

module _ (env : Env) (watch : Watch) (eval : Evaluation) (now : Time) where
  unfoldable pub raised_watch : Watch
  raised_watch = record watch { incident_state = IncidentState.raised; last_triggered_at = now }

  -- The row of the incident, up to its prompt.
  unfoldable pub waiting : ℕ → Text → WatchIncident
  waiting id prompt = record {
    id = id;
    watch_id = watch.id;
    watch_name = [];
    chat_id = watch.chat_id;
    summary = eval.summary;
    details = eval.details;
    status = IncidentStatus.opened;
    reaction_mode = Reaction.ask;
    action_type = watch.action_type;
    action_status = ActionStatus.pending;
    action_prompt = prompt;
    action_requested_at = now;
    action_expires_at = now + env.ask_ttl;
    action_completed_at = 0;
    report = [];
    opened_at = now;
    resolved_at = 0;
  }

  unfoldable pub prompt_of : ℕ → Text
  prompt_of id = render_triggered_alert env (waiting id []) raised_watch

  unfoldable pub asked : ℕ → List Watch → World → World
  asked id ws w = record w {
    watches = ws;
    incidents = w.incidents ++ waiting id (prompt_of id) ∷ [];
    last_incident_id = id;
    sent =
        record {
          chat_id = watch.chat_id;
          text = prompt_of id;
          buttons =
              if env.sends_buttons
              then action_buttons env id (actions_for_incident raised_watch (waiting id []))
              else [];
        }
        ∷ w.sent;
    messages =
        record { user_id = watch.user_id; chat_id = watch.chat_id; text = prompt_of id }
        ∷ w.messages;
  }

  new_incident-ask :
      (w : World)
      → watch.reaction_mode ≡ ask
      → with_next_id now (new_incident env raised_watch eval now) w
        ≡ waiting (suc w.last_incident_id) []
  unfolding new_incident with_defaults raised_watch waiting
  new_incident-ask w h = ground arith

  -- The tables between the creation of the incident and its prompt.
  abbrev created : World → List Watch → WatchIncident → World
  created w ws i = record w {
    watches = ws;
    incidents = w.incidents ++ i ∷ [];
    last_incident_id = suc w.last_incident_id;
  }

  react-ask :
      (w : World) (ws : List Watch)
      → env.has_notifier ≡ true
      → w.faults ≡ []
      → All (λ i. i.id ≤ w.last_incident_id) w.incidents
      → react env ask raised_watch
          (waiting (suc w.last_incident_id) [])
          now
          (created w ws (waiting (suc w.last_incident_id) []))
        ≡ (ok tt, asked (suc w.last_incident_id) ws w)
  unfolding react raised_watch waiting prompt_of asked set_columns
  react-ask w ws hn hf fresh =
      let id = suc w.last_incident_id in
      let last =
        replace_incident-last w.incidents (waiting id (prompt_of id)) (waiting id [])
          w.last_incident_id fresh refl refl in
      let updated =
        update_incident-calm (waiting id (prompt_of id)) (created w ws (waiting id [])) hf last in
      let sent =
        send-calm env watch.chat_id watch.user_id (prompt_of id)
          (action_buttons env id (actions_for_incident raised_watch (waiting id [])))
          (created w ws (waiting id (prompt_of id))) hn hf in
      rw (updated, sent) refl

  -- When no call fails, an alert of a watch that asks stores the watch as raised with the time of
  -- the alert, appends one incident with the next id, which waits for an answer until the time to
  -- live has passed and holds the prompt, and sends that prompt, with its buttons, to the watch's
  -- chat once. Nothing else changes. The watch is in its table, and no incident has a later id.
  pub trigger-ask :
      (w : World) {ws : List Watch}
      → watch.reaction_mode ≡ ask
      → env.has_notifier ≡ true
      → w.faults ≡ []
      → All (λ i. i.id ≤ w.last_incident_id) w.incidents
      → replace_watch (to_row raised_watch) w.watches ≡ some ws
      → trigger env watch eval now w ≡ (ok tt, asked (suc w.last_incident_id) ws w)
  unfolding trigger raised_watch
  trigger-ask w {ws} hm hn hf fresh hw =
      rw
        (
          update_watch-calm raised_watch w hf hw,
          create_incident-calm now (new_incident env raised_watch eval now)
              (record w { watches = ws }) hf,
        )
        refl
      ∙ ap (λ i. react env watch.reaction_mode raised_watch i now (created w ws i))
          (new_incident-ask w hm)
      ∙ ap
          (λ m.
            react env m raised_watch (waiting (suc w.last_incident_id) []) now
              (created w ws (waiting (suc w.last_incident_id) [])))
          hm
      ∙ react-ask w ws hn hf fresh
