-- ===== src/Watch/Engine/Closes.antt =====
-- internal/watch/service.go: the end of an alert whose condition has gone.
use open_light.Base.{
  Bool, true, false, some, List, [], ◌∷◌, ◌++◌, head?, select, sort_by, ◌≡◌, ◌≢◌, refl, arith,
  if◌then◌else◌,
}
use open_light.Base.Text.{codes}
use open_light.Base.Decimal.{itoa}
use open_light.Base.Time.{Time}
use open_light.Errors.{ok}
use open_light.Models.{Watch, WatchIncident, IncidentState, raised, resolved, pending, is_running}
use open_light.Watch.World.{World, Button, read}
use open_light.Watch.Env.{Env}
use open_light.Watch.Repository.{
  to_row, replace_watch, replace_incident, find_incident, joined, newer, open_of, get_open_incident,
  get_incident,
}
use open_light.Watch.Requests.{recovery_text}
use open_light.Watch.Engine.{resolve_incident, close_latest, close_found, condition_gone, latest}
use open_light.Watch.Engine.Calm.{draw-calm, update_watch-calm, update_incident-calm, send-calm}

pub read-calm : {A : Type 0} (f : World → A) (w : World) → w.faults ≡ [] → read f w ≡ (ok (f w), w)
unfolding read
read-calm f w h = let d = draw-calm w h in ground arith

no_buttons : (b : Bool) → ◌≡◌ {A = List (List Button)} (if b then [] else []) []
no_buttons b = ground arith

module _ (env : Env) (watch : Watch) (now : Time) (incident current : WatchIncident)
    (w : World) where
  -- What a cycle reads of the watch's alert: the newest open one, and that one once more.
  pub record Reads : Type 0 where
    pub no_faults : w.faults ≡ []
    pub is_up : watch.incident_state ≡ raised
    pub newest :
        head? (sort_by newer (select (open_of watch.id) (joined w w.incidents))) ≡ some incident
    pub again : find_incident incident.id (joined w w.incidents) ≡ some current

  condition_gone-reads :
      Reads → condition_gone env watch now w ≡ close_latest env watch current now w
  unfolding condition_gone close_found latest get_open_incident get_incident
  condition_gone-reads r =
      rw
        (
          r.is_up,
          read-calm (λ s. head? (sort_by newer (select (open_of watch.id) (joined s s.incidents))))
              w r.no_faults,
          r.newest,
          read-calm (λ s. find_incident incident.id (joined s s.incidents)) w r.no_faults,
          r.again,
        )
        refl

  unfoldable pub cleared : Watch
  cleared = record watch { incident_state = IncidentState.clear }

  unfoldable pub closed : List Watch → List WatchIncident → World
  closed ws is = record w {
    watches = ws;
    incidents = is;
    sent =
        record {
          chat_id = watch.chat_id;
          text = codes "Resolved #" ++ itoa current.id ++ codes ": " ++ recovery_text watch;
          buttons = [];
        }
        ∷ w.sent;
    messages =
        record {
          user_id = watch.user_id;
          chat_id = watch.chat_id;
          text = codes "Resolved #" ++ itoa current.id ++ codes ": " ++ recovery_text watch;
        }
        ∷ w.messages;
  }

  -- When no call fails and no action is running, an alert whose condition has gone is closed: its row
  -- is resolved and no longer waits for an answer, the watch is clear again, and its chat is told
  -- once. Both rows are in their tables.
  pub condition_gone-closed :
      {ws : List Watch} {is : List WatchIncident}
      → Reads
      → env.has_notifier ≡ true
      → is_running current.action_status ≡ false
      → replace_incident (resolve_incident env current now) w.incidents ≡ some is
      → replace_watch (to_row cleared) w.watches ≡ some ws
      → (condition_gone env watch now w ≡ (ok tt, closed ws is))
        × ((resolve_incident env current now).status ≡ resolved)
        × ((resolve_incident env current now).action_status ≢ pending)
  unfolding close_latest cleared closed
  condition_gone-closed {ws} {is} r hn h hi hw = (
    rw (condition_gone-reads r, h)
        (rw
          (
            update_incident-calm (resolve_incident env current now) w r.no_faults hi,
            send-calm env watch.chat_id watch.user_id
                (codes "Resolved #" ++ itoa current.id ++ codes ": " ++ recovery_text watch) []
                (record w { incidents = is }) hn r.no_faults,
            no_buttons env.sends_buttons,
            update_watch-calm cleared (record (closed ws is) { watches = w.watches }) r.no_faults
                hw,
          )
          refl),
    (unfold resolve_incident in refl),
    (unfold resolve_incident in ground arith),
  )
