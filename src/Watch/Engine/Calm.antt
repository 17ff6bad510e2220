-- ===== src/Watch/Engine/Calm.antt =====
-- What the calls of the database and the notifier do while none of them fails.
use open_light.Base.{suc, true, false, some, List, [], ◌∷◌, ◌++◌, ◌≡◌, arith, if◌then◌else◌}
use open_light.Base.Int.{ℤ}
use open_light.Base.Text.{Text}
use open_light.Base.Time.{Time}
use open_light.Errors.{ok}
use open_light.Models.{Watch, WatchIncident}
use open_light.Watch.World.{World, Button, draw, next_fault, write, store}
use open_light.Watch.Env.{Env}
use open_light.Watch.Repository.{
  to_row, replace_watch, update_watch, replace_incident, update_incident, with_defaults,
  create_incident,
}
use open_light.Watch.Actions.{send_assistant_message, deliver, save_message}

pub draw-calm : (w : World) → w.faults ≡ [] → draw w ≡ (false, w)
unfolding draw next_fault
draw-calm w h = ground arith

pub update_watch-calm :
    (v : Watch) (w : World) {ws : List Watch}
    → w.faults ≡ []
    → replace_watch (to_row v) w.watches ≡ some ws
    → update_watch v w ≡ (ok tt, record w { watches = ws })
unfolding update_watch write
update_watch-calm v w h e = let d = draw-calm w h in ground arith

pub update_incident-calm :
    (i : WatchIncident) (w : World) {is : List WatchIncident}
    → w.faults ≡ []
    → replace_incident i w.incidents ≡ some is
    → update_incident i w ≡ (ok tt, record w { incidents = is })
unfolding update_incident write
update_incident-calm i w h e = let d = draw-calm w h in ground arith

abbrev pub with_next_id : Time → WatchIncident → World → WatchIncident
with_next_id now i w = record (with_defaults now i) { id = suc w.last_incident_id }

pub create_incident-calm :
    (now : Time) (i : WatchIncident) (w : World)
    → w.faults ≡ []
    → create_incident now i w ≡ (
      ok (with_next_id now i w),
      record w {
        incidents = w.incidents ++ with_next_id now i w ∷ [];
        last_incident_id = suc w.last_incident_id;
      },
    )
unfolding create_incident store
create_incident-calm now i w h = let d = draw-calm w h in ground arith

pub send-calm :
    (env : Env) (chat user : ℤ) (text : Text) (buttons : List (List Button)) (w : World)
    → env.has_notifier ≡ true
    → w.faults ≡ []
    → send_assistant_message env chat user text buttons w ≡ (
      ok tt,
      record w {
        sent =
            record {
              chat_id = chat;
              text = text;
              buttons = if env.sends_buttons then buttons else [];
            }
            ∷ w.sent;
        messages = record { user_id = user; chat_id = chat; text = text } ∷ w.messages;
      },
    )
unfolding send_assistant_message deliver save_message draw next_fault
send-calm env chat user text buttons w n h = ground arith
