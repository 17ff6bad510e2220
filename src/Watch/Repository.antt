-- ===== src/Watch/Repository.antt =====
-- internal/storage/sqlite/sqlite.go: the tables watches and watch_incidents. An id column counts up
-- from 1. A query over incidents joins the watch, so an incident without a watch is not seen. Times
-- and durations go to columns: a duration in whole seconds, the zero time as NULL.
use mathlib.Core.Option
use open_light.Base.{
  ℕ, suc, ◌*◌, ◌/◌, ◌==◌, ltb, leb, Bool, true, false, not, ◌&&◌, ◌||◌, Option, none, some, List,
  [], ◌∷◌, ◌++◌, if◌then◌else◌, select, sort_by, head?, take,
}
use open_light.Base.Int.{ℤ, pos, negsuc, ltb_ℤ, eqb_ℤ, negate}
use open_light.Base.Time.{Time, Duration, second, is_zero}
use open_light.Models.{Watch, WatchIncident, ActionStatus, unset, inactive, is_opened, is_pending}
use open_light.Watch.World.{World, M, read, write, store}

-- int64(d / time.Second), and back
unfoldable pub whole_seconds : Duration → Duration
whole_seconds (pos n) = pos (n / second * second)
whole_seconds (negsuc n) = negate (suc n / second * second)

-- The row that a watch is stored as.
unfoldable pub to_row : Watch → Watch
unfolding whole_seconds
to_row watch = record watch {
  duration = whole_seconds watch.duration;
  cooldown = whole_seconds watch.cooldown;
}

unfoldable pub find_watch : ℕ → List Watch → Option Watch
find_watch id [] = none
find_watch id (w ∷ ws) = elim (w.id == id) [ true ↦ some w | false ↦ find_watch id ws ]

-- `WHERE id = ?`: the row is replaced; `none` if there is none
unfoldable pub replace_watch : Watch → List Watch → Option (List Watch)
replace_watch watch [] = none
replace_watch watch (w ∷ ws) = elim (w.id == watch.id) [
  | true ↦ some (watch ∷ ws)
  | false ↦ elim (replace_watch watch ws) [ none ↦ none | some ws' ↦ some (w ∷ ws') ]
]

unfoldable pub remove_watch : ℕ → List Watch → List Watch
remove_watch id ws = select (λ w. not (w.id == id)) ws

unfoldable pub find_incident : ℕ → List WatchIncident → Option WatchIncident
find_incident id [] = none
find_incident id (i ∷ is) = elim (i.id == id) [ true ↦ some i | false ↦ find_incident id is ]

-- The columns that UpdateWatchIncident sets: all but the watch and the chat.
unfoldable pub set_columns : WatchIncident → WatchIncident → WatchIncident
set_columns row incident = record incident {
  watch_id = row.watch_id;
  watch_name = row.watch_name;
  chat_id = row.chat_id;
}

unfoldable pub replace_incident : WatchIncident → List WatchIncident → Option (List WatchIncident)
unfolding set_columns
replace_incident incident [] = none
replace_incident incident (i ∷ is) = elim (i.id == incident.id) [
  | true ↦ some (set_columns i incident ∷ is)
  | false ↦ elim (replace_incident incident is) [ none ↦ none | some is' ↦ some (i ∷ is') ]
]

unfoldable pub create_watch : Watch → M Watch
unfolding to_row
create_watch watch = store λ s.
    let created = record watch { id = suc s.last_watch_id } in
    (created, record s { watches = s.watches ++ to_row created ∷ []; last_watch_id = created.id })

-- `chat` is 0 for all chats.
unfoldable pub list_watches : ℤ → Bool → M (List Watch)
list_watches chat enabled_only = read λ s. sort_by before (
    select (λ w. (eqb_ℤ chat (pos 0) || eqb_ℤ w.chat_id chat) && (not enabled_only || w.enabled))
      s.watches)
  where
    before : Watch → Watch → Bool
    before v w = ltb_ℤ v.chat_id w.chat_id || (eqb_ℤ v.chat_id w.chat_id && leb v.id w.id)

unfoldable pub get_watch : ℕ → M (Option Watch)
get_watch id = read λ s. find_watch id s.watches

unfoldable pub update_watch : Watch → M (Unit {0})
unfolding to_row
update_watch watch =
    write λ s. Option.map (λ ws. record s { watches = ws }) (replace_watch (to_row watch) s.watches)

-- The incidents of the watch go with it: `ON DELETE CASCADE`.
unfoldable pub delete_watch : ℕ → M (Unit {0})
delete_watch id = write λ s. elim (find_watch id s.watches) [
  | none ↦ none
  | some w ↦ some (record s {
    watches = remove_watch id s.watches;
    incidents = select (λ i. not (i.watch_id == id)) s.incidents;
  })
]

-- The defaults that CreateWatchIncident fills in.
unfoldable pub with_defaults : Time → WatchIncident → WatchIncident
with_defaults now incident = record incident {
  opened_at = if is_zero incident.opened_at then now else incident.opened_at;
  action_status = default_status incident.action_status;
}
  where
    default_status : ActionStatus → ActionStatus
    default_status unset = inactive
    default_status status = status

unfoldable pub create_incident : Time → WatchIncident → M WatchIncident
unfolding with_defaults
create_incident now incident = store λ s.
    let created = record (with_defaults now incident) { id = suc s.last_incident_id } in
    (created, record s { incidents = s.incidents ++ created ∷ []; last_incident_id = created.id })

-- `JOIN watches w ON w.id = wi.watch_id`: the incidents of a watch that exists, with its name
unfoldable pub joined : World → List WatchIncident → List WatchIncident
unfolding find_watch
joined s [] = []
joined s (i ∷ is) =
    let rest = joined s is in
    elim (find_watch i.watch_id s.watches) [
      | none ↦ rest
      | some w ↦ record i { watch_name = w.name } ∷ rest
    ]

unfoldable pub get_incident : ℕ → M (Option WatchIncident)
get_incident id = read λ s. find_incident id (joined s s.incidents)

-- `ORDER BY wi.opened_at DESC, wi.id DESC`
unfoldable pub newer : WatchIncident → WatchIncident → Bool
newer i j = ltb j.opened_at i.opened_at || (i.opened_at == j.opened_at && leb j.id i.id)

-- `ORDER BY wi.opened_at ASC, wi.id ASC`
unfoldable pub older : WatchIncident → WatchIncident → Bool
older i j = ltb i.opened_at j.opened_at || (i.opened_at == j.opened_at && leb i.id j.id)

unfoldable pub open_of : ℕ → WatchIncident → Bool
open_of watch_id i = i.watch_id == watch_id && is_opened i.status

unfoldable pub get_open_incident : ℕ → M (Option WatchIncident)
unfolding joined newer open_of
get_open_incident watch_id =
    read λ s. head? (sort_by newer (select (open_of watch_id) (joined s s.incidents)))

abbrev limited : ℕ → List WatchIncident → List WatchIncident
limited limit is = if limit == 0 then is else take limit is

-- `chat`, `watch_id` and `limit` are 0 for no condition.
unfoldable pub list_incidents : ℤ → ℕ → ℕ → M (List WatchIncident)
unfolding joined newer
list_incidents chat watch_id limit = read λ s. limited limit (
    sort_by newer (
      select
        (λ i.
          (eqb_ℤ chat (pos 0) || eqb_ℤ i.chat_id chat) && (watch_id == 0 || i.watch_id == watch_id))
        (joined s s.incidents)))

-- `wi.action_expires_at IS NOT NULL` and the comparison with `now`
unfoldable pub open_window : Time → WatchIncident → Bool
open_window now i = not (is_zero i.action_expires_at) && leb now i.action_expires_at

unfoldable pub closed_window : Time → WatchIncident → Bool
closed_window now i = not (is_zero i.action_expires_at) && ltb i.action_expires_at now

unfoldable pub list_pending_incidents : ℤ → Time → M (List WatchIncident)
unfolding joined newer open_window
list_pending_incidents chat now = read λ s. sort_by newer (
    select
      (λ i.
        eqb_ℤ i.chat_id chat
        && is_opened i.status
        && is_pending i.action_status
        && open_window now i)
      (joined s s.incidents))

unfoldable pub list_expired_incidents : Time → M (List WatchIncident)
unfolding joined older closed_window
list_expired_incidents now = read λ s. sort_by older (
    select (λ i. is_opened i.status && is_pending i.action_status && closed_window now i)
      (joined s s.incidents))

unfoldable pub update_incident : WatchIncident → M (Unit {0})
unfolding replace_incident
update_incident incident =
    write
      λ s. Option.map (λ is. record s { incidents = is }) (replace_incident incident s.incidents)
