-- ===== src/Models.antt =====
-- internal/models: the rows of the watch engine. The column of a kind, a mode or a status holds one
-- of the constants of the source; a kind may be any other text. Row ids are counted from 1, the ids
-- of users and chats are signed. The columns created_at and updated_at, which nothing reads, are
-- left out. A threshold is the bit pattern of a float64.
use open_light.Base.{ℕ, Bool, true, false}
use open_light.Base.Int.{ℤ}
use open_light.Base.Text.{Text}
use open_light.Base.Time.{Time, Duration}

pub record Float64 : Type 0 where
  pub bits : ℕ

pub data WatchKind : Type 0 where
  service_down cpu_high memory_high disk_high temperature_high port_down cert_expiring : WatchKind
  unknown_kind : Text → WatchKind

pub data Reaction : Type 0 where
  notify ask auto : Reaction

pub data IncidentState : Type 0 where
  clear raised : IncidentState

pub data IncidentStatus : Type 0 where
  opened resolved : IncidentStatus

-- `unset` is the empty text.
pub data ActionStatus : Type 0 where
  unset inactive pending running declined succeeded failed expired : ActionStatus

pub record Watch : Type 0 where
  pub id : ℕ
  pub user_id : ℤ
  pub chat_id : ℤ
  pub name : Text
  pub kind : WatchKind
  pub target : Text
  pub threshold : Float64
  pub duration : Duration
  pub reaction_mode : Reaction
  pub action_type : Text
  pub cooldown : Duration
  pub enabled : Bool
  pub incident_state : IncidentState
  pub condition_since : Time
  pub last_triggered_at : Time
  pub last_checked_at : Time

pub record WatchIncident : Type 0 where
  pub id : ℕ
  pub watch_id : ℕ
  pub watch_name : Text
  pub chat_id : ℤ
  pub summary : Text
  pub details : Text
  pub status : IncidentStatus
  pub reaction_mode : Reaction
  pub action_type : Text
  pub action_status : ActionStatus
  pub action_prompt : Text
  pub action_requested_at : Time
  pub action_expires_at : Time
  pub action_completed_at : Time
  pub report : Text
  pub opened_at : Time
  pub resolved_at : Time

abbrev pub is_raised : IncidentState → Bool
is_raised clear = false
is_raised raised = true

abbrev pub is_opened : IncidentStatus → Bool
is_opened opened = true
is_opened resolved = false

abbrev pub is_ask : Reaction → Bool
is_ask ask = true
is_ask _ = false

abbrev pub is_auto : Reaction → Bool
is_auto auto = true
is_auto _ = false

abbrev pub is_notify : Reaction → Bool
is_notify notify = true
is_notify _ = false

abbrev pub is_pending : ActionStatus → Bool
is_pending pending = true
is_pending _ = false

abbrev pub is_running : ActionStatus → Bool
is_running running = true
is_running _ = false

abbrev pub is_declined : ActionStatus → Bool
is_declined declined = true
is_declined _ = false
