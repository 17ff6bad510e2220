-- ===== src/Watch/Env.antt =====
-- What the engine is wired to (the fields of `Service`) and what it calls of other packages: the
-- probes of the host, of services and of the network, and the registered skills. Their answers are
-- parameters; a failure is an `err`.
use open_light.Base.{ℕ, Bool, Option, List}
use open_light.Base.Int.{ℤ}
use open_light.Base.Text.{Text}
use open_light.Base.Time.{Time}
use open_light.Errors.{Error, Result}
use open_light.Models.{Float64}
use open_light.Watch.Numerics.{Numerics}
use open_light.Watch.World.{World}

-- servicepkg.Info
pub record ServiceInfo : Type 0 where
  pub active_state : Text
  pub sub_state : Text
  pub description : Text
  pub host : Text

-- used and total bytes
pub record Usage : Type 0 where
  pub used : ℕ
  pub total : ℕ

pub record PortResult : Type 0 where
  pub is_open : Bool
  -- res.Latency.Round(time.Millisecond)
  pub latency : Text

pub record CertResult : Type 0 where
  pub days_left : ℤ
  -- res.NotAfter.UTC().Format("2006-01-02")
  pub not_after : Text
  pub issuer : Text

pub record Network : Type 0 where
  pub port_check : Text → ℕ → Result PortResult
  pub cert_check : Text → ℕ → Result CertResult

pub record Env : Type 0 where
  pub num : Numerics
  -- err.Error()
  pub error_text : Error → Text
  -- utils.FormatBytes
  pub format_bytes : ℕ → Text
  pub has_notifier : Bool
  -- whether the notifier also sends buttons
  pub sends_buttons : Bool
  -- positive, as the configuration requires
  pub ask_ttl : Time
  pub service_targets : List Text
  pub service_status : Text → Result ServiceInfo
  pub cpu_usage : Result Float64
  pub memory_stats : Result Usage
  pub disk_stats : Text → Result Usage
  pub temperature : Result Float64
  pub network : Option Network
  -- registry.Get(name) and skill.Execute
  pub skill : Text → Option (List (Text × Text) → Result Text)
  -- what other goroutines do to the tables and the outbox while a skill runs
  pub meanwhile : World → World
