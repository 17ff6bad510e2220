-- ===== src/Watch/Evaluate.antt =====
-- internal/watch/service.go: evaluateWatch and what it calls.
use open_light.Base.{
  ℕ, Bool, true, false, not, ◌||◌, Option, none, some, [], ◌∷◌, ◌++◌, ltb, if◌then◌else◌,
}
use open_light.Base.Int.{ℤ, pos, ltb_ℤ}
use open_light.Base.Text.{Text, codes, eqt, contains, join, trim_space, to_lower, is_empty_text}
use open_light.Base.Decimal.{itoa, itoa_ℤ}
use open_light.Errors.{Result, ok, err, invalid_arguments, unavailable, ◌>>=◌}
use open_light.Models.{
  Float64, Watch, WatchKind, service_down, cpu_high, memory_high, disk_high, temperature_high,
  port_down, cert_expiring, unknown_kind,
}
use open_light.Watch.Env.{Env, ServiceInfo, Usage, Network, PortResult, CertResult}
use open_light.Watch.Spec.Validate.{split_host_port_target, split_host_port_target_default}

pub record Evaluation : Type 0 where
  pub condition : Bool
  pub summary : Text
  pub details : Text

unfoldable pub empty_or_unknown : Text → Text
empty_or_unknown value =
    if is_empty_text (trim_space value) then codes "unknown" else trim_space value

unfoldable pub render_service_info : ServiceInfo → Text
render_service_info info =
    let lines =
      (codes "Active: " ++ empty_or_unknown info.active_state)
      ∷ (codes "Sub: " ++ empty_or_unknown info.sub_state)
      ∷ (codes "Description: " ++ empty_or_unknown info.description)
      ∷ [] in
    join
      (if is_empty_text (trim_space info.host)
        then lines
        else (codes "Host: " ++ info.host) ∷ lines)
      (codes "\n")

unfoldable pub service_healthy : ServiceInfo → Bool
service_healthy info =
    let sub = to_lower (trim_space info.sub_state) in
    if not (eqt (to_lower (trim_space info.active_state)) (codes "active"))
    then false
    else not (
        contains sub (codes "unhealthy")
        || contains sub (codes "dead")
        || contains sub (codes "failed")
        || contains sub (codes "exited"))

module _ (env : Env) where
  open env use {num, error_text, format_bytes}
  open num use {lt, of_nat, percent, round1, show1, truncate}

  unfoldable pub threshold_evaluation : Text → Float64 → Float64 → Evaluation
  threshold_evaluation name value threshold =
      let rounded = round1 value in
      let condition = lt threshold rounded in
      record {
        condition = condition;
        summary =
            if condition
            then name
              ++ codes " is "
              ++ show1 rounded
              ++ codes "% (> "
              ++ show1 threshold
              ++ codes "%)"
            else name ++ codes " is " ++ show1 rounded ++ codes "%";
        details = codes "Threshold: " ++ show1 threshold ++ codes "%";
      }

  -- The share in use, 0 of nothing.
  unfoldable pub usage_value : Usage → Float64
  usage_value stats = if ltb 0 stats.total then percent stats.used stats.total else of_nat 0

  unfoldable pub usage_evaluation : Text → Usage → Float64 → Evaluation
  unfolding threshold_evaluation usage_value
  usage_evaluation name stats threshold =
      record (threshold_evaluation name (usage_value stats) threshold) {
        details =
            format_bytes stats.used
            ++ codes " used / "
            ++ format_bytes stats.total
            ++ codes " total";
      }

  -- A status check that fails counts as down.
  unfoldable pub service_evaluation : Text → Result ServiceInfo → Evaluation
  unfolding service_healthy
  service_evaluation target (err e) = record {
    condition = true;
    summary = target ++ codes " status check failed";
    details = error_text e;
  }
  service_evaluation target (ok info) =
      if service_healthy info
      then record {
        condition = false;
        summary = target ++ codes " is healthy";
        details = render_service_info info;
      }
      else record {
        condition = true;
        summary = target ++ codes " is down";
        details = render_service_info info;
      }

  unfoldable pub temperature_evaluation : Float64 → Float64 → Evaluation
  temperature_evaluation value threshold =
      let condition = lt threshold value in
      record {
        condition = condition;
        summary =
            if condition
            then codes "Temperature is "
              ++ show1 value
              ++ codes "C (> "
              ++ show1 threshold
              ++ codes "C)"
            else codes "Temperature is " ++ show1 value ++ codes "C";
        details = codes "Threshold: " ++ show1 threshold ++ codes "C";
      }

  abbrev at_port : Text → ℕ → Text
  at_port host port = host ++ codes ":" ++ itoa port

  unfoldable pub port_evaluation : Text → ℕ → PortResult → Evaluation
  port_evaluation host port res =
      if res.is_open
      then record {
        condition = false;
        summary = at_port host port ++ codes " is open (" ++ res.latency ++ codes ")";
        details = [];
      }
      else record {
        condition = true;
        summary = at_port host port ++ codes " is closed";
        details = codes "dial timed out or refused (latency " ++ res.latency ++ codes ")";
      }

  -- `threshold := int(watch.Threshold)`, 14 if that is not positive
  unfoldable pub days_threshold : Float64 → ℤ
  days_threshold threshold =
      if ltb_ℤ (pos 0) (truncate threshold) then truncate threshold else pos 14

  unfoldable pub cert_evaluation : Text → ℕ → CertResult → Float64 → Evaluation
  unfolding days_threshold
  cert_evaluation host port res threshold =
      let days = days_threshold threshold in
      let condition = not (ltb_ℤ days res.days_left) in
      record {
        condition = condition;
        summary =
            if condition
            then at_port host port
              ++ codes " cert expires in "
              ++ itoa_ℤ res.days_left
              ++ codes " days (<= "
              ++ itoa_ℤ days
              ++ codes ")"
            else at_port host port
              ++ codes " cert has "
              ++ itoa_ℤ res.days_left
              ++ codes " days left";
        details = codes "NotAfter: " ++ res.not_after ++ codes ", Issuer: " ++ res.issuer;
      }

  -- `if s.networkManager == nil`
  abbrev enabled : Option Network → Result Network
  enabled none = err unavailable
  enabled (some network) = ok network

  evaluate_kind : WatchKind → Watch → Result Evaluation
  unfolding threshold_evaluation usage_evaluation service_evaluation temperature_evaluation
      port_evaluation cert_evaluation
  evaluate_kind service_down watch =
      ok (service_evaluation watch.target (env.service_status watch.target))
  evaluate_kind cpu_high watch = do
    value ← env.cpu_usage
    ok (threshold_evaluation (codes "CPU") value watch.threshold)
  evaluate_kind memory_high watch = do
    stats ← env.memory_stats
    ok (usage_evaluation (codes "Memory") stats watch.threshold)
  evaluate_kind disk_high watch = do
    let path = if is_empty_text watch.target then codes "/" else watch.target
    stats ← env.disk_stats path
    ok (usage_evaluation (codes "Disk " ++ path) stats watch.threshold)
  evaluate_kind temperature_high watch = do
    value ← env.temperature
    ok (temperature_evaluation value watch.threshold)
  evaluate_kind port_down watch = do
    network ← enabled env.network
    (host, port) ← split_host_port_target watch.target
    res ← network.port_check host port
    ok (port_evaluation host port res)
  evaluate_kind cert_expiring watch = do
    network ← enabled env.network
    (host, port) ← split_host_port_target_default watch.target 443
    res ← network.cert_check host port
    ok (cert_evaluation host port res watch.threshold)
  evaluate_kind (unknown_kind kind) watch = err invalid_arguments

  unfoldable pub evaluate_watch : Watch → Result Evaluation
  unfolding evaluate_kind
  evaluate_watch watch = evaluate_kind watch.kind watch
