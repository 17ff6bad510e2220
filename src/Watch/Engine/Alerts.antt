-- ===== src/Watch/Engine/Alerts.antt =====
-- internal/watch/service.go: when an alert is raised, and what a probe says of it.
use open_light.Base.{if◌then◌else◌}
use open_light.Base.Time.{Time}
use open_light.Errors.{Result}
use open_light.Models.{Watch}
use open_light.Watch.World.{World}
use open_light.Watch.Env.{Env}
use open_light.Watch.Evaluate.{Evaluation}
use open_light.Watch.Repository.{update_watch}
use open_light.Watch.Engine.{checked, since, trigger}
use open_light.Watch.Handle.{probed}

-- The row that a cycle stores for such a watch when it raises nothing: the time of the check, and since
-- when the condition holds, which is nothing while it does not.
abbrev pub watched : Watch → Evaluation → Time → Watch
watched watch eval now =
    if eval.condition
    then since (checked watch now) now
    else record (checked watch now) { condition_since = 0 }

module _ (env : Env) where
  -- What a cycle does that raises an alert for this row, or stores it.
  abbrev raises_or_stores : Watch → Evaluation → Time → World → Watch → Result (Unit {0}) × World
  raises_or_stores watch eval now w row =
      if (probed env watch eval now).trigger_ready
      then trigger env row eval now w
      else update_watch row w
