-- ===== src/Watch/Numerics.antt =====
-- What the watch engine uses of Go's floats and of time.ParseDuration, which computes with floats.
-- There are no floats here: the operations are a parameter, and a float64 is its bit pattern.
use open_light.Base.{ℕ, Bool, Option}
use open_light.Base.Int.{ℤ}
use open_light.Base.Text.{Text}
use open_light.Base.Time.{Duration}
use open_light.Models.{Float64}

pub record Numerics : Type 0 where
  -- strconv.ParseFloat(s, 64); `none` is an error
  pub parse_float : Text → Option Float64
  -- time.ParseDuration(s); `none` is an error
  pub parse_duration : Text → Option Duration
  -- a < b, a <= b
  pub lt : Float64 → Float64 → Bool
  pub le : Float64 → Float64 → Bool
  -- float64(n)
  pub of_nat : ℕ → Float64
  -- (float64(used) / float64(total)) * 100
  pub percent : ℕ → ℕ → Float64
  -- roundFloat(value, 1)
  pub round1 : Float64 → Float64
  -- fmt.Sprintf("%.1f", value)
  pub show1 : Float64 → Text
  -- int(value)
  pub truncate : Float64 → ℤ
