-- ===== src/Base/Time.antt =====
-- Go's time.Time and time.Duration: a time is its nanoseconds after the zero time, which is 0, and a
-- duration is a signed 64-bit number of nanoseconds.
use Prim.Native.Nat.{ℕ, ◌-◌, ◌*◌, ◌^◌, ◌≤◌}
use mathlib.Core.Path.{◌≡◌}
use mathlib.Core.Bool.{Bool, true}
use native.Mathlib.Omega.{arith}
use open_light.Base.Tests.{leb, ◌==◌, if◌then◌else◌}
use open_light.Base.Int.{ℤ, pos, negsuc, sub_ℕ, ltb_ℤ}

abbrev pub Time : Type 0
Time = ℕ

abbrev pub Duration : Type 0
Duration = ℤ

abbrev pub max_duration : ℕ
max_duration = 2 ^ 63 - 1

abbrev pub second : ℕ
second = 1_000_000_000

abbrev pub minute : ℕ
minute = 60 * second

abbrev pub hour : ℕ
hour = 60 * minute

-- t.IsZero()
abbrev pub is_zero : Time → Bool
is_zero t = t == 0

-- A difference of times stops at the ends of the 64-bit range.
abbrev saturate : ℤ → Duration
saturate (pos n) = if leb n max_duration then pos n else pos max_duration
saturate (negsuc n) = if leb n max_duration then negsuc n else negsuc max_duration

-- t.Sub(u)
unfoldable pub time_sub : Time → Time → Duration
time_sub t u = saturate (sub_ℕ t u)

-- What has been longer ago than `d` stays so.
pub time_sub_mono :
    (d : Duration) (t t' u : Time)
    → t ≤ t'
    → ltb_ℤ d (time_sub t u) ≡ true
    → ltb_ℤ d (time_sub t' u) ≡ true
unfolding time_sub
time_sub_mono d t t' u le h = ground arith
