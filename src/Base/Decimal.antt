-- ===== src/Base/Decimal.antt =====
-- Decimal numbers: fmt's %d and strconv.ParseInt(s, 10, 64).
pub mod RoundTrip
use Prim.Native.Nat.{ℕ, zero, suc, ◌+◌, ◌-◌, ◌*◌, ◌/◌, ◌%◌, ◌^◌}
use mathlib.Core.Path.{◌≡◌, refl}
use mathlib.Core.Bool.{◌&&◌}
use mathlib.Core.Option.{Option, none, some}
use mathlib.Core.List.{[], ◌∷◌}
use open_light.Base.Tests.{ltb, leb, ◌==◌, if◌then◌else◌}
use open_light.Base.Int.{ℤ, pos, negsuc, negate}
use open_light.Base.Text.{Text, codes}

-- One round writes the last digit of `n` before `out`. The first argument is fuel.
unfoldable pub digits : ℕ → ℕ → Text → Text
digits zero n out = out
digits (suc f) n out =
    let rest = digits f (n / 10) ((b'0' + n % 10) ∷ out) in
    if ltb n 10 then (b'0' + n) ∷ out else rest

unfoldable pub itoa : ℕ → Text
unfolding digits
itoa n = digits (suc n) n []

-- %d of a signed number
unfoldable pub itoa_ℤ : ℤ → Text
unfolding itoa
itoa_ℤ (pos n) = itoa n
itoa_ℤ (negsuc n) = b'-' ∷ itoa (suc n)

unfoldable pub scan : Text → ℕ → Option ℕ
scan [] n = some n
scan (c ∷ s) n =
    let rest = scan s (n * 10 + (c - b'0')) in if leb b'0' c && leb c b'9' then rest else none

-- One digit or more, and nothing else.
unfoldable pub parse_digits : Text → Option ℕ
unfolding scan
parse_digits [] = none
parse_digits (c ∷ s) = scan (c ∷ s) 0

abbrev in_range : Option ℕ → ℕ → (ℕ → ℤ) → Option ℤ
in_range none limit sign = none
in_range (some n) limit sign = if leb n limit then some (sign n) else none

-- strconv.ParseInt(s, 10, 64)
unfoldable pub parse_int : Text → Option ℤ
unfolding parse_digits
parse_int [] = none
parse_int (c ∷ s) =
    if c == b'-'
    then in_range (parse_digits s) (2 ^ 63) negate
    else if c == b'+'
    then in_range (parse_digits s) (2 ^ 63 - 1) pos
    else in_range (parse_digits (c ∷ s)) (2 ^ 63 - 1) pos

itoa_test : itoa 1204 ≡ codes "1204"
unfolding itoa codes
itoa_test = refl

parse_test : parse_int (codes "-17") ≡ some (negsuc 16)
unfolding parse_int codes
parse_test = refl
