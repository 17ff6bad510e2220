-- ===== src/Base/Decimal/RoundTrip.antt =====
-- A printed number is read back.
use Prim.Native.Nat.{ℕ, zero, suc, ◌+◌, ◌-◌, ◌/◌, ◌%◌, ◌^◌, ◌≤◌, ◌<◌}
use mathlib.Core.Path.{◌≡◌, refl, ◌∙◌}
use mathlib.Core.Logic.{◌≢◌, inl, inr}
use mathlib.Core.Option.{some}
use mathlib.Core.List.{[], ◌∷◌}
use native.Mathlib.Omega.{arith}
use open_light.Base.Tests.{ltb, Bool-cases}
use open_light.Base.Lists.{All}
use open_light.Base.Int.{pos}
use open_light.Base.Text.{Text}
use open_light.Base.Decimal.{digits, itoa, scan, parse_digits, parse_int}

-- Reading the last digit of `n` after the digits before it gives `n`.
scan_last : (n : ℕ) (out : Text) → scan ((b'0' + n % 10) ∷ out) (n / 10) ≡ scan out n
unfolding scan
scan_last n out = ground arith

scan-digits : (f n : ℕ) (out : Text) → n < f → scan (digits f n out) 0 ≡ scan out n
unfolding digits scan
scan-digits zero n out h = elim h [ ]
scan-digits (suc f) n out h =
    ground (arith, scan_last n out, scan-digits f (n / 10) ((b'0' + n % 10) ∷ out))

abbrev pub IsDigit : ℕ → Type 0
IsDigit c = (b'0' ≤ c) × (c ≤ b'9')

digits-IsDigit : (f n : ℕ) (out : Text) → n < f → All IsDigit out → All IsDigit (digits f n out)
unfolding digits
digits-IsDigit zero n out h a = elim h [ ]
digits-IsDigit (suc f) n out h a = elim (Bool-cases (ltb n 10)) [
  | inl small ↦ rw small (ground (arith, a))
  | inr large ↦ rw large (
      digits-IsDigit f (n / 10) ((b'0' + n % 10) ∷ out) (ground arith)
        ((omega arith, omega arith), a))
]

digits-ne-nil : (f n : ℕ) (out : Text) → n < f → digits f n out ≢ []
unfolding digits
digits-ne-nil zero n out h = elim h [ ]
digits-ne-nil (suc f) n out h = ground (arith, digits-ne-nil f (n / 10) ((b'0' + n % 10) ∷ out))

pub itoa-IsDigit : (n : ℕ) → All IsDigit (itoa n)
unfolding itoa
itoa-IsDigit n = digits-IsDigit (suc n) n [] (omega arith) tt

pub itoa-ne-nil : (n : ℕ) → itoa n ≢ []
unfolding itoa
itoa-ne-nil n = digits-ne-nil (suc n) n [] (omega arith)

parse_digits-scan : (s : Text) → s ≢ [] → parse_digits s ≡ scan s 0
unfolding parse_digits
parse_digits-scan [] h = absurd (h refl)
parse_digits-scan (c ∷ s) h = refl

pub parse_digits-itoa : (n : ℕ) → parse_digits (itoa n) ≡ some n
parse_digits-itoa n =
    parse_digits-scan (itoa n) (itoa-ne-nil n)
    ∙ (unfold itoa scan in scan-digits (suc n) n [] (omega arith))

-- Text that begins with a digit has no sign.
parse_int_unsigned :
    (s : Text) {n : ℕ}
    → All IsDigit s
    → parse_digits s ≡ some n
    → n ≤ 2 ^ 63 - 1
    → parse_int s ≡ some (pos n)
unfolding parse_int
parse_int_unsigned [] a h le = unfold parse_digits in cc
parse_int_unsigned (c ∷ s) a h le = ground arith

-- Every number of 63 bits is read back from its decimal print.
pub parse_int-itoa : (n : ℕ) → n ≤ 2 ^ 63 - 1 → parse_int (itoa n) ≡ some (pos n)
parse_int-itoa n le = parse_int_unsigned (itoa n) (itoa-IsDigit n) (parse_digits-itoa n) le
