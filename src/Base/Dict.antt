-- ===== src/Base/Dict.antt =====
-- Go maps as functions from keys to optional values: the program never depends on their order.
-- Types with a Boolean equality are instances of `Eq`.
use Prim.Native.Nat.{ℕ}
use mathlib.Core.Path.{◌≡◌}
use mathlib.Core.Logic.{◌↔◌}
use mathlib.Core.Bool.{Bool, true, false}
use mathlib.Core.Option.{Option, none, some}
use open_light.Base.Tests.{◌==◌, ==_iff}
use open_light.Base.Int.{ℤ, eqb_ℤ, eqb_ℤ_iff}
use open_light.Base.Text.{Text, eqt, eqt_iff}

pub record Eq {ℓ} (A : Type ℓ) : Type ℓ where
  pub beq : A → A → Bool
  pub beq_iff : (a b : A) → (beq a b ≡ true) ↔ (a ≡ b)

instance abbrev pub nat_eq : Eq ℕ
nat_eq = record { beq = ◌==◌; beq_iff = ==_iff }

instance abbrev pub int_eq : Eq ℤ
int_eq = record { beq = eqb_ℤ; beq_iff = eqb_ℤ_iff }

instance abbrev pub text_eq : Eq Text
text_eq = record { beq = eqt; beq_iff = eqt_iff }

abbrev pub Dict {ℓ κ} : Type ℓ → Type κ → Type (ℓ ⊔ κ)
Dict K V = K → Option V

abbrev pub empty {ℓ κ} : {K : Type ℓ} {V : Type κ} → Dict K V
empty k = none

module _ {ℓ κ} {K : Type ℓ} {V : Type κ} ⦃e : Eq K⦄ where
  -- m[k] = v
  abbrev pub put : Dict K V → K → V → Dict K V
  put m k v j = elim (e.beq k j) [ true ↦ some v | false ↦ m j ]

  -- delete(m, k)
  abbrev pub remove : Dict K V → K → Dict K V
  remove m k j = elim (e.beq k j) [ true ↦ none | false ↦ m j ]

abbrev pub keep_value {κ} : {V : Type κ} → (V → Bool) → Option V → Option V
keep_value p none = none
keep_value p (some v) = elim (p v) [ true ↦ some v | false ↦ none ]

-- for k, v := range m { if !p(v) { delete(m, k) } }
abbrev pub keep {ℓ κ} : {K : Type ℓ} {V : Type κ} → (V → Bool) → Dict K V → Dict K V
keep p m j = keep_value p (m j)
