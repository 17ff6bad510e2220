-- ===== src/Base/Text/Trim.antt =====
-- Laws of trimming and splitting.
use mathlib.Core.Path.{◌≡◌, refl, ap, ◌∙◌}
use mathlib.Core.Bool.{Bool, true, false}
use mathlib.Core.Option.{some}
use mathlib.Core.List.{[], ◌∷◌, ◌++◌, append_assoc, append-nil}
use native.Mathlib.Omega.{arith}
use Prim.Native.Nat.{ℕ}
use open_light.Base.Tests.{◌==◌, if◌then◌else◌}
use open_light.Base.Lists.{All}
use open_light.Base.Text.{
  Text, is_space, trim_left, trim_cons, trim_right, trim_space, split_from, strip_prefix,
}

-- No rune of the text is white space.
abbrev pub NoSpace : Text → Type 0
NoSpace = All (λ c. is_space c ≡ false)

-- The text does not hold the rune.
abbrev pub Lacks : ℕ → Text → Type 0
Lacks sep = All (λ c. (c == sep) ≡ false)

trim_left-NoSpace : (s : Text) → NoSpace s → trim_left s ≡ s
unfolding trim_left
trim_left-NoSpace [] h = refl
trim_left-NoSpace (c ∷ s) h = rw (h.0, trim_left)

trim_right-NoSpace : (s : Text) → NoSpace s → trim_right s ≡ s
unfolding trim_right
trim_right-NoSpace [] h = refl
trim_right-NoSpace (c ∷ s) h = rw (trim_right-NoSpace s h.1) (trim_cons_lem s)
  where
    trim_cons_lem : (t : Text) → trim_cons c t ≡ c ∷ t
    trim_cons_lem [] = rw h.0
    trim_cons_lem (d ∷ t) = refl

pub trim_space-NoSpace : (s : Text) → NoSpace s → trim_space s ≡ s
unfolding trim_space
trim_space-NoSpace s h = rw (trim_left-NoSpace s h) (trim_right-NoSpace s h)

-- A part without the separator is read into the current part.
pub split_from-append :
    (sep : ℕ) (p rest cur : Text)
    → Lacks sep p
    → split_from sep (p ++ rest) cur ≡ split_from sep rest (cur ++ p)
unfolding split_from
split_from-append sep [] rest cur h = rw append-nil
split_from-append sep (c ∷ p) rest cur h =
    rw (h.0, split_from) (split_from-append sep p rest (cur ++ c ∷ []) h.1 ∙ rw append_assoc)

pub strip_prefix-append : (p s : Text) → strip_prefix (p ++ s) p ≡ some s
unfolding strip_prefix
strip_prefix-append [] s = unfold strip_prefix in refl
strip_prefix-append (c ∷ p) s = ground (arith, strip_prefix-append p s)

trim_left-other : (c : ℕ) (s : Text) → is_space c ≡ false → trim_left (c ∷ s) ≡ c ∷ s
unfolding trim_left
trim_left-other c s h = ground arith

trim_right_twice : (s : Text) → trim_right (trim_right s) ≡ trim_right s
unfolding trim_right
trim_right_twice [] = refl
trim_right_twice (c ∷ s) = cons (trim_right s) (trim_right_twice s)
  where
    cons : (t : Text) → trim_right t ≡ t → trim_right (trim_cons c t) ≡ trim_cons c t
    cons [] h = single (is_space c) refl
      where
        single :
            (b : Bool)
            → is_space c ≡ b
            → trim_right (if b then [] else c ∷ []) ≡ (if b then [] else c ∷ [])
        single true e = refl
        single false e = ap (λ b. if b then [] else c ∷ []) e
    cons (d ∷ t) h = ap (trim_cons c) h

trim_left-trim_cons :
    (c : ℕ) (t : Text) → is_space c ≡ false → trim_left (trim_cons c t) ≡ trim_cons c t
unfolding trim_cons trim_left
trim_left-trim_cons c [] h = ground arith
trim_left-trim_cons c (d ∷ t) h = trim_left-other c (d ∷ t) h

trim_left-trim_right : (s : Text) → trim_left (trim_right (trim_left s)) ≡ trim_right (trim_left s)
unfolding trim_left trim_right
trim_left-trim_right [] = refl
trim_left-trim_right (c ∷ s) = go (trim_left-trim_right s) (is_space c) refl
  where
    go :
        trim_left (trim_right (trim_left s)) ≡ trim_right (trim_left s)
        → (b : Bool) → is_space c ≡ b
        → trim_left (trim_right (elim b [ true ↦ trim_left s | false ↦ c ∷ s ]))
          ≡ trim_right (elim b [ true ↦ trim_left s | false ↦ c ∷ s ])
    go ih true h = ih
    go ih false h = trim_left-trim_cons c (trim_right s) h

-- strings.TrimSpace leaves what it has trimmed.
pub trim_space_twice : (s : Text) → trim_space (trim_space s) ≡ trim_space s
unfolding trim_space
trim_space_twice s = ap trim_right (trim_left-trim_right s) ∙ trim_right_twice (trim_left s)
