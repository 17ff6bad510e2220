-- ===== src/Base/Text/Fields.antt =====
-- Laws of strings.Fields: its words, and that they are read back from their join.
use mathlib.Core.Path.{◌≡◌, refl, sym, ap, ◌∙◌, subst}
use mathlib.Core.Bool.{true, false}
use mathlib.Core.List.{List, [], ◌∷◌, ◌++◌, append_assoc, append-nil}
use Prim.Native.Nat.{ℕ}
use mathlib.Core.Logic.{inl, inr}
use open_light.Base.Tests.{Bool-cases}
use open_light.Base.Lists.{All, All-append}
use open_light.Base.Text.{
  Text, is_space, is_empty_text, flush, trim_left, trim_cons, trim_right, trim_space, fields_from,
  fields, join,
}
use open_light.Base.Text.Trim.{NoSpace}

-- A word: it is not empty and holds no white space.
abbrev pub IsField : Text → Type 0
IsField w = (is_empty_text w ≡ false) × NoSpace w

fields_from-space :
    (c : ℕ) (s cur : Text)
    → is_space c ≡ true
    → fields_from (c ∷ s) cur ≡ flush cur ++ fields_from s []
unfolding fields_from
fields_from-space c s cur space = rw (space, fields_from) refl

fields_from-other :
    (c : ℕ) (s cur : Text)
    → is_space c ≡ false
    → fields_from (c ∷ s) cur ≡ fields_from s (cur ++ c ∷ [])
unfolding fields_from
fields_from-other c s cur other = rw (other, fields_from) refl

pub fields_from-append :
    (w rest cur : Text) → NoSpace w → fields_from (w ++ rest) cur ≡ fields_from rest (cur ++ w)
unfolding fields_from
fields_from-append [] rest cur h = rw append-nil
fields_from-append (c ∷ w) rest cur h =
    rw (h.0, fields_from) (fields_from-append w rest (cur ++ c ∷ []) h.1 ∙ rw append_assoc)

flush-word : (w : Text) → is_empty_text w ≡ false → flush w ≡ w ∷ []
flush-word [] h = cc
flush-word (c ∷ w) h = refl

-- The first word is what stands before the first space.
pub fields-word : (w s : Text) → IsField w → fields (w ++ b' ' ∷ s) ≡ w ∷ fields s
unfolding fields
fields-word w s (ne, h) =
    fields_from-append w (b' ' ∷ s) [] h
    ∙ (unfold fields_from is_space in ap (λ l. l ++ fields_from s []) (flush-word w ne))

pub fields-last : (w : Text) → IsField w → fields w ≡ w ∷ []
unfolding fields
fields-last w (ne, h) =
    ap (λ t. fields_from t []) (sym (append-nil w))
    ∙ fields_from-append w [] [] h
    ∙ (unfold fields_from in flush-word w ne)

pub fields-join : (ws : List Text) → All IsField ws → fields (join ws (b' ' ∷ [])) ≡ ws
unfolding join
fields-join [] h = unfold fields fields_from in refl
fields-join (w ∷ []) h = fields-last w h.0
fields-join (w ∷ v ∷ ws) h =
    ap fields (append_assoc w (b' ' ∷ []) (join (v ∷ ws) (b' ' ∷ [])))
    ∙ fields-word w (join (v ∷ ws) (b' ' ∷ [])) h.0
    ∙ ap (λ l. w ∷ l) (fields-join (v ∷ ws) h.1)

flush-IsField : (cur : Text) → NoSpace cur → All IsField (flush cur)
flush-IsField [] h = tt
flush-IsField (c ∷ cur) h = ((refl, h), tt)

fields_from-IsField : (s cur : Text) → NoSpace cur → All IsField (fields_from s cur)
fields_from-IsField [] cur h = unfold fields_from in flush-IsField cur h
fields_from-IsField (c ∷ s) cur h = elim (Bool-cases (is_space c)) [
  | inl space ↦ subst (All IsField) (sym (fields_from-space c s cur space)) (
      All-append IsField (flush cur) (fields_from s []) (flush-IsField cur h)
        (fields_from-IsField s [] tt))
  | inr other ↦ subst (All IsField) (sym (fields_from-other c s cur other)) (
      fields_from-IsField s (cur ++ c ∷ [])
        (All-append (λ r. is_space r ≡ false) cur (c ∷ []) h (other, tt)))
]

-- Every part of a text is a word.
pub fields-IsField : (s : Text) → All IsField (fields s)
unfolding fields
fields-IsField s = fields_from-IsField s [] tt

module _ (P : ℕ → Type 0) where
  flush-All : (cur : Text) → All P cur → All (All P) (flush cur)
  flush-All [] h = tt
  flush-All (c ∷ cur) h = (h, tt)

  fields_from-All : (s cur : Text) → All P s → All P cur → All (All P) (fields_from s cur)
  fields_from-All [] cur hs h = unfold fields_from in flush-All cur h
  fields_from-All (c ∷ s) cur hs h = elim (Bool-cases (is_space c)) [
    | inl space ↦ subst (All (All P)) (sym (fields_from-space c s cur space)) (
        All-append (All P) (flush cur) (fields_from s []) (flush-All cur h)
          (fields_from-All s [] hs.1 tt))
    | inr other ↦
        subst (All (All P)) (sym (fields_from-other c s cur other))
          (fields_from-All s (cur ++ c ∷ []) hs.1 (All-append P cur (c ∷ []) h (hs.0, tt)))
  ]

  -- What holds of the runes of a text holds of the runes of its words.
  pub fields-All : (s : Text) → All P s → All (All P) (fields s)
  unfolding fields
  fields-All s h = fields_from-All s [] h tt

  pub join-All : (ws : List Text) → P b' ' → All (All P) ws → All P (join ws (b' ' ∷ []))
  unfolding join
  join-All [] sp h = tt
  join-All (w ∷ []) sp h = h.0
  join-All (w ∷ v ∷ ws) sp h =
      All-append P (w ++ b' ' ∷ []) (join (v ∷ ws) (b' ' ∷ []))
        (All-append P w (b' ' ∷ []) h.0 (sp, tt)) (join-All (v ∷ ws) sp h.1)

trim_left-space : (c : ℕ) (s : Text) → is_space c ≡ true → trim_left (c ∷ s) ≡ trim_left s
unfolding trim_left
trim_left-space c s space = rw (space, trim_left) refl

trim_left-other : (c : ℕ) (s : Text) → is_space c ≡ false → trim_left (c ∷ s) ≡ c ∷ s
unfolding trim_left
trim_left-other c s other = rw (other, trim_left) refl

fields-space : (c : ℕ) (s : Text) → is_space c ≡ true → fields (c ∷ s) ≡ fields s
unfolding fields
fields-space c s space = fields_from-space c s [] space

fields-trim_left : (s : Text) → fields (trim_left s) ≡ fields s
fields-trim_left [] = unfold trim_left in refl
fields-trim_left (c ∷ s) = elim (Bool-cases (is_space c)) [
  | inl space ↦
      ap fields (trim_left-space c s space) ∙ fields-trim_left s ∙ sym (fields-space c s space)
  | inr other ↦ ap fields (trim_left-other c s other)
]

trim_cons-space : (c : ℕ) → is_space c ≡ true → trim_cons c [] ≡ []
unfolding trim_cons
trim_cons-space c space = rw (space, trim_cons) refl

trim_cons-other : (c : ℕ) → is_space c ≡ false → trim_cons c [] ≡ c ∷ []
unfolding trim_cons
trim_cons-other c other = rw (other, trim_cons) refl

fields_from-nil : (cur : Text) → fields_from [] cur ≡ flush cur
unfolding fields_from
fields_from-nil cur = refl

fields_from-trim_cons :
    (c : ℕ) (t cur : Text) → fields_from (trim_cons c t) cur ≡ fields_from (c ∷ t) cur
fields_from-trim_cons c [] cur = elim (Bool-cases (is_space c)) [
  | inl space ↦
      ap (λ t. fields_from t cur) (trim_cons-space c space)
      ∙ fields_from-nil cur
      ∙ sym (
          fields_from-space c [] cur space
          ∙ ap (λ l. flush cur ++ l) (fields_from-nil [])
          ∙ append-nil (flush cur))
  | inr other ↦ ap (λ t. fields_from t cur) (trim_cons-other c other)
]
fields_from-trim_cons c (d ∷ t) cur = unfold trim_cons in refl

fields_from-cons :
    (c : ℕ) (s t : Text)
    → ((cur : Text) → fields_from s cur ≡ fields_from t cur)
    → (cur : Text) → fields_from (c ∷ s) cur ≡ fields_from (c ∷ t) cur
fields_from-cons c s t h cur = elim (Bool-cases (is_space c)) [
  | inl space ↦
      fields_from-space c s cur space
      ∙ ap (λ l. flush cur ++ l) (h [])
      ∙ sym (fields_from-space c t cur space)
  | inr other ↦
      fields_from-other c s cur other ∙ h (cur ++ c ∷ []) ∙ sym (fields_from-other c t cur other)
]

fields_from-trim_right : (s cur : Text) → fields_from (trim_right s) cur ≡ fields_from s cur
unfolding trim_right
fields_from-trim_right [] cur = refl
fields_from-trim_right (c ∷ s) cur =
    fields_from-trim_cons c (trim_right s) cur
    ∙ fields_from-cons c (trim_right s) s (fields_from-trim_right s) cur

pub fields-trim_space : (s : Text) → fields (trim_space s) ≡ fields s
unfolding trim_space fields
fields-trim_space s = fields_from-trim_right (trim_left s) [] ∙ fields-trim_left s
