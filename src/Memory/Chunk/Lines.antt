-- ===== src/Memory/Chunk/Lines.antt =====
-- internal/memory/chunk.go: the loop that takes runs of line ends to two of them ends.
use open_light.Base.{
  ℕ, zero, suc, ◌+◌, ◌-◌, ◌≤◌, ◌<◌, true, false, [], ◌∷◌, ◌++◌, ◌≡◌, refl, ap, arith, length,
  length-append, Bool-cases, inl, inr,
}
use open_light.Base.Text.{Text, codes, strip_prefix, has_prefix, contains}
use open_light.Memory.Chunk.Blocks.{replace_from, replace_all, collapse}

prefix_bound : (s p : Text) → has_prefix s p ≡ true → length p ≤ length s
unfolding has_prefix strip_prefix
prefix_bound s [] h = omega arith
prefix_bound [] (d ∷ p) h = ground arith
prefix_bound (c ∷ s) (d ∷ p) h = ground (arith, prefix_bound s p)

module _ (c0 : ℕ) (old : Text) (new : Text) (shorter : length new < suc (length old)) where
  abbrev from : ℕ → Text → Text
  from skip s = replace_from (c0 ∷ old) new skip s

  from-found :
      (c : ℕ) (s : Text)
      → has_prefix (c ∷ s) (c0 ∷ old) ≡ true
      → from 0 (c ∷ s) ≡ new ++ from (length old) s
  unfolding replace_from
  from-found c s h =
      rw (h, replace_from) (ap (λ n. new ++ replace_from (c0 ∷ old) new n s) minus_one)
    where
      minus_one : suc (length old) - 1 ≡ length old
      minus_one = omega arith

  from-kept :
      (c : ℕ) (s : Text) → has_prefix (c ∷ s) (c0 ∷ old) ≡ false → from 0 (c ∷ s) ≡ c ∷ from 0 s
  unfolding replace_from
  from-kept c s h = rw (h, replace_from) refl

  prefix_left : (c : ℕ) (s : Text) → has_prefix (c ∷ s) (c0 ∷ old) ≡ true → length old ≤ length s
  prefix_left c s h = omega (arith, prefix_bound (c ∷ s) (c0 ∷ old) h)

  found_length :
      (c : ℕ) (s : Text)
      → has_prefix (c ∷ s) (c0 ∷ old) ≡ true
      → length (from (length old) s) + length old ≤ length s
      → length (from 0 (c ∷ s)) < length (c ∷ s)
  found_length c s e h =
      omega
        (arith, ap length (from-found c s e), length-append new (from (length old) s), h, shorter)

  from-nil : (skip : ℕ) → from skip [] ≡ []
  unfolding replace_from
  from-nil skip = refl

  from-skip : (k c : ℕ) (s : Text) → from (suc k) (c ∷ s) ≡ from k s
  unfolding replace_from
  from-skip k c s = refl

  -- The runes that are skipped are gone, and a replacement makes nothing longer.
  skip_bound : (skip : ℕ) (s : Text) → skip ≤ length s → length (from skip s) + skip ≤ length s
  skip_bound zero [] h = omega (arith, ap length (from-nil 0))
  skip_bound (suc k) [] h = omega (arith, h)
  skip_bound (suc k) (c ∷ s) h =
      omega (arith, ap length (from-skip k c s), skip_bound k s (omega (arith, h)))
  skip_bound zero (c ∷ s) h = elim (Bool-cases (has_prefix (c ∷ s) (c0 ∷ old))) [
    | inr e ↦ omega (arith, ap length (from-kept c s e), skip_bound 0 s (omega arith))
    | inl e ↦ omega (arith, found_length c s e (skip_bound (length old) s (prefix_left c s e)))
  ]

  -- A text that holds the pattern is shorter when it is replaced.
  found_shorter : (s : Text) → contains s (c0 ∷ old) ≡ true → length (from 0 s) < length s
  unfolding contains
  found_shorter [] h = absurd_prefix h
    where
      absurd_prefix : has_prefix [] (c0 ∷ old) ≡ true → length (from 0 []) < length {A = ℕ} []
      absurd_prefix e = omega (arith, prefix_bound [] (c0 ∷ old) e)
  found_shorter (c ∷ s) h = elim (Bool-cases (has_prefix (c ∷ s) (c0 ∷ old))) [
    | inl e ↦ found_length c s e (skip_bound (length old) s (prefix_left c s e))
    | inr e ↦ omega (arith, ap length (from-kept c s e), found_shorter s (ground (arith, h, e)))
  ]

replace_all_shorter :
    (s : Text)
    → contains s (codes "\n\n\n") ≡ true
    → length (replace_all s (codes "\n\n\n") (codes "\n\n")) < length s
unfolding replace_all codes
replace_all_shorter s h = found_shorter 10 (10 ∷ 10 ∷ []) (10 ∷ 10 ∷ []) (omega arith) s h

collapse_all :
    (fuel : ℕ) (s : Text) → length s ≤ fuel → contains (collapse fuel s) (codes "\n\n\n") ≡ false
unfolding collapse
collapse_all zero [] h = unfold contains has_prefix strip_prefix codes in refl
collapse_all zero (c ∷ s) h = ground (arith, h)
collapse_all (suc fuel) s h = elim (Bool-cases (contains s (codes "\n\n\n"))) [
  | inr e ↦ rw (e, collapse) e
  | inl e ↦
      rw (e, collapse)
        (collapse_all fuel (replace_all s (codes "\n\n\n") (codes "\n\n"))
          (omega (arith, h, replace_all_shorter s e)))
]

-- The loop ends: as many rounds as the text has runes leave no run of three line ends, which is the
-- condition under which the loop goes on.
pub collapse_ends : (s : Text) → contains (collapse (length s) s) (codes "\n\n\n") ≡ false
collapse_ends s = collapse_all (length s) s (omega arith)
