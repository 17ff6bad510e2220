-- ===== src/Memory/Context/Budget.antt =====
-- internal/memory/context.go: a text that is cut to a budget of tokens keeps to it.
use mathlib.Core.Path.{subst}
use open_light.Base.{
  ℕ, suc, ◌-◌, ◌≤◌, ◌==◌, Bool, true, false, ltb, leb, List, [], ◌∷◌, ◌++◌, ◌≡◌, refl, sym, ap, ◌∙◌,
  arith, if◌then◌else◌, append_assoc,
}
use open_light.Base.Text.{
  Text, codes, is_space, fields, join, trim_left, trim_cons, trim_right, trim_space,
}
use open_light.Base.Unicode.{Unicode}
use open_light.Memory.Chunk.Tokens.{TokenCounter, add, tokens, no_tokens, estimate_tokens}
use open_light.Memory.Context.{probe, keep_words, marked, trim_to_tokens}

module _ (unicode : Unicode) where
  open unicode use {is_wide}

  abbrev counted : Text → TokenCounter
  counted s = add unicode s (no_tokens unicode)

  add-append :
      (s t : Text) (c : TokenCounter) → add unicode (s ++ t) c ≡ add unicode t (add unicode s c)
  unfolding add
  add-append [] t c = refl
  add-append (r ∷ s) t c = add-append s t _

  -- One rune counts once, where it counts.
  one : ℕ → TokenCounter → TokenCounter
  one r c =
      if ltb r 128
      then record c { plain = suc c.plain }
      else if is_wide r
      then record c { wide = suc c.wide }
      else record c { plain = suc c.plain }

  add-cons : (r : ℕ) (s : Text) (c : TokenCounter) → add unicode (r ∷ s) c ≡ add unicode s (one r c)
  unfolding add one
  add-cons r s c = refl

  -- One counter has no more than another.
  abbrev Below : TokenCounter → TokenCounter → Type 0
  Below c d = (c.plain ≤ d.plain) × (c.wide ≤ d.wide)

  one-Below : (r : ℕ) (c d : TokenCounter) → Below c d → Below (one r c) (one r d)
  unfolding one
  one-Below r c d h = (ground (arith, h), ground (arith, h))

  one_more : (r : ℕ) (c d : TokenCounter) → Below c d → Below c (one r d)
  unfolding one
  one_more r c d h = (ground (arith, h), ground (arith, h))

  add-Below :
      (s : Text) (c d : TokenCounter) → Below c d → Below (add unicode s c) (add unicode s d)
  add-Below [] c d h = unfold add in h
  add-Below (r ∷ s) c d h =
      subst (λ x. Below x (add unicode (r ∷ s) d)) (sym (add-cons r s c))
        (subst (λ x. Below (add unicode s (one r c)) x) (sym (add-cons r s d))
          (add-Below s (one r c) (one r d) (one-Below r c d h)))

  Below-refl : (c : TokenCounter) → Below c c
  Below-refl c = (omega arith, omega arith)

  Below-trans : (c d e : TokenCounter) → Below c d → Below d e → Below c e
  Below-trans c d e h k = (omega (arith, h.0, k.0), omega (arith, h.1, k.1))

  -- A rune in front only adds.
  counted-cons : (r : ℕ) (s : Text) → Below (counted s) (counted (r ∷ s))
  counted-cons r s = subst (Below (counted s)) (sym (add-cons r s (no_tokens unicode))) (
      add-Below s (no_tokens unicode) (one r (no_tokens unicode))
        (one_more r (no_tokens unicode) (no_tokens unicode) (Below-refl (no_tokens unicode))))

  -- A longer tail only adds.
  cons-Below :
      (r : ℕ) (s t : Text)
      → ((c : TokenCounter) → Below (add unicode s c) (add unicode t c))
      → (c : TokenCounter) → Below (add unicode (r ∷ s) c) (add unicode (r ∷ t) c)
  cons-Below r s t h c =
      subst (λ x. Below x (add unicode (r ∷ t) c)) (sym (add-cons r s c))
        (subst (Below (add unicode s (one r c))) (sym (add-cons r t c)) (h (one r c)))

  add-nil : (c : TokenCounter) → add unicode [] c ≡ c
  unfolding add
  add-nil c = refl

  nil-Below : (s : Text) (c : TokenCounter) → Below c (add unicode s c)
  nil-Below [] c = unfold add in Below-refl c
  nil-Below (r ∷ s) c = subst (Below c) (sym (add-cons r s c)) (
      Below-trans c (one r c) (add unicode s (one r c)) (one_more r c c (Below-refl c))
        (nil-Below s (one r c)))

  trim_left-Below : (s : Text) → Below (counted (trim_left s)) (counted s)
  unfolding trim_left is_space
  trim_left-Below [] = Below-refl (counted [])
  trim_left-Below (r ∷ s) = step (is_space r) (trim_left-Below s)
    where
      step :
          (b : Bool)
          → Below (counted (trim_left s)) (counted s)
          → Below (counted (elim b [ true ↦ trim_left s | false ↦ r ∷ s ])) (counted (r ∷ s))
      step true h =
          Below-trans (counted (trim_left s)) (counted s) (counted (r ∷ s)) h (counted-cons r s)
      step false h = Below-refl (counted (r ∷ s))

  trim_cons-Below :
      (r : ℕ) (s : Text) (c : TokenCounter)
      → Below (add unicode (trim_cons r s) c) (add unicode (r ∷ s) c)
  unfolding trim_cons
  trim_cons-Below r [] c = step (is_space r)
    where
      step : (b : Bool) → Below (add unicode (if b then [] else r ∷ []) c) (add unicode (r ∷ []) c)
      step true =
          subst (λ x. Below x (add unicode (r ∷ []) c)) (sym (add-nil c)) (nil-Below (r ∷ []) c)
      step false = Below-refl (add unicode (r ∷ []) c)
  trim_cons-Below r (d ∷ s) c = Below-refl (add unicode (r ∷ d ∷ s) c)

  trim_right-Below :
      (s : Text) (c : TokenCounter) → Below (add unicode (trim_right s) c) (add unicode s c)
  trim_right-Below [] c = unfold trim_right in Below-refl (add unicode [] c)
  trim_right-Below (r ∷ s) c =
      subst (λ t. Below (add unicode t c) (add unicode (r ∷ s) c)) (sym (trim_right-step r s))
        (Below-trans (add unicode (trim_cons r (trim_right s)) c) (add unicode (r ∷ trim_right s) c)
          (add unicode (r ∷ s) c) (trim_cons-Below r (trim_right s) c)
          (cons-Below r (trim_right s) s (trim_right-Below s) c))
    where
      trim_right-step : (q : ℕ) (t : Text) → trim_right (q ∷ t) ≡ trim_cons q (trim_right t)
      trim_right-step q t = unfold trim_right in refl

  trim_space-Below : (s : Text) → Below (counted (trim_space s)) (counted s)
  unfolding trim_space
  trim_space-Below s =
      Below-trans (counted (trim_right (trim_left s))) (counted (trim_left s)) (counted s)
        (trim_right-Below (trim_left s) (no_tokens unicode)) (trim_left-Below s)

  tokens-Below : (c d : TokenCounter) → Below c d → tokens unicode c ≤ tokens unicode d
  unfolding tokens
  tokens-Below c d h = omega (arith, h.0, h.1)

  -- The estimate of a text is at most its count, or one.
  estimate_tokens-counted :
      (s : Text) (n : ℕ) → 1 ≤ n → tokens unicode (counted s) ≤ n → estimate_tokens unicode s ≤ n
  unfolding estimate_tokens
  estimate_tokens-counted s n pos_n h =
      let k = tokens-Below (counted (trim_space s)) (counted s) (trim_space-Below s) in
      ground (arith, h, k, pos_n)

  -- The text of the words that are kept.
  abbrev text_of : List Text → Text
  text_of kept = join kept (codes " ")

  text_of-append :
      (k : Text) (kept : List Text) (f : Text)
      → text_of (k ∷ kept ++ f ∷ []) ≡ text_of (k ∷ kept) ++ codes " " ++ f
  unfolding join
  text_of-append k [] f = refl
  text_of-append k (l ∷ kept) f =
      ap (λ t. k ++ codes " " ++ t) (text_of-append l kept f)
      ∙ sym (
          append_assoc (k ++ codes " " ++ text_of (l ∷ kept)) (codes " ") f
          ∙ append_assoc (k ++ codes " ") (text_of (l ∷ kept)) (codes " " ++ f)
          ∙ ap (λ t. k ++ codes " " ++ t) (sym (append_assoc (text_of (l ∷ kept)) (codes " ") f)))

  probe-counted :
      (kept : List Text) (f : Text) (c : TokenCounter)
      → c ≡ counted (text_of kept)
      → probe unicode kept c f ≡ counted (text_of (kept ++ f ∷ []))
  unfolding probe join
  probe-counted [] f c e = ap (add unicode f) (e ∙ add-nil (no_tokens unicode))
  probe-counted (k ∷ kept) f c e =
      ap (λ d. add unicode f (add unicode (codes " ") d)) e
      ∙ sym (
          ap counted (text_of-append k kept f)
          ∙ add-append (text_of (k ∷ kept) ++ codes " ") f (no_tokens unicode)
          ∙ ap (add unicode f) (add-append (text_of (k ∷ kept)) (codes " ") (no_tokens unicode)))

  -- What is kept is within the budget.
  keep_words-budget :
      (budget : ℕ) (fs kept : List Text) (c : TokenCounter)
      → c ≡ counted (text_of kept)
      → tokens unicode c ≤ budget
      → tokens unicode (counted (text_of (keep_words unicode budget fs kept c))) ≤ budget
  unfolding keep_words
  keep_words-budget budget [] kept c e h = subst (λ d. tokens unicode d ≤ budget) e h
  keep_words-budget budget (f ∷ fs) kept c e h =
      step (ltb budget (tokens unicode (probe unicode kept c f))) refl (λ fits.
        keep_words-budget budget fs (kept ++ f ∷ []) (probe unicode kept c f)
          (probe-counted kept f c e) fits)
    where
      step :
          (b : Bool)
          → ltb budget (tokens unicode (probe unicode kept c f)) ≡ b
          → (tokens unicode (probe unicode kept c f) ≤ budget
              → tokens unicode (
                  counted (
                    text_of
                      (keep_words unicode budget fs (kept ++ f ∷ []) (probe unicode kept c f))))
                ≤ budget)
          → tokens unicode (
              counted (
                text_of (
                  if b
                  then kept
                  else keep_words unicode budget fs (kept ++ f ∷ []) (probe unicode kept c f))))
            ≤ budget
      step true eb ih = subst (λ d. tokens unicode d ≤ budget) e h
      step false eb ih = ih (ground (arith, eb))

  -- The mark adds two runes.
  mark-counted :
      (c : TokenCounter)
      → is_wide 0x2026 ≡ false
      → tokens unicode (add unicode (codes " …") c) ≤ suc (tokens unicode c)
  unfolding add tokens codes
  mark-counted c narrow = rw narrow (omega arith)

  marked-budget :
      (n : ℕ) (kept : List Text)
      → is_wide 0x2026 ≡ false
      → tokens unicode (counted (text_of kept)) ≤ n
      → tokens unicode (counted (marked unicode kept)) ≤ suc n
  marked-budget n [] narrow h =
      subst (λ d. tokens unicode d ≤ suc n) (sym (add-nil (no_tokens unicode)))
        (unfold tokens in omega arith)
  marked-budget n (k ∷ kept) narrow h =
      subst (λ d. tokens unicode d ≤ suc n)
        (sym (add-append (text_of (k ∷ kept)) (codes " …") (no_tokens unicode)))
        (omega (arith, mark-counted (counted (text_of (k ∷ kept))) narrow, h))

  no_tokens-budget : (n : ℕ) → tokens unicode (no_tokens unicode) ≤ n
  unfolding tokens
  no_tokens-budget n = omega arith

  no_words : no_tokens unicode ≡ counted (text_of [])
  unfolding join
  no_words = sym (add-nil (no_tokens unicode))

  -- A text that is cut to a budget of at least two tokens is estimated at no more than the budget, if the
  -- ellipsis is no wide rune.
  pub estimate_tokens-trim_to_tokens :
      (text : Text) (budget : ℕ)
      → is_wide 0x2026 ≡ false
      → 2 ≤ budget
      → estimate_tokens unicode (trim_to_tokens unicode text budget) ≤ budget
  unfolding trim_to_tokens
  estimate_tokens-trim_to_tokens text budget narrow two =
      step (budget == 0) refl (leb (estimate_tokens unicode text) budget) refl (ltb 1 budget) refl
    where
      cut : ℕ → Text
      cut n = marked unicode (keep_words unicode n (fields text) [] (no_tokens unicode))

      step :
          (a : Bool)
          → (budget == 0) ≡ a
          → (b : Bool) → leb (estimate_tokens unicode text) budget ≡ b
          → (c : Bool) → ltb 1 budget ≡ c
          → estimate_tokens unicode
              (if a then [] else if b then text else cut (if c then budget - 1 else budget))
            ≤ budget
      step true ea b eb c ec = ground (arith, ea, two)
      step false ea true eb c ec = ground (arith, eb)
      step false ea false eb false ec = ground (arith, ec, two)
      step false ea false eb true ec =
          estimate_tokens-counted (cut (budget - 1)) budget (omega (arith, two)) (
            omega (
              arith,
              marked-budget (budget - 1)
                  (keep_words unicode (budget - 1) (fields text) [] (no_tokens unicode)) narrow
                  (keep_words-budget (budget - 1) (fields text) [] (no_tokens unicode) no_words
                    (no_tokens-budget (budget - 1))),
              two,
            ))
