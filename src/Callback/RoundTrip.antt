-- ===== src/Callback/RoundTrip.antt =====
-- What a button's text says is what is decoded from it.
use open_light.Base.{
  ◌⊎◌, inl, inr, ℕ, suc, ◌-◌, ◌^◌, ◌≤◌, ◌≡◌, ◌≢◌, refl, ◌∙◌, ap, false, some, [], ◌∷◌, ◌++◌,
  append_assoc, append-nil, arith, All, All-append,
}
use open_light.Base.Text.{Text, is_space}
use open_light.Base.Text.Trim.{NoSpace, Lacks, trim_space-NoSpace}
use open_light.Base.Decimal.{itoa}
use open_light.Base.Decimal.RoundTrip.{IsDigit, itoa-IsDigit, parse_int-itoa}
use open_light.Callback.{
  Action, colon, split_n_from, of_parts, decode_trimmed, decode, suffix, encode, page, page_number,
}

-- A part that a reader gets back: no white space, and no colon before the last part.
pub record IsClean (a : Action) : Type 0 where
  pub kind_ne_nil : a.kind ≢ []
  pub kind_word : NoSpace a.kind
  pub kind_lacks : Lacks colon a.kind
  pub target_word : NoSpace a.target
  pub target_lacks : Lacks colon a.target
  pub extra_word : NoSpace a.extra
  pub extra_last : (a.target ≢ []) ⊎ (a.extra ≡ [])

split_n_from-append :
    (n : ℕ) (p rest cur : Text)
    → Lacks colon p
    → split_n_from (suc n) (p ++ rest) cur ≡ split_n_from (suc n) rest (cur ++ p)
unfolding split_n_from
split_n_from-append n [] rest cur h = rw append-nil
split_n_from-append n (c ∷ p) rest cur h =
    rw (h.0, split_n_from) (split_n_from-append n p rest (cur ++ c ∷ []) h.1 ∙ rw append_assoc)

split_n_from_last : (t cur : Text) → split_n_from 0 t cur ≡ (cur ++ t) ∷ []
unfolding split_n_from
split_n_from_last [] cur = rw append-nil
split_n_from_last (c ∷ t) cur = refl

-- The parts behind the first colon.
target_part :
    (target extra : Text)
    → Lacks colon target
    → split_n_from 1 (target ++ suffix extra) []
      ≡ elim extra [ [] ↦ target ∷ [] | c ∷ s ↦ target ∷ (c ∷ s) ∷ [] ]
target_part target [] h = split_n_from-append 0 target [] [] h ∙ (unfold split_n_from in refl)
target_part target (c ∷ s) h =
    split_n_from-append 0 target (colon ∷ c ∷ s) [] h ∙ (unfold split_n_from in refl)

kind_part :
    (kind s : Text)
    → Lacks colon kind
    → split_n_from 2 (kind ++ colon ∷ s) [] ≡ kind ∷ split_n_from 1 s []
kind_part kind s h = split_n_from-append 1 kind (colon ∷ s) [] h ∙ (unfold split_n_from in refl)

parts_of :
    (kind target extra : Text)
    → Lacks colon kind
    → Lacks colon target
    → (target ≢ []) ⊎ (extra ≡ [])
    → of_parts (split_n_from 2 ((kind ++ suffix target) ++ suffix extra) [])
      ≡ some (record { kind = kind; target = target; extra = extra })
parts_of kind [] [] hk ht last =
    rw (append-nil, append-nil)
      (ap of_parts (rw append-nil at (split_n_from-append 1 kind [] [] hk))
        ∙ (unfold of_parts split_n_from in refl))
parts_of kind [] (e ∷ es) hk ht (inl ne) = absurd (ne refl)
parts_of kind [] (e ∷ es) hk ht (inr last) = absurd (ground (arith, last))
parts_of kind (t ∷ ts) [] hk ht last = rw append_assoc (
    ap of_parts (kind_part kind (t ∷ ts ++ []) hk ∙ ap (λ l. kind ∷ l) (target_part (t ∷ ts) [] ht))
    ∙ (unfold of_parts in refl))
parts_of kind (t ∷ ts) (e ∷ es) hk ht last = rw append_assoc (
    ap of_parts (
      kind_part kind ((t ∷ ts) ++ colon ∷ e ∷ es) hk
      ∙ ap (λ l. kind ∷ l) (target_part (t ∷ ts) (e ∷ es) ht))
    ∙ (unfold of_parts in refl))

suffix-NoSpace : (s : Text) → NoSpace s → NoSpace (suffix s)
suffix-NoSpace [] h = tt
suffix-NoSpace (c ∷ s) h = (unfold is_space in refl, h)

encode-NoSpace : (a : Action) → IsClean a → NoSpace (encode a)
unfolding encode
encode-NoSpace a c =
    All-append (λ r. is_space r ≡ false) (a.kind ++ suffix a.target) (suffix a.extra)
      (All-append (λ r. is_space r ≡ false) a.kind (suffix a.target) c.kind_word
        (suffix-NoSpace a.target c.target_word))
      (suffix-NoSpace a.extra c.extra_word)

decode_trimmed_lem : (s : Text) → s ≢ [] → decode_trimmed s ≡ of_parts (split_n_from 2 s [])
unfolding decode_trimmed
decode_trimmed_lem [] h = absurd (h refl)
decode_trimmed_lem (c ∷ s) h = refl

encode-ne-nil : (a : Action) → a.kind ≢ [] → encode a ≢ []
unfolding encode
encode-ne-nil a h = kind_first a.kind h
  where
    kind_first : (k : Text) → k ≢ [] → ((k ++ suffix a.target) ++ suffix a.extra) ≢ []
    kind_first [] ne = absurd (ne refl)
    kind_first (c ∷ k) ne = λ e. cc

-- `Decode` undoes `Encode` on every action whose kind is not empty, whose parts hold no white space,
-- whose kind and target hold no colon, and which has no extra part without a target.
pub decode-encode : (a : Action) → IsClean a → decode (encode a) ≡ some a
unfolding decode
decode-encode a c =
    ap decode_trimmed (trim_space-NoSpace (encode a) (encode-NoSpace a c))
    ∙ decode_trimmed_lem (encode a) (encode-ne-nil a c.kind_ne_nil)
    ∙ (unfold encode in parts_of a.kind a.target a.extra c.kind_lacks c.target_lacks c.extra_last)

IsDigit-NoSpace : (s : Text) → All IsDigit s → NoSpace s
unfolding is_space
IsDigit-NoSpace [] h = tt
IsDigit-NoSpace (c ∷ s) h = (ground arith, IsDigit-NoSpace s h.1)

-- The button of page `n` of a group decodes to an action of kind "p" for that group, from which
-- `PageNumber` reads `n`, for every page number of 63 bits and every group key that is not empty and
-- holds no white space and no colon.
pub page_number-page :
    (key : Text) (n : ℕ)
    → key ≢ []
    → NoSpace key
    → Lacks colon key
    → n ≤ 2 ^ 63 - 1
    → (a : Action) × (decode (page key n) ≡ some a)
      × (a.kind ≡ b'p' ∷ [])
      × (a.target ≡ key)
      × (page_number a ≡ n)
page_number-page key n ne word lacks le = (
  a,
  (unfold page in decode-encode a clean),
  refl,
  refl,
  (unfold page_number in rw (trim_space-NoSpace (itoa n) digits_word, parse_int-itoa n le)),
)
  where
    a : Action
    a = record { kind = b'p' ∷ []; target = key; extra = itoa n }

    digits_word : NoSpace (itoa n)
    digits_word = IsDigit-NoSpace (itoa n) (itoa-IsDigit n)

    clean : IsClean a
    clean = record {
      kind_ne_nil = λ e. cc;
      kind_word = (unfold is_space in refl, tt);
      kind_lacks = (refl, tt);
      target_word = word;
      target_lacks = lacks;
      extra_word = digits_word;
      extra_last = inl ne;
    }
