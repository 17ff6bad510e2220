-- ===== src/Memory/Chunk/Words.antt =====
-- internal/memory/chunk.go: the pieces of a text that has no sentence end, as groups of its words.
use mathlib.Core.Path.{subst}
use open_light.Base.{
  ℕ, ◌+◌, ◌≤◌, ◌<◌, Bool, true, false, ◌&&◌, ltb, List, [], ◌∷◌, ◌++◌, ◌≡◌, refl, sym, ap, ◌∙◌, All,
  All-append, if◌then◌else◌, arith, ◌⊎◌, inl, inr, map, append_assoc, append-nil,
}
use open_light.Base.Text.{Text, codes, fields, join}
use open_light.Base.Text.Fields.{IsField, fields-IsField}
use open_light.Base.Text.Trim.{trim_space-NoSpace}
use open_light.Base.Unicode.{Unicode}
use open_light.Memory.Chunk.Tokens.{estimate_tokens}
use open_light.Memory.Chunk.Pieces.{Words, next_word, each_word, last_piece, split_words}

-- The lists of a list, one behind the other.
unfoldable pub concat : List (List Text) → List Text
concat [] = []
concat (g ∷ gs) = g ++ concat gs

concat-append : (gs hs : List (List Text)) → concat (gs ++ hs) ≡ concat gs ++ concat hs
unfolding concat
concat-append [] hs = refl
concat-append (g ∷ gs) hs = rw (concat-append gs hs, append_assoc g (concat gs) (concat hs)) refl

map-append :
    (f : List Text → Text) (gs hs : List (List Text)) → map f (gs ++ hs) ≡ map f gs ++ map f hs
map-append f [] hs = refl
map-append f (g ∷ gs) hs = ap (λ l. f g ∷ l) (map-append f gs hs)

concat-one : (g : List Text) → concat (g ∷ []) ≡ g
unfolding concat
concat-one g = append-nil g

abbrev pub joined : List Text → Text
joined group = join group (codes " ")

module _ (unicode : Unicode) (target : ℕ) where
  -- The tokens of the words of a group, each counted by itself.
  unfoldable pub sum_tokens : List Text → ℕ
  unfolding estimate_tokens
  sum_tokens [] = 0
  sum_tokens (w ∷ ws) = estimate_tokens unicode w + sum_tokens ws

  -- A group of a piece: one word, or several whose tokens are at most the target.
  unfoldable pub Fits : List Text → Type 0
  unfolding sum_tokens
  Fits [] = (true ≡ false)
  Fits (w ∷ []) = Unit
  Fits (w ∷ v ∷ ws) = sum_tokens (w ∷ v ∷ ws) ≤ target

  sum_tokens-append :
      (ws : List Text) (w : Text)
      → sum_tokens (ws ++ w ∷ []) ≡ sum_tokens ws + estimate_tokens unicode w
  unfolding sum_tokens
  sum_tokens-append [] w = omega arith
  sum_tokens-append (v ∷ ws) w = omega (arith, sum_tokens-append ws w)

  estimate_tokens-IsField : (w : Text) → IsField w → 0 < estimate_tokens unicode w
  unfolding estimate_tokens
  estimate_tokens-IsField w (ne, ns) = rw (trim_space-NoSpace w ns, ne) (ground arith)

  -- What the loop has made of the words `done`.
  record Invariant (done : List Text) (w : Words) : Type 0 where
    groups : List (List Text)
    read : w.pieces ≡ map joined groups
    whole : concat groups ++ w.current ≡ done
    fit : All Fits groups
    counted : w.cur_tok ≡ sum_tokens w.current
    last_fits : (w.current ≡ []) ⊎ (Fits w.current × (0 < w.cur_tok))

  Fits-append :
      (ws : List Text) (w : Text) → sum_tokens (ws ++ w ∷ []) ≤ target → Fits (ws ++ w ∷ [])
  unfolding Fits
  Fits-append [] w h = tt
  Fits-append (v ∷ []) w h = h
  Fits-append (v ∷ u ∷ ws) w h = h

  Fits-one : (w : Text) → Fits (w ∷ [])
  unfolding Fits
  Fits-one w = tt

  sum_tokens-one : (w : Text) → sum_tokens (w ∷ []) ≡ estimate_tokens unicode w
  unfolding sum_tokens
  sum_tokens-one w = omega arith

  -- The current words become a piece, and the word starts the next.
  cut_piece :
      (done : List Text) (w : Words) (f : Text)
      → IsField f
      → 0 < w.cur_tok
      → Invariant done w
      → Invariant (done ++ f ∷ []) (record {
        pieces = w.pieces ++ join w.current (codes " ") ∷ [];
        current = f ∷ [];
        cur_tok = estimate_tokens unicode f;
      })
  cut_piece done w f hf pos_tok i = record {
    groups = i.groups ++ w.current ∷ [];
    read =
        ap (λ l. l ++ join w.current (codes " ") ∷ []) i.read
        ∙ sym (map-append joined i.groups (w.current ∷ []));
    whole =
        ap (λ l. l ++ f ∷ [])
          (concat-append i.groups (w.current ∷ [])
            ∙ ap (λ l. concat i.groups ++ l) (concat-one w.current)
            ∙ i.whole);
    fit = All-append Fits i.groups (w.current ∷ []) i.fit (current_fits i.last_fits, tt);
    counted = sym (sum_tokens-one f);
    last_fits = inr (Fits-one f, estimate_tokens-IsField f hf);
  }
    where
      no_words : (ws : List Text) → ws ≡ [] → sum_tokens ws ≡ 0
      no_words [] e = unfold sum_tokens in refl
      no_words (v ∷ ws) e = cc

      current_fits : (w.current ≡ []) ⊎ (Fits w.current × (0 < w.cur_tok)) → Fits w.current
      current_fits (inl e) = absurd_zero (i.counted ∙ no_words w.current e)
        where
          absurd_zero : w.cur_tok ≡ 0 → Fits w.current
          absurd_zero z = ground (arith, pos_tok, z)
      current_fits (inr h) = h.0

  -- The word joins the current words.
  extend_piece :
      (done : List Text) (w : Words) (f : Text)
      → IsField f
      → (0 < w.cur_tok → w.cur_tok + estimate_tokens unicode f ≤ target)
      → Invariant done w
      → Invariant (done ++ f ∷ []) (record w {
        current = w.current ++ f ∷ [];
        cur_tok = w.cur_tok + estimate_tokens unicode f;
      })
  extend_piece done w f hf room i = record {
    groups = i.groups;
    read = i.read;
    whole = sym (append_assoc (concat i.groups) w.current (f ∷ [])) ∙ ap (λ l. l ++ f ∷ []) i.whole;
    fit = i.fit;
    counted =
        ap (λ n. n + estimate_tokens unicode f) i.counted ∙ sym (sum_tokens-append w.current f);
    last_fits = inr (new_fits i.last_fits, omega (arith, estimate_tokens-IsField f hf));
  }
    where
      new_fits : (w.current ≡ []) ⊎ (Fits w.current × (0 < w.cur_tok)) → Fits (w.current ++ f ∷ [])
      new_fits (inl e) = subst (λ l. Fits (l ++ f ∷ [])) (sym e) (Fits-one f)
      new_fits (inr (_, p)) =
          Fits-append w.current f (omega (arith, room p, i.counted, sum_tokens-append w.current f))

  next_word-Invariant :
      (done : List Text) (w : Words) (f : Text)
      → IsField f
      → Invariant done w
      → Invariant (done ++ f ∷ []) (next_word unicode target w f)
  unfolding next_word
  next_word-Invariant done w f hf i =
      choose (ltb 0 w.cur_tok) refl (ltb target (w.cur_tok + estimate_tokens unicode f)) refl
    where
      choose :
          (a : Bool)
          → ltb 0 w.cur_tok ≡ a
          → (b : Bool) → ltb target (w.cur_tok + estimate_tokens unicode f) ≡ b
          → Invariant (done ++ f ∷ []) (
              if a && b
              then record {
                pieces = w.pieces ++ join w.current (codes " ") ∷ [];
                current = f ∷ [];
                cur_tok = estimate_tokens unicode f;
              }
              else record w {
                current = w.current ++ f ∷ [];
                cur_tok = w.cur_tok + estimate_tokens unicode f;
              })
      choose true ea true eb = cut_piece done w f hf (ground (arith, ea)) i
      choose true ea false eb = extend_piece done w f hf (λ _. ground (arith, eb)) i
      choose false ea b eb = extend_piece done w f hf (λ p. ground (arith, ea, p)) i

  each_word-Invariant :
      (done fs : List Text) (w : Words)
      → All IsField fs
      → Invariant done w
      → Invariant (done ++ fs) (each_word unicode target fs w)
  unfolding each_word
  each_word-Invariant done [] w h i = subst (λ l. Invariant l w) (sym (append-nil done)) i
  each_word-Invariant done (f ∷ fs) w h i =
      subst (λ l. Invariant l (each_word unicode target fs (next_word unicode target w f)))
        (append_assoc done (f ∷ []) fs)
        (each_word-Invariant (done ++ f ∷ []) fs (next_word unicode target w f) h.1
          (next_word-Invariant done w f h.0 i))

  -- The pieces are groups of the words.
  pub record SplitsInto (words pieces : List Text) : Type 0 where
    pub groups : List (List Text)
    pub read : pieces ≡ map joined groups
    pub whole : concat groups ≡ words
    pub fit : All Fits groups

  finish :
      (done current pieces : List Text) (w : Words)
      → w.current ≡ current
      → w.pieces ≡ pieces
      → Invariant done w
      → SplitsInto done (pieces ++ last_piece unicode current)
  finish done [] pieces w e p i = record {
    groups = i.groups;
    read = append-nil pieces ∙ sym p ∙ i.read;
    whole = sym (append-nil (concat i.groups)) ∙ ap (λ l. concat i.groups ++ l) (sym e) ∙ i.whole;
    fit = i.fit;
  }
  finish done (f ∷ fs) pieces w e p i = record {
    groups = i.groups ++ (f ∷ fs) ∷ [];
    read =
        ap (λ l. l ++ joined (f ∷ fs) ∷ []) (sym p ∙ i.read)
        ∙ sym (map-append joined i.groups ((f ∷ fs) ∷ []));
    whole =
        concat-append i.groups ((f ∷ fs) ∷ [])
        ∙ ap (λ l. concat i.groups ++ l) (concat-one (f ∷ fs) ∙ sym e)
        ∙ i.whole;
    fit = All-append Fits i.groups ((f ∷ fs) ∷ []) i.fit (fits_of i.last_fits, tt);
  }
    where
      fits_of : (w.current ≡ []) ⊎ (Fits w.current × (0 < w.cur_tok)) → Fits (f ∷ fs)
      fits_of (inl n) = cc
      fits_of (inr h) = subst Fits e h.0

  -- The pieces of a text are groups of its words, joined by spaces: no word is lost, doubled or moved, and
  -- a group is one word, or several that have at most the target's tokens together.
  pub split_words-SplitsInto :
      (text : Text) → SplitsInto (fields text) (split_words unicode text target)
  unfolding split_words
  split_words-SplitsInto text =
      finish (fields text) _ _ (each_word unicode target (fields text) no_words) refl refl (
        each_word-Invariant [] (fields text) no_words (fields-IsField text) (record {
          groups = [];
          read = refl;
          whole = unfold concat in refl;
          fit = tt;
          counted = unfold sum_tokens in refl;
          last_fits = inl refl;
        }))
    where
      no_words : Words
      no_words = record { pieces = []; current = []; cur_tok = 0 }
