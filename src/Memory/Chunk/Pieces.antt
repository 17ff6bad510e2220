-- ===== src/Memory/Chunk/Pieces.antt =====
-- internal/memory/chunk.go: a paragraph that is too long, in pieces of whole sentences or words.
use mathlib.Core.List.{reverse}
use open_light.Base.{ℕ, ◌+◌, ◌&&◌, ltb, leb, ◌==◌, List, [], ◌∷◌, ◌++◌, if◌then◌else◌}
use open_light.Base.Text.{Text, codes, fields, join}
use open_light.Base.Unicode.{Unicode}
use open_light.Memory.Chunk.Tokens.{estimate_tokens}
use open_light.Memory.Chunk.Blocks.{if_some, split_sentences}

-- What the loop of splitWords holds: the pieces, the words of the current one and their tokens.
pub record Words : Type 0 where
  pub pieces : List Text
  pub current : List Text
  pub cur_tok : ℕ

module _ (unicode : Unicode) where
  unfoldable pub next_word : ℕ → Words → Text → Words
  unfolding estimate_tokens
  next_word target w field =
      let tok = estimate_tokens unicode field in
      if ltb 0 w.cur_tok && ltb target (w.cur_tok + tok)
      then record {
        pieces = w.pieces ++ join w.current (codes " ") ∷ [];
        current = field ∷ [];
        cur_tok = tok;
      }
      else record w { current = w.current ++ field ∷ []; cur_tok = w.cur_tok + tok }

  unfoldable pub each_word : ℕ → List Text → Words → Words
  unfolding next_word
  each_word target [] w = w
  each_word target (f ∷ fs) w = each_word target fs (next_word target w f)

  abbrev pub last_piece : List Text → List Text
  last_piece [] = []
  last_piece (f ∷ fs) = join (f ∷ fs) (codes " ") ∷ []

  unfoldable pub split_words : Text → ℕ → List Text
  unfolding each_word
  split_words text target =
      let w = each_word target (fields text) (record { pieces = []; current = []; cur_tok = 0 }) in
      w.pieces ++ last_piece w.current

  -- What the loop of splitOversizedBlock holds.
  unfoldable pub flush_piece : Words → Words
  flush_piece w = elim w.current [
    | [] ↦ w
    | f ∷ fs ↦ record {
      pieces = w.pieces ++ if_some (join (f ∷ fs) (codes " "));
      current = [];
      cur_tok = 0;
    }
  ]

  unfoldable pub next_sentence : ℕ → Words → Text → Words
  unfolding flush_piece split_words
  next_sentence target w sentence =
      let tok = estimate_tokens unicode sentence in
      if ltb target tok
      then record {
        pieces = (flush_piece w).pieces ++ split_words sentence target;
        current = [];
        cur_tok = 0;
      }
      else let v = if ltb 0 w.cur_tok && ltb target (w.cur_tok + tok) then flush_piece w else w in
        record v { current = v.current ++ sentence ∷ []; cur_tok = v.cur_tok + tok }

  unfoldable pub each_sentence : ℕ → List Text → Words → Words
  unfolding next_sentence
  each_sentence target [] w = w
  each_sentence target (s ∷ ss) w = each_sentence target ss (next_sentence target w s)

  unfoldable pub split_oversized_block : Text → ℕ → List Text
  unfolding each_sentence flush_piece
  split_oversized_block block target =
      (flush_piece (
        each_sentence target (split_sentences block)
          (record { pieces = []; current = []; cur_tok = 0 }))).pieces

  -- The loop of tailTokens over the words from the last to the first.
  unfoldable pub tail_words : ℕ → List Text → ℕ → List Text → List Text
  unfolding estimate_tokens
  tail_words n [] tok tail = tail
  tail_words n (f ∷ before) tok tail =
      let rest = tail_words n before (tok + estimate_tokens unicode f) (f ∷ tail) in
      if leb n (tok + estimate_tokens unicode f) then f ∷ tail else rest

  unfoldable pub tail_tokens : Text → ℕ → Text
  unfolding tail_words
  tail_tokens text n =
      if n == 0 then [] else join (tail_words n (reverse (fields text)) 0 []) (codes " ")
