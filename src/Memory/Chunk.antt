-- ===== src/Memory/Chunk.antt =====
-- internal/memory/chunk.go: a document in fragments of a bounded number of tokens. A number of tokens is
-- never negative, and is a natural number.
pub mod Blocks
pub mod Tokens
pub mod Pieces
pub mod Bounds
pub mod Words
pub mod Lines
use open_light.Base.{
  ℕ, suc, ◌+◌, ◌/◌, true, false, not, ◌&&◌, ltb, leb, Option, none, some, List, [], ◌∷◌, ◌++◌,
  if◌then◌else◌,
}
use open_light.Base.Int.{ℤ, pos, negsuc}
use open_light.Base.Text.{Text, codes, trim_space, join, is_empty_text}
use open_light.Base.Unicode.{Unicode}
use open_light.Memory.Chunk.Tokens.{estimate_tokens}
use open_light.Memory.Chunk.Pieces.{split_oversized_block, tail_tokens}
use open_light.Memory.Chunk.Blocks.{
  split_blocks, markdown_heading, heading_level, join_heading, normalize_whitespace,
}

pub record ChunkOptions : Type 0 where
  pub target_tokens : ℤ
  pub overlap_tokens : ℤ

-- The options as `normalized` leaves them: neither is negative.
pub record Limits : Type 0 where
  pub target : ℕ
  pub overlap : ℕ

abbrev target_of : ℤ → ℕ
target_of (pos (suc n)) = suc n
target_of _ = 350

abbrev overlap_of : ℤ → ℕ
overlap_of (pos n) = n
overlap_of (negsuc n) = 0

unfoldable pub normalized : ChunkOptions → Limits
normalized o =
    let target = target_of o.target_tokens in
    let overlap = overlap_of o.overlap_tokens in
    record { target = target; overlap = if leb (target / 2) overlap then target / 4 else overlap }

pub record TextChunk : Type 0 where
  pub text : Text
  pub heading : Text
  pub tokens : ℕ

-- What the loop of ChunkText holds.
pub record Chunker : Type 0 where
  pub chunks : List TextChunk
  pub current : List Text
  pub cur_tok : ℕ
  pub heading : Text
  pub last_tail : Text

module _ (unicode : Unicode) where
  abbrev pub append_chunk : Text → ℕ → Chunker → Chunker
  append_chunk body overlap c =
      if is_empty_text body then record c { current = []; cur_tok = 0 } else record {
        chunks =
            c.chunks
            ++ record { text = body; heading = c.heading; tokens = estimate_tokens unicode body }
              ∷ [];
        current = [];
        cur_tok = 0;
        heading = c.heading;
        last_tail = tail_tokens unicode body overlap;
      }

  abbrev pub flush_body : List Text → Limits → Chunker → Chunker
  flush_body [] l c = c
  flush_body (b ∷ bs) l c = append_chunk (trim_space (join (b ∷ bs) (codes "\n\n"))) l.overlap c

  unfoldable pub flush_chunk : Limits → Chunker → Chunker
  unfolding estimate_tokens tail_tokens
  flush_chunk l c = flush_body c.current l c

  unfoldable pub start_with_overlap : Limits → Chunker → Chunker
  unfolding estimate_tokens
  start_with_overlap l c =
      if ltb 0 l.overlap && not (is_empty_text c.last_tail)
      then record c {
        current = c.current ++ c.last_tail ∷ [];
        cur_tok = estimate_tokens unicode c.last_tail;
      }
      else c

  -- One piece of a block that is too long is a chunk of its own, behind the overlap.
  unfoldable pub add_piece : Limits → Text → Chunker → Chunker
  unfolding flush_chunk start_with_overlap
  add_piece l piece c =
      let started = start_with_overlap l c in
      flush_chunk l (record started {
        current = started.current ++ piece ∷ [];
        cur_tok = estimate_tokens unicode piece;
      })

  unfoldable pub add_pieces : Limits → List Text → Chunker → Chunker
  unfolding add_piece
  add_pieces l [] c = c
  add_pieces l (p ∷ ps) c = add_pieces l ps (add_piece l p c)

  -- A block that fits, in the current chunk or in the next.
  unfoldable pub add_fitting : Limits → Text → Chunker → Chunker
  unfolding flush_chunk start_with_overlap
  add_fitting l block c =
      let room =
        if ltb 0 c.cur_tok && ltb l.target (c.cur_tok + estimate_tokens unicode block)
        then start_with_overlap l (flush_chunk l c)
        else c in
      record room {
        current = room.current ++ block ∷ [];
        cur_tok = room.cur_tok + estimate_tokens unicode block;
      }

  abbrev pub add_headed : Option Text → Limits → Text → Chunker → Chunker
  add_headed (some h) l block c = record (flush_chunk l c) {
    heading = join_heading (flush_chunk l c).heading h (heading_level block);
  }
  add_headed none l block c =
      if ltb l.target (estimate_tokens unicode block)
      then add_pieces l (split_oversized_block unicode block l.target) (flush_chunk l c)
      else add_fitting l block c

  -- The body of the loop over the blocks.
  unfoldable pub add_block : Limits → Text → Chunker → Chunker
  unfolding markdown_heading flush_chunk add_pieces add_fitting
  add_block l block c = add_headed (markdown_heading block) l block c

  unfoldable pub add_blocks : Limits → List Text → Chunker → Chunker
  unfolding add_block
  add_blocks l [] c = c
  add_blocks l (b ∷ bs) c = add_blocks l bs (add_block l b c)

  abbrev pub no_chunks : Chunker
  no_chunks = record { chunks = []; current = []; cur_tok = 0; heading = []; last_tail = [] }

  unfoldable pub chunk_text : Text → ChunkOptions → List TextChunk
  unfolding normalized normalize_whitespace split_blocks add_blocks flush_chunk
  chunk_text text opts =
      let normal = normalize_whitespace text in
      if is_empty_text normal
      then []
      else (flush_chunk (normalized opts)
          (add_blocks (normalized opts) (split_blocks normal) no_chunks)).chunks
