-- ===== src/Memory/Chunk/Bounds.antt =====
-- internal/memory/chunk.go: what holds of the options and of every chunk.
use open_light.Base.{
  ℕ, ◌+◌, ◌*◌, ◌≤◌, ◌<◌, Bool, true, false, not, ◌&&◌, ltb, Option, none, some, List, [], ◌∷◌, ◌≡◌,
  refl, All, All-append, if◌then◌else◌, arith,
}
use open_light.Base.Text.{Text, codes, trim_space, join, is_empty_text}
use open_light.Base.Unicode.{Unicode}
use open_light.Memory.Chunk.Tokens.{estimate_tokens}
use open_light.Memory.Chunk.Blocks.{markdown_heading, split_blocks, normalize_whitespace}
use open_light.Memory.Chunk.Pieces.{split_oversized_block}
use open_light.Memory.Chunk.{
  ChunkOptions, Limits, normalized, TextChunk, Chunker, append_chunk, flush_body, flush_chunk,
  start_with_overlap, add_piece, add_pieces, add_fitting, add_headed, add_block, add_blocks,
  no_chunks, chunk_text,
}

-- Whatever the options are, the target is positive and the overlap is at most half of it.
normalized-bounds :
    (o : ChunkOptions)
    → (0 < (normalized o).target) × (2 * (normalized o).overlap ≤ (normalized o).target)
unfolding normalized
normalized-bounds o = (ground arith, ground arith)

module _ (unicode : Unicode) where
  -- A chunk that can be stored: it has a text, and its number of tokens is the estimate of the text.
  pub record IsChunk (c : TextChunk) : Type 0 where
    pub text_given : is_empty_text c.text ≡ false
    pub counted : c.tokens ≡ estimate_tokens unicode c.text

  abbrev Good : Chunker → Type 0
  Good c = All IsChunk c.chunks

  append_chunk-Good :
      (body : Text) (overlap : ℕ) (c : Chunker)
      → Good c
      → Good (append_chunk unicode body overlap c)
  append_chunk-Good [] overlap c h = h
  append_chunk-Good (r ∷ body) overlap c h =
      All-append IsChunk c.chunks _ h (record { text_given = refl; counted = refl }, tt)

  flush_body-Good :
      (bs : List Text) (l : Limits) (c : Chunker) → Good c → Good (flush_body unicode bs l c)
  flush_body-Good [] l c h = h
  flush_body-Good (b ∷ bs) l c h =
      append_chunk-Good (trim_space (join (b ∷ bs) (codes "\n\n"))) l.overlap c h

  flush_chunk-Good : (l : Limits) (c : Chunker) → Good c → Good (flush_chunk unicode l c)
  unfolding flush_chunk
  flush_chunk-Good l c h = flush_body-Good c.current l c h

  if-Good : (b : Bool) (c d : Chunker) → Good c → Good d → Good (if b then c else d)
  if-Good true c d hc hd = hc
  if-Good false c d hc hd = hd

  start-Good : (l : Limits) (c : Chunker) → Good c → Good (start_with_overlap unicode l c)
  unfolding start_with_overlap
  start-Good l c h = if-Good (ltb 0 l.overlap && not (is_empty_text c.last_tail)) _ c h h

  add_pieces-Good :
      (l : Limits) (ps : List Text) (c : Chunker) → Good c → Good (add_pieces unicode l ps c)
  unfolding add_pieces add_piece
  add_pieces-Good l [] c h = h
  add_pieces-Good l (p ∷ ps) c h =
      add_pieces-Good l ps (add_piece unicode l p c) (flush_chunk-Good l _ (start-Good l c h))

  add_fitting-Good :
      (l : Limits) (block : Text) (c : Chunker) → Good c → Good (add_fitting unicode l block c)
  unfolding add_fitting
  add_fitting-Good l block c h =
      if-Good (ltb 0 c.cur_tok && ltb l.target (c.cur_tok + estimate_tokens unicode block)) _ c
        (start-Good l _ (flush_chunk-Good l c h)) h

  add_headed-Good :
      (o : Option Text) (l : Limits) (block : Text) (c : Chunker)
      → Good c
      → Good (add_headed unicode o l block c)
  add_headed-Good (some title) l block c h = flush_chunk-Good l c h
  add_headed-Good none l block c h =
      if-Good (ltb l.target (estimate_tokens unicode block)) _ _
        (add_pieces-Good l (split_oversized_block unicode block l.target) _
          (flush_chunk-Good l c h))
        (add_fitting-Good l block c h)

  add_blocks-Good :
      (l : Limits) (bs : List Text) (c : Chunker) → Good c → Good (add_blocks unicode l bs c)
  unfolding add_blocks add_block
  add_blocks-Good l [] c h = h
  add_blocks-Good l (b ∷ bs) c h =
      add_blocks-Good l bs (add_block unicode l b c) (add_headed-Good (markdown_heading b) l b c h)

  if-All : (b : Bool) (xs : List TextChunk) → All IsChunk xs → All IsChunk (if b then [] else xs)
  if-All true xs h = tt
  if-All false xs h = h

  -- Every chunk of a text has a text that is not empty, and its number of tokens is the estimate of that
  -- text, for any options.
  pub chunk_text-IsChunk :
      (text : Text) (opts : ChunkOptions) → All IsChunk (chunk_text unicode text opts)
  unfolding chunk_text
  chunk_text-IsChunk text opts = if-All (is_empty_text (normalize_whitespace text)) _ (
      flush_chunk-Good (normalized opts) _ (
        add_blocks-Good (normalized opts) (split_blocks (normalize_whitespace text))
          (no_chunks unicode) tt))
