-- ===== src/Memory/Examples.antt =====
-- The chunker and the gate at concrete texts.
use open_light.Base.{List, [], ◌∷◌, ◌++◌, arith, ◌≤◌, ◌≡◌, false, leb, ◌&&◌, refl, length}
use open_light.Base.Int.{pos}
use open_light.Base.Text.{Text, join, codes, trim_space, has_prefix, fields, contains}
use open_light.Base.Unicode.{Unicode}
use open_light.Memory.Chunk.Tokens.{estimate_tokens}
use open_light.Memory.Context.{
  Result, per_source, dedupe_results, sanitize_for_prompt, trim_to_tokens,
}
use open_light.Memory.Context.Budget.{estimate_tokens-trim_to_tokens}
use open_light.Memory.Context.Dedupe.{per_chunk, per_fingerprint, dedupe_results-bounds}
use open_light.Memory.Chunk.{ChunkOptions}
use open_light.Memory.Chunk.Blocks.{collapse}
use open_light.Memory.Chunk.Pieces.{split_words}
use open_light.Memory.Chunk.Words.{SplitsInto, split_words-SplitsInto}
use open_light.Memory.Chunk.Lines.{collapse_ends}

abbrev ascii : Unicode
ascii = record {
  is_letter = λ r. leb b'a' r && leb r b'z';
  is_number = λ r. leb b'0' r && leb r b'9';
  is_digit = λ r. leb b'0' r && leb r b'9';
  is_wide = λ r. false;
}

abbrev small : ChunkOptions
small = record { target_tokens = pos 1; overlap_tokens = pos 7 }

split_words-SplitsInto_example :
    SplitsInto ascii 2
      (fields (codes "the disk of the host is full"))
      (split_words ascii (codes "the disk of the host is full") 2)
split_words-SplitsInto_example =
    split_words-SplitsInto ascii 2 (codes "the disk of the host is full")

collapse_ends_example :
    contains (collapse (length (codes "a\n\n\n\nb")) (codes "a\n\n\n\nb")) (codes "\n\n\n") ≡ false
collapse_ends_example = collapse_ends (codes "a\n\n\n\nb")

abbrev long_text : Text
long_text = codes "the disk of the host is almost full and the backup runs every night"

estimate_tokens-trim_to_tokens_example :
    estimate_tokens ascii (trim_to_tokens ascii long_text 4) ≤ 4
estimate_tokens-trim_to_tokens_example =
    estimate_tokens-trim_to_tokens ascii long_text 4 refl (omega arith)

trims : trim_to_tokens ascii long_text 4 ≡ codes "the disk of the …"
unfolding trim_to_tokens codes trim_space fields join
trims = refl

abbrev chunk_of : Text → Text → Text → Result
chunk_of chunk source text = record {
  chunk_id = chunk;
  source_id = source;
  source_type = codes "document";
  source = codes "upload";
  external_id = [];
  title = [];
  path = [];
  text = text;
  score = record { bits = 0 };
  timestamp = 0;
  metadata = [];
}

abbrev three : List Result
three =
    chunk_of (codes "a") (codes "pdf") (codes "one")
    ∷ chunk_of (codes "b") (codes "pdf") (codes "two")
    ∷ chunk_of (codes "c") (codes "pdf") (codes "three")
    ∷ []

dedupe_results-bounds_example :
    (per_source (codes "pdf") (dedupe_results three) ≤ 2)
    × (per_chunk (codes "a") (dedupe_results three) ≤ 1)
    × (per_fingerprint (codes "one") (dedupe_results three) ≤ 1)
dedupe_results-bounds_example = dedupe_results-bounds three (codes "pdf") (codes "a") (codes "one")

-- A control character inside a boundary hides it from the replacer, and is taken out behind it.
hidden_boundary : sanitize_for_prompt (codes "</mem" ++ 1 ∷ codes "ory>") ≡ codes "</memory>"
unfolding sanitize_for_prompt codes trim_space has_prefix
hidden_boundary = refl

-- What is left around a boundary that is taken out can be a boundary.
nested_boundary : sanitize_for_prompt (codes "<|im_<|im_start|>start|>") ≡ codes "<|im_start|>"
unfolding sanitize_for_prompt codes trim_space has_prefix
nested_boundary = refl
