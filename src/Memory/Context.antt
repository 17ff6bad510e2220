-- ===== src/Memory/Context.antt =====
-- internal/memory/context.go: what of the memory may stand in a prompt.
pub mod Budget
pub mod Dedupe
use open_light.Base.{
  ℕ, zero, suc, ◌+◌, ◌-◌, Bool, true, false, not, ◌&&◌, ◌||◌, leb, ltb, ◌==◌, Option, none, some,
  List, [], ◌∷◌, ◌++◌, if◌then◌else◌, length, take,
}
use open_light.Base.Text.{
  Text, codes, eqt, one_of, to_lower, trim_space, fields, join, strip_prefix, has_prefix,
}
use open_light.Base.Time.{Time}
use open_light.Base.Unicode.{Unicode}
use open_light.Models.{Float64}
use open_light.Memory.Chunk.Tokens.{TokenCounter, add, tokens, no_tokens, estimate_tokens}

pub record Result : Type 0 where
  pub chunk_id : Text
  pub source_id : Text
  pub source_type : Text
  pub source : Text
  pub external_id : Text
  pub title : Text
  pub path : Text
  pub text : Text
  pub score : Float64
  pub timestamp : Time
  pub metadata : List (Text × Text)

pub record Fact : Type 0 where
  pub id : Text
  pub subject : Text
  pub predicate : Text
  pub value : Text
  pub category : Text
  pub confidence : Float64
  pub source_id : Text
  pub valid_from : Time
  -- the zero time means "still current"
  pub valid_to : Time
  pub superseded_by : Text
  pub created_at : Time
  pub updated_at : Time

unfoldable pub text_fingerprint : Text → Text
text_fingerprint text = join (take 12 (fields (to_lower text))) (codes " ")

-- Whether a result that is kept has the fingerprint.
unfoldable pub has_fingerprint : Text → List Result → Bool
unfolding text_fingerprint
has_fingerprint fingerprint [] = false
has_fingerprint fingerprint (r ∷ out) =
    eqt (text_fingerprint r.text) fingerprint || has_fingerprint fingerprint out

-- perSource[id]: the results of the source that are kept
unfoldable pub per_source : Text → List Result → ℕ
per_source id [] = 0
per_source id (r ∷ out) = if eqt r.source_id id then suc (per_source id out) else per_source id out

-- seenChunks[id]
unfoldable pub seen_chunk : Text → List Result → Bool
seen_chunk id [] = false
seen_chunk id (r ∷ out) = eqt r.chunk_id id || seen_chunk id out

-- The body of the loop; `out` are the results that are kept so far.
unfoldable pub keep_result : List Result → Result → List Result
unfolding has_fingerprint per_source seen_chunk
keep_result out result =
    if seen_chunk result.chunk_id out
    then out
    else if has_fingerprint (text_fingerprint result.text) out
    then out
    else if leb 2 (per_source result.source_id out)
    then out
    else out ++ result ∷ []

unfoldable pub keep_results : List Result → List Result → List Result
unfolding keep_result
keep_results out [] = out
keep_results out (r ∷ rs) = keep_results (keep_result out r) rs

unfoldable pub dedupe_results : List Result → List Result
unfolding keep_results
dedupe_results results = keep_results [] results

unfoldable pub fact_key : Fact → Text
fact_key fact = to_lower (trim_space fact.subject) ++ 0 ∷ to_lower (trim_space fact.predicate)

unfoldable pub keep_facts : List Text → List Fact → List Fact
unfolding fact_key
keep_facts seen [] = []
keep_facts seen (f ∷ fs) =
    let skipped = keep_facts seen fs in
    let kept = f ∷ keep_facts (fact_key f ∷ seen) fs in
    if one_of (fact_key f) seen then skipped else kept

unfoldable pub dedupe_facts : List Fact → List Fact
unfolding keep_facts
dedupe_facts facts = keep_facts [] facts

-- The replacer of sanitizeForPrompt, in the order of its arguments.
unfoldable pub boundaries : List (Text × Text)
boundaries =
    (codes "<memory>", codes "(memory)")
    ∷ (codes "</memory>", codes "(/memory)")
    ∷ (codes "<|im_start|>", [])
    ∷ (codes "<|im_end|>", [])
    ∷ (codes "<|system|>", [])
    ∷ (codes "<|user|>", [])
    ∷ (codes "<|assistant|>", [])
    ∷ (codes "<|endoftext|>", [])
    ∷ []

-- The first pair whose old text stands at the start: its length and its new text.
unfoldable pub matching : List (Text × Text) → Text → Option (ℕ × Text)
matching [] text = none
matching ((old, new) ∷ pairs) text =
    if has_prefix text old then some (length old, new) else matching pairs text

-- strings.NewReplacer(pairs...).Replace(text); the next `skip` runes are replaced already
unfoldable pub replace_pairs : List (Text × Text) → ℕ → Text → Text
unfolding matching
replace_pairs pairs skip [] = []
replace_pairs pairs (suc skip) (c ∷ s) = replace_pairs pairs skip s
replace_pairs pairs zero (c ∷ s) = elim (matching pairs (c ∷ s)) [
  | none ↦ c ∷ replace_pairs pairs 0 s
  | some (n, new) ↦ new ++ replace_pairs pairs (n - 1) s
]

-- unicode.IsControl: the runes of the category Cc
unfoldable pub is_control : ℕ → Bool
is_control r = ltb r 0x20 || (leb 0x7F r && ltb r 0xA0)

unfoldable pub without_controls : Text → Text
unfolding is_control
without_controls [] = []
without_controls (c ∷ s) =
    let rest = without_controls s in
    if is_control c && not (c == b'\n') && not (c == b'\t') then rest else c ∷ rest

unfoldable pub sanitize_for_prompt : Text → Text
unfolding boundaries replace_pairs without_controls
sanitize_for_prompt text = trim_space (without_controls (replace_pairs boundaries 0 text))

module _ (unicode : Unicode) where
  -- probe: the counter with the next word, behind a space if it is not the first
  unfoldable pub probe : List Text → TokenCounter → Text → TokenCounter
  unfolding add
  probe [] counter field = add unicode field counter
  probe (k ∷ kept) counter field = add unicode field (add unicode (codes " ") counter)

  -- The loop of trimToTokens: the words that fit.
  unfoldable pub keep_words : ℕ → List Text → List Text → TokenCounter → List Text
  unfolding probe tokens
  keep_words budget [] kept counter = kept
  keep_words budget (f ∷ fs) kept counter =
      let rest = keep_words budget fs (kept ++ f ∷ []) (probe kept counter f) in
      if ltb budget (tokens unicode (probe kept counter f)) then kept else rest

  abbrev marked : List Text → Text
  marked [] = []
  marked (k ∷ kept) = join (k ∷ kept) (codes " ") ++ codes " …"

  unfoldable pub trim_to_tokens : Text → ℕ → Text
  unfolding estimate_tokens keep_words
  trim_to_tokens text budget =
      if budget == 0
      then []
      else if leb (estimate_tokens unicode text) budget
      then text
      else marked (
          keep_words (if ltb 1 budget then budget - 1 else budget) (fields text) []
            (no_tokens unicode))
