-- ===== src/Memory/Context/Dedupe.antt =====
-- internal/memory/context.go: no source crowds out the others, and no chunk comes twice.
use open_light.Base.{
  ℕ, suc, ◌≤◌, Bool, true, false, leb, List, [], ◌∷◌, ◌++◌, ◌≡◌, refl, arith, if◌then◌else◌,
}
use open_light.Base.Text.{Text, eqt, eqt_iff}
use open_light.Memory.Context.{
  Result, text_fingerprint, has_fingerprint, per_source, seen_chunk, keep_result, keep_results,
  dedupe_results,
}

-- How many of the results are the chunk, and how many have the fingerprint.
unfoldable pub per_chunk : Text → List Result → ℕ
per_chunk id [] = 0
per_chunk id (r ∷ out) = if eqt r.chunk_id id then suc (per_chunk id out) else per_chunk id out

unfoldable pub per_fingerprint : Text → List Result → ℕ
unfolding text_fingerprint
per_fingerprint t [] = 0
per_fingerprint t (r ∷ out) =
    if eqt (text_fingerprint r.text) t then suc (per_fingerprint t out) else per_fingerprint t out

per_source-append :
    (id : Text) (out : List Result) (r : Result)
    → per_source id (out ++ r ∷ [])
      ≡ (if eqt r.source_id id then suc (per_source id out) else per_source id out)
unfolding per_source
per_source-append id [] r = refl
per_source-append id (k ∷ out) r = ground (arith, per_source-append id out r)

per_chunk-append :
    (id : Text) (out : List Result) (r : Result)
    → per_chunk id (out ++ r ∷ [])
      ≡ (if eqt r.chunk_id id then suc (per_chunk id out) else per_chunk id out)
unfolding per_chunk
per_chunk-append id [] r = refl
per_chunk-append id (k ∷ out) r = ground (arith, per_chunk-append id out r)

per_fingerprint-append :
    (t : Text) (out : List Result) (r : Result)
    → per_fingerprint t (out ++ r ∷ []) ≡ (
        if eqt (text_fingerprint r.text) t
        then suc (per_fingerprint t out)
        else per_fingerprint t out)
unfolding per_fingerprint
per_fingerprint-append t [] r = refl
per_fingerprint-append t (k ∷ out) r = ground (arith, per_fingerprint-append t out r)

unseen : (id : Text) (out : List Result) → seen_chunk id out ≡ false → per_chunk id out ≡ 0
unfolding seen_chunk per_chunk
unseen id [] h = refl
unseen id (r ∷ out) h = ground (arith, unseen id out)

unprinted :
    (t : Text) (out : List Result) → has_fingerprint t out ≡ false → per_fingerprint t out ≡ 0
unfolding has_fingerprint per_fingerprint
unprinted t [] h = refl
unprinted t (r ∷ out) h = ground (arith, unprinted t out)

record IsSpread (out : List Result) : Type 0 where
  sources : (id : Text) → per_source id out ≤ 2
  chunks : (id : Text) → per_chunk id out ≤ 1
  fingerprints : (t : Text) → per_fingerprint t out ≤ 1

appended-IsSpread :
    (out : List Result) (r : Result)
    → seen_chunk r.chunk_id out ≡ false
    → has_fingerprint (text_fingerprint r.text) out ≡ false
    → leb 2 (per_source r.source_id out) ≡ false
    → IsSpread out
    → IsSpread (out ++ r ∷ [])
appended-IsSpread out r a b c h = record {
  sources =
      λ id. ground (arith, per_source-append id out r, eqt_iff r.source_id id, h.sources id, c);
  chunks = λ id. ground (
    arith,
    per_chunk-append id out r,
    eqt_iff r.chunk_id id,
    h.chunks id,
    unseen r.chunk_id out a,
  );
  fingerprints = λ t. ground (
    arith,
    per_fingerprint-append t out r,
    eqt_iff (text_fingerprint r.text) t,
    h.fingerprints t,
    unprinted (text_fingerprint r.text) out b,
  );
}

keep_result-IsSpread :
    (out : List Result) (r : Result) → IsSpread out → IsSpread (keep_result out r)
unfolding keep_result
keep_result-IsSpread out r h =
    choose (seen_chunk r.chunk_id out) refl (has_fingerprint (text_fingerprint r.text) out) refl
      (leb 2 (per_source r.source_id out)) refl
  where
    choose :
        (a : Bool)
        → seen_chunk r.chunk_id out ≡ a
        → (b : Bool) → has_fingerprint (text_fingerprint r.text) out ≡ b
        → (c : Bool) → leb 2 (per_source r.source_id out) ≡ c
        → IsSpread (if a then out else if b then out else if c then out else out ++ r ∷ [])
    choose true ea b eb c ec = h
    choose false ea true eb c ec = h
    choose false ea false eb true ec = h
    choose false ea false eb false ec = appended-IsSpread out r ea eb ec h

keep_results-IsSpread : (out rs : List Result) → IsSpread out → IsSpread (keep_results out rs)
unfolding keep_results
keep_results-IsSpread out [] h = h
keep_results-IsSpread out (r ∷ rs) h =
    keep_results-IsSpread (keep_result out r) rs (keep_result-IsSpread out r h)

nothing-IsSpread : IsSpread []
unfolding per_source per_chunk per_fingerprint
nothing-IsSpread = record {
  sources = λ id. omega arith;
  chunks = λ id. omega arith;
  fingerprints = λ t. omega arith;
}

-- Of the results that are kept, at most two are of one source, and no two are the same chunk or begin with
-- the same words.
pub dedupe_results-bounds :
    (results : List Result) (source chunk fingerprint : Text)
    → (per_source source (dedupe_results results) ≤ 2)
      × (per_chunk chunk (dedupe_results results) ≤ 1)
      × (per_fingerprint fingerprint (dedupe_results results) ≤ 1)
unfolding dedupe_results
dedupe_results-bounds results source chunk fingerprint =
    let spread : IsSpread (keep_results [] results) =
      keep_results-IsSpread [] results nothing-IsSpread in
    (spread.sources source, spread.chunks chunk, spread.fingerprints fingerprint)
