-- ===== src/Registry/Spelling.antt =====
-- internal/skills/registry.go: which spellings of an identifier are one to ResolveIdentifier.
use open_light.Base.{
  ℕ, ◌==◌, ◌||◌, false, none, some, List, [], ◌∷◌, ◌++◌, map, ◌≡◌, ◌⊎◌, inl, inr, refl, sym, ap,
  ◌∙◌, arith, if◌then◌else◌,
}
use open_light.Base.Text.{
  Text, codes, lower, to_lower, trim_space, trim_prefix, strip_prefix, fields, fields_from, join,
  is_empty_text,
}
use open_light.Base.Text.Search.{replace_code}
use open_light.Base.Text.Trim.{trim_space_twice}
use open_light.Registry.{
  Definition, Registry, normalize_identifier, clean_texts, normalize_definition, register,
  resolve_identifier,
}
use open_light.Registry.Lookup.{
  IsSound, own_name, resolve_identifier-own_name, resolve_identifier-register,
}

-- A letter counts as the small one, and a dash or an underscore as a space.
abbrev pub sound_of : ℕ → ℕ
sound_of c = if lower c == b'_' || lower c == b'-' then b' ' else lower c

-- A text without the white space around it, as far as capitals and the signs between words go.
abbrev pub spelling : Text → Text
spelling s = map sound_of (trim_space s)

sounds : (s : Text) → replace_code b'-' b' ' (replace_code b'_' b' ' (to_lower s)) ≡ map sound_of s
unfolding replace_code to_lower
sounds [] = refl
sounds (c ∷ s) = ground (arith, sounds s)

sounds-trim_prefix :
    (s : Text)
    → replace_code b'-' b' ' (replace_code b'_' b' ' (trim_prefix (to_lower s) (codes "/")))
      ≡ trim_prefix (map sound_of s) (codes "/")
unfolding trim_prefix strip_prefix codes to_lower replace_code
sounds-trim_prefix [] = refl
sounds-trim_prefix (c ∷ s) = ground (arith, sounds s)

-- Only the spelling of an identifier matters.
normalize_identifier-spelling :
    (s : Text)
    → normalize_identifier s ≡ join (fields (trim_prefix (spelling s) (codes "/"))) (codes " ")
unfolding normalize_identifier
normalize_identifier-spelling s =
    ap (λ t. join (fields t) (codes " ")) (sounds-trim_prefix (trim_space s))

normalize_identifier-alike :
    (i j : Text) → spelling i ≡ spelling j → normalize_identifier i ≡ normalize_identifier j
normalize_identifier-alike i j e =
    normalize_identifier-spelling i
    ∙ ap (λ t. join (fields (trim_prefix t (codes "/"))) (codes " ")) e
    ∙ sym (normalize_identifier-spelling j)

normalize_identifier-trim_space :
    (s : Text) → normalize_identifier (trim_space s) ≡ normalize_identifier s
normalize_identifier-trim_space s =
    normalize_identifier-alike (trim_space s) s (ap (map sound_of) (trim_space_twice s))

-- An alias that is not blank is among the cleaned ones.
clean_texts-at :
    (before after : List Text) (i : Text)
    → is_empty_text (trim_space i) ≡ false
    → clean_texts (before ++ i ∷ after) ≡ clean_texts before ++ trim_space i ∷ clean_texts after
unfolding clean_texts
clean_texts-at [] after i h = ground arith
clean_texts-at (b ∷ before) after i h = ground (arith, clean_texts-at before after i h)

not_blank :
    (i : Text)
    → is_empty_text (normalize_identifier i) ≡ false
    → is_empty_text (trim_space i) ≡ false
unfolding normalize_identifier to_lower trim_prefix strip_prefix codes replace_code fields
    fields_from join
not_blank i h = cases (trim_space i) refl
  where
    cases : (t : Text) → trim_space i ≡ t → is_empty_text t ≡ false
    cases [] e = cc (h, e)
    cases (c ∷ t) e = refl

resolve_identifier-alike :
    (i j : Text) (r : Registry)
    → normalize_identifier i ≡ normalize_identifier j
    → resolve_identifier i r ≡ resolve_identifier j r
unfolding resolve_identifier
resolve_identifier-alike i j r e = ground arith

-- The name of a skill, or an alias that does not normalize to nothing.
abbrev pub Identifies : Text → Definition → Type 0
Identifies i skill =
    (i ≡ skill.name)
    ⊎ ((before : List Text) × (after : List Text) × (skill.aliases ≡ before ++ i ∷ after)
        × (is_empty_text (normalize_identifier i) ≡ false))

-- In a sound registry that accepts a skill, the skill is found by its name and by each of its aliases
-- that does not normalize to nothing, in any spelling: white space around it, capitals, and which of
-- dash, underscore and space stands between two words make no difference.
pub resolve_identifier-spelling :
    (skill : Definition) (r : Registry)
    → IsSound r
    → (register skill r).refusal ≡ none
    → (i j : Text) → Identifies i skill
    → spelling j ≡ spelling i
    → resolve_identifier j (register skill r).registry ≡ some skill
unfolding normalize_definition
resolve_identifier-spelling skill r sound accepted i j (inl e) s =
    resolve_identifier-own_name skill r sound accepted j (
      normalize_identifier-alike j i s
      ∙ ap normalize_identifier e
      ∙ sym (normalize_identifier-trim_space skill.name))
resolve_identifier-spelling skill r sound accepted i j (inr (before, after, e, filled)) s =
    resolve_identifier-alike j (trim_space i) (register skill r).registry
      (normalize_identifier-alike j i s ∙ sym (normalize_identifier-trim_space i))
    ∙ resolve_identifier-register skill r sound accepted
        (own_name skill r sound accepted ∷ clean_texts before) (clean_texts after) (trim_space i)
        (ap (λ l. own_name skill r sound accepted ∷ clean_texts l) e
          ∙ ap (λ l. own_name skill r sound accepted ∷ l)
              (clean_texts-at before after i (not_blank i filled)))
        (ap is_empty_text (normalize_identifier-trim_space i) ∙ filled)
