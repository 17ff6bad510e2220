-- ===== src/Base/Text/Search.antt =====
-- Finding a text in a text: the functions of Go's strings that return a position or cut at one. A
-- position counts code points.
use Prim.Native.Nat.{ℕ, zero, suc}
use mathlib.Core.Bool.{Bool, true, false, ◌||◌}
use mathlib.Core.Option
use mathlib.Core.Option.{Option, none, some}
use mathlib.Core.List.{[], ◌∷◌, map}
use open_light.Base.Tests.{leb, ◌==◌, if◌then◌else◌}
use open_light.Base.Text.{Text, strip_prefix, has_prefix}

abbrev behind : ℕ → Text → Option (Text × Text) → Option (Text × Text)
behind c s none = none
behind c s (some (before, after)) = some (c ∷ before, after)

-- strings.Cut(s, sep) for a `sep` that is not empty; `none` is `false`. strings.SplitN(s, sep, 2) has
-- these two parts, or `s` alone.
unfoldable pub cut : Text → Text → Option (Text × Text)
unfolding strip_prefix
cut [] sep = none
cut (c ∷ s) sep =
    let rest = cut s sep in
    elim (strip_prefix (c ∷ s) sep) [ some after ↦ some ([], after) | none ↦ behind c s rest ]

-- strings.Index, for a `sep` that is not empty
unfoldable pub index : Text → Text → Option ℕ
index [] sep = none
index (c ∷ s) sep =
    let rest = index s sep in if has_prefix (c ∷ s) sep then some 0 else Option.map suc rest

abbrev last_of : Option ℕ → Bool → Option ℕ
last_of (some n) here = some (suc n)
last_of none here = if here then some 0 else none

-- strings.LastIndex, for a `sep` that is not empty
unfoldable pub last_index : Text → Text → Option ℕ
last_index [] sep = none
last_index (c ∷ s) sep = last_of (last_index s sep) (has_prefix (c ∷ s) sep)

-- s[n:]
unfoldable pub drop_text : ℕ → Text → Text
drop_text zero s = s
drop_text (suc n) [] = []
drop_text (suc n) (c ∷ s) = drop_text n s

-- s[:n]
unfoldable pub take_text : ℕ → Text → Text
take_text zero s = []
take_text (suc n) [] = []
take_text (suc n) (c ∷ s) = c ∷ take_text n s

-- strings.ContainsRune
unfoldable pub has_code : ℕ → Text → Bool
has_code r [] = false
has_code r (c ∷ s) = c == r || has_code r s

-- strings.ReplaceAll of one rune by another
unfoldable pub replace_code : ℕ → ℕ → Text → Text
replace_code old new s = map (λ c. if c == old then new else c) s

-- what stands before the first rune `r`, or all of it
unfoldable pub before_code : ℕ → Text → Text
before_code r [] = []
before_code r (c ∷ s) = elim (c == r) [ true ↦ [] | false ↦ c ∷ before_code r s ]

-- The order of Go's strings: of their bytes in UTF-8, and so of their code points.
unfoldable pub leb_text : Text → Text → Bool
leb_text [] t = true
leb_text (c ∷ s) [] = false
leb_text (c ∷ s) (d ∷ t) = if c == d then leb_text s t else leb c d
