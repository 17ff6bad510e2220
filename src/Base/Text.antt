-- ===== src/Base/Text.antt =====
-- Go's strings as lists of runes, and what the program uses of the packages strings and unicode.
pub mod Search
pub mod Fields
pub mod Trim
use Prim.Native.Nat.{ℕ, ◌+◌}
use Prim.Native.Char.{code}
use Prim.Native.String.{String}
use mathlib.Core.Path.{◌≡◌, refl}
use mathlib.Core.Logic.{◌↔◌}
use mathlib.Core.Bool.{Bool, true, false, ◌&&◌, ◌||◌}
use mathlib.Core.Option.{Option, none, some}
use mathlib.Core.List.{List, [], ◌∷◌, ◌++◌, map}
use native.Mathlib.Omega.{arith}
use open_light.Base.Tests.{leb, ◌==◌, if◌then◌else◌}

abbrev pub Text : Type 0
Text = List ℕ

-- The runes of a literal.
unfoldable pub codes : String → Text
codes String.[] = []
codes (String.◌∷◌ c s) = code c ∷ codes s

-- a == b on strings
unfoldable pub eqt : Text → Text → Bool
eqt [] [] = true
eqt [] (c ∷ t) = false
eqt (c ∷ s) [] = false
eqt (c ∷ s) (d ∷ t) = c == d && eqt s t

pub eqt_iff : (s t : Text) → (eqt s t ≡ true) ↔ (s ≡ t)
unfolding eqt
eqt_iff [] [] = (λ _. refl, λ _. refl)
eqt_iff [] (c ∷ t) = (λ h. cc, λ h. cc)
eqt_iff (c ∷ s) [] = (λ h. cc, λ h. cc)
eqt_iff (c ∷ s) (d ∷ t) = ground (arith, eqt_iff s t)

pub eqt_refl : (s : Text) → eqt s s ≡ true
eqt_refl s = (eqt_iff s s).1 refl

-- unicode.IsSpace: the runes with the property White_Space.
unfoldable pub is_space : ℕ → Bool
is_space r =
    (leb 9 r && leb r 13)
    || r == 32
    || r == 0x85
    || r == 0xA0
    || r == 0x1680
    || (leb 0x2000 r && leb r 0x200A)
    || r == 0x2028
    || r == 0x2029
    || r == 0x202F
    || r == 0x205F
    || r == 0x3000

-- unicode.ToLower on ASCII, Latin-1 and basic Cyrillic, and on the two runes outside ASCII whose
-- lower case is ASCII. Other runes stay as they are: the program compares lowered text with words
-- of these alphabets only.
unfoldable pub lower : ℕ → ℕ
lower r =
    if leb 65 r && leb r 90
    then r + 32
    else if (leb 0xC0 r && leb r 0xD6) || (leb 0xD8 r && leb r 0xDE) || (leb 0x410 r && leb r 0x42F)
    then r + 32
    else if leb 0x400 r && leb r 0x40F
    then r + 80
    else if r == 0x130
    then b'i'
    else if r == 0x212A
    then b'k'
    else r

-- unicode.SimpleFold takes each rune to the least of its class; this key tells the same classes apart
-- within the alphabets of `lower`.
fold : ℕ → ℕ
unfolding lower
fold r = if r == 0x130 then r else if r == 0x17F then b's' else lower r

-- strings.ToLower
unfoldable pub to_lower : Text → Text
unfolding lower
to_lower s = map lower s

-- strings.EqualFold
unfoldable pub equal_fold : Text → Text → Bool
unfolding eqt fold
equal_fold s t = eqt (map fold s) (map fold t)

-- strings.TrimLeftFunc(s, unicode.IsSpace)
unfoldable pub trim_left : Text → Text
unfolding is_space
trim_left [] = []
trim_left (c ∷ s) = elim (is_space c) [ true ↦ trim_left s | false ↦ c ∷ s ]

-- A rune before a trimmed tail: a space stays only before something.
unfoldable pub trim_cons : ℕ → Text → Text
unfolding is_space
trim_cons c [] = if is_space c then [] else c ∷ []
trim_cons c (d ∷ s) = c ∷ d ∷ s

-- strings.TrimRightFunc(s, unicode.IsSpace)
unfoldable pub trim_right : Text → Text
unfolding trim_cons
trim_right [] = []
trim_right (c ∷ s) = trim_cons c (trim_right s)

-- strings.TrimSpace
unfoldable pub trim_space : Text → Text
unfolding trim_left trim_right
trim_space s = trim_right (trim_left s)

abbrev pub flush : Text → List Text
flush [] = []
flush (c ∷ s) = (c ∷ s) ∷ []

-- strings.Fields; `cur` is the field that is being read
unfoldable pub fields_from : Text → Text → List Text
unfolding is_space
fields_from [] cur = flush cur
fields_from (c ∷ s) cur = elim (is_space c) [
  | true ↦ flush cur ++ fields_from s []
  | false ↦ fields_from s (cur ++ c ∷ [])
]

unfoldable pub fields : Text → List Text
unfolding fields_from
fields s = fields_from s []

-- strings.Split by one rune; `cur` is the part that is being read
unfoldable pub split_from : ℕ → Text → Text → List Text
split_from sep [] cur = cur ∷ []
split_from sep (c ∷ s) cur = elim (c == sep) [
  | true ↦ cur ∷ split_from sep s []
  | false ↦ split_from sep s (cur ++ c ∷ [])
]

unfoldable pub split : Text → ℕ → List Text
unfolding split_from
split s sep = split_from sep s []

-- strings.Join
unfoldable pub join : List Text → Text → Text
join [] sep = []
join (p ∷ []) sep = p
join (p ∷ q ∷ ps) sep = p ++ sep ++ join (q ∷ ps) sep

-- What is left of `s` behind the prefix `p`.
unfoldable pub strip_prefix : Text → Text → Option Text
strip_prefix s [] = some s
strip_prefix [] (d ∷ p) = none
strip_prefix (c ∷ s) (d ∷ p) = elim (c == d) [ true ↦ strip_prefix s p | false ↦ none ]

abbrev is_some : Option Text → Bool
is_some none = false
is_some (some t) = true

abbrev or_else : Option Text → Text → Text
or_else none t = t
or_else (some s) t = s

-- strings.HasPrefix
unfoldable pub has_prefix : Text → Text → Bool
unfolding strip_prefix
has_prefix s p = is_some (strip_prefix s p)

-- strings.TrimPrefix
unfoldable pub trim_prefix : Text → Text → Text
unfolding strip_prefix
trim_prefix s p = or_else (strip_prefix s p) s

-- strings.Contains
unfoldable pub contains : Text → Text → Bool
unfolding has_prefix
contains [] p = has_prefix [] p
contains (c ∷ s) p = has_prefix (c ∷ s) p || contains s p

-- A case of a `switch` with several words.
unfoldable pub one_of : Text → List Text → Bool
unfolding eqt
one_of s [] = false
one_of s (t ∷ ts) = eqt s t || one_of s ts

-- s == ""
abbrev pub is_empty_text : Text → Bool
is_empty_text [] = true
is_empty_text (c ∷ s) = false
