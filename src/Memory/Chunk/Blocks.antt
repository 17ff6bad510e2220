-- ===== src/Memory/Chunk/Blocks.antt =====
-- internal/memory/chunk.go: paragraphs, headings and sentences of a document.
use open_light.Base.{
  ℕ, zero, suc, ◌-◌, Bool, true, false, not, ◌&&◌, ◌||◌, leb, ◌==◌, Option, none, some, List, [],
  ◌∷◌, ◌++◌, if◌then◌else◌, length, take, map,
}
use open_light.Base.Text.{
  Text, codes, is_space, trim_space, split, join, has_prefix, contains, is_empty_text,
}
use open_light.Base.Text.Search.{replace_code}

-- strings.ReplaceAll(s, old, new) for an `old` that is not empty; the next `skip` runes are replaced already
unfoldable pub replace_from : Text → Text → ℕ → Text → Text
replace_from old new skip [] = []
replace_from old new (suc skip) (c ∷ s) = replace_from old new skip s
replace_from old new zero (c ∷ s) = elim (has_prefix (c ∷ s) old) [
  | true ↦ new ++ replace_from old new (length old - 1) s
  | false ↦ c ∷ replace_from old new 0 s
]

unfoldable pub replace_all : Text → Text → Text → Text
unfolding replace_from
replace_all s old new = replace_from old new 0 s

-- strings.Split(s, sep) for a `sep` that is not empty; `cur` is the part that is being read
unfoldable pub split_by_from : Text → ℕ → Text → Text → List Text
split_by_from sep skip [] cur = cur ∷ []
split_by_from sep (suc skip) (c ∷ s) cur = split_by_from sep skip s cur
split_by_from sep zero (c ∷ s) cur = elim (has_prefix (c ∷ s) sep) [
  | true ↦ cur ∷ split_by_from sep (length sep - 1) s []
  | false ↦ split_by_from sep 0 s (cur ++ c ∷ [])
]

unfoldable pub split_by : Text → Text → List Text
unfolding split_by_from
split_by s sep = split_by_from sep 0 s []

-- strings.TrimRight(line, " \t")
unfoldable pub trim_blanks : Text → Text
trim_blanks [] = []
trim_blanks (c ∷ s) =
    let rest = trim_blanks s in
    if is_empty_text rest && (c == b' ' || c == b'\t') then [] else c ∷ rest

-- The loop that takes every run of line ends to two; `fuel` bounds its rounds.
unfoldable pub collapse : ℕ → Text → Text
unfolding replace_all
collapse zero text = text
collapse (suc fuel) text =
    let rest = collapse fuel (replace_all text (codes "\n\n\n") (codes "\n\n")) in
    if contains text (codes "\n\n\n") then rest else text

unfoldable pub normalize_whitespace : Text → Text
unfolding replace_all replace_code collapse trim_blanks
normalize_whitespace text =
    let lines = replace_code b'\r' b'\n' (replace_all text (codes "\r\n") (codes "\n")) in
    trim_space (join (map trim_blanks (split (collapse (length lines) lines) b'\n')) (codes "\n"))

-- strings.TrimLeft(s, "#")
unfoldable pub trim_marks : Text → Text
trim_marks [] = []
trim_marks (c ∷ s) = elim (c == b'#') [ true ↦ trim_marks s | false ↦ c ∷ s ]

unfoldable pub markdown_heading : Text → Option Text
unfolding trim_marks
markdown_heading line =
    let trimmed = trim_space line in
    if not (has_prefix trimmed (codes "#"))
    then none
    else let title = trim_space (trim_marks trimmed) in
      if is_empty_text title then none else some title

-- The number of marks that a text begins with.
unfoldable pub marks : Text → ℕ
marks [] = 0
marks (c ∷ s) = elim (c == b'#') [ true ↦ suc (marks s) | false ↦ 0 ]

unfoldable pub heading_level : Text → ℕ
unfolding marks
heading_level line = let level = marks (trim_space line) in if level == 0 then 1 else level

unfoldable pub join_heading : Text → Text → ℕ → Text
unfolding split_by
join_heading existing next level =
    if leb level 1 || is_empty_text existing
    then next
    else let parts = split_by existing (codes " > ") in
      join ((if leb level (length parts) then take (level - 1) parts else parts) ++ next ∷ [])
        (codes " > ")

-- A text is appended if something is left of it when it is trimmed.
abbrev pub if_some : Text → List Text
if_some text = if is_empty_text (trim_space text) then [] else trim_space text ∷ []

-- The loop over the lines of a paragraph; `pending` are the lines since the last heading.
unfoldable pub line_blocks : List Text → List Text → List Text
unfolding markdown_heading
line_blocks [] pending = if_some (join pending (codes "\n"))
line_blocks (line ∷ lines) pending = elim (markdown_heading line) [
  | some title ↦ if_some (join pending (codes "\n")) ++ trim_space line ∷ line_blocks lines []
  | none ↦ line_blocks lines (pending ++ line ∷ [])
]

unfoldable pub paragraph_blocks : List Text → List Text
unfolding line_blocks
paragraph_blocks [] = []
paragraph_blocks (p ∷ ps) =
    let rest = paragraph_blocks ps in
    if is_empty_text (trim_space p)
    then rest
    else line_blocks (split (trim_space p) b'\n') [] ++ rest

unfoldable pub split_blocks : Text → List Text
unfolding paragraph_blocks split_by
split_blocks text = paragraph_blocks (split_by text (codes "\n\n"))

abbrev ends_sentence : ℕ → Bool
ends_sentence r = r == b'.' || r == b'!' || r == b'?' || r == b'\n'

-- The next rune does not look like a gap.
abbrev goes_on : Text → Bool
goes_on [] = false
goes_on (c ∷ s) = not (is_space c)

-- The loop over the runes; `current` is the sentence that is being read.
unfoldable pub sentences : Text → Text → List Text
sentences [] current = if_some current
sentences (r ∷ s) current = elim (not (ends_sentence r) || goes_on s) [
  | true ↦ sentences s (current ++ r ∷ [])
  | false ↦ if_some (current ++ r ∷ []) ++ sentences s []
]

unfoldable pub split_sentences : Text → List Text
unfolding sentences
split_sentences text = sentences text []
