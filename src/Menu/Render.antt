-- ===== src/Menu/Render.antt =====
-- internal/telegram/ui/render/render.go and the titles of internal/telegram/ui/ui.go: the cards.
-- `capitalize` puts a word into title case.
use open_light.Base.{ℕ, [], ◌∷◌, ◌++◌, map, length, take, leb, if◌then◌else◌}
use open_light.Base.Text.{Text, codes, fields, join, trim_space, is_empty_text}
use open_light.Base.Text.Search.{replace_code}
use open_light.Registry.{Definition}
use open_light.Registry.Groups.{Group}

unfoldable pub human_readable : (Text → Text) → Text → Text
human_readable capitalize name =
    join (map capitalize (fields (trim_space (replace_code b'_' b' ' name)))) (codes " ")

unfoldable pub clamp : Text → ℕ → Text
clamp value max =
    if leb max 0
    then value
    else if leb (length value) max
    then value
    else trim_space (take max value) ++ codes "\n…"

abbrev pub max_runes : ℕ
max_runes = 1500

abbrev or_text : Text → Text → Text
or_text [] other = other
or_text (c ∷ s) other = c ∷ s

unfoldable pub skill_card : (Text → Text) → Definition → Text → Text
unfolding human_readable clamp
skill_card capitalize d body =
    let header = trim_space d.group.title in
    let title = trim_space (human_readable capitalize d.name) in
    (if is_empty_text header then title else header ++ codes " · " ++ title)
    ++ codes "\n"
    ++ clamp (or_text (trim_space body) (codes "(no output)")) max_runes

unfoldable pub group_card : Group → Text
group_card group =
    let title = trim_space group.title in
    let description = trim_space group.description in
    if is_empty_text description
    then title
    else title ++ codes "\n" ++ description ++ codes "\n\nChoose a skill:"

unfoldable pub error_card : (Text → Text) → Definition → Text → Text
unfolding human_readable clamp
error_card capitalize d message =
    codes "✗ "
    ++ human_readable capitalize d.name
    ++ codes "\n"
    ++ clamp (or_text (trim_space message) (codes "internal error")) max_runes

unfoldable pub skill_header : (Text → Text) → Definition → Text
unfolding human_readable
skill_header capitalize d =
    let title = human_readable capitalize d.name in
    let description = trim_space d.description in
    if is_empty_text description
    then title ++ codes "\n\n"
    else title ++ codes "\n" ++ description ++ codes "\n\n"
