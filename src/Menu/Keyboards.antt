-- ===== src/Menu/Keyboards.antt =====
-- internal/telegram/ui/keyboards/keyboards.go: the rows of buttons.
use mathlib.Core.Option
use open_light.Base.{
  ℕ, ◌+◌, ◌-◌, ◌*◌, ◌%◌, ◌^◌, ◌||◌, Option, none, some, Bool, true, false, not, List, [], ◌∷◌, ◌++◌,
  map, select, length, take, drop, ltb, leb, if◌then◌else◌,
}
use open_light.Base.Text.{Text, codes, trim_space, is_empty_text}
use open_light.Callback.{
  Action, encode, home, group, skill, action_for, quick, back, back_to_group, page, confirm, cancel,
}
use open_light.Registry.{Definition, Registry, list_by_group, list_groups}
use open_light.Watch.World.{Button}
use open_light.Menu.{UiDescriptor}
use open_light.Menu.Render.{human_readable}

abbrev pub page_size : ℕ
page_size = 8

abbrev button : Text → Text → Button
button label data_text = record { label = label; callback_data = data_text }

-- chunk(buttons, 2)
unfoldable pub chunk : {A : Type 0} → List A → List (List A)
chunk [] = []
chunk (x ∷ []) = (x ∷ []) ∷ []
chunk (x ∷ y ∷ rest) = (x ∷ y ∷ []) ∷ chunk rest

unfoldable pub root_reply : List (List Text)
root_reply =
    (codes "Skills" ∷ codes "AI" ∷ [])
    ∷ (codes "Watches" ∷ codes "Services" ∷ [])
    ∷ (codes "System" ∷ codes "Status" ∷ [])
    ∷ []

unfoldable pub visible_defs : Registry → Text → List Definition
visible_defs reg group_key = select (λ d. not d.hidden) (list_by_group group_key reg)

abbrev pub is_none_of : {A : Type 0} → List A → Bool
is_none_of [] = true
is_none_of (x ∷ xs) = false

abbrev home_button : Button
home_button = button (codes "🏠 Home") home

unfoldable pub groups_menu : Registry → List (List Button)
unfolding chunk visible_defs
groups_menu reg =
    chunk (
      map (λ g. button g.title (group g.key))
        (select (λ g. not (is_none_of (visible_defs reg g.key))) (list_groups reg)))
    ++ (home_button ∷ []) ∷ []

unfoldable pub title_for : (Text → Text) → Definition → Text
title_for capitalize d =
    if d.mutating
    then codes "⚠ " ++ human_readable capitalize d.name
    else human_readable capitalize d.name

-- page * pageSize, which wraps around in an int of 64 bits; from 2 ^ 63 on it stands for a negative one.
unfoldable pub offset : ℕ → ℕ
offset n = (n * page_size) % 2 ^ 64

abbrev is_negative : ℕ → Bool
is_negative n = leb (2 ^ 63) n

-- The page that is shown: a page behind the end is the first, one before the beginning stays.
unfoldable pub shown_page : ℕ → ℕ → ℕ
unfolding offset
shown_page total n = if is_negative (offset n) then n else if leb total (offset n) then 0 else n

-- defs[start:end], which panics at a negative start
unfoldable pub page_of : {A : Type 0} → List A → ℕ → Option (List A)
unfolding shown_page offset
page_of defs n =
    let start = offset (shown_page (length defs) n) in
    if is_negative start then none else some (take page_size (drop start defs))

unfoldable pub pagination_row : Text → ℕ → ℕ → List Button
unfolding offset
pagination_row group_key n total =
    (if ltb 0 n then button (codes "◀ Prev") (page group_key (n - 1)) ∷ [] else [])
    ++ (if is_negative (offset (n + 1)) || ltb (offset (n + 1)) total
        then button (codes "Next ▶") (page group_key (n + 1)) ∷ []
        else [])

group_rows : (Text → Text) → Text → ℕ → List Definition → List Definition → List (List Button)
unfolding chunk title_for shown_page pagination_row
group_rows capitalize group_key n defs shown =
    chunk (map (λ d. button (title_for capitalize d) (skill d.name)) shown)
    ++ (if ltb page_size (length defs)
        then pagination_row group_key (shown_page (length defs) n) (length defs) ∷ []
        else [])
    ++ (button (codes "◀ Back") (back (codes "groups")) ∷ home_button ∷ []) ∷ []

-- `none` where the slice panics.
unfoldable pub group_menu : (Text → Text) → Registry → Text → ℕ → Option (List (List Button))
unfolding visible_defs page_of group_rows
group_menu capitalize reg group_key n =
    let defs = visible_defs reg group_key in
    Option.map (group_rows capitalize group_key n defs) (page_of defs n)

unfoldable pub skill_follow_ups : Definition → UiDescriptor → List (List Button)
unfolding chunk
skill_follow_ups d hints =
    chunk (
      button (codes "↻ Refresh") (skill d.name)
      ∷ map (λ f. button (trim_space f.label) (action_for f.action f.target))
          (select (λ f. not (is_empty_text (trim_space f.label))) hints.follow_ups))
    ++ (button (codes "◀ Back") (back_to_group d.group.key) ∷ home_button ∷ []) ∷ []

unfoldable pub confirm_keyboard : Text → List (List Button)
confirm_keyboard token =
    (button (codes "✓ Confirm") (confirm token) ∷ button (codes "✗ Cancel") (cancel token) ∷ [])
    ∷ []

unfoldable pub cancel_only : Action → List (List Button)
cancel_only target =
    (button (codes "✗ Cancel") (
        encode (
          if is_empty_text target.kind
          then record { kind = codes "b"; target = codes "groups"; extra = [] }
          else target))
      ∷ [])
    ∷ []

unfoldable pub quick_actions_menu : List (Text × Text) → List (List Button)
unfolding chunk
quick_actions_menu actions =
    chunk (map (λ a. button a.1 (quick a.0)) actions) ++ (home_button ∷ []) ∷ []
