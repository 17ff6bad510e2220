-- ===== src/Registry.antt =====
-- internal/skills/registry.go: the skills by name and alias. A skill is its definition; the maps are
-- functions into options.
pub mod Groups
pub mod Lookup
pub mod Spelling
pub mod Examples
use open_light.Base.{
  Bool, true, false, not, ◌&&◌, Option, none, some, List, [], ◌∷◌, ◌++◌, map, if◌then◌else◌, select,
  sort_by,
}
use open_light.Base.Int.{pos, eqb_ℤ, ltb_ℤ}
use open_light.Base.Text.{
  Text, codes, eqt, to_lower, trim_space, trim_prefix, fields, join, is_empty_text,
}
use open_light.Base.Text.Search.{replace_code, leb_text}
use open_light.Registry.Groups.{Group, normalize_group}
use open_light.Base.Dict.{Dict, empty, put, text_eq}

pub record Definition : Type 0 where
  pub name : Text
  pub group : Group
  pub description : Text
  pub aliases : List Text
  pub usage : Text
  pub examples : List Text
  pub mutating : Bool
  pub hidden : Bool

pub record Registry : Type 0 where
  pub by_name : Dict Text Definition
  pub definitions : Dict Text Definition
  pub by_alias : Dict Text Text
  pub ordered_keys : List Text

unfoldable pub normalize_identifier : Text → Text
normalize_identifier value =
    join
      (fields (
        replace_code b'-' b' '
          (replace_code b'_' b' ' (trim_prefix (to_lower (trim_space value)) (codes "/")))))
      (codes " ")

-- `strings.TrimSpace` of every alias, without the empty ones
unfoldable pub clean_texts : List Text → List Text
clean_texts [] = []
clean_texts (t ∷ ts) =
    let rest = clean_texts ts in if is_empty_text (trim_space t) then rest else trim_space t ∷ rest

unfoldable pub normalize_definition : Definition → Definition
unfolding clean_texts
normalize_definition d = record d {
  name = trim_space d.name;
  group = normalize_group d.group;
  description = trim_space d.description;
  aliases = clean_texts d.aliases;
  usage = trim_space d.usage;
  examples = clean_texts d.examples;
}

unfoldable pub new_registry : Registry
new_registry = record { by_name = empty; definitions = empty; by_alias = empty; ordered_keys = [] }

-- What Register reports.
pub data Refusal : Type 0 where
  name_required : Refusal
  already_registered : Text → Refusal
  identifier_taken : Text → Text → Refusal

pub record Registered : Type 0 where
  pub registry : Registry
  pub refusal : Option Refusal

-- The loop over the identifiers: the first that belongs to another skill ends it.
unfoldable pub register_identifiers : List Text → Text → Registry → Registered
unfolding normalize_identifier
register_identifiers [] name r = record { registry = r; refusal = none }
register_identifiers (identifier ∷ rest) name r =
    let normalized = normalize_identifier identifier in
    elim (is_empty_text normalized) [
      | true ↦ register_identifiers rest name r
      | false ↦ elim (r.by_alias normalized) [
        | none ↦
            register_identifiers rest name (record r { by_alias = put r.by_alias normalized name })
        | some existing ↦ elim (eqt existing name) [
          | true ↦ register_identifiers rest name r
          | false ↦ record { registry = r; refusal = some (identifier_taken normalized existing) }
        ]
      ]
    ]

-- `sort.Strings`, which a refused identifier skips
abbrev sort_keys : Option Refusal → Registry → Registry
sort_keys none r = record r { ordered_keys = sort_by leb_text r.ordered_keys }
sort_keys (some refusal) r = r

unfoldable pub register : Definition → Registry → Registered
unfolding normalize_definition normalize_identifier register_identifiers
register skill r =
    let definition = normalize_definition skill in
    let name = normalize_identifier definition.name in
    if is_empty_text name
    then record { registry = r; refusal = some name_required }
    else elim (r.by_name name) [
      | some existing ↦ record { registry = r; refusal = some (already_registered name) }
      | none ↦
          let result = register_identifiers (name ∷ definition.aliases) name (record {
            by_name = put r.by_name name skill;
            definitions = put r.definitions name definition;
            by_alias = r.by_alias;
            ordered_keys = r.ordered_keys ++ name ∷ [];
          }) in
          record { registry = sort_keys result.refusal result.registry; refusal = result.refusal }
    ]

unfoldable pub get : Text → Registry → Option Definition
unfolding normalize_identifier
get name r = r.by_name (normalize_identifier name)

abbrev by_other_name : Option Text → Registry → Option Definition
by_other_name none r = none
by_other_name (some name) r = r.by_name name

unfoldable pub resolve_identifier : Text → Registry → Option Definition
unfolding normalize_identifier
resolve_identifier identifier r =
    let normalized = normalize_identifier identifier in
    if is_empty_text normalized then none else elim (r.by_name normalized) [
      | some skill ↦ some skill
      | none ↦ by_other_name (r.by_alias normalized) r
    ]

unfoldable pub names : Registry → List Text
names r = r.ordered_keys

-- Definition{}
abbrev zero_definition : Definition
zero_definition = record {
  name = [];
  group = record { key = []; title = []; description = []; order = pos 0 };
  description = [];
  aliases = [];
  usage = [];
  examples = [];
  mutating = false;
  hidden = false;
}

abbrev or_zero : Option Definition → Definition
or_zero none = zero_definition
or_zero (some d) = d

unfoldable pub list : Registry → List Definition
list r = map (λ key. or_zero (r.definitions key)) r.ordered_keys

unfoldable pub list_by_group : Text → Registry → List Definition
unfolding list
list_by_group group_key r =
    let key = to_lower (trim_space group_key) in
    if is_empty_text key
    then []
    else select (λ d. not d.hidden && eqt (normalize_group d.group).key key) (list r)

unfoldable pub definition : Text → Registry → Option Definition
unfolding normalize_identifier
definition name r = r.definitions (normalize_identifier name)

-- groupMap[group.Key] = group
unfoldable pub put_group : Group → List Group → List Group
put_group group [] = group ∷ []
put_group group (g ∷ gs) = elim (eqt g.key group.key) [
  | true ↦ group ∷ gs
  | false ↦ g ∷ put_group group gs
]

unfoldable pub groups_of : List Definition → List Group → List Group
unfolding put_group
groups_of [] groups = groups
groups_of (d ∷ ds) groups = elim d.hidden [
  | true ↦ groups_of ds groups
  | false ↦ groups_of ds (put_group (normalize_group d.group) groups)
]

-- The order of two groups in ListGroups.
unfoldable pub group_leb : Group → Group → Bool
group_leb g h = if eqb_ℤ g.order h.order then leb_text g.key h.key else ltb_ℤ g.order h.order

unfoldable pub list_groups : Registry → List Group
unfolding list groups_of group_leb
list_groups r = sort_by group_leb (groups_of (list r) [])
