-- ===== src/Registry/Examples.antt =====
-- The registry of skills at concrete skills.
use open_light.Base.{inr, [], ◌∷◌, some, false, ◌≡◌, refl}
use open_light.Base.Text.{Text, codes, trim_space, lower, to_lower, trim_prefix, fields, join, eqt}
use open_light.Base.Text.Search.{replace_code}
use open_light.Registry.Groups.{group_chat}
use open_light.Registry.{
  Definition, new_registry, normalize_identifier, register, resolve_identifier,
}
use open_light.Registry.Lookup.{OwnAlias, Leads, IsSound, register-IsSound}
use open_light.Registry.Spelling.{resolve_identifier-spelling}

abbrev skill_of : Text → Text → Definition
skill_of name alias = record {
  name = name;
  group = group_chat;
  description = [];
  aliases = alias ∷ [];
  usage = [];
  examples = [];
  mutating = false;
  hidden = false;
}

abbrev restart : Definition
restart = skill_of (codes "restart") (codes "service-restart")

abbrev logs : Definition
logs = skill_of (codes "logs") (codes "service_logs")

new_registry-IsSound : IsSound new_registry
unfolding new_registry OwnAlias Leads
new_registry-IsSound = record { named = λ n. tt; aliased = λ n. tt }

resolve_identifier-spelling_example :
    resolve_identifier (codes " Service_Restart ") (register restart new_registry).registry
    ≡ some restart
unfolding register new_registry normalize_identifier join fields replace_code trim_prefix codes
    to_lower trim_space eqt lower
resolve_identifier-spelling_example =
    resolve_identifier-spelling restart new_registry new_registry-IsSound refl
      (codes "service-restart") (codes " Service_Restart ") (inr ([], [], refl, refl)) refl

register-IsSound_example : IsSound (register restart new_registry).registry
unfolding register resolve_identifier new_registry normalize_identifier join fields replace_code
    trim_prefix codes to_lower trim_space eqt
register-IsSound_example = register-IsSound restart new_registry new_registry-IsSound refl refl

-- A skill that is refused for an alias of another skill is found all the same.
refused_is_found :
    resolve_identifier
      (codes "other")
      (register
        (skill_of (codes "other") (codes "restart"))
        (register restart new_registry).registry).registry
    ≡ some (skill_of (codes "other") (codes "restart"))
unfolding register resolve_identifier new_registry normalize_identifier join fields replace_code
    trim_prefix codes to_lower trim_space eqt
refused_is_found = refl
