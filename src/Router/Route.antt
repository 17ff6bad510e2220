-- ===== src/Router/Route.antt =====
-- internal/router/router.go: the stages of Route. Logging is left out.
pub mod Offline
pub mod Mention
use open_light.Base.{
  ℕ, zero, suc, Bool, true, false, not, ◌&&◌, Option, none, some, List, [], ◌∷◌, ◌++◌,
  if◌then◌else◌, length, take, drop, leb,
}
use open_light.Base.Text.{
  Text, codes, eqt, trim_space, fields, join, has_prefix, trim_prefix, is_empty_text,
}
use open_light.Base.Text.Search.{has_code}
use open_light.Base.Unicode.{Unicode}
use open_light.Errors.{Result, ok, err}
use open_light.Registry.{Definition, Registry, resolve_identifier}
use open_light.Redact.{redact_sensitive_text}
use open_light.Router.{Mode, slash, explicit, shortcut, alias, rule, unknown, Decision, decide}
use open_light.Router.Args.{no_args, one_arg, normalize_route_command}
use open_light.Router.Commands.{route_command}
use open_light.Router.Semantic.{normalize}
use open_light.Router.Rules.{Match, parse}

-- Classify; the Boolean of its result is whether there is a decision
abbrev pub Classifier : Type 0
Classifier = Text → Result (Option Decision)

pub record Router : Type 0 where
  pub registry : Registry
  pub classifier : Option Classifier
  pub unicode : Unicode

abbrev pub slash_fields : List Text → Text → Option Decision
slash_fields [] text = none
slash_fields (f ∷ fs) text =
    route_command (normalize_route_command f) (trim_space (trim_prefix text f)) slash

unfoldable pub route_slash : Text → Option Decision
route_slash text =
    if not (has_prefix text (codes "/")) then none else slash_fields (fields text) text

-- One round: the first `parts` fields as a command, the others as its arguments.
unfoldable pub route_parts : ℕ → List Text → Option Decision
route_parts parts fs =
    route_command (normalize_route_command (join (take parts fs) (codes " ")))
      (trim_space (join (drop parts fs) (codes " "))) explicit

-- The loop from `parts` down to 1.
unfoldable pub route_down : ℕ → List Text → Option Decision
unfolding route_parts
route_down zero fs = none
route_down (suc n) fs =
    let rest = route_down n fs in elim (route_parts (suc n) fs) [ some d ↦ some d | none ↦ rest ]

unfoldable pub route_explicit : Text → Option Decision
unfolding route_down
route_explicit text =
    let fs = fields text in route_down (if leb (length fs) 3 then length fs else 3) fs

unfoldable pub normalized_shortcuts : List (Text × Text)
normalized_shortcuts =
    (codes "status", codes "status")
    ∷ (codes "cpu", codes "cpu")
    ∷ (codes "memory", codes "memory")
    ∷ (codes "disk", codes "disk")
    ∷ (codes "uptime", codes "uptime")
    ∷ (codes "ip", codes "ip")
    ∷ (codes "hostname", codes "hostname")
    ∷ (codes "temperature", codes "temperature")
    ∷ (codes "skills", codes "skills")
    ∷ (codes "help", codes "help")
    ∷ (codes "ping", codes "ping")
    ∷ (codes "services", codes "service_list")
    ∷ (codes "notes", codes "note_list")
    ∷ []

unfoldable pub look_up : Text → List (Text × Text) → Option Text
look_up key [] = none
look_up key ((k, v) ∷ rest) = if eqt k key then some v else look_up key rest

abbrev to_shortcut : Option Text → Option Decision
to_shortcut none = none
to_shortcut (some skill_name) = some (decide shortcut skill_name no_args)

unfoldable pub route_normalized_shortcut : Text → Option Decision
unfolding look_up normalized_shortcuts has_code
route_normalized_shortcut normalized_text =
    let text = trim_space normalized_text in
    if is_empty_text text
    then none
    else if has_code b' ' text
    then none
    else to_shortcut (look_up text normalized_shortcuts)

abbrev pub to_alias : Option Definition → List (Text × Text) → Option Decision
to_alias none args = none
to_alias (some skill) args = some (decide alias skill.name args)

abbrev generic_fields : List Text → Registry → Option Decision
generic_fields [] registry = none
generic_fields (f ∷ fs) registry =
    if is_empty_text (normalize_route_command f)
    then none
    else to_alias (resolve_identifier (normalize_route_command f) registry)
        (one_arg (codes "text") (trim_space (join fs (codes " "))))

unfoldable pub route_registry_generic : Text → Registry → Option Decision
route_registry_generic text registry = generic_fields (fields (trim_space text)) registry

abbrev pub to_rule : Option Match → Option Decision
to_rule none = none
to_rule (some m) = some (decide rule m.skill_name m.args)

-- The first stage that decides.
abbrev pub or_else : Option Decision → Option Decision → Option Decision
or_else none later = later
or_else (some d) later = some d

-- The stages before the classifier, on a text that is trimmed and not empty.
unfoldable pub route_deterministic : Router → Text → Option Decision
unfolding route_slash route_explicit route_normalized_shortcut route_registry_generic
route_deterministic router text = or_else (route_slash text) (
    or_else (route_explicit text) (
      or_else (route_normalized_shortcut (normalize router.unicode (redact_sensitive_text text))) (
        or_else (to_alias (resolve_identifier text router.registry) no_args) (
          or_else (route_registry_generic text router.registry)
            (to_rule (parse router.unicode text))))))

abbrev unknown_decision : Decision
unknown_decision = decide unknown [] no_args

abbrev classified : Result (Option Decision) → Result Decision
classified (err e) = err e
classified (ok none) = ok unknown_decision
classified (ok (some d)) = ok d

abbrev ask_classifier : Option Classifier → Text → Result Decision
ask_classifier none text = ok unknown_decision
ask_classifier (some classify) text = classified (classify text)

abbrev pub or_classifier : Option Decision → Option Classifier → Text → Result Decision
or_classifier (some d) classifier text = ok d
or_classifier none classifier text = ask_classifier classifier text

unfoldable pub route : Router → Text → Result Decision
unfolding route_deterministic
route router text =
    let trimmed = trim_space text in
    if is_empty_text trimmed
    then ok unknown_decision
    else or_classifier (route_deterministic router trimmed) router.classifier trimmed

abbrev pub is_some : Option Decision → Bool
is_some none = false
is_some (some d) = true

-- The router has a registry, as the program always gives it one.
unfoldable pub is_command : Router → Text → Bool
unfolding route_slash route_registry_generic
is_command router text =
    let trimmed = trim_space text in
    if not (has_prefix trimmed (codes "/"))
    then false
    else if is_some (route_slash trimmed)
    then true
    else is_some (route_registry_generic trimmed router.registry)
