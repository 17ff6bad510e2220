-- ===== src/Router/Route/Offline.antt =====
-- internal/router/router.go: what is decided before the classifier is asked.
use open_light.Base.{
  Bool, true, false, not, Option, none, some, ◌≡◌, refl, ◌⊎◌, inl, inr, if◌then◌else◌,
}
use open_light.Base.Text.{Text, codes, trim_space, has_prefix, is_empty_text}
use open_light.Registry.{resolve_identifier}
use open_light.Redact.{redact_sensitive_text}
use open_light.Router.{Decision}
use open_light.Router.Args.{no_args}
use open_light.Router.Semantic.{normalize}
use open_light.Router.Rules.{parse}
use open_light.Router.Route.{
  Classifier, Router, to_alias, to_rule, or_else, is_some, or_classifier, route_slash,
  route_registry_generic, route_explicit, route_normalized_shortcut, route_deterministic, route,
  is_command,
}

-- The router with another classifier.
abbrev pub with_classifier : Option Classifier → Router → Router
with_classifier classifier router = record {
  registry = router.registry;
  classifier = classifier;
  unicode = router.unicode;
}

or_else-first : (a b : Option Decision) → is_some a ≡ true → is_some (or_else a b) ≡ true
or_else-first none b h = cc
or_else-first (some d) b h = refl

or_else-later : (a b : Option Decision) → is_some b ≡ true → is_some (or_else a b) ≡ true
or_else-later none b h = h
or_else-later (some d) b h = refl

or_classifier-is_some :
    (d : Option Decision) (a b : Option Classifier) (text : Text)
    → is_some d ≡ true
    → or_classifier d a text ≡ or_classifier d b text
or_classifier-is_some none a b text h = cc
or_classifier-is_some (some d) a b text h = refl

route_deterministic-slash :
    (r : Router) (text : Text)
    → is_some (route_slash text) ≡ true
    → is_some (route_deterministic r text) ≡ true
unfolding route_deterministic
route_deterministic-slash r text h = or_else-first (route_slash text) _ h

or_else-fifth :
    (a b c d e f : Option Decision)
    → is_some e ≡ true
    → is_some (or_else a (or_else b (or_else c (or_else d (or_else e f))))) ≡ true
or_else-fifth a b c d e f h = or_else-later a (or_else b (or_else c (or_else d (or_else e f)))) (
    or_else-later b (or_else c (or_else d (or_else e f))) (
      or_else-later c (or_else d (or_else e f))
        (or_else-later d (or_else e f) (or_else-first e f h))))

route_deterministic-generic :
    (r : Router) (text : Text)
    → is_some (route_registry_generic text r.registry) ≡ true
    → is_some (route_deterministic r text) ≡ true
unfolding route_deterministic
route_deterministic-generic r text h =
    or_else-fifth (route_slash text) (route_explicit text)
      (route_normalized_shortcut (normalize r.unicode (redact_sensitive_text text)))
      (to_alias (resolve_identifier text r.registry) no_args)
      (route_registry_generic text r.registry) (to_rule (parse r.unicode text)) h

either :
    (p s g : Bool)
    → (if not p then false else if s then true else g) ≡ true
    → (s ≡ true) ⊎ (g ≡ true)
either true true g h = inl refl
either true false g h = inr h
either false s g h = cc

is_command-decided :
    (r : Router) (text : Text)
    → is_command r text ≡ true
    → is_some (route_deterministic r (trim_space text)) ≡ true
unfolding is_command
is_command-decided r text h =
    elim (either (has_prefix (trim_space text) (codes "/"))
      (is_some (route_slash (trim_space text)))
      (is_some (route_registry_generic (trim_space text) r.registry)) h) [
        | inl slash ↦ route_deterministic-slash r (trim_space text) slash
        | inr generic ↦ route_deterministic-generic r (trim_space text) generic
      ]

same_if : {A : Type 0} (b : Bool) (x y z : A) → y ≡ z → (if b then x else y) ≡ (if b then x else z)
same_if b x y z h = rw h

-- A slash command that the router knows is decided without the classifier: no other classifier, and none
-- at all, changes what it routes to.
pub route-with_classifier :
    (classifier : Option Classifier) (r : Router) (text : Text)
    → is_command r text ≡ true
    → route (with_classifier classifier r) text ≡ route r text
unfolding route route_deterministic
route-with_classifier classifier r text h = same_if (is_empty_text (trim_space text)) _ _ _ (
    or_classifier-is_some (route_deterministic r (trim_space text)) classifier r.classifier
      (trim_space text) (is_command-decided r text h))
