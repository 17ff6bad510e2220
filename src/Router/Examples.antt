-- ===== src/Router/Examples.antt =====
-- The router at concrete texts.
use open_light.Base.{[], ◌∷◌, ◌++◌, some, none, false, ◌≡◌, ◌⊎◌, refl, none_of-All, ◌==◌, leb, ◌&&◌}
use open_light.Base.Text.{
  codes, is_space, join, fields, to_lower, trim_prefix, trim_space, one_of, eqt, has_prefix,
}
use open_light.Base.Unicode.{Unicode}
use open_light.Errors.{ok}
use open_light.Registry.{new_registry}
use open_light.Router.{decide, slash}
use open_light.Router.Commands.{route_command}
use open_light.Router.Args.{normalize_route_command, no_args}
use open_light.Router.Rules.{
  Match, extract_after_keyword, parse_normalized, is_generic_service_word,
}
use open_light.Router.Rules.Requests.{is_service_skill, NamesService, parse_normalized-NamesService}
use open_light.Router.Route.{Router, Classifier, route, route_slash, is_command}
use open_light.Router.Route.Offline.{with_classifier, route-with_classifier}
use open_light.Router.Route.Mention.{route_slash-mention}

-- The runes of ASCII, as far as the texts below need them.
abbrev ascii : Unicode
ascii = record {
  is_letter = λ r. leb b'a' r && leb r b'z';
  is_number = λ r. leb b'0' r && leb r b'9';
  is_digit = λ r. leb b'0' r && leb r b'9';
  is_wide = λ r. false;
}

abbrev plain_router : Router
plain_router = record { registry = new_registry; classifier = none; unicode = ascii }

-- A classifier that takes every text for a request to restart.
abbrev eager : Classifier
eager text = ok (some (decide slash (codes "service_restart") no_args))

route-with_classifier_example :
    route (with_classifier (some eager) plain_router) (codes " /cpu ")
    ≡ route plain_router (codes " /cpu ")
unfolding is_command codes has_prefix trim_space fields route_command one_of normalize_route_command
    join to_lower trim_prefix
route-with_classifier_example =
    route-with_classifier (some eager) plain_router (codes " /cpu ") refl

route_slash-mention_example :
    route_slash (b'/' ∷ codes "restart" ++ b'@' ∷ codes "light_bot" ++ b' ' ∷ codes "nginx")
    ≡ route_slash (b'/' ∷ codes "restart" ++ b' ' ∷ codes "nginx")
unfolding is_space codes
route_slash-mention_example =
    route_slash-mention (codes "restart") (codes "light_bot") (codes "nginx")
      (none_of-All is_space (codes "restart") refl)
      (none_of-All (λ r. r == b'@') (codes "restart") refl)
      (none_of-All is_space (codes "light_bot") refl)

abbrev restart_nginx : Match
restart_nginx = record {
  skill_name = codes "service_restart";
  args = (codes "service", codes "nginx") ∷ [];
}

parse_normalized-NamesService_example :
    (is_service_skill (codes "service_restart") ≡ false)
    ⊎ NamesService (fields (codes "please restart the nginx")) restart_nginx
unfolding parse_normalized codes extract_after_keyword fields eqt is_generic_service_word one_of
parse_normalized-NamesService_example =
    parse_normalized-NamesService (codes "please restart the nginx") restart_nginx refl
