-- ===== src/Router/Rules/Requests.antt =====
-- internal/router/rules/rules.go: what a request for a service asks for.
use mathlib.Core.Path.{subst}
use open_light.Base.{
  Bool, true, false, not, Option, none, some, List, [], ◌∷◌, ◌≡◌, refl, ◌⊎◌, inl, inr,
  if◌then◌else◌,
}
use open_light.Base.Text.{Text, codes, one_of, fields, is_empty_text, eqt}
use open_light.Router.Rules.{
  Match, asks, asks_with, contains_any, is_generic_service_word, extract_after_keyword,
  extract_logs_service, extract_status_service, extract_note_text, extract_note_delete_id,
  extract_help_topic, parse_metric_words, parse_normalized,
}
use open_light.Router.Rules.Services.{
  Among, Named, after_keyword-Named, logs_service-Named, status_service-Named,
}

-- The skills that act on one service.
unfoldable pub is_service_skill : Text → Bool
unfolding one_of eqt codes
is_service_skill name =
    one_of name (codes "service_restart" ∷ codes "service_logs" ∷ codes "service_status" ∷ [])

-- The one argument is a word of the request that is not a filler.
unfoldable pub NamesService : List Text → Match → Type 0
unfolding is_generic_service_word Among
NamesService fs m =
    (s : Text) × (m.args ≡ (codes "service", s) ∷ [])
    × (is_empty_text s ≡ false)
    × (is_generic_service_word s ≡ false)
    × Among s fs

unfoldable pub Fine : List Text → Option Match → Type 0
unfolding is_service_skill NamesService
Fine fs none = Unit
Fine fs (some m) = (is_service_skill m.skill_name ≡ false) ⊎ NamesService fs m

if-Fine :
    (fs : List Text) (b : Bool) (x y : Option Match)
    → Fine fs x
    → Fine fs y
    → Fine fs (if b then x else y)
if-Fine fs true x y hx hy = hx
if-Fine fs false x y hx hy = hy

other-Fine : (fs : List Text) (m : Match) → is_service_skill m.skill_name ≡ false → Fine fs (some m)
unfolding Fine
other-Fine fs m h = inl h

-- A rule that asks for the service it found.
found-Fine :
    (fs : List Text) (s : Text) (skill_name : Text) (y : Option Match)
    → Named fs s
    → Fine fs y
    → Fine fs (if not (is_empty_text s) then some (asks_with skill_name (codes "service") s) else y)
unfolding Fine Named NamesService
found-Fine fs [] skill_name y h hy = hy
found-Fine fs (c ∷ s) skill_name y (inl e) hy = cc
found-Fine fs (c ∷ s) skill_name y (inr (g, m)) hy = inr (c ∷ s, refl, refl, g, m)

metric-Fine :
    (fs : List Text) (text : Text) (patterns : List Text) (skill_name : Text) (y : Option Match)
    → is_service_skill skill_name ≡ false
    → Fine fs y
    → Fine fs (if contains_any text patterns then some (asks skill_name) else y)
metric-Fine fs text patterns skill_name y h hy =
    if-Fine fs (contains_any text patterns) (some (asks skill_name)) y
      (other-Fine fs (asks skill_name) h) hy

none-Fine : (fs : List Text) → Fine fs none
unfolding Fine
none-Fine fs = tt

parse_metric_words-Fine : (fs : List Text) (text : Text) → Fine fs (parse_metric_words text)
unfolding parse_metric_words is_service_skill
parse_metric_words-Fine fs text =
    metric-Fine fs text
      (codes "system status"
        ∷ codes "overall status"
        ∷ codes "agent status"
        ∷ codes "server status"
        ∷ codes "status server"
        ∷ [])
      (codes "status") _ refl
      (metric-Fine fs text (codes "cpu" ∷ codes "processor usage" ∷ []) (codes "cpu") _ refl (
        metric-Fine fs text (codes "memory" ∷ codes "ram" ∷ []) (codes "memory") _ refl (
          metric-Fine fs text
            (codes "disk" ∷ codes "storage" ∷ codes "space left" ∷ codes "disk space" ∷ [])
            (codes "disk") _ refl
            (metric-Fine fs text (codes "uptime" ∷ codes "how long has" ∷ codes "running for" ∷ [])
              (codes "uptime") _ refl
              (metric-Fine fs text
                (codes "ip address" ∷ codes "what is my ip" ∷ codes "local ip" ∷ []) (codes "ip") _
                refl
                (metric-Fine fs text (codes "hostname" ∷ codes "host name" ∷ []) (codes "hostname")
                  _ refl
                  (metric-Fine fs text
                    (codes "temperature" ∷ codes "system temp" ∷ codes "cpu temp" ∷ [])
                    (codes "temperature") _ refl
                    (metric-Fine fs text
                      (codes "what can you do"
                        ∷ codes "list skills"
                        ∷ codes "available skills"
                        ∷ [])
                      (codes "skills") _ refl (none-Fine fs)))))))))

text-Fine :
    (fs : List Text) (s : Text) (skill_name key : Text) (y : Option Match)
    → is_service_skill skill_name ≡ false
    → Fine fs y
    → Fine fs (if not (is_empty_text s) then some (asks_with skill_name key s) else y)
text-Fine fs s skill_name key y h hy =
    if-Fine fs (not (is_empty_text s)) (some (asks_with skill_name key s)) y
      (other-Fine fs (asks_with skill_name key s) h) hy

parse_normalized-Fine : (text : Text) → Fine (fields text) (parse_normalized text)
unfolding parse_normalized extract_after_keyword extract_logs_service extract_status_service
    is_service_skill
parse_normalized-Fine text =
    if-Fine (fields text) (is_empty_text text) none _ (none-Fine (fields text)) (
      found-Fine (fields text) (extract_after_keyword text (codes "restart"))
        (codes "service_restart") _ (after_keyword-Named (codes "restart") (fields text))
        (found-Fine (fields text) (extract_logs_service text) (codes "service_logs") _
          (logs_service-Named [] (fields text))
          (found-Fine (fields text) (extract_status_service text) (codes "service_status") _
            (status_service-Named (fields text))
            (text-Fine (fields text) (extract_note_text text) (codes "note_add") (codes "text") _
              refl
              (text-Fine (fields text) (extract_note_delete_id text) (codes "note_delete")
                (codes "id") _ refl
                (metric-Fine (fields text) text
                  (codes "list notes" ∷ codes "show notes" ∷ codes "notes list" ∷ [])
                  (codes "note_list") _ refl
                  (text-Fine (fields text) (extract_help_topic text) (codes "help") (codes "topic")
                    _ refl (parse_metric_words-Fine (fields text) text))))))))

some-Fine :
    (fs : List Text) (o : Option Match) (m : Match)
    → o ≡ some m
    → Fine fs o
    → (is_service_skill m.skill_name ≡ false) ⊎ NamesService fs m
unfolding Fine
some-Fine fs o m e h = subst (Fine fs) e h

-- A match of the rules on a normalized text that restarts a service, shows its logs or its status has one
-- argument: a word of the text, that is none of the filler words.
pub parse_normalized-NamesService :
    (text : Text) (m : Match)
    → parse_normalized text ≡ some m
    → (is_service_skill m.skill_name ≡ false) ⊎ NamesService (fields text) m
parse_normalized-NamesService text m e =
    some-Fine (fields text) (parse_normalized text) m e (parse_normalized-Fine text)
