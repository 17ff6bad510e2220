-- ===== src/Router/Rules.antt =====
-- internal/router/rules/rules.go: the phrases that ask for a skill.
pub mod Services
pub mod Requests
use open_light.Base.{
  ℕ, zero, suc, Bool, true, false, not, ◌||◌, ◌&&◌, Option, none, some, List, [], ◌∷◌, ◌++◌,
  if◌then◌else◌, first, length,
}
use open_light.Base.Text.{
  Text, codes, eqt, one_of, to_lower, trim_space, fields, has_prefix, trim_prefix, contains,
  is_empty_text,
}
use open_light.Base.Text.Search.{drop_text}
use open_light.Base.Unicode.{Unicode}
use open_light.Router.Semantic.{normalize}

pub record Match : Type 0 where
  pub skill_name : Text
  pub args : List (Text × Text)

unfoldable pub contains_any : Text → List Text → Bool
contains_any text [] = false
contains_any text (p ∷ patterns) = contains text p || contains_any text patterns

unfoldable pub is_generic_service_word : Text → Bool
is_generic_service_word field = one_of field (
    codes ""
    ∷ codes "show"
    ∷ codes "check"
    ∷ codes "service"
    ∷ codes "services"
    ∷ codes "status"
    ∷ codes "restart"
    ∷ codes "logs"
    ∷ codes "log"
    ∷ codes "for"
    ∷ codes "of"
    ∷ codes "the"
    ∷ codes "me"
    ∷ codes "please"
    ∷ codes "recent"
    ∷ codes "latest"
    ∷ codes "last"
    ∷ codes "system"
    ∷ codes "overall"
    ∷ codes "agent"
    ∷ codes "all"
    ∷ codes "whole"
    ∷ codes "entire"
    ∷ codes "server"
    ∷ [])

unfoldable pub is_logs_context_word : Text → Bool
is_logs_context_word field = is_generic_service_word field

-- The first field for which the test fails, or "".
unfoldable pub first_without : (Text → Bool) → List Text → Text
first_without test [] = []
first_without test (f ∷ fs) = if not (test f) then f else first_without test fs

-- The last such field, or "".
unfoldable pub last_without : (Text → Bool) → List Text → Text
last_without test [] = []
last_without test (f ∷ fs) =
    let later = last_without test fs in
    if not (is_empty_text later) then later else if not (test f) then f else []

unfoldable pub first_concrete_service_token : List Text → Text
unfolding first_without
first_concrete_service_token fs = first_without is_generic_service_word fs

unfoldable pub last_concrete_service_token : List Text → Text
unfolding last_without
last_concrete_service_token fs = last_without is_generic_service_word fs

unfoldable pub first_meaningful_token : List Text → Text
unfolding first_without
first_meaningful_token fs = first_without is_logs_context_word fs

unfoldable pub last_meaningful_token : List Text → Text
unfolding last_without
last_meaningful_token fs = last_without is_logs_context_word fs

-- The loop of extractAfterKeyword.
unfoldable pub after_keyword : Text → List Text → Text
unfolding first_concrete_service_token
after_keyword keyword [] = []
after_keyword keyword (f ∷ fs) =
    let rest = after_keyword keyword fs in
    if not (eqt f keyword)
    then rest
    else if not (is_empty_text (first_concrete_service_token fs))
    then first_concrete_service_token fs
    else rest

unfoldable pub extract_after_keyword : Text → Text → Text
unfolding after_keyword
extract_after_keyword text keyword = after_keyword keyword (fields text)

-- The loop of extractLogsService; `before` holds the fields in front of the ones that are left.
unfoldable pub logs_service : List Text → List Text → Text
unfolding first_meaningful_token last_meaningful_token
logs_service before [] = []
logs_service before (f ∷ fs) =
    let rest = logs_service (before ++ f ∷ []) fs in
    if not (eqt f (codes "logs")) && not (eqt f (codes "log"))
    then rest
    else if not (is_empty_text (first_meaningful_token fs))
    then first_meaningful_token fs
    else if not (is_empty_text (last_meaningful_token before))
    then last_meaningful_token before
    else rest

unfoldable pub extract_logs_service : Text → Text
unfolding logs_service
extract_logs_service text = logs_service [] (fields text)

-- indexSequence of two words: the fields in front of the sequence and those behind it
unfoldable pub around : Text → Text → List Text → List Text → Option (List Text × List Text)
around a b before [] = none
around a b before (f ∷ []) = none
around a b before (f ∷ g ∷ fs) =
    let rest = around a b (before ++ f ∷ []) (g ∷ fs) in
    if eqt f a && eqt g b then some (before, fs) else rest

abbrev pub status_of : Option (List Text × List Text) → Text
status_of none = []
status_of (some (before, behind)) = first_concrete_service_token behind

-- `idx > 0`: the sequence "service status" behind something
abbrev pub service_status : Option (List Text × List Text) → List Text → Text
service_status (some (f ∷ before, behind)) fs = last_concrete_service_token (f ∷ before)
service_status _ fs = status_of (around (codes "status") (codes "of") [] fs)

unfoldable pub status_service : List Text → Text
unfolding around first_concrete_service_token last_concrete_service_token
status_service [] = []
status_service (f ∷ fs) =
    if eqt f (codes "status")
    then first_concrete_service_token fs
    else if eqt f (codes "service")
    then first_concrete_service_token fs
    else service_status (around (codes "service") (codes "status") [] (f ∷ fs)) (f ∷ fs)

unfoldable pub extract_status_service : Text → Text
unfolding status_service
extract_status_service text = status_service (fields text)

-- What stands behind the first of the prefixes that the text has, or "".
unfoldable pub behind_prefix : List Text → Text → Text
behind_prefix [] text = []
behind_prefix (p ∷ prefixes) text =
    if has_prefix text p then trim_space (trim_prefix text p) else behind_prefix prefixes text

unfoldable pub extract_note_text : Text → Text
unfolding behind_prefix
extract_note_text text =
    behind_prefix (codes "add note " ∷ codes "note " ∷ codes "remember " ∷ []) text

-- The prefixes are looked for in the text in lower case, and what is behind is cut from the text.
unfoldable pub behind_lowered : List Text → Text → Text → Text
behind_lowered [] raw lowered = []
behind_lowered (p ∷ prefixes) raw lowered =
    if has_prefix lowered p
    then trim_space (drop_text (length p) raw)
    else behind_lowered prefixes raw lowered

unfoldable pub extract_memory_text : Text → Text → Text
unfolding behind_lowered
extract_memory_text raw lowered =
    behind_lowered
      (codes "remember that "
        ∷ codes "remember this note: "
        ∷ codes "remember note: "
        ∷ codes "remember "
        ∷ [])
      raw lowered

unfoldable pub extract_memory_delete_ref : Text → Text → Text
unfolding behind_lowered
extract_memory_delete_ref raw lowered =
    behind_lowered (codes "forget that " ∷ codes "forget " ∷ []) raw lowered

unfoldable pub extract_memory_query : Text → Text → Option Text
extract_memory_query raw lowered =
    if eqt lowered (codes "what do you remember")
    then some []
    else if has_prefix lowered (codes "what do you remember about ")
    then some (trim_space (drop_text (length (codes "what do you remember about ")) raw))
    else if has_prefix lowered (codes "what do you remember on ")
    then some (trim_space (drop_text (length (codes "what do you remember on ")) raw))
    else none

unfoldable pub extract_help_topic : Text → Text
extract_help_topic text =
    if has_prefix text (codes "help ")
    then trim_space (trim_prefix text (codes "help "))
    else if has_prefix text (codes "usage ")
    then trim_space (trim_prefix text (codes "usage "))
    else []

abbrev pub first_token_of : List Text → Text
first_token_of [] = []
first_token_of (f ∷ fs) = f

unfoldable pub extract_note_delete_id : Text → Text
unfolding behind_prefix
extract_note_delete_id text = first_token_of (
    fields (
      behind_prefix
        (codes "delete note "
          ∷ codes "remove note "
          ∷ codes "note delete "
          ∷ codes "note remove "
          ∷ [])
        text))

abbrev pub asks : Text → Match
asks skill_name = record { skill_name = skill_name; args = [] }

abbrev pub asks_with : Text → Text → Text → Match
asks_with skill_name key value = record { skill_name = skill_name; args = (key, value) ∷ [] }

-- The switch at the end of Parse.
unfoldable pub parse_metric_words : Text → Option Match
unfolding contains_any
parse_metric_words text =
    if contains_any text (
      codes "system status"
      ∷ codes "overall status"
      ∷ codes "agent status"
      ∷ codes "server status"
      ∷ codes "status server"
      ∷ [])
    then some (asks (codes "status"))
    else if contains_any text (codes "cpu" ∷ codes "processor usage" ∷ [])
    then some (asks (codes "cpu"))
    else if contains_any text (codes "memory" ∷ codes "ram" ∷ [])
    then some (asks (codes "memory"))
    else if contains_any text
        (codes "disk" ∷ codes "storage" ∷ codes "space left" ∷ codes "disk space" ∷ [])
    then some (asks (codes "disk"))
    else if contains_any text (codes "uptime" ∷ codes "how long has" ∷ codes "running for" ∷ [])
    then some (asks (codes "uptime"))
    else if contains_any text (codes "ip address" ∷ codes "what is my ip" ∷ codes "local ip" ∷ [])
    then some (asks (codes "ip"))
    else if contains_any text (codes "hostname" ∷ codes "host name" ∷ [])
    then some (asks (codes "hostname"))
    else if contains_any text (codes "temperature" ∷ codes "system temp" ∷ codes "cpu temp" ∷ [])
    then some (asks (codes "temperature"))
    else if contains_any text
        (codes "what can you do" ∷ codes "list skills" ∷ codes "available skills" ∷ [])
    then some (asks (codes "skills"))
    else none

-- The rules over the normalized text, in the order of the source.
unfoldable pub parse_normalized : Text → Option Match
unfolding parse_metric_words
parse_normalized text =
    if is_empty_text text
    then none
    else if not (is_empty_text (extract_after_keyword text (codes "restart")))
    then some (
        asks_with (codes "service_restart") (codes "service")
          (extract_after_keyword text (codes "restart")))
    else if not (is_empty_text (extract_logs_service text))
    then some (asks_with (codes "service_logs") (codes "service") (extract_logs_service text))
    else if not (is_empty_text (extract_status_service text))
    then some (asks_with (codes "service_status") (codes "service") (extract_status_service text))
    else if not (is_empty_text (extract_note_text text))
    then some (asks_with (codes "note_add") (codes "text") (extract_note_text text))
    else if not (is_empty_text (extract_note_delete_id text))
    then some (asks_with (codes "note_delete") (codes "id") (extract_note_delete_id text))
    else if contains_any text (codes "list notes" ∷ codes "show notes" ∷ codes "notes list" ∷ [])
    then some (asks (codes "note_list"))
    else if not (is_empty_text (extract_help_topic text))
    then some (asks_with (codes "help") (codes "topic") (extract_help_topic text))
    else parse_metric_words text

abbrev or_parse : Option Text → Option Match → Option Match
or_parse none later = later
or_parse (some query) later = some (asks_with (codes "memory_list") (codes "query") query)

unfoldable pub parse : Unicode → Text → Option Match
unfolding parse_normalized
parse unicode text =
    let trimmed = trim_space text in
    let lowered = to_lower trimmed in
    if not (is_empty_text (extract_memory_text trimmed lowered))
    then some (asks_with (codes "memory_add") (codes "text") (extract_memory_text trimmed lowered))
    else if not (is_empty_text (extract_memory_delete_ref trimmed lowered))
    then some (
        asks_with (codes "memory_delete") (codes "ref") (extract_memory_delete_ref trimmed lowered))
    else or_parse (extract_memory_query trimmed lowered) (parse_normalized (normalize unicode text))
