-- ===== src/Agent/Texts.antt =====
-- internal/core/agent.go: what the agent reads off a text, and the texts that it writes.
use open_light.Base.{
  ◌==◌, Bool, true, false, not, ◌&&◌, ◌||◌, Option, none, some, List, [], ◌∷◌, ◌++◌, length, take,
  if◌then◌else◌, leb,
}
use open_light.Base.Int.{ℤ}
use open_light.Base.Text.{
  Text, codes, one_of, contains, eqt, to_lower, trim_space, fields, join, has_prefix, trim_prefix,
  is_empty_text,
}
use open_light.Base.Text.Search.{before_code}
use open_light.Base.Decimal.{itoa, itoa_ℤ, parse_int}
use open_light.Base.Unicode.{Unicode}
use open_light.Errors.{
  Error, invalid_arguments, not_found, skill_not_found, access_denied, unavailable,
  deadline_exceeded, user_error,
}
use open_light.Router.{Decision, matched, should_clarify}
use open_light.Router.Semantic.{normalize}
use open_light.Agent.{Attachment, PendingClarification}

unfoldable pub with_reply_prefix : Text → Text → Text
with_reply_prefix prefix text =
    if is_empty_text (trim_space prefix)
    then trim_space text
    else if is_empty_text (trim_space text)
    then trim_space prefix
    else trim_space prefix ++ codes "\n\n" ++ trim_space text

unfoldable pub normalize_incoming_source : Text → Bool → Text
normalize_incoming_source source from_audio =
    let lowered = to_lower (trim_space source) in
    if not (is_empty_text lowered)
    then lowered
    else if from_audio
    then codes "telegram_voice"
    else codes "telegram"

-- The loop over the runes of the word.
unfoldable pub is_command_word : Unicode → Text → Bool
is_command_word unicode [] = true
is_command_word unicode (r ∷ word) =
    (r == b'_' || unicode.is_letter r || unicode.is_digit r) && is_command_word unicode word

-- strings.Fields(trimmed)[0] without the slash and what stands from the "@" on
unfoldable pub first_word : List Text → Text
first_word [] = []
first_word (f ∷ fs) = before_code b'@' (trim_prefix f (codes "/"))

unfoldable pub command_token : Unicode → Text → Text
unfolding first_word is_command_word
command_token unicode text =
    let trimmed = trim_space text in
    if not (has_prefix trimmed (codes "/"))
    then []
    else let word = first_word (fields trimmed) in
      if is_empty_text word then [] else if is_command_word unicode word then to_lower word else []

-- The value that isMenuCommand switches on.
unfoldable pub menu_value : Unicode → Text → Text
unfolding command_token
menu_value unicode value =
    let command = command_token unicode value in
    if length (fields value) == 1 && not (is_empty_text command)
    then codes "/" ++ command
    else value

unfoldable pub is_menu_command : Unicode → Text → Bool
unfolding menu_value
is_menu_command unicode text =
    one_of (menu_value unicode (to_lower (trim_space text)))
      (codes "/menu" ∷ codes "menu" ∷ codes "/home" ∷ codes "home" ∷ [])

unfoldable pub is_bare_slash_command : Text → Bool
is_bare_slash_command text =
    let trimmed = trim_space text in has_prefix trimmed (codes "/") && length (fields trimmed) == 1

unfoldable pub thanks : List Text
thanks = codes "thanks" ∷ codes "thank you" ∷ codes "спасибо" ∷ codes "благодарю" ∷ []

unfoldable pub assents : List Text
assents =
    codes "yes"
    ∷ codes "да"
    ∷ codes "ага"
    ∷ codes "угу"
    ∷ codes "ok"
    ∷ codes "okay"
    ∷ codes "ок"
    ∷ codes "ладно"
    ∷ codes "sure"
    ∷ codes "confirm"
    ∷ codes "confirmed"
    ∷ codes "подтверждаю"
    ∷ codes "сделай"
    ∷ codes "давай"
    ∷ codes "continue"
    ∷ codes "go"
    ∷ codes "ahead"
    ∷ []

unfoldable pub contains_one : Text → List Text → Bool
contains_one text [] = false
contains_one text (phrase ∷ phrases) = contains text phrase || contains_one text phrases

abbrev is_number : Option ℤ → Bool
is_number none = false
is_number (some n) = true

-- The loop over the words of the answer.
unfoldable pub has_assent : List Text → Bool
unfolding assents
has_assent [] = false
has_assent (word ∷ words) = is_number (parse_int word) || one_of word assents || has_assent words

unfoldable pub looks_like_clarification_answer : Unicode → Text → Bool
unfolding thanks contains_one has_assent
looks_like_clarification_answer unicode text =
    let lowered = to_lower (trim_space text) in
    if is_empty_text lowered
    then false
    else if contains_one lowered thanks
    then false
    else let normalized = normalize unicode text in
      if is_empty_text normalized then false else has_assent (fields normalized)

unfoldable pub should_use_pending_clarification : Unicode → Text → Decision → Bool
unfolding looks_like_clarification_answer should_clarify matched
should_use_pending_clarification unicode text decision =
    let trimmed = trim_space text in
    if is_empty_text trimmed || has_prefix trimmed (codes "/")
    then false
    else if should_clarify decision || not (matched decision)
    then true
    else if not (eqt decision.skill_name (codes "chat"))
    then false
    else looks_like_clarification_answer unicode trimmed

-- The verb %q is `quote`.
unfoldable pub compose_clarified_text : (Text → Text) → PendingClarification → Text → Text
compose_clarified_text quote pending answer =
    codes "Previous request: "
    ++ quote (trim_space pending.source_text)
    ++ codes "\nClarification question: "
    ++ quote (trim_space pending.question)
    ++ codes "\nUser answer: "
    ++ quote (trim_space answer)

unfoldable pub pending_clarification_key : ℤ → Text
pending_clarification_key chat_id = codes "pending_clarification:" ++ itoa_ℤ chat_id

-- The lines of the attachments that have a path.
unfoldable pub attachment_lines : List Attachment → List Text
attachment_lines [] = []
attachment_lines (a ∷ rest_of) =
    let rest = attachment_lines rest_of in
    if is_empty_text (trim_space a.path) then rest else (codes "• " ++ trim_space a.path) ∷ rest

abbrev note_lines : Text → List Text → Text
note_lines text [] = text
note_lines text (p ∷ parts) =
    if is_empty_text (trim_space text)
    then codes "Files:\n" ++ join (p ∷ parts) (codes "\n")
    else trim_space text ++ codes "\n\nFiles:\n" ++ join (p ∷ parts) (codes "\n")

unfoldable pub append_attachment_note : Text → List Attachment → Text
unfolding attachment_lines
append_attachment_note text attachments = note_lines text (attachment_lines attachments)

unfoldable pub short_text_for_log : Text → Text
short_text_for_log value =
    let trimmed = trim_space value in
    if leb (length trimmed) 160
    then trimmed
    else trim_space (take 160 trimmed) ++ codes "...(" ++ itoa (length trimmed) ++ codes " chars)"

-- `error_text` is `err.Error()`.
unfoldable pub user_message_for_error : (Error → Text) → Error → Text
user_message_for_error error_text (user_error e message) = message
user_message_for_error error_text invalid_arguments = error_text invalid_arguments
user_message_for_error error_text skill_not_found = error_text skill_not_found
user_message_for_error error_text not_found = error_text not_found
user_message_for_error error_text access_denied = error_text access_denied
user_message_for_error error_text unavailable = error_text unavailable
user_message_for_error error_text deadline_exceeded = codes "request timed out"
user_message_for_error error_text _ = codes "internal error"
