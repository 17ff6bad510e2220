-- ===== src/Redact.antt =====
-- internal/utils/redact.go: what the logs may show of a request.
pub mod Secrets
pub mod Examples
use open_light.Base.{
  ℕ, zero, suc, Bool, true, false, Option, none, some, List, [], ◌∷◌, ◌++◌, if◌then◌else◌, length,
  take, drop, leb,
}
use open_light.Base.Text.{
  Text, codes, one_of, to_lower, trim_space, fields, join, trim_prefix, is_empty_text,
}
use open_light.Base.Text.Search.{replace_code, before_code}

unfoldable pub sensitive_arg_keys : List Text
sensitive_arg_keys =
    codes "api_key" ∷ codes "passphrase" ∷ codes "password" ∷ codes "secret" ∷ codes "token" ∷ []

unfoldable pub redact_sensitive_args : List (Text × Text) → List (Text × Text)
unfolding sensitive_arg_keys
redact_sensitive_args [] = []
redact_sensitive_args ((key, value) ∷ args) =
    let rest = redact_sensitive_args args in
    (
      key,
      if one_of (to_lower (trim_space key)) sensitive_arg_keys then codes "[redacted]" else value,
    )
    ∷ rest

unfoldable pub normalize_redaction_command : Text → Text
unfolding before_code replace_code
normalize_redaction_command value =
    join
      (fields (
        replace_code b'-' b' ' (
          replace_code b'_' b' '
            (to_lower (before_code b'@' (trim_prefix (trim_space value) (codes "/")))))))
      (codes " ")

abbrev redact_fields : List Text → Text
redact_fields [] = []
redact_fields (name ∷ []) = name
redact_fields (name ∷ password ∷ []) = name ++ codes " [redacted]"
redact_fields (provider ∷ name ∷ password ∷ rest) =
    join (provider ∷ name ∷ codes "[redacted]" ∷ []) (codes " ")

unfoldable pub redact_user_add_args : Text → Text
redact_user_add_args args_text = redact_fields (fields (trim_space args_text))

unfoldable pub redact_sensitive_command_args : Text → Text → Option Text
unfolding redact_user_add_args
redact_sensitive_command_args command args_text =
    if one_of command (codes "user add" ∷ codes "add user" ∷ codes "register user" ∷ [])
    then some (redact_user_add_args args_text)
    else none

-- The command and what is left of its arguments.
abbrev pub redacted : List Text → Text → Text
redacted command [] = join command (codes " ")
redacted command (c ∷ args) = join (command ++ (c ∷ args) ∷ []) (codes " ")

-- The loop from `parts` down to 1; `none` if no command is sensitive.
unfoldable pub redact_down : ℕ → List Text → Option Text
unfolding normalize_redaction_command redact_sensitive_command_args
redact_down zero fs = none
redact_down (suc n) fs =
    let rest = redact_down n fs in
    elim (redact_sensitive_command_args
      (normalize_redaction_command (join (take (suc n) fs) (codes " ")))
      (trim_space (join (drop (suc n) fs) (codes " ")))) [
        | some args ↦ some (redacted (take (suc n) fs) args)
        | none ↦ rest
      ]

abbrev pub or_text : Option Text → Text → Text
or_text none text = text
or_text (some t) text = t

unfoldable pub redact_sensitive_text : Text → Text
unfolding redact_down
redact_sensitive_text text =
    let fs = fields (trim_space text) in
    if is_empty_text (trim_space text)
    then text
    else or_text (redact_down (if leb (length fs) 3 then length fs else 3) fs) text
