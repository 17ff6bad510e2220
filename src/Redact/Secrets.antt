-- ===== src/Redact/Secrets.antt =====
-- internal/utils/redact.go: what is left of a command that adds a user.
use open_light.Base.{
  ℕ, Bool, true, false, none, some, List, [], ◌∷◌, ◌≡◌, refl, ap, ◌∙◌, All, length, take, drop, leb,
  if◌then◌else◌, suc, arith,
}
use open_light.Base.Text.{Text, codes, one_of, eqt, trim_space, fields, join, is_empty_text}
use open_light.Base.Text.Fields.{IsField, fields-join, fields-trim_space}
use open_light.Redact.{
  or_text, redacted, normalize_redaction_command, redact_user_add_args,
  redact_sensitive_command_args, redact_down, redact_sensitive_text,
}

-- The commands whose arguments hold a password.
unfoldable pub is_sensitive : List Text → Bool
unfolding one_of eqt codes normalize_redaction_command
is_sensitive command =
    one_of (normalize_redaction_command (join command (codes " ")))
      (codes "user add" ∷ codes "add user" ∷ codes "register user" ∷ [])

-- The words of a text that was joined from words.
words_of-join : (ws : List Text) → All IsField ws → fields (trim_space (join ws (codes " "))) ≡ ws
unfolding codes
words_of-join ws h = fields-trim_space (join ws (codes " ")) ∙ fields-join ws h

trimmed-words :
    (s : Text) (w : Text) (ws : List Text)
    → fields (trim_space s) ≡ w ∷ ws
    → is_empty_text (trim_space s) ≡ false
unfolding fields
trimmed-words s w ws h = go (trim_space s) h
  where
    go : (t : Text) → fields t ≡ w ∷ ws → is_empty_text t ≡ false
    go [] e = cc
    go (c ∷ t) e = refl

-- The arguments of the command: only the two first are kept.
redact_user_add_args-join :
    (p u s : Text) (more : List Text)
    → All IsField (p ∷ u ∷ s ∷ more)
    → redact_user_add_args (trim_space (join (p ∷ u ∷ s ∷ more) (codes " ")))
      ≡ join (p ∷ u ∷ codes "[redacted]" ∷ []) (codes " ")
unfolding redact_user_add_args
redact_user_add_args-join p u s more h = rw (
  fields-trim_space (trim_space (join (p ∷ u ∷ s ∷ more) (codes " "))),
  words_of-join (p ∷ u ∷ s ∷ more) h,
)

args-sensitive :
    (command : List Text) (args : Text)
    → is_sensitive command ≡ true
    → redact_sensitive_command_args (normalize_redaction_command (join command (codes " "))) args
      ≡ some (redact_user_add_args args)
unfolding is_sensitive redact_sensitive_command_args
args-sensitive command args h = rw h

args-other :
    (command : List Text) (args : Text)
    → is_sensitive command ≡ false
    → redact_sensitive_command_args (normalize_redaction_command (join command (codes " "))) args
      ≡ none
unfolding is_sensitive redact_sensitive_command_args
args-other command args h = rw h

redact_down-skip :
    (n : ℕ) (fs : List Text)
    → is_sensitive (take (suc n) fs) ≡ false
    → redact_down (suc n) fs ≡ redact_down n fs
unfolding redact_down
redact_down-skip n fs h =
    rw (
      args-other (take (suc n) fs) (trim_space (join (drop (suc n) fs) (codes " "))) h,
      redact_down,
    )

redact_down-found :
    (n : ℕ) (fs : List Text)
    → is_sensitive (take (suc n) fs) ≡ true
    → redact_down (suc n) fs
      ≡ some (
          redacted
            (take (suc n) fs)
            (redact_user_add_args (trim_space (join (drop (suc n) fs) (codes " ")))))
unfolding redact_down
redact_down-found n fs h = rw (
  args-sensitive (take (suc n) fs) (trim_space (join (drop (suc n) fs) (codes " "))) h,
  redact_down,
)

redacted-join :
    (a b p u v : Text)
    → IsField p
    → redacted (a ∷ b ∷ []) (join (p ∷ u ∷ v ∷ []) (codes " "))
      ≡ join (a ∷ b ∷ p ∷ u ∷ v ∷ []) (codes " ")
unfolding join
redacted-join a b [] u v h = cc
redacted-join a b (c ∷ p) u v h = refl

at_most_three :
    (n : ℕ)
    → (if leb (suc (suc (suc (suc (suc n))))) 3 then suc (suc (suc (suc (suc n)))) else 3) ≡ 3
at_most_three n = ground arith

redact_down-three :
    (a b p u s : Text) (more : List Text)
    → All IsField (a ∷ b ∷ p ∷ u ∷ s ∷ more)
    → is_sensitive (a ∷ b ∷ p ∷ []) ≡ false
    → is_sensitive (a ∷ b ∷ []) ≡ true
    → redact_down 3 (a ∷ b ∷ p ∷ u ∷ s ∷ more)
      ≡ some (join (a ∷ b ∷ p ∷ u ∷ codes "[redacted]" ∷ []) (codes " "))
redact_down-three a b p u s more h three two =
    redact_down-skip 2 (a ∷ b ∷ p ∷ u ∷ s ∷ more) three
    ∙ redact_down-found 1 (a ∷ b ∷ p ∷ u ∷ s ∷ more) two
    ∙ ap (λ t. some (redacted (a ∷ b ∷ []) t)) (redact_user_add_args-join p u s more h.1.1)
    ∙ ap some (redacted-join a b p u (codes "[redacted]") h.1.1.0)

-- The text "a b p u s ...", of whose words the first two are a command with a password but the first three
-- are not, is shown as "a b p u [redacted]": neither `s` nor any word behind it is shown.
pub redact_sensitive_text-join :
    (a b p u s : Text) (more : List Text)
    → All IsField (a ∷ b ∷ p ∷ u ∷ s ∷ more)
    → is_sensitive (a ∷ b ∷ p ∷ []) ≡ false
    → is_sensitive (a ∷ b ∷ []) ≡ true
    → redact_sensitive_text (join (a ∷ b ∷ p ∷ u ∷ s ∷ more) (codes " "))
      ≡ join (a ∷ b ∷ p ∷ u ∷ codes "[redacted]" ∷ []) (codes " ")
unfolding redact_sensitive_text
redact_sensitive_text-join a b p u s more h three two =
    rw
      (
        words_of-join (a ∷ b ∷ p ∷ u ∷ s ∷ more) h,
        trimmed-words (join (a ∷ b ∷ p ∷ u ∷ s ∷ more) (codes " ")) a (b ∷ p ∷ u ∷ s ∷ more)
            (words_of-join (a ∷ b ∷ p ∷ u ∷ s ∷ more) h),
      )
      (ap
          (λ n.
            or_text (redact_down n (a ∷ b ∷ p ∷ u ∷ s ∷ more))
              (join (a ∷ b ∷ p ∷ u ∷ s ∷ more) (codes " ")))
          (at_most_three (length more))
        ∙ ap (λ o. or_text o (join (a ∷ b ∷ p ∷ u ∷ s ∷ more) (codes " ")))
            (redact_down-three a b p u s more h three two))
