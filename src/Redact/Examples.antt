-- ===== src/Redact/Examples.antt =====
-- Redacted texts at concrete values.
use open_light.Base.{[], ◌∷◌, true, false, ◌≡◌, refl, none_of, none_of-All}
use open_light.Base.Text.{
  Text, codes, is_space, is_empty_text, join, fields, to_lower, trim_prefix, trim_space, one_of,
}
use open_light.Base.Text.Fields.{IsField}
use open_light.Redact.{redact_sensitive_text}
use open_light.Redact.Secrets.{is_sensitive, redact_sensitive_text-join}

word : (w : Text) → is_empty_text w ≡ false → none_of is_space w ≡ true → IsField w
word w h n = (h, none_of-All is_space w n)

redact_sensitive_text-join_example :
    redact_sensitive_text (
      join
        (codes "/user"
          ∷ codes "add"
          ∷ codes "matrix"
          ∷ codes "alice"
          ∷ codes "s3cret"
          ∷ codes "x"
          ∷ [])
        (codes " "))
    ≡ join
        (codes "/user" ∷ codes "add" ∷ codes "matrix" ∷ codes "alice" ∷ codes "[redacted]" ∷ [])
        (codes " ")
unfolding is_sensitive is_space codes join fields to_lower trim_prefix trim_space
redact_sensitive_text-join_example =
    redact_sensitive_text-join (codes "/user") (codes "add") (codes "matrix") (codes "alice")
      (codes "s3cret") (codes "x" ∷ [])
      (
        word (codes "/user") refl refl,
        (
          word (codes "add") refl refl,
          (
            word (codes "matrix") refl refl,
            (
              word (codes "alice") refl refl,
              (word (codes "s3cret") refl refl, (word (codes "x") refl refl, tt)),
            ),
          ),
        ),
      )
      refl refl

-- A command that is addressed to the bot keeps its password in the logs.
mention_shows_password :
    redact_sensitive_text (codes "/user_add@bot matrix alice s3cret")
    ≡ codes "/user_add@bot matrix alice s3cret"
unfolding redact_sensitive_text codes trim_space fields one_of join to_lower trim_prefix
mention_shows_password = refl
