-- ===== src/Memory/Chunk/Tokens.antt =====
-- internal/memory/chunk.go: the estimate of the tokens of a text. Go's int is taken as unbounded: a
-- count is at most the number of the runes.
use open_light.Base.{ℕ, suc, ◌+◌, ◌/◌, ltb, [], ◌∷◌, if◌then◌else◌}
use open_light.Base.Text.{Text, trim_space, is_empty_text}
use open_light.Base.Unicode.{Unicode}

pub record TokenCounter : Type 0 where
  pub plain : ℕ
  pub wide : ℕ

module _ (unicode : Unicode) where
  open unicode use {is_wide}

  -- tokenCounter.add
  unfoldable pub add : Text → TokenCounter → TokenCounter
  add [] c = c
  add (r ∷ text) c = add text (
      if ltb r 128
      then record c { plain = suc c.plain }
      else if is_wide r
      then record c { wide = suc c.wide }
      else record c { plain = suc c.plain })

  -- tokenCounter.tokens
  unfoldable pub tokens : TokenCounter → ℕ
  tokens c = c.plain / 4 + c.wide / 2

  abbrev pub no_tokens : TokenCounter
  no_tokens = record { plain = 0; wide = 0 }

  unfoldable pub estimate_tokens : Text → ℕ
  unfolding add tokens
  estimate_tokens text =
      let trimmed = trim_space text in
      if is_empty_text trimmed
      then 0
      else if ltb (tokens (add trimmed no_tokens)) 1
      then 1
      else tokens (add trimmed no_tokens)
