-- ===== src/Memory/Gate.antt =====
-- internal/memory/gate.go: whether a message is worth a look into the memory.
use open_light.Base.{
  Bool, true, false, not, ◌&&◌, ◌||◌, ◌==◌, leb, ltb, List, [], ◌∷◌, ◌++◌, if◌then◌else◌, length,
}
use open_light.Base.Text.{
  Text, codes, eqt, to_lower, trim_space, fields, has_prefix, contains, is_empty_text,
}
use open_light.Base.Unicode.{Unicode}

pub data RetrievalMode : Type 0 where
  heuristic always off : RetrievalMode

unfoldable pub parse_retrieval_mode : Text → RetrievalMode
parse_retrieval_mode raw =
    let mode = to_lower (trim_space raw) in
    if eqt mode (codes "always") then always else if eqt mode (codes "off") then off else heuristic

unfoldable pub recall_triggers : List Text
recall_triggers =
    codes "помнишь"
    ∷ codes "помните"
    ∷ codes "напомни"
    ∷ codes "ты помнил"
    ∷ codes "запомнил"
    ∷ codes "что мы решили"
    ∷ codes "что решили"
    ∷ codes "почему мы"
    ∷ codes "зачем мы"
    ∷ codes "как мы"
    ∷ codes "что я говорил"
    ∷ codes "что я просил"
    ∷ codes "что я делал"
    ∷ codes "что было"
    ∷ codes "о чем мы"
    ∷ codes "мы обсуждали"
    ∷ codes "обсуждали"
    ∷ codes "договорились"
    ∷ codes "какой у меня"
    ∷ codes "какая у меня"
    ∷ codes "какое у меня"
    ∷ codes "какие у меня"
    ∷ codes "сколько у меня"
    ∷ codes "где у меня"
    ∷ codes "что у меня"
    ∷ codes "где документ"
    ∷ codes "в документе"
    ∷ codes "в pdf"
    ∷ codes "в файле"
    ∷ codes "по документу"
    ∷ codes "что ты знаешь"
    ∷ codes "откуда ты"
    ∷ codes "из памяти"
    ∷ codes "в прошлый раз"
    ∷ codes "ранее"
    ∷ codes "мой "
    ∷ codes "моя "
    ∷ codes "мои "
    ∷ codes "моё "
    ∷ codes "мое "
    ∷ codes "do you remember"
    ∷ codes "remember when"
    ∷ codes "you remembered"
    ∷ codes "recall"
    ∷ codes "what did we"
    ∷ codes "why did we"
    ∷ codes "how did we"
    ∷ codes "what have i"
    ∷ codes "what did i"
    ∷ codes "we decided"
    ∷ codes "we agreed"
    ∷ codes "we discussed"
    ∷ codes "what is my"
    ∷ codes "what's my"
    ∷ codes "which of my"
    ∷ codes "how many of my"
    ∷ codes "where is my"
    ∷ codes "where did i"
    ∷ codes "in the document"
    ∷ codes "in the pdf"
    ∷ codes "in the file"
    ∷ codes "according to the"
    ∷ codes "what do you know about"
    ∷ codes "where is the document"
    ∷ codes "where are the docs"
    ∷ codes "which document"
    ∷ codes "how do you know"
    ∷ codes "last time"
    ∷ codes "previously"
    ∷ codes "earlier we"
    ∷ []

unfoldable pub command_like : List Text
command_like =
    codes "включи"
    ∷ codes "выключи"
    ∷ codes "запусти"
    ∷ codes "останови"
    ∷ codes "перезапусти"
    ∷ codes "рестарт"
    ∷ codes "ping"
    ∷ codes "пинг"
    ∷ codes "статус"
    ∷ codes "status"
    ∷ codes "время"
    ∷ codes "который час"
    ∷ codes "сколько времени"
    ∷ codes "turn on"
    ∷ codes "turn off"
    ∷ codes "start"
    ∷ codes "stop"
    ∷ codes "restart"
    ∷ codes "reboot"
    ∷ codes "привет"
    ∷ codes "спасибо"
    ∷ codes "ок"
    ∷ codes "ага"
    ∷ codes "угу"
    ∷ codes "hi"
    ∷ codes "hello"
    ∷ codes "thanks"
    ∷ codes "ok"
    ∷ []

-- The loop over the triggers.
unfoldable pub has_trigger : List Text → Text → Bool
has_trigger [] text = false
has_trigger (t ∷ ts) text = contains text t || has_trigger ts text

-- The loop over the openers.
unfoldable pub opens_with : List Text → Text → Text → Bool
opens_with [] first normalized = false
opens_with (p ∷ ps) first normalized =
    eqt first p || has_prefix normalized (p ++ codes " ") || opens_with ps first normalized

unfoldable pub is_command_like : Text → List Text → Bool
unfolding opens_with command_like
is_command_like normalized [] = false
is_command_like normalized (w ∷ words) = opens_with command_like w normalized

module _ (unicode : Unicode) where
  open unicode use {is_letter, is_digit}

  -- The loop of normalizeForGate; `last_space` is its flag.
  unfoldable pub gate_runes : Bool → Text → Text
  gate_runes last_space [] = []
  gate_runes last_space (r ∷ s) = elim (is_letter r || is_digit r || r == b'\'' || r == b'-') [
    | true ↦ r ∷ gate_runes false s
    | false ↦ elim last_space [ true ↦ gate_runes true s | false ↦ b' ' ∷ gate_runes true s ]
  ]

  unfoldable pub normalize_for_gate : Text → Text
  unfolding gate_runes
  normalize_for_gate text = trim_space (gate_runes true (to_lower text))

  -- What is asked of a message that is not empty and not a slash command.
  unfoldable pub heuristic_gate : Text → Bool
  unfolding normalize_for_gate is_command_like has_trigger recall_triggers
  heuristic_gate trimmed =
      let normalized = normalize_for_gate trimmed in
      let words = fields normalized in
      if is_empty_text normalized
      then false
      else if ltb (length words) 2
      then false
      else if has_trigger recall_triggers (normalized ++ codes " ")
      then true
      else if is_command_like normalized words
      then false
      else contains trimmed (codes "?") && leb 4 (length words)

  unfoldable pub should_retrieve : RetrievalMode → Text → Bool
  unfolding heuristic_gate
  should_retrieve off text = false
  should_retrieve always text =
      let trimmed = trim_space text in
      not (is_empty_text trimmed) && not (has_prefix trimmed (codes "/"))
  should_retrieve heuristic text =
      let trimmed = trim_space text in
      if is_empty_text trimmed || has_prefix trimmed (codes "/")
      then false
      else heuristic_gate trimmed
