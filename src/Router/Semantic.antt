-- ===== src/Router/Semantic.antt =====
-- internal/router/semantic/normalize.go: the words of a request in one form.
use open_light.Base.{
  ℕ, zero, suc, Bool, true, false, ◌||◌, Option, none, some, List, [], ◌∷◌, if◌then◌else◌, ◌==◌,
  ◌&&◌, length, ◌-◌,
}
use open_light.Base.Text.{Text, codes, eqt, to_lower, trim_space, fields, join}
use open_light.Base.Unicode.{Unicode}

-- The words that are rewritten, the longest sequences first, and what they become.
pub record Rule : Type 0 where
  pub from : List Text
  pub to : Text

abbrev word : Text → Text → Rule
word from to = record { from = from ∷ []; to = to }

abbrev pair : Text → Text → Text → Rule
pair first second to = record { from = first ∷ second ∷ []; to = to }

unfoldable pub token_rewrite_rules : List Rule
token_rewrite_rules =
    pair (codes "оперативная") (codes "память") (codes "memory")
    ∷ pair (codes "оперативную") (codes "память") (codes "memory")
    ∷ pair (codes "оперативной") (codes "памяти") (codes "memory")
    ∷ word (codes "покажи") (codes "show")
    ∷ word (codes "посмотри") (codes "show")
    ∷ word (codes "проверь") (codes "check")
    ∷ word (codes "глянь") (codes "check")
    ∷ word (codes "общий") (codes "overall")
    ∷ word (codes "общая") (codes "overall")
    ∷ word (codes "общее") (codes "overall")
    ∷ word (codes "общем") (codes "overall")
    ∷ word (codes "общую") (codes "overall")
    ∷ word (codes "память") (codes "memory")
    ∷ word (codes "оперативка") (codes "memory")
    ∷ word (codes "оперативку") (codes "memory")
    ∷ word (codes "оперативке") (codes "memory")
    ∷ word (codes "оперативной") (codes "memory")
    ∷ word (codes "мемори") (codes "memory")
    ∷ word (codes "рам") (codes "memory")
    ∷ word (codes "ram") (codes "memory")
    ∷ word (codes "цпу") (codes "cpu")
    ∷ word (codes "проц") (codes "cpu")
    ∷ word (codes "процессора") (codes "cpu")
    ∷ word (codes "процессору") (codes "cpu")
    ∷ word (codes "процессор") (codes "cpu")
    ∷ word (codes "загрузка") (codes "usage")
    ∷ word (codes "диск") (codes "disk")
    ∷ word (codes "storage") (codes "disk")
    ∷ word (codes "место") (codes "disk")
    ∷ word (codes "логи") (codes "logs")
    ∷ word (codes "лог") (codes "logs")
    ∷ word (codes "журнал") (codes "logs")
    ∷ word (codes "перезапустить") (codes "restart")
    ∷ word (codes "перезапусти") (codes "restart")
    ∷ word (codes "рестартни") (codes "restart")
    ∷ word (codes "рестарт") (codes "restart")
    ∷ word (codes "сервиса") (codes "service")
    ∷ word (codes "сервисы") (codes "services")
    ∷ word (codes "сервис") (codes "service")
    ∷ word (codes "статус") (codes "status")
    ∷ word (codes "состояние") (codes "status")
    ∷ word (codes "температура") (codes "temperature")
    ∷ word (codes "температуру") (codes "temperature")
    ∷ word (codes "температуры") (codes "temperature")
    ∷ word (codes "температуре") (codes "temperature")
    ∷ word (codes "темпа") (codes "temperature")
    ∷ word (codes "аптайм") (codes "uptime")
    ∷ word (codes "хост") (codes "hostname")
    ∷ word (codes "айпи") (codes "ip")
    ∷ word (codes "заметки") (codes "notes")
    ∷ word (codes "заметку") (codes "note")
    ∷ word (codes "заметка") (codes "note")
    ∷ word (codes "добавить") (codes "add")
    ∷ word (codes "добавь") (codes "add")
    ∷ word (codes "создай") (codes "add")
    ∷ word (codes "создать") (codes "add")
    ∷ word (codes "запомни") (codes "remember")
    ∷ word (codes "удалить") (codes "delete")
    ∷ word (codes "удали") (codes "delete")
    ∷ word (codes "скиллах") (codes "skills")
    ∷ word (codes "скиллы") (codes "skills")
    ∷ word (codes "скилы") (codes "skills")
    ∷ word (codes "умеешь") (codes "skills")
    ∷ word (codes "возможности") (codes "skills")
    ∷ word (codes "навыки") (codes "skills")
    ∷ word (codes "интернет") (codes "network")
    ∷ word (codes "сервер") (codes "server")
    ∷ word (codes "сервера") (codes "server")
    ∷ word (codes "сервере") (codes "server")
    ∷ word (codes "серверу") (codes "server")
    ∷ word (codes "сервак") (codes "server")
    ∷ word (codes "джитси") (codes "jitsi")
    ∷ word (codes "синапс") (codes "synapse")
    ∷ word (codes "распбери") (codes "raspberry")
    ∷ word (codes "малинка") (codes "raspberry")
    ∷ word (codes "малинку") (codes "raspberry")
    ∷ []

-- matchesRule, with the check of the length before it
unfoldable pub matches_rule : List Text → List Text → Bool
matches_rule tokens [] = true
matches_rule [] (p ∷ pattern) = false
matches_rule (t ∷ tokens) (p ∷ pattern) = eqt t p && matches_rule tokens pattern

unfoldable pub first_rule : List Rule → List Text → Option Rule
unfolding matches_rule
first_rule [] tokens = none
first_rule (rule ∷ rules) tokens =
    if matches_rule tokens rule.from then some rule else first_rule rules tokens

-- The loop over the tokens; the first `skip` of them belong to the sequence that was rewritten last.
unfoldable pub rewrite : List Rule → ℕ → List Text → List Text
unfolding first_rule
rewrite rules skip [] = []
rewrite rules (suc skip) (t ∷ tokens) = rewrite rules skip tokens
rewrite rules zero (t ∷ tokens) = elim (first_rule rules (t ∷ tokens)) [
  | none ↦ t ∷ rewrite rules zero tokens
  | some rule ↦ rule.to ∷ rewrite rules (length rule.from - 1) tokens
]

module _ (unicode : Unicode) where
  open unicode use {is_letter, is_number}

  -- [\p{L}\p{N}\s._/-]
  unfoldable pub is_kept : ℕ → Bool
  is_kept r =
      is_letter r
      || is_number r
      || r == 9
      || r == 10
      || r == 12
      || r == 13
      || r == 32
      || r == b'.'
      || r == b'_'
      || r == b'/'
      || r == b'-'

  -- nonAlnum.ReplaceAllString(value, " "): a run of other runes becomes one space
  unfoldable pub strip_symbols : Bool → Text → Text
  unfolding is_kept
  strip_symbols inside [] = []
  strip_symbols inside (c ∷ s) = elim (is_kept c) [
    | true ↦ c ∷ strip_symbols false s
    | false ↦ elim inside [ true ↦ strip_symbols true s | false ↦ b' ' ∷ strip_symbols true s ]
  ]

  unfoldable pub normalize : Text → Text
  unfolding strip_symbols rewrite token_rewrite_rules
  normalize value =
      join
        (rewrite token_rewrite_rules 0 (fields (strip_symbols false (to_lower (trim_space value)))))
        (codes " ")

  unfoldable pub tokens : Text → List Text
  unfolding normalize
  tokens value = fields (normalize value)
