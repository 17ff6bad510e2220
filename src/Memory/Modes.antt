-- ===== src/Memory/Modes.antt =====
-- internal/memory/gate.go: how the modes of retrieval compare.
use open_light.Base.{true, ◌≡◌, arith}
use open_light.Base.Text.{Text}
use open_light.Base.Unicode.{Unicode}
use open_light.Memory.Gate.{RetrievalMode, heuristic, always, off, should_retrieve}

module _ (unicode : Unicode) where
  -- A message for which the memory is asked, in whatever mode, is one for which it is asked in the mode
  -- "always": it is not blank and not a slash command.
  pub should_retrieve-always :
      (mode : RetrievalMode) (text : Text)
      → should_retrieve unicode mode text ≡ true
      → should_retrieve unicode always text ≡ true
  unfolding should_retrieve
  should_retrieve-always off text h = ground arith
  should_retrieve-always always text h = h
  should_retrieve-always heuristic text h = ground arith
