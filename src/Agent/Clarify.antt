-- ===== src/Agent/Clarify.antt =====
-- internal/core/agent.go: the question that is open in a chat, and the routing that uses it. `now` is
-- the time at which the message is handled.
pub mod Keeps
pub mod Questions
use open_light.Base.{
  Bool, true, false, not, ◌&&◌, ◌||◌, Option, none, some, [], ◌∷◌, ◌*◌, if◌then◌else◌,
}
use open_light.Base.Int.{ℤ, pos, ltb_ℤ}
use open_light.Base.Text.{Text, codes, trim_space, has_prefix, is_empty_text}
use open_light.Base.Time.{Time, minute, time_sub}
use open_light.Errors.{Result, ok, err}
use open_light.Redact.{redact_sensitive_text}
use open_light.Registry.{get}
use open_light.Router.{Mode, unknown, Decision, decide, matched}
use open_light.Router.Args.{one_arg}
use open_light.Router.Route.{route}
use open_light.Agent.{Agent, IncomingMessage, PendingClarification, Setting}
use open_light.Agent.Texts.{
  pending_clarification_key, compose_clarified_text, should_use_pending_clarification,
}
use open_light.Agent.Store.{M, ◌>>=◌, ◌>>◌, pure, set_setting, get_setting, is_some}

-- Which decision the message gets, and the text that it was made on.
pub record Routed : Type 0 where
  pub decision : Decision
  pub text : Text

module _ {S : Type 0} (agent : Agent S) where
  unfoldable pub clarification_for : Text → Text → PendingClarification
  clarification_for source_text question = record {
    source_text = trim_space (redact_sensitive_text source_text);
    question = trim_space question;
  }

  unfoldable pub save_pending_clarification : ℤ → Text → Text → Time → M S (Unit {0})
  unfolding set_setting clarification_for
  save_pending_clarification chat source_text question now =
      set_setting (pending_clarification_key chat)
        (agent.marshal (clarification_for source_text question)) now

  unfoldable pub clear_pending_clarification : ℤ → Time → M S (Unit {0})
  unfolding set_setting
  clear_pending_clarification chat now = set_setting (pending_clarification_key chat) [] now

  -- What a saved payload asks, with its texts trimmed; `none` if it is no question.
  unfoldable pub valid_clarification : Option PendingClarification → Option PendingClarification
  valid_clarification none = none
  valid_clarification (some p) =
      if is_empty_text (trim_space p.source_text) || is_empty_text (trim_space p.question)
      then none
      else some
          (record { source_text = trim_space p.source_text; question = trim_space p.question })

  or_cleared : ℤ → Time → Option PendingClarification → M S (Option PendingClarification)
  unfolding clear_pending_clarification
  or_cleared chat now (some pending) = pure (some pending)
  or_cleared chat now none = do clear_pending_clarification chat now; pure none

  loaded : ℤ → Time → Option Setting → M S (Option PendingClarification)
  unfolding or_cleared valid_clarification
  loaded chat now none = pure none
  loaded chat now (some setting) =
      if is_empty_text (trim_space setting.value)
      then pure none
      else or_cleared chat now (
          if ltb_ℤ (pos (10 * minute)) (time_sub now setting.updated_at)
          then none
          else valid_clarification (agent.unmarshal setting.value))

  unfoldable pub load_pending_clarification : ℤ → Time → M S (Option PendingClarification)
  unfolding get_setting loaded
  load_pending_clarification chat now = do
    setting ← get_setting (pending_clarification_key chat)
    loaded chat now setting

  -- The decision on the stitched text, unless it fails.
  clarified : Routed → Text → Result Decision → Routed
  clarified routed text (err e) = routed
  clarified routed text (ok decision) = record { decision = decision; text = text }

  unfoldable pub with_clarification : Text → Routed → PendingClarification → Routed
  unfolding clarified
  with_clarification text routed pending =
      if should_use_pending_clarification agent.router.unicode text routed.decision
      then clarified routed (compose_clarified_text agent.quote pending text)
          (route agent.router (compose_clarified_text agent.quote pending text))
      else routed

  answered : IncomingMessage → Routed → Time → Option PendingClarification → M S Routed
  unfolding with_clarification clear_pending_clarification
  answered message routed now none = pure routed
  answered message routed now (some pending) = do
    clear_pending_clarification message.chat_id now
    pure (with_clarification message.text routed pending)

  routed_first : IncomingMessage → Time → Result Decision → M S (Result Routed)
  unfolding load_pending_clarification answered
  routed_first message now (err e) = pure (err e)
  routed_first message now (ok decision) = do
    pending ← load_pending_clarification message.chat_id now
    routed ← answered message (record { decision = decision; text = message.text }) now pending
    pure (ok routed)

  unfoldable pub route_with_clarification : IncomingMessage → Time → M S (Result Routed)
  unfolding routed_first
  route_with_clarification message now = routed_first message now (route agent.router message.text)

  unfoldable pub apply_chat_fallback : IncomingMessage → Decision → Decision
  apply_chat_fallback message decision =
      if matched decision
      then decision
      else if has_prefix (trim_space message.text) (codes "/")
      then decision
      else if not (is_some (get (codes "chat") agent.registry))
      then decision
      else decide unknown (codes "chat") (one_arg (codes "text") message.text)
