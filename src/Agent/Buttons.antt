-- ===== src/Agent/Buttons.antt =====
-- internal/core/agent.go: what the buttons do with a message, and the replies of a skill. A stage returns
-- `some` result where it has handled the message.
pub mod Keeps
pub mod Escape
use open_light.Base.{List, Bool, true, false, not, ◌&&◌, Option, none, some, [], ◌∷◌, if◌then◌else◌}
use open_light.Base.Int.{ℤ}
use open_light.Base.Text.{Text, codes, trim_space, has_prefix, is_empty_text}
use open_light.Base.Time.{Time}
use open_light.Errors.{Error, Result, ok, err}
use open_light.Redact.{redact_sensitive_text, redact_sensitive_args}
use open_light.Auth.{AccessError, error}
use open_light.Registry.{Definition, get}
use open_light.Router.{Decision, matched, should_clarify}
use open_light.Router.Args.{one_arg}
use open_light.Router.Route.{is_command}
use open_light.Watch.World.{SkillCall}
use open_light.Watch.Env.{Env}
use open_light.Watch.Handle.{handle_action}
use open_light.Agent.{Agent, State, Ui, IncomingMessage, Input, Message, role_user, SkillResult}
use open_light.Agent.Texts.{
  with_reply_prefix, normalize_incoming_source, command_token, is_menu_command,
  is_bare_slash_command, user_message_for_error,
}
use open_light.Agent.Store.{
  M, ◌>>=◌, ◌>>◌, pure, save_message, save_skill_call, record_turn, reply, reply_result, is_some,
}
use open_light.Agent.Clarify.{
  Routed, save_pending_clarification, route_with_clarification, apply_chat_fallback,
}
use open_light.Agent.Inbox.{on_outside, run_skill}

abbrev pub Outcome : Type 0
Outcome = Option (Result (Unit {0}))

-- (true, a.reply(…))
abbrev pub handled : {S : Type 0} → M S (Result (Unit {0})) → M S Outcome
handled m = m >>= λ result. pure (some result)

abbrev on_ui : {S : Type 0} → (S → S) → M S (Unit {0})
on_ui f = on_outside λ s. (tt, f s)

-- strings.HasPrefix(strings.TrimSpace(text), "/")
unfoldable pub is_slash_text : Text → Bool
is_slash_text text = has_prefix (trim_space text) (codes "/")

module _ {S : Type 0} (agent : Agent S) where
  -- A reply to the message, behind the prefix.
  unfoldable pub prefixed : IncomingMessage → Text → Text → M S (Result (Unit {0}))
  unfolding with_reply_prefix
  prefixed message prefix text =
      reply agent message.chat_id message.user_id (with_reply_prefix prefix text)

  unfoldable pub is_agent_command : Text → Bool
  unfolding command_token
  is_agent_command text =
      if is_empty_text (command_token agent.router.unicode text)
      then false
      else is_command agent.router text

  unfoldable pub with_prefix : Text → SkillResult → SkillResult
  unfolding with_reply_prefix
  with_prefix prefix result =
      if is_empty_text prefix
      then result
      else record result { text = with_reply_prefix prefix result.text }

  -- What a skill returned, as a reply.
  unfoldable pub skill_reply : IncomingMessage → Text → Result SkillResult → M S (Result (Unit {0}))
  unfolding prefixed with_prefix
  skill_reply message prefix (err e) =
      prefixed message prefix (user_message_for_error agent.error_text e)
  skill_reply message prefix (ok result) =
      reply_result agent message.chat_id message.user_id (with_prefix prefix result)

  unfoldable pub skill_input : IncomingMessage → List (Text × Text) → Input
  skill_input message args = record {
    raw_text = message.text;
    args = args;
    user_id = message.user_id;
    chat_id = message.chat_id;
    source = message.source;
  }

  free_chat_skill : IncomingMessage → Text → Option Definition → M S (Result (Unit {0}))
  unfolding prefixed skill_reply skill_input run_skill
  free_chat_skill message prefix none = prefixed message prefix (codes "chat skill not registered")
  free_chat_skill message prefix (some skill) = do
    result ← run_skill agent skill (skill_input message (one_arg (codes "text") message.text))
    skill_reply message prefix result

  unfoldable pub run_free_chat : IncomingMessage → Text → M S (Result (Unit {0}))
  unfolding free_chat_skill
  run_free_chat message prefix = free_chat_skill message prefix (get (codes "chat") agent.registry)

  -- `if err != nil { …, return true, a.reply(…, "internal error") }; return true, nil`
  ui_done : IncomingMessage → Text → Result (Unit {0}) → M S Outcome
  unfolding prefixed
  ui_done message prefix (ok done) = pure (some (ok tt))
  ui_done message prefix (err e) = handled (prefixed message prefix (codes "internal error"))

  ui_free_chat : Ui S → IncomingMessage → Text → M S Outcome
  unfolding run_free_chat is_slash_text
  ui_free_chat ui message prefix st =
      (if ui.is_free_chat message.chat_id st.outside
            && not (is_slash_text message.text)
            && is_some (get (codes "chat") agent.registry)
          then handled (run_free_chat message prefix)
          else pure none)
        st

  ui_consumed : Ui S → IncomingMessage → Text → Result Bool → M S Outcome
  unfolding prefixed ui_free_chat
  ui_consumed ui message prefix (err e) = handled (prefixed message prefix (codes "internal error"))
  ui_consumed ui message prefix (ok true) = pure (some (ok tt))
  ui_consumed ui message prefix (ok false) = ui_free_chat ui message prefix

  ui_pending : Ui S → IncomingMessage → Text → Bool → M S Outcome
  unfolding ui_consumed ui_free_chat
  ui_pending ui message prefix true = do
    consumed ← on_outside (ui.handle_pending_input message)
    ui_consumed ui message prefix consumed
  ui_pending ui message prefix false = ui_free_chat ui message prefix

  -- A command cancels an open input flow.
  ui_escape : Ui S → IncomingMessage → Text → Bool → M S Outcome
  unfolding ui_pending is_agent_command
  ui_escape ui message prefix open_flow = do
    if open_flow && is_agent_command message.text
        then on_ui (ui.cancel_pending message.chat_id)
        else pure tt
    still_open ← on_outside (ui.has_pending_input message.chat_id)
    ui_pending ui message prefix still_open

  ui_text : Ui S → IncomingMessage → Text → Option Text → M S Outcome
  unfolding ui_escape ui_done
  ui_text ui message prefix (some screen) = do
    on_ui (ui.cancel_pending message.chat_id)
    opened ← on_outside (ui.open_screen message.chat_id message.user_id screen)
    ui_done message prefix opened
  ui_text ui message prefix none =
      if is_menu_command agent.router.unicode message.text
      then (do
        on_ui (ui.cancel_pending message.chat_id)
        on_ui (ui.set_free_chat message.chat_id false)
        shown ← on_outside (ui.send_home message.chat_id)
        ui_done message prefix shown)
      else (do
        open_flow ← on_outside (ui.has_pending_input message.chat_id)
        ui_escape ui message prefix open_flow)

  ui_message : IncomingMessage → Text → Option (Ui S) → M S Outcome
  unfolding ui_text ui_done
  ui_message message prefix none = pure none
  ui_message message prefix (some ui) =
      if message.is_callback
      then (do called ← on_outside (ui.handle_callback message); ui_done message prefix called)
      else ui_text ui message prefix (ui.map_reply_keyboard message.text)

  unfoldable pub handle_ui_pipeline : IncomingMessage → Text → M S Outcome
  unfolding ui_message
  handle_ui_pipeline message prefix = ui_message message prefix agent.ui
