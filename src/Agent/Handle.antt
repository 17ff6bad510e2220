-- ===== src/Agent/Handle.antt =====
-- internal/core/agent.go: HandleMessage and its stages behind the files of a message. A stage returns
-- `some` result where it has handled the message. `now` is the time of the message.
pub mod Keeps
pub mod Skills
pub mod Redacts
pub mod Denied
use open_light.Base.{List, Bool, true, false, not, ◌&&◌, Option, none, some, [], ◌∷◌, if◌then◌else◌}
use open_light.Base.Int.{ℤ}
use open_light.Base.Text.{Text, codes, trim_space, has_prefix, is_empty_text}
use open_light.Base.Time.{Time}
use open_light.Errors.{Error, Result, ok, err}
use open_light.Redact.{redact_sensitive_text, redact_sensitive_args}
use open_light.Auth.{AccessError, error}
use open_light.Registry.{Definition, get}
use open_light.Router.{Decision, matched, should_clarify}
use open_light.Router.Args.{one_arg}
use open_light.Router.Route.{is_command}
use open_light.Watch.World.{SkillCall}
use open_light.Watch.Env.{Env}
use open_light.Watch.Handle.{handle_action}
use open_light.Agent.{Agent, State, Ui, IncomingMessage, Input, Message, role_user, SkillResult}
use open_light.Agent.Texts.{
  with_reply_prefix, normalize_incoming_source, command_token, is_menu_command,
  is_bare_slash_command, user_message_for_error,
}
use open_light.Agent.Store.{
  M, ◌>>=◌, ◌>>◌, pure, save_message, save_skill_call, record_turn, reply, reply_result, is_some,
}
use open_light.Agent.Clarify.{
  Routed, save_pending_clarification, route_with_clarification, apply_chat_fallback,
}
use open_light.Agent.Inbox.{on_outside, run_skill}
use open_light.Agent.Prepare.{
  Prepared, finished, prepared, has_pending_input, preprocess_attachments,
}
use open_light.Agent.Buttons.{
  Outcome, handled, prefixed, skill_reply, skill_input, handle_ui_pipeline,
}

module _ {S : Type 0} (agent : Agent S) where
  watch_done : IncomingMessage → Text → Result Bool → M S Outcome
  unfolding prefixed
  watch_done message prefix (err e) =
      handled (prefixed agent message prefix (codes "internal error"))
  watch_done message prefix (ok true) = pure (some (ok tt))
  watch_done message prefix (ok false) = pure none

  watch_message : IncomingMessage → Text → Time → Option Env → M S Outcome
  unfolding watch_done
  watch_message message prefix now none st = (none, st)
  watch_message message prefix now (some env) st =
      let (answered, w) =
        handle_action env message.chat_id message.user_id message.text now st.watch in
      watch_done message prefix answered (record st { watch = w })

  unfoldable pub handle_watch_action : IncomingMessage → Text → Time → M S Outcome
  unfolding watch_message
  handle_watch_action message prefix now = watch_message message prefix now agent.watch_service

  -- The row of a call; an empty `error_text` stands for no error.
  unfoldable pub call_of :
      IncomingMessage → Definition → List (Text × Text) → Result SkillResult → SkillCall
  call_of message skill args result = record {
    skill_name = skill.name;
    input_text = redact_sensitive_text message.text;
    args = redact_sensitive_args args;
    succeeded = elim result [ err e ↦ false | ok r ↦ true ];
    error_text = elim result [ err e ↦ agent.error_text e | ok r ↦ [] ];
  }

  -- The row says what ran and how it ended; then the user is told.
  execute_skill : IncomingMessage → Text → Definition → List (Text × Text) → M S (Result (Unit {0}))
  unfolding skill_input run_skill call_of save_skill_call skill_reply
  execute_skill message prefix skill args = do
    result ← run_skill agent skill (skill_input agent message args)
    save_skill_call (call_of message skill args result)
    skill_reply agent message prefix result

  handed_over :
      IncomingMessage
      → Text
      → Definition
      → List (Text × Text)
      → Bool × Option Error
      → M S (Result (Unit {0}))
  unfolding execute_skill
  handed_over message prefix skill args (handed, e) =
      if handed then pure (ok tt) else execute_skill message prefix skill args

  -- A bare command may be handed to the input flow of the buttons.
  start_or_execute :
      IncomingMessage
      → Text
      → Definition
      → List (Text × Text)
      → Option (Ui S)
      → M S (Result (Unit {0}))
  unfolding handed_over execute_skill
  start_or_execute message prefix skill args none = execute_skill message prefix skill args
  start_or_execute message prefix skill args (some ui) =
      if is_bare_slash_command message.text
      then (do
        handed ← on_outside (ui.start_skill_input message.chat_id message.user_id skill args)
        handed_over message prefix skill args handed)
      else execute_skill message prefix skill args

  resolved_skill :
      IncomingMessage → Text → List (Text × Text) → Option Definition → M S (Result (Unit {0}))
  unfolding start_or_execute prefixed
  resolved_skill message prefix args none = prefixed agent message prefix (codes "skill not found")
  resolved_skill message prefix args (some skill) =
      start_or_execute message prefix skill args agent.ui

  unfoldable pub execute_skill_and_reply :
      IncomingMessage → Text → Decision → M S (Result (Unit {0}))
  unfolding resolved_skill
  execute_skill_and_reply message prefix decision =
      resolved_skill message prefix decision.args (get decision.skill_name agent.registry)

  unfoldable pub execute_decision : IncomingMessage → Text → Decision → M S (Result (Unit {0}))
  unfolding execute_skill_and_reply prefixed
  execute_decision message prefix decision =
      if not (matched decision)
      then prefixed agent message prefix (codes "skill not found. Try /help or /skills.")
      else execute_skill_and_reply message prefix decision

  unfoldable pub decided : IncomingMessage → Text → Time → Routed → M S (Result (Unit {0}))
  unfolding save_pending_clarification prefixed execute_decision apply_chat_fallback
  decided message prefix now routed =
      if should_clarify routed.decision
      then (do
        save_pending_clarification agent message.chat_id routed.text
            routed.decision.clarification_question now
        prefixed agent message prefix routed.decision.clarification_question)
      else execute_decision message prefix (apply_chat_fallback agent message routed.decision)

  route_done : IncomingMessage → Text → Time → Result Routed → M S (Result (Unit {0}))
  unfolding decided prefixed
  route_done message prefix now (err e) = prefixed agent message prefix (codes "internal error")
  route_done message prefix now (ok routed) = decided message prefix now routed

  unfoldable pub handle_routed : IncomingMessage → Text → Time → M S (Result (Unit {0}))
  unfolding route_with_clarification route_done
  handle_routed message prefix now = do
    routed ← route_with_clarification agent message now
    route_done message prefix now routed

  -- The first stage that handles the message.
  abbrev or_next : Outcome → M S (Result (Unit {0})) → M S (Result (Unit {0}))
  or_next (some result) next = pure result
  or_next none next = next

  -- The stages for a sender who is allowed.
  unfoldable pub handle_allowed : IncomingMessage → Text → Time → M S (Result (Unit {0}))
  unfolding handle_ui_pipeline handle_watch_action handle_routed
  handle_allowed message prefix now = do
    by_ui ← handle_ui_pipeline agent message prefix
    or_next by_ui (do
      by_watch ← handle_watch_action message prefix now
      or_next by_watch (handle_routed message prefix now))

  -- The text is saved before the sender is checked.
  unfoldable pub handle_text : IncomingMessage → Text → Time → M S (Result (Unit {0}))
  unfolding handle_allowed save_message record_turn prefixed
  handle_text message prefix now = do
    save_message (record {
      user_id = message.user_id;
      chat_id = message.chat_id;
      role = role_user;
      text = redact_sensitive_text message.text;
    })
    record_turn agent message.chat_id role_user (redact_sensitive_text message.text)
    if is_some (error agent.authorizer message.user_id message.chat_id)
        then prefixed agent message prefix (codes "access denied")
        else handle_allowed message prefix now

  after_files : Time → Prepared → M S (Result (Unit {0}))
  unfolding handle_text
  after_files now (finished result) = pure result
  after_files now (prepared prefix message) =
      if is_empty_text (trim_space message.text)
      then pure (ok tt)
      else handle_text
          (record message {
            source = normalize_incoming_source message.source (is_some message.audio);
          })
          prefix now

  unfoldable pub handle_message : IncomingMessage → Time → M S (Result (Unit {0}))
  unfolding preprocess_attachments after_files
  handle_message message now = do
    ready ← preprocess_attachments agent message
    after_files now ready
