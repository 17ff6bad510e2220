-- ===== src/Agent/Buttons/Escape.antt =====
-- internal/core/agent.go: a command is not taken for the answer to a question of the buttons.
use open_light.Base.{Bool, true, false, none, some, ◌≡◌, refl, ap, ◌∙◌, arith, if◌then◌else◌}
use open_light.Base.Int.{ℤ}
use open_light.Base.Text.{Text}
use open_light.Agent.{Agent, State, Ui, IncomingMessage}
use open_light.Agent.Texts.{command_token, is_menu_command}
use open_light.Agent.Store.{◌>>=◌, pure}
use open_light.Agent.Inbox.{on_outside}
use open_light.Agent.Buttons.{
  handle_ui_pipeline, ui_message, ui_text, ui_escape, ui_pending, ui_free_chat, is_agent_command,
  is_slash_text, on_ui,
}

-- What the agent relies on in the interface of the buttons: a cancelled flow is not open, and asking
-- again changes nothing where none was open.
pub record IsLawful {S : Type 0} (ui : Ui S) : Type 0 where
  pub cancelled :
      (chat : ℤ) (s : S)
      → ui.has_pending_input chat (ui.cancel_pending chat s) ≡ (false, ui.cancel_pending chat s)
  pub asked :
      (chat : ℤ) (s : S)
      → (ui.has_pending_input chat s).0 ≡ false
      → ui.has_pending_input chat (ui.has_pending_input chat s).1
        ≡ (false, (ui.has_pending_input chat s).1)

module _ {S : Type 0} (agent : Agent S) (ui : Ui S) (message : IncomingMessage) where
  -- The state of others behind a command: the open flow is cancelled.
  pub escaped : S → S
  escaped s =
      if (ui.has_pending_input message.chat_id s).0
      then ui.cancel_pending message.chat_id (ui.has_pending_input message.chat_id s).1
      else (ui.has_pending_input message.chat_id s).1

  command-slash : is_agent_command agent message.text ≡ true → is_slash_text message.text ≡ true
  unfolding is_agent_command command_token is_slash_text
  command-slash h = ground arith

  ui_free_chat-slash :
      (prefix : Text) (st : State S)
      → is_slash_text message.text ≡ true
      → ui_free_chat agent ui message prefix st ≡ (none, st)
  unfolding ui_free_chat
  ui_free_chat-slash prefix st h = ground arith

  -- Nothing is open any more, and the text is a command.
  ui_rest :
      (prefix : Text) (st : State S) (s : S)
      → is_slash_text message.text ≡ true
      → ui.has_pending_input message.chat_id s ≡ (false, s)
      → (on_outside (ui.has_pending_input message.chat_id) >>= ui_pending agent ui message prefix)
          (record st { outside = s })
        ≡ (none, record st { outside = s })
  unfolding ui_pending
  ui_rest prefix st s h e =
      ap (λ x. ui_pending agent ui message prefix x.0 (record st { outside = x.1 })) e
      ∙ ui_free_chat-slash prefix (record st { outside = s }) h

  ui_escape-command :
      (prefix : Text) (st : State S)
      → IsLawful ui
      → is_agent_command agent message.text ≡ true
      → (on_outside (ui.has_pending_input message.chat_id) >>= ui_escape agent ui message prefix) st
        ≡ (none, record st { outside = escaped st.outside })
  unfolding ui_escape escaped
  ui_escape-command prefix st lawful command =
      go (ui.has_pending_input message.chat_id st.outside).0 refl
    where
      s' : S
      s' = (ui.has_pending_input message.chat_id st.outside).1

      go :
          (b : Bool)
          → (ui.has_pending_input message.chat_id st.outside).0 ≡ b
          → ui_escape agent ui message prefix b (record st { outside = s' })
            ≡ (none, record st { outside = if b then ui.cancel_pending message.chat_id s' else s' })
      go true e =
          ap
            (λ b.
              ((if b then on_ui (ui.cancel_pending message.chat_id) else pure tt) >>= λ _.
              on_outside (ui.has_pending_input message.chat_id)
              >>= ui_pending agent ui message prefix)
                (record st { outside = s' }))
            command
          ∙ ui_rest prefix st (ui.cancel_pending message.chat_id s') (command-slash command)
              (lawful.cancelled message.chat_id s')
      go false e = ui_rest prefix st s' (command-slash command) (lawful.asked _ _ e)

  -- A command that is typed while the buttons wait for an answer goes on to the router: the open flow is
  -- cancelled, and nothing else happens to the state. The text is no press, no label of the reply
  -- keyboard and no /menu, and the interface is lawful.
  pub handle_ui_pipeline-command :
      (prefix : Text) (st : State S)
      → agent.ui ≡ some ui
      → IsLawful ui
      → message.is_callback ≡ false
      → ui.map_reply_keyboard message.text ≡ none
      → is_menu_command agent.router.unicode message.text ≡ false
      → is_agent_command agent message.text ≡ true
      → handle_ui_pipeline agent message prefix st
        ≡ (none, record st { outside = escaped st.outside })
  unfolding handle_ui_pipeline ui_message ui_text
  handle_ui_pipeline-command prefix st has_ui lawful press label menu command =
      simp (has_ui, press, label, menu) (ui_escape-command prefix st lawful command)
