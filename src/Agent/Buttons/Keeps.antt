-- ===== src/Agent/Buttons/Keeps.antt =====
-- internal/core/agent.go: what the stage of the buttons keeps.
use open_light.Base.{Bool, true, false, not, ◌&&◌, Option, none, some, ◌≡◌}
use open_light.Base.Int.{ℤ}
use open_light.Base.Text.{Text, codes}
use open_light.Errors.{Result, ok, err}
use open_light.Auth.{error}
use open_light.Registry.{Definition, get}
use open_light.Router.Args.{one_arg}
use open_light.Agent.{Agent, State, Ui, IncomingMessage, SkillResult}
use open_light.Agent.Texts.{with_reply_prefix, is_menu_command, user_message_for_error}
use open_light.Agent.Store.{M, ◌>>=◌, is_some}
use open_light.Agent.Buttons.{
  Outcome, handled, on_ui, is_slash_text, prefixed, is_agent_command, with_prefix, skill_reply,
  skill_input, free_chat_skill, run_free_chat, ui_done, ui_free_chat, ui_consumed, ui_pending,
  ui_escape, ui_text, ui_message, handle_ui_pipeline,
}
use open_light.Agent.Triples.{
  Triple, Closed, bind-Triple, if-Triple, pure-Triple, on_outside-Triple, reply-Triple,
  reply_result-Triple, From, Runs, no_run, Yields, with_result, bind-Yields, if-Yields, pure-Yields,
}

-- What holds behind a stage: a message that it has handled may have run a skill, another has not.
abbrev pub Staged : {S : Type 0} (P Q : State S → Type 0) → Outcome → State S → Type 0
Staged P Q none st = P st
Staged P Q (some result) st = Q st

module _ {S : Type 0} {P : State S → Type 0} (c : Closed P) (agent : Agent S) where
  pub prefixed-Triple :
      (message : IncomingMessage) (prefix text : Text)
      → Triple P P (prefixed agent message prefix text)
  unfolding prefixed
  prefixed-Triple message prefix text =
      reply-Triple c.talks agent message.chat_id message.user_id (with_reply_prefix prefix text)

  pub skill_reply-Triple :
      (message : IncomingMessage) (prefix : Text) (result : Result SkillResult)
      → Triple P P (skill_reply agent message prefix result)
  unfolding skill_reply
  skill_reply-Triple message prefix (err e) =
      prefixed-Triple message prefix (user_message_for_error agent.error_text e)
  skill_reply-Triple message prefix (ok result) =
      reply_result-Triple c.talks agent message.chat_id message.user_id
        (with_prefix agent prefix result)

  on_ui-Triple : (f : S → S) → Triple P P (on_ui f)
  on_ui-Triple f = on_outside-Triple c (λ s. (tt, f s))

module _ {S : Type 0} {agent : Agent S} {user chat : ℤ} {P Q : State S → Type 0}
    (r : Runs agent user chat P Q) where
  pub handled-Yields :
      {m : M S (Result (Unit {0}))} → Triple P Q m → Yields P (Staged P Q) (handled m)
  handled-Yields h =
      bind-Yields (with_result h (λ a st q. q)) (λ result. pure-Yields (some result) (λ st q. q))

  -- A step that runs nothing, in front of others.
  then-Yields :
      {A B : Type 0} {R : B → State S → Type 0} {m : M S A} {f : A → M S B}
      → Triple P P m
      → ((a : A) → Yields P R (f a))
      → Yields P R (m >>= f)
  then-Yields h k = bind-Yields (with_result {R = λ a. P} h (λ a st p. p)) k

  module _ (allowed : is_some (error agent.authorizer user chat) ≡ false)
      (message : IncomingMessage) (f : From user chat message) (prefix : Text) where
    run_free_chat-Triple : Triple P Q (run_free_chat agent message prefix)
    unfolding run_free_chat free_chat_skill skill_input
    run_free_chat-Triple = go (get (codes "chat") agent.registry)
      where
        go : (skill : Option Definition) → Triple P Q (free_chat_skill agent message prefix skill)
        go none = no_run r (prefixed-Triple r.before agent message prefix _)
        go (some skill) =
            bind-Triple
              (r.runs skill (skill_input agent message (one_arg (codes "text") message.text))
                f.user_is f.chat_is allowed)
              (skill_reply-Triple r.after agent message prefix)

    ui_done-Yields :
        (result : Result (Unit {0})) → Yields P (Staged P Q) (ui_done agent message prefix result)
    unfolding ui_done
    ui_done-Yields (ok done) = pure-Yields (some (ok tt)) r.weaken
    ui_done-Yields (err e) =
        handled-Yields (no_run r (prefixed-Triple r.before agent message prefix _))

    ui_free_chat-Yields : (ui : Ui S) → Yields P (Staged P Q) (ui_free_chat agent ui message prefix)
    unfolding ui_free_chat
    ui_free_chat-Yields ui = record {
      yields = λ st p.
          (if-Yields
              (ui.is_free_chat message.chat_id st.outside
                && not (is_slash_text message.text)
                && is_some (get (codes "chat") agent.registry))
              (handled-Yields run_free_chat-Triple) (pure-Yields none (λ st p. p))).yields
            st p;
    }

    ui_pending-Yields :
        (ui : Ui S) (still_open : Bool)
        → Yields P (Staged P Q) (ui_pending agent ui message prefix still_open)
    unfolding ui_pending ui_consumed
    ui_pending-Yields ui false = ui_free_chat-Yields ui
    ui_pending-Yields ui true =
        then-Yields (on_outside-Triple r.before (ui.handle_pending_input message)) consumed
      where
        consumed :
            (result : Result Bool)
            → Yields P (Staged P Q) (ui_consumed agent ui message prefix result)
        consumed (err e) =
            handled-Yields (no_run r (prefixed-Triple r.before agent message prefix _))
        consumed (ok true) = pure-Yields (some (ok tt)) r.weaken
        consumed (ok false) = ui_free_chat-Yields ui

    ui_escape-Yields :
        (ui : Ui S) (open_flow : Bool)
        → Yields P (Staged P Q) (ui_escape agent ui message prefix open_flow)
    unfolding ui_escape
    ui_escape-Yields ui open_flow =
        then-Yields
          (if-Triple (open_flow && is_agent_command agent message.text)
            (on_ui-Triple r.before agent (ui.cancel_pending message.chat_id))
            (pure-Triple tt (λ st p. p)))
          λ _.
            then-Yields (on_outside-Triple r.before (ui.has_pending_input message.chat_id))
              (ui_pending-Yields ui)

    ui_text-Yields :
        (ui : Ui S) (screen : Option Text)
        → Yields P (Staged P Q) (ui_text agent ui message prefix screen)
    unfolding ui_text
    ui_text-Yields ui (some screen) =
        then-Yields (on_ui-Triple r.before agent (ui.cancel_pending message.chat_id)) λ _.
          then-Yields
            (on_outside-Triple r.before (ui.open_screen message.chat_id message.user_id screen))
            ui_done-Yields
    ui_text-Yields ui none =
        if-Yields (is_menu_command agent.router.unicode message.text)
          (then-Yields (on_ui-Triple r.before agent (ui.cancel_pending message.chat_id)) λ _.
            then-Yields (on_ui-Triple r.before agent (ui.set_free_chat message.chat_id false)) λ _.
              then-Yields (on_outside-Triple r.before (ui.send_home message.chat_id))
                ui_done-Yields)
          (then-Yields (on_outside-Triple r.before (ui.has_pending_input message.chat_id))
            (ui_escape-Yields ui))

    pub handle_ui_pipeline-Yields : Yields P (Staged P Q) (handle_ui_pipeline agent message prefix)
    unfolding handle_ui_pipeline ui_message
    handle_ui_pipeline-Yields = go agent.ui
      where
        go : (ui : Option (Ui S)) → Yields P (Staged P Q) (ui_message agent message prefix ui)
        go none = pure-Yields none (λ st p. p)
        go (some ui) =
            if-Yields message.is_callback
              (then-Yields (on_outside-Triple r.before (ui.handle_callback message)) ui_done-Yields)
              (ui_text-Yields ui (ui.map_reply_keyboard message.text))
