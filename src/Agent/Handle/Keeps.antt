-- ===== src/Agent/Handle/Keeps.antt =====
-- internal/core/agent.go: what HandleMessage keeps, and that it runs one skill at most.
use open_light.Base.{
  inr, List, Bool, true, false, not, Option, none, some, if◌then◌else◌, ◌≡◌, refl,
}
use open_light.Base.Int.{ℤ}
use open_light.Base.Text.{Text, codes, trim_space, is_empty_text}
use open_light.Base.Time.{Time}
use open_light.Errors.{Result, ok, err}
use open_light.Redact.{redact_sensitive_text}
use open_light.Auth.{error}
use open_light.Registry.{Definition, get}
use open_light.Router.{Decision, matched, should_clarify}
use open_light.Watch.Env.{Env}
use open_light.Watch.Handle.{handle_action}
use open_light.Agent.{Agent, State, Ui, IncomingMessage, role_user}
use open_light.Agent.Texts.{normalize_incoming_source, is_bare_slash_command}
use open_light.Agent.Store.{M, is_some}
use open_light.Agent.Clarify.{Routed, apply_chat_fallback}
use open_light.Agent.Clarify.Keeps.{
  save_pending_clarification-Triple, route_with_clarification-Triple,
}
use open_light.Agent.Prepare.{Prepared, finished, prepared}
use open_light.Agent.Prepare.Keeps.{Ready, preprocess_attachments-Yields}
use open_light.Agent.Buttons.{Outcome, prefixed, skill_input}
use open_light.Agent.Buttons.Keeps.{
  Staged, prefixed-Triple, skill_reply-Triple, handled-Yields, handle_ui_pipeline-Yields,
}
use open_light.Agent.Handle.{
  watch_done, watch_message, handle_watch_action, call_of, execute_skill, handed_over,
  start_or_execute, resolved_skill, execute_skill_and_reply, execute_decision, decided, route_done,
  handle_routed, or_next, handle_allowed, handle_text, after_files, handle_message,
}
use open_light.Agent.Triples.{
  Triple, bind-Triple, if-Triple, pure-Triple, on_outside-Triple, save_message-Triple,
  record_turn-Triple, save_skill_call-Triple, From, error-From, Runs, no_run, Yields, by_result,
  pure-Yields,
}

module _ {S : Type 0} {agent : Agent S} {user chat : ℤ} {P Q : State S → Type 0}
    (r : Runs agent user chat P Q) where
  module _ (allowed : is_some (error agent.authorizer user chat) ≡ false)
      (message : IncomingMessage) (f : From user chat message) (prefix : Text) where
    watch_done-Yields :
        (result : Result Bool) → Yields P (Staged P Q) (watch_done agent message prefix result)
    unfolding watch_done
    watch_done-Yields (err e) =
        handled-Yields r (no_run r (prefixed-Triple r.before agent message prefix _))
    watch_done-Yields (ok true) = pure-Yields (some (ok tt)) r.weaken
    watch_done-Yields (ok false) = pure-Yields none (λ st p. p)

    handle_watch_action-Yields :
        (now : Time) → Yields P (Staged P Q) (handle_watch_action agent message prefix now)
    unfolding handle_watch_action watch_message
    handle_watch_action-Yields now = go agent.watch_service
      where
        go : (env : Option Env) → Yields P (Staged P Q) (watch_message agent message prefix now env)
        go none = record { yields = λ st p. p }
        go (some env) = record {
          yields = λ st p.
              let answer =
                handle_action env message.chat_id message.user_id message.text now st.watch in
              (watch_done-Yields answer.0).yields (record st { watch = answer.1 })
                (r.before.watch st answer.1 p);
        }

    execute_skill-Triple :
        (skill : Definition) (args : List (Text × Text))
        → Triple P Q (execute_skill agent message prefix skill args)
    unfolding execute_skill call_of skill_input
    execute_skill-Triple skill args =
        bind-Triple (r.runs skill (skill_input agent message args) f.user_is f.chat_is allowed)
          λ result.
            bind-Triple
              (save_skill_call-Triple r.after (call_of agent message skill args result)
                (message.text, refl) (args, refl))
              (λ _. skill_reply-Triple r.after agent message prefix result)

    execute_decision-Triple :
        (decision : Decision) → Triple P Q (execute_decision agent message prefix decision)
    unfolding execute_decision execute_skill_and_reply resolved_skill start_or_execute handed_over
    execute_decision-Triple decision =
        if-Triple (not (matched decision))
          (no_run r (prefixed-Triple r.before agent message prefix _))
          (resolved (get decision.skill_name agent.registry))
      where
        started :
            (skill : Definition) (ui : Option (Ui S))
            → Triple P Q (start_or_execute agent message prefix skill decision.args ui)
        started skill none = execute_skill-Triple skill decision.args
        started skill (some ui) =
            if-Triple (is_bare_slash_command message.text)
              (bind-Triple
                (on_outside-Triple r.before
                  (ui.start_skill_input message.chat_id message.user_id skill decision.args))
                λ h.
                  if-Triple h.0 (pure-Triple (ok tt) r.weaken)
                    (execute_skill-Triple skill decision.args))
              (execute_skill-Triple skill decision.args)

        resolved :
            (skill : Option Definition)
            → Triple P Q (resolved_skill agent message prefix decision.args skill)
        resolved none = no_run r (prefixed-Triple r.before agent message prefix _)
        resolved (some skill) = started skill agent.ui

    handle_routed-Triple : (now : Time) → Triple P Q (handle_routed agent message prefix now)
    unfolding handle_routed route_done decided
    handle_routed-Triple now =
        bind-Triple (route_with_clarification-Triple r.before agent message now) done
      where
        done : (result : Result Routed) → Triple P Q (route_done agent message prefix now result)
        done (err e) = no_run r (prefixed-Triple r.before agent message prefix _)
        done (ok routed) =
            if-Triple (should_clarify routed.decision)
              (no_run r (
                bind-Triple
                  (save_pending_clarification-Triple r.before agent message.chat_id routed.text
                    routed.decision.clarification_question now)
                  (λ _.
                    prefixed-Triple r.before agent message prefix
                      routed.decision.clarification_question)))
              (execute_decision-Triple (apply_chat_fallback agent message routed.decision))

    or_next-Triple :
        {next : M S (Result (Unit {0}))} (outcome : Outcome)
        → Triple P Q next
        → Triple (Staged P Q outcome) Q (or_next agent outcome next)
    or_next-Triple none h = h
    or_next-Triple (some result) h = pure-Triple result (λ st q. q)

    handle_allowed-Triple : (now : Time) → Triple P Q (handle_allowed agent message prefix now)
    unfolding handle_allowed
    handle_allowed-Triple now =
        by_result (handle_ui_pipeline-Yields r allowed message f prefix) λ by_ui.
          or_next-Triple by_ui (
            by_result (handle_watch_action-Yields now)
              λ by_watch. or_next-Triple by_watch (handle_routed-Triple now))

  handle_text-Triple :
      (message : IncomingMessage) (f : From user chat message) (prefix : Text) (now : Time)
      → Triple P Q (handle_text agent message prefix now)
  unfolding handle_text
  handle_text-Triple message f prefix now =
      bind-Triple
        (save_message-Triple r.before.talks
          (record {
            user_id = message.user_id;
            chat_id = message.chat_id;
            role = role_user;
            text = redact_sensitive_text message.text;
          })
          (inr (message.text, refl)))
        λ _.
          bind-Triple
            (record_turn-Triple r.before.talks agent message.chat_id role_user
              (redact_sensitive_text message.text) (inr (message.text, refl)))
            λ _. checked (is_some (error agent.authorizer message.user_id message.chat_id)) refl
    where
      checked :
          (b : Bool)
          → is_some (error agent.authorizer message.user_id message.chat_id) ≡ b
          → Triple P Q (
              if b
              then prefixed agent message prefix (codes "access denied")
              else handle_allowed agent message prefix now)
      checked true e = no_run r (prefixed-Triple r.before agent message prefix _)
      checked false e = handle_allowed-Triple (error-From agent.authorizer f e) message f prefix now

  -- `handle_message` from a predicate before a skill runs to one behind it.
  pub handle_message-Triple :
      (message : IncomingMessage) (f : From user chat message) (now : Time)
      → Triple P Q (handle_message agent message now)
  unfolding handle_message after_files
  handle_message-Triple message f now = by_result (preprocess_attachments-Yields r message f) after
    where
      after :
          (ready : Prepared) → Triple (Ready user chat P Q ready) Q (after_files agent now ready)
      after (finished result) = pure-Triple result (λ st q. q)
      after (prepared prefix m) =
          if-Triple (is_empty_text (trim_space m.text))
            (pure-Triple (ok tt) (λ st h. r.weaken st h.0))
            (record {
              holds = λ st h.
                  (handle_text-Triple
                      (record m { source = normalize_incoming_source m.source (is_some m.audio) })
                      (record { user_is = h.1.user_is; chat_is = h.1.chat_is }) prefix now).holds
                    st h.0;
            })
