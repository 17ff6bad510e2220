-- ===== src/Agent/Handle/Denied.antt =====
-- internal/core/agent.go: a text of a sender whom the authorizer does not allow.
use mathlib.Core.Path.{subst}
use open_light.Base.{
  sym, ◌∙◌, Bool, true, false, none, List, [], ◌∷◌, ◌++◌, ◌≡◌, refl, ◌⊎◌, inl, inr, arith,
  if◌then◌else◌,
}
use open_light.Base.Int.{ℤ}
use open_light.Base.Text.{
  Text, codes, trim_space, is_empty_text, trim_left, trim_right, trim_cons, is_space,
}
use open_light.Base.Time.{Time}
use open_light.Errors.{Result, ok}
use open_light.Redact.{redact_sensitive_text}
use open_light.Auth.{Authorizer, allowed, error}
use open_light.Agent.{Agent, State, IncomingMessage, Message, role_user, Delivery, text_sent}
use open_light.Agent.Texts.{
  with_reply_prefix, normalize_incoming_source, append_attachment_note, attachment_lines,
}
use open_light.Agent.Store.{
  M, ◌>>=◌, pure, draw, attempt, send, save_message, record_turn, send_attachments, after_send,
  reply_result, reply, text_for_user, buttons_for_user, is_some,
}
use open_light.Agent.Prepare.{prepared}
use open_light.Agent.Prepare.Plain.{preprocess_attachments-text}
use open_light.Agent.Buttons.{prefixed}
use open_light.Agent.Handle.{handle_allowed, handle_text, after_files, handle_message}
use open_light.Agent.Triples.{
  Triple, Talks, bind-Triple, save_message-Triple, record_turn-Triple, reply-Triple,
}

-- What a refused message leaves as it was: the calls, the settings, the skills that ran, the watches
-- and what belongs to others.
pub record Untouched {S : Type 0} (before after : State S) : Type 0 where
  pub skill_calls : after.skill_calls ≡ before.skill_calls
  pub settings : after.settings ≡ before.settings
  pub executed : after.executed ≡ before.executed
  pub watch : after.watch ≡ before.watch
  pub outside : after.outside ≡ before.outside

Untouched-Talks : {S : Type 0} (before : State S) → Talks (Untouched before)
Untouched-Talks before = record {
  faults = λ st fs p. record {
    skill_calls = p.skill_calls;
    settings = p.settings;
    executed = p.executed;
    watch = p.watch;
    outside = p.outside;
  };
  sent = λ st ds p. record {
    skill_calls = p.skill_calls;
    settings = p.settings;
    executed = p.executed;
    watch = p.watch;
    outside = p.outside;
  };
  message = λ st m h p. record {
    skill_calls = p.skill_calls;
    settings = p.settings;
    executed = p.executed;
    watch = p.watch;
    outside = p.outside;
  };
  turn = λ st t h p. record {
    skill_calls = p.skill_calls;
    settings = p.settings;
    executed = p.executed;
    watch = p.watch;
    outside = p.outside;
  };
}

-- What is sent grows by this text at most.
pub SentOne : ℤ → Text → List Delivery → List Delivery → Type 0
SentOne chat text before after = (after ≡ before) ⊎ (after ≡ before ++ text_sent chat text [] ∷ [])

reply-SentOne :
    {S : Type 0} (agent : Agent S) (chat user : ℤ) (text : Text) (st : State S)
    → SentOne chat text st.sent (reply agent chat user text st).1.sent
unfolding SentOne reply reply_result send draw after_send send_attachments save_message attempt
    record_turn text_for_user buttons_for_user append_attachment_note attachment_lines
reply-SentOne agent chat user text st = ground arith

-- The words of a refusal, which no prefix precedes.
abbrev pub access_denied_text : Text
access_denied_text = codes "access denied"

error-denied :
    (authorizer : Authorizer) (user chat : ℤ)
    → allowed authorizer user chat ≡ false
    → is_some (error authorizer user chat) ≡ true
unfolding error
error-denied authorizer user chat h = ground arith

module _ {S : Type 0} (agent : Agent S) (message : IncomingMessage)
    (denied : allowed agent.authorizer message.user_id message.chat_id ≡ false) where
  -- What a refused text makes of the state, and of what is sent.
  Refused : State S → State S → Type 0
  Refused before after =
      Untouched before after × SentOne message.chat_id access_denied_text before.sent after.sent

  row : Message
  row = record {
    user_id = message.user_id;
    chat_id = message.chat_id;
    role = role_user;
    text = redact_sensitive_text message.text;
  }

  kept_turn : M S (Unit {0})
  kept_turn = record_turn agent message.chat_id role_user (redact_sensitive_text message.text)

  refusal : M S (Result (Unit {0}))
  refusal = prefixed agent message [] access_denied_text

  refusal-reply : refusal ≡ reply agent message.chat_id message.user_id access_denied_text
  unfolding refusal prefixed with_reply_prefix codes trim_space trim_left trim_right trim_cons
      is_space
  refusal-reply = refl

  row-sent : (st : State S) → (save_message row st).1.sent ≡ st.sent
  unfolding save_message attempt draw
  row-sent st = ground arith

  turn-sent : (st : State S) → (kept_turn st).1.sent ≡ st.sent
  unfolding kept_turn record_turn
  turn-sent st = ground arith

  Refused-refusal :
      (st : State S) → Refused st ((save_message row >>= λ _. kept_turn >>= λ _. refusal) st).1
  unfolding Refused row kept_turn
  Refused-refusal st = (
    (bind-Triple (save_message-Triple (Untouched-Talks st) row (inr (message.text, refl))) λ _.
          bind-Triple
            (record_turn-Triple (Untouched-Talks st) agent message.chat_id role_user
              (redact_sensitive_text message.text) (inr (message.text, refl)))
            (λ _. subst (Triple (Untouched st) (Untouched st)) (sym refusal-reply) (
              reply-Triple (Untouched-Talks st) agent message.chat_id message.user_id
                access_denied_text))).holds
        st
        (record {
          skill_calls = refl;
          settings = refl;
          executed = refl;
          watch = refl;
          outside = refl;
        }),
    sent_by (kept_turn (save_message row st).1).1 (turn-sent _ ∙ row-sent st),
  )
    where
      sent_by :
          (st' : State S)
          → st'.sent ≡ st.sent
          → SentOne message.chat_id access_denied_text st.sent (refusal st').1.sent
      sent_by st' e =
          subst (λ m. SentOne message.chat_id access_denied_text st.sent (m st').1.sent)
            (sym refusal-reply)
            (subst
              (λ ds.
                SentOne message.chat_id access_denied_text ds
                  (reply agent message.chat_id message.user_id access_denied_text st').1.sent)
              e (reply-SentOne agent message.chat_id message.user_id access_denied_text st'))

  handle_text-Refused :
      (now : Time) (st : State S) → Refused st (handle_text agent message [] now st).1
  unfolding handle_text row kept_turn refusal
  handle_text-Refused now st =
      go (is_some (error agent.authorizer message.user_id message.chat_id))
        (error-denied agent.authorizer message.user_id message.chat_id denied)
    where
      go :
          (b : Bool)
          → b ≡ true
          → Refused st
              ((save_message row >>= λ _.
                  kept_turn >>= λ _. (if b then refusal else handle_allowed agent message [] now))
                st).1
      go true h = Refused-refusal st
      go false h = cc

module _ {S : Type 0} (agent : Agent S) (message : IncomingMessage) where
  after_files-Refused :
      (denied : allowed agent.authorizer message.user_id message.chat_id ≡ false) (now : Time)
      (st : State S)
      → Untouched st (after_files agent now (prepared [] message) st).1
        × SentOne message.chat_id access_denied_text st.sent
            (after_files agent now (prepared [] message) st).1.sent
  unfolding after_files SentOne Refused
  after_files-Refused denied now st = go (is_empty_text (trim_space message.text))
    where
      heard : IncomingMessage
      heard = record message {
        source = normalize_incoming_source message.source (is_some message.audio);
      }

      go :
          (b : Bool)
          → Untouched st ((if b then pure (ok tt) else handle_text agent heard [] now) st).1
            × SentOne message.chat_id access_denied_text st.sent
                ((if b then pure (ok tt) else handle_text agent heard [] now) st).1.sent
      go true = (
        record {
          skill_calls = refl;
          settings = refl;
          executed = refl;
          watch = refl;
          outside = refl;
        },
        inl refl,
      )
      go false = handle_text-Refused agent heard denied now st

  -- A text without files of a sender whom the authorizer does not allow runs no skill and reaches
  -- neither the buttons, the watches nor an open question: the calls, the settings and what others own
  -- stay as they were, and nothing is sent but "access denied", once at most and to its chat.
  pub handle_message-denied :
      message.audio ≡ none
      → message.image ≡ none
      → message.document ≡ none
      → allowed agent.authorizer message.user_id message.chat_id ≡ false
      → (now : Time) (st : State S)
      → Untouched st (handle_message agent message now st).1
        × SentOne message.chat_id access_denied_text st.sent
            (handle_message agent message now st).1.sent
  unfolding handle_message
  handle_message-denied ha hi hd denied now st =
      subst
        (λ ready.
          Untouched st (after_files agent now ready.0 ready.1).1
          × SentOne message.chat_id access_denied_text st.sent
              (after_files agent now ready.0 ready.1).1.sent)
        (sym (preprocess_attachments-text agent message ha hi hd st))
        (after_files-Refused denied now st)
