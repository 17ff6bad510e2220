-- ===== src/Agent/Triples.antt =====
-- internal/core/agent.go: what holds of the state before and behind a stage, on every outcome of the
-- calls of others.
use open_light.Base.{
  arith, ◌≡◌, refl, ◌⊎◌, inl, Bool, true, false, List, [], ◌∷◌, ◌++◌, if◌then◌else◌,
}
use open_light.Base.Int.{ℤ}
use open_light.Base.Text.{Text, trim_space}
use open_light.Base.Time.{Time}
use open_light.Base.Dict.{put, text_eq}
use open_light.Errors.{Result, ok, err}
use open_light.Redact.{redact_sensitive_text, redact_sensitive_args}
use open_light.Watch.World.{World, SkillCall}
use open_light.Agent.{
  Agent, State, IncomingMessage, Input, Message, Turn, Role, role_assistant, Setting, Delivery,
  SkillResult, Attachment, text_sent, file_sent,
}
use open_light.Agent.Inbox.{on_outside, run_skill}
use open_light.Auth.{Authorizer, error}
use open_light.Registry.{Definition}
use open_light.Agent.Store.{
  M, ◌>>=◌, pure, draw, later_faults, attempt, send, save_message, save_skill_call, set_setting,
  get_setting, record_turn, send_attachments, after_send, reply_result, reply, is_some,
  text_for_user, buttons_for_user,
}

pub record Triple {S A : Type 0} (P Q : State S → Type 0) (m : M S A) : Type 0 where
  pub holds : (st : State S) → P st → Q (m st).1

module _ {S : Type 0} {P Q R : State S → Type 0} where
  pub bind-Triple :
      {A B : Type 0} {m : M S A} {f : A → M S B}
      → Triple P Q m
      → ((a : A) → Triple Q R (f a))
      → Triple P R (m >>= f)
  bind-Triple {m = m} hm hf = record {
    holds = λ st p. (hf (m st).0).holds (m st).1 (hm.holds st p);
  }

module _ {S : Type 0} {P Q : State S → Type 0} where
  pub if-Triple :
      {A : Type 0} (b : Bool) {m n : M S A}
      → Triple P Q m
      → Triple P Q n
      → Triple P Q (if b then m else n)
  if-Triple true hm hn = hm
  if-Triple false hm hn = hn

  pub pure-Triple : {A : Type 0} (a : A) → ((st : State S) → P st → Q st) → Triple P Q (pure a)
  pure-Triple a weaken = record { holds = weaken }

-- Predicates that talking to a user keeps: deliveries, the rows and turns of the agent, and those of a
-- user in their redacted form.
pub record Talks {S : Type 0} (P : State S → Type 0) : Type 0 where
  pub faults : (st : State S) (fs : List Bool) → P st → P (record st { faults = fs })
  pub sent : (st : State S) (ds : List Delivery) → P st → P (record st { sent = ds })
  pub message :
      (st : State S) (m : Message)
      → (m.role ≡ role_assistant) ⊎ ((raw : Text) × (m.text ≡ redact_sensitive_text raw))
      → P st
      → P (record st { messages = st.messages ++ m ∷ [] })
  pub turn :
      (st : State S) (t : Turn)
      → (t.role ≡ role_assistant) ⊎ ((raw : Text) × (t.text ≡ redact_sensitive_text raw))
      → P st
      → P (record st { turns = st.turns ++ t ∷ [] })

module _ {S : Type 0} {P : State S → Type 0} (c : Talks P) where
  pub draw-Triple : Triple P P (draw {S = S})
  unfolding draw
  draw-Triple = record { holds = λ st p. c.faults st (later_faults st.faults) p }

  pub attempt-Triple :
      {f : State S → State S} → ((st : State S) → P st → P (f st)) → Triple P P (attempt f)
  unfolding attempt draw
  attempt-Triple h = record {
    holds = λ st p. let q = draw-Triple.holds st p in let r = h (draw st).1 q in ground arith;
  }

  pub save_message-Triple :
      (m : Message)
      → (m.role ≡ role_assistant) ⊎ ((raw : Text) × (m.text ≡ redact_sensitive_text raw))
      → Triple P P (save_message m)
  unfolding save_message
  save_message-Triple m h = attempt-Triple λ st p. c.message st m h p

  pub send-Triple : (d : Delivery) → Triple P P (send d)
  unfolding send draw
  send-Triple d = record {
    holds = λ st p.
        let q = draw-Triple.holds st p in
        let r = c.sent (draw st).1 ((draw st).1.sent ++ d ∷ []) q in ground arith;
  }

  pub get_setting-Triple : (key : Text) → Triple P P (get_setting key)
  unfolding get_setting
  get_setting-Triple key = record { holds = λ st p. draw-Triple.holds st p }

  module _ (agent : Agent S) where
    pub record_turn-Triple :
        (chat : ℤ) (role : Role) (text : Text)
        → (role ≡ role_assistant) ⊎ ((raw : Text) × (text ≡ redact_sensitive_text raw))
        → Triple P P (record_turn agent chat role text)
    unfolding record_turn
    record_turn-Triple chat role text h = record {
      holds = λ st p.
          let q = c.turn st (record { chat_id = chat; role = role; text = text }) h p in
          ground arith;
    }

    send_attachments-Triple :
        (chat : ℤ) (attachments : List Attachment)
        → Triple P P (send_attachments agent chat attachments)
    unfolding send_attachments
    send_attachments-Triple chat [] = record { holds = λ st p. p }
    send_attachments-Triple chat (a ∷ rest) = record {
      holds = λ st p.
          let ih = send_attachments-Triple chat rest in
          let skipped = ih.holds st p in
          let d = file_sent chat a.kind (trim_space a.path) (trim_space a.caption) in
          let delivered = ih.holds (send d st).1 ((send-Triple d).holds st p) in ground arith;
    }

    after_send-Triple :
        (chat user : ℤ) (result : SkillResult) (delivered : Result (Unit {0}))
        → Triple P P (after_send agent chat user result delivered)
    unfolding after_send
    after_send-Triple chat user result (err e) = record { holds = λ st p. p }
    after_send-Triple chat user result (ok sent) =
        bind-Triple
          (if-Triple agent.sends_photos (send_attachments-Triple chat result.attachments)
            (pure-Triple tt (λ st p. p)))
          λ _.
            bind-Triple
              (save_message-Triple
                (record {
                  user_id = user;
                  chat_id = chat;
                  role = role_assistant;
                  text = result.text;
                })
                (inl refl))
              λ _.
                bind-Triple (record_turn-Triple chat role_assistant result.text (inl refl))
                  λ _. pure-Triple (ok tt) (λ st p. p)

    pub reply_result-Triple :
        (chat user : ℤ) (result : SkillResult) → Triple P P (reply_result agent chat user result)
    unfolding reply_result
    reply_result-Triple chat user result =
        bind-Triple
          (send-Triple
            (text_sent chat (text_for_user agent result) (buttons_for_user agent result)))
          (after_send-Triple chat user result)

    pub reply-Triple : (chat user : ℤ) (text : Text) → Triple P P (reply agent chat user text)
    unfolding reply
    reply-Triple chat user text =
        reply_result-Triple chat user (record { text = text; buttons = []; attachments = [] })

-- Predicates that every stage keeps but for the run of a skill.
pub record Closed {S : Type 0} (P : State S → Type 0) : Type 0 where
  pub talks : Talks P
  pub outside : (st : State S) (s : S) → P st → P (record st { outside = s })
  pub watch : (st : State S) (w : World) → P st → P (record st { watch = w })
  pub setting :
      (st : State S) (key : Text) (s : Setting)
      → P st
      → P (record st { settings = put st.settings key s })
  pub call :
      (st : State S) (call : SkillCall)
      → (raw : Text) × (call.input_text ≡ redact_sensitive_text raw)
      → (args : List (Text × Text)) × (call.args ≡ redact_sensitive_args args)
      → P st
      → P (record st { skill_calls = st.skill_calls ++ call ∷ [] })

module _ {S : Type 0} {P : State S → Type 0} (c : Closed P) where
  pub on_outside-Triple : {A : Type 0} (f : S → A × S) → Triple P P (on_outside f)
  on_outside-Triple f = record { holds = λ st p. c.outside st (f st.outside).1 p }

  pub set_setting-Triple : (key value : Text) (now : Time) → Triple P P (set_setting key value now)
  unfolding set_setting
  set_setting-Triple key value now =
      attempt-Triple c.talks λ st p. c.setting st key (record { value = value; updated_at = now }) p

  pub save_skill_call-Triple :
      (call : SkillCall)
      → (raw : Text) × (call.input_text ≡ redact_sensitive_text raw)
      → (args : List (Text × Text)) × (call.args ≡ redact_sensitive_args args)
      → Triple P P (save_skill_call call)
  unfolding save_skill_call
  save_skill_call-Triple call h k = attempt-Triple c.talks λ st p. c.call st call h k p

-- The message comes from this user in this chat.
pub record From (user chat : ℤ) (message : IncomingMessage) : Type 0 where
  pub user_is : message.user_id ≡ user
  pub chat_is : message.chat_id ≡ chat

pub error-From :
    {user chat : ℤ} {message : IncomingMessage} {b : Bool} (authorizer : Authorizer)
    → From user chat message
    → is_some (error authorizer message.user_id message.chat_id) ≡ b
    → is_some (error authorizer user chat) ≡ b
error-From authorizer f e = let u = f.user_is in let c = f.chat_is in cc

-- A predicate before a skill of this user in this chat may run, and one behind it.
pub record Runs {S : Type 0} (agent : Agent S) (user chat : ℤ) (P Q : State S → Type 0)
    : Type 0 where
  pub before : Closed P
  pub after : Closed Q
  pub weaken : (st : State S) → P st → Q st
  pub runs :
      (skill : Definition) (input : Input)
      → input.user_id ≡ user
      → input.chat_id ≡ chat
      → is_some (error agent.authorizer user chat) ≡ false
      → Triple P Q (run_skill agent skill input)

module _ {S : Type 0} {agent : Agent S} {user chat : ℤ} {P Q : State S → Type 0}
    (r : Runs agent user chat P Q) where
  pub no_run : {A : Type 0} {m : M S A} → Triple P P m → Triple P Q m
  no_run h = record { holds = λ st p. r.weaken _ (h.holds st p) }

-- What holds behind a stage, which may depend on what it returns.
pub record Yields {S A : Type 0} (P : State S → Type 0) (Q : A → State S → Type 0) (m : M S A)
    : Type 0 where
  pub yields : (st : State S) → P st → Q (m st).0 (m st).1

pub with_result :
    {S A : Type 0} {P Q : State S → Type 0} {R : A → State S → Type 0} {m : M S A}
    → Triple P Q m
    → ((a : A) (st : State S) → Q st → R a st)
    → Yields P R m
with_result {m = m} h k = record { yields = λ st p. k (m st).0 (m st).1 (h.holds st p) }

pub bind-Yields :
    {S A B : Type 0} {P : State S → Type 0} {Q : A → State S → Type 0} {R : B → State S → Type 0}
    {m : M S A} {f : A → M S B}
    → Yields P Q m
    → ((a : A) → Yields (Q a) R (f a))
    → Yields P R (m >>= f)
bind-Yields {m = m} hm hf = record {
  yields = λ st p. (hf (m st).0).yields (m st).1 (hm.yields st p);
}

pub by_result :
    {S A B : Type 0} {P R : State S → Type 0} {Q : A → State S → Type 0} {m : M S A} {f : A → M S B}
    → Yields P Q m
    → ((a : A) → Triple (Q a) R (f a))
    → Triple P R (m >>= f)
by_result {m = m} hm hf = record { holds = λ st p. (hf (m st).0).holds (m st).1 (hm.yields st p) }

pub if-Yields :
    {S A : Type 0} {P : State S → Type 0} {Q : A → State S → Type 0} (b : Bool) {m n : M S A}
    → Yields P Q m
    → Yields P Q n
    → Yields P Q (if b then m else n)
if-Yields true hm hn = hm
if-Yields false hm hn = hn

pub pure-Yields :
    {S A : Type 0} {P : State S → Type 0} {Q : A → State S → Type 0} (a : A)
    → ((st : State S) → P st → Q a st)
    → Yields P Q (pure a)
pure-Yields a h = record { yields = h }
