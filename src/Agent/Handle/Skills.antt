-- ===== src/Agent/Handle/Skills.antt =====
-- internal/core/agent.go: which skills a message runs.
use open_light.Base.{List, [], ◌∷◌, ◌++◌, true, false, ◌≡◌, refl, ◌⊎◌, inl, inr, ap, arith}
use open_light.Base.Int.{ℤ}
use open_light.Base.Text.{Text}
use open_light.Base.Time.{Time}
use open_light.Auth.{Authorizer, allowed, error}
use open_light.Agent.{Agent, State, IncomingMessage, Input}
use open_light.Agent.Store.{is_some}
use open_light.Agent.Inbox.{run_skill}
use open_light.Agent.Handle.{handle_message}
use open_light.Agent.Handle.Keeps.{handle_message-Triple}
use open_light.Agent.Triples.{Closed, Runs}

-- No skill ran since `before`, or one did, for this user in this chat, whom the authorizer allows.
pub RanOne : Authorizer → ℤ → ℤ → List (Text × Input) → List (Text × Input) → Type 0
RanOne authorizer user chat before after =
    (after ≡ before)
    ⊎ ((name : Text) × (input : Input) × (after ≡ before ++ (name, input) ∷ [])
        × (input.user_id ≡ user)
        × (input.chat_id ≡ chat)
        × (allowed authorizer user chat ≡ true))

error-allowed :
    (authorizer : Authorizer) (user chat : ℤ)
    → is_some (error authorizer user chat) ≡ false
    → allowed authorizer user chat ≡ true
unfolding error
error-allowed authorizer user chat h = ground arith

-- A predicate on the skills that ran is kept by every stage that runs none.
on_executed-Closed :
    {S : Type 0} (P : List (Text × Input) → Type 0) → Closed {S = S} (λ st. P st.executed)
on_executed-Closed P = record {
  talks = record {
    faults = λ st fs p. p;
    sent = λ st ds p. p;
    message = λ st m h p. p;
    turn = λ st t h p. p;
  };
  outside = λ st s p. p;
  watch = λ st w p. p;
  setting = λ st key s p. p;
  call = λ st c h k p. p;
}

module _ {S : Type 0} (agent : Agent S) (user chat : ℤ) (before : List (Text × Input)) where
  runs_one :
      Runs agent user chat
        (λ st. st.executed ≡ before)
        (λ st. RanOne agent.authorizer user chat before st.executed)
  unfolding RanOne run_skill
  runs_one = record {
    before = on_executed-Closed (λ executed. executed ≡ before);
    after = on_executed-Closed (RanOne agent.authorizer user chat before);
    weaken = λ st p. inl p;
    runs = λ skill input u c h. record {
      holds = λ st p. inr (
        skill.name,
        input,
        ap (λ xs. xs ++ (skill.name, input) ∷ []) p,
        u,
        c,
        error-allowed agent.authorizer user chat h,
      );
    };
  }

-- A message makes the agent run one skill at most, whatever its files, the buttons, the watches, the
-- router and the skills do and whichever calls fail; the skill is given the user and the chat of the
-- message, and the authorizer allows them.
pub handle_message-RanOne :
    {S : Type 0} (agent : Agent S) (message : IncomingMessage) (now : Time) (st : State S)
    → RanOne agent.authorizer message.user_id message.chat_id st.executed
        (handle_message agent message now st).1.executed
handle_message-RanOne agent message now st =
    (handle_message-Triple (runs_one agent message.user_id message.chat_id st.executed) message
        (record { user_is = refl; chat_is = refl }) now).holds
      st refl
