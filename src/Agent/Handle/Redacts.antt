-- ===== src/Agent/Handle/Redacts.antt =====
-- internal/core/agent.go: which rows and turns hold redacted texts only.
use open_light.Base.{List, [], ◌∷◌, ◌≡◌, refl, ◌⊎◌, All, All-append}
use open_light.Base.Text.{Text}
use open_light.Base.Time.{Time}
use open_light.Redact.{redact_sensitive_text, redact_sensitive_args}
use open_light.Watch.World.{SkillCall}
use open_light.Agent.{Agent, State, IncomingMessage, Message, Turn, role_assistant}
use open_light.Agent.Inbox.{run_skill}
use open_light.Agent.Handle.{handle_message}
use open_light.Agent.Handle.Keeps.{handle_message-Triple}
use open_light.Agent.Triples.{Closed}

-- The text went through the redaction.
abbrev IsRedacted : Text → Type 0
IsRedacted text = (raw : Text) × (text ≡ redact_sensitive_text raw)

abbrev IsCleanMessage : Message → Type 0
IsCleanMessage m = (m.role ≡ role_assistant) ⊎ IsRedacted m.text

abbrev IsCleanTurn : Turn → Type 0
IsCleanTurn t = (t.role ≡ role_assistant) ⊎ IsRedacted t.text

abbrev IsCleanCall : SkillCall → Type 0
IsCleanCall c =
    IsRedacted c.input_text × (args : List (Text × Text)) × (c.args ≡ redact_sensitive_args args)

-- What is redacted: the rows of messages and the turns that memory was handed, save those of the
-- assistant, and the text and the arguments of the rows of the calls.
pub record IsClean {S : Type 0} (st : State S) : Type 0 where
  pub messages : All IsCleanMessage st.messages
  pub turns : All IsCleanTurn st.turns
  pub calls : All IsCleanCall st.skill_calls

IsClean-Closed : {S : Type 0} → Closed {S = S} IsClean
IsClean-Closed = record {
  talks = record {
    faults = λ st fs p. record { messages = p.messages; turns = p.turns; calls = p.calls };
    sent = λ st ds p. record { messages = p.messages; turns = p.turns; calls = p.calls };
    message = λ st m h p. record {
      messages = All-append IsCleanMessage st.messages (m ∷ []) p.messages (h, tt);
      turns = p.turns;
      calls = p.calls;
    };
    turn = λ st t h p. record {
      messages = p.messages;
      turns = All-append IsCleanTurn st.turns (t ∷ []) p.turns (h, tt);
      calls = p.calls;
    };
  };
  outside = λ st s p. record { messages = p.messages; turns = p.turns; calls = p.calls };
  watch = λ st w p. record { messages = p.messages; turns = p.turns; calls = p.calls };
  setting = λ st key s p. record { messages = p.messages; turns = p.turns; calls = p.calls };
  call = λ st c h k p. record {
    messages = p.messages;
    turns = p.turns;
    calls = All-append IsCleanCall st.skill_calls (c ∷ []) p.calls ((h, k.0, k.1), tt);
  };
}

-- Whatever a message says and whatever fails, in the rows of messages that the agent saves and in the
-- turns that it hands to memory, each text whose role is not the assistant's went through the redaction,
-- and so did the text and the arguments in its rows of calls, if all did before the message. Nothing is
-- said of the assistant's own texts, which may repeat what a user said, of the settings, of the rows that
-- the watches save and of what others keep.
pub handle_message-IsClean :
    {S : Type 0} (agent : Agent S) (message : IncomingMessage) (now : Time) (st : State S)
    → IsClean st
    → IsClean (handle_message agent message now st).1
unfolding run_skill
handle_message-IsClean agent message now st clean =
    (handle_message-Triple
        (record {
          before = IsClean-Closed;
          after = IsClean-Closed;
          weaken = λ st p. p;
          runs = λ skill input u c h. record {
            holds = λ st p. record { messages = p.messages; turns = p.turns; calls = p.calls };
          };
        })
        message (record { user_is = refl; chat_is = refl }) now).holds
      st clean
