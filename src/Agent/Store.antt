-- ===== src/Agent/Store.antt =====
-- internal/core/agent.go, internal/core/memory.go: what the agent saves and what it delivers. An
-- operation is a function on the state; where the source only logs an error, it is dropped.
use open_light.Base.{
  Bool, true, false, not, ◌||◌, Option, none, some, List, [], ◌∷◌, ◌++◌, if◌then◌else◌,
}
use open_light.Base.Int.{ℤ, pos, eqb_ℤ}
use open_light.Base.Text.{Text, trim_space, is_empty_text}
use open_light.Base.Time.{Time}
use open_light.Base.Dict.{put, text_eq}
use open_light.Errors.{Result, ok, err, send_failure}
use open_light.Watch.World.{SkillCall, Button}
use open_light.Agent.{
  Agent, State, Message, Role, role_assistant, Setting, Delivery, text_sent, file_sent, Attachment,
  SkillResult,
}
use open_light.Agent.Texts.{append_attachment_note}

abbrev pub M : Type 0 → Type 0 → Type 0
M S A = State S → A × State S

infixl 5 ◌>>=◌ ◌>>◌
abbrev pub ◌>>=◌ : {S A B : Type 0} → M S A → (A → M S B) → M S B
◌>>=◌ m f st = let (a, st') = m st in f a st'

abbrev pub ◌>>◌ : {S B : Type 0} → M S (Unit {0}) → M S B → M S B
m >> k = m >>= λ _. k

abbrev pub pure : {S A : Type 0} → A → M S A
pure a st = (a, st)

abbrev pub later_faults : List Bool → List Bool
later_faults [] = []
later_faults (b ∷ bs) = bs

abbrev pub first_fault : List Bool → Bool
first_fault [] = false
first_fault (b ∷ bs) = b

-- Whether the next call of the database or the transport fails.
unfoldable pub draw : {S : Type 0} → M S Bool
draw st = (first_fault st.faults, record st { faults = later_faults st.faults })

-- A write whose error is logged only.
unfoldable pub attempt : {S : Type 0} → (State S → State S) → M S (Unit {0})
unfolding draw
attempt f st = let (bad, st') = draw st in (tt, if bad then st' else f st')

-- A delivery.
unfoldable pub send : {S : Type 0} → Delivery → M S (Result (Unit {0}))
unfolding draw
send delivery st =
    let (bad, st') = draw st in
    if bad
    then (err send_failure, st')
    else (ok tt, record st' { sent = st'.sent ++ delivery ∷ [] })

unfoldable pub save_message : {S : Type 0} → Message → M S (Unit {0})
unfolding attempt
save_message message = attempt λ st. record st { messages = st.messages ++ message ∷ [] }

unfoldable pub save_skill_call : {S : Type 0} → SkillCall → M S (Unit {0})
unfolding attempt
save_skill_call call = attempt λ st. record st { skill_calls = st.skill_calls ++ call ∷ [] }

unfoldable pub set_setting : {S : Type 0} → Text → Text → Time → M S (Unit {0})
unfolding attempt
set_setting key value now =
    attempt λ st. record st {
      settings = put st.settings key (record { value = value; updated_at = now });
    }

-- `none` also when the query fails, which is logged.
unfoldable pub get_setting : {S : Type 0} → Text → M S (Option Setting)
unfolding draw
get_setting key st = let (bad, st') = draw st in (if bad then none else st'.settings key, st')

abbrev pub is_some {ℓ} : {A : Type ℓ} → Option A → Bool
is_some none = false
is_some (some a) = true

module _ {S : Type 0} (agent : Agent S) where
  unfoldable pub record_turn : ℤ → Role → Text → M S (Unit {0})
  record_turn chat role text st =
      if not (is_some agent.memory) || eqb_ℤ chat (pos 0) || is_empty_text text then (tt, st) else (
        tt,
        record st {
          turns = st.turns ++ (record { chat_id = chat; role = role; text = text }) ∷ [];
        },
      )

  -- The loop over the attachments: what fails is logged.
  unfoldable pub send_attachments : ℤ → List Attachment → M S (Unit {0})
  unfolding send
  send_attachments chat [] st = (tt, st)
  send_attachments chat (a ∷ rest) st =
      if is_empty_text (trim_space a.path)
      then send_attachments chat rest st
      else send_attachments chat rest
          (send (file_sent chat a.kind (trim_space a.path) (trim_space a.caption)) st).1

  -- The text that the user gets: without support for files it names their paths.
  unfoldable pub text_for_user : SkillResult → Text
  text_for_user result =
      if agent.sends_photos
      then result.text
      else append_attachment_note result.text result.attachments

  -- Buttons go only where the transport has them.
  unfoldable pub buttons_for_user : SkillResult → List (List Button)
  buttons_for_user result = if agent.sends_buttons then result.buttons else []

  -- What follows the delivery of the text.
  unfoldable pub after_send : ℤ → ℤ → SkillResult → Result (Unit {0}) → M S (Result (Unit {0}))
  unfolding send_attachments save_message record_turn
  after_send chat user result (err e) = pure (err e)
  after_send chat user result (ok sent) = do
    if agent.sends_photos then send_attachments chat result.attachments else pure tt
    save_message
        (record { user_id = user; chat_id = chat; role = role_assistant; text = result.text })
    record_turn chat role_assistant result.text
    pure (ok tt)

  unfoldable pub reply_result : ℤ → ℤ → SkillResult → M S (Result (Unit {0}))
  unfolding send after_send text_for_user buttons_for_user
  reply_result chat user result = do
    delivered ← send (text_sent chat (text_for_user result) (buttons_for_user result))
    after_send chat user result delivered

  unfoldable pub reply : ℤ → ℤ → Text → M S (Result (Unit {0}))
  unfolding reply_result
  reply chat user text =
      reply_result chat user (record { text = text; buttons = []; attachments = [] })
