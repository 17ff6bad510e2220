-- ===== src/Menu/Run.antt =====
-- internal/telegram/ui/ui.go: starting a skill, asking for its inputs and running it. An operation
-- takes the desk and returns its result with the new desk; `now` is the time of the request.
pub mod Consent
pub mod Steady
pub mod Questions
pub mod Waits
use open_light.Base.{
  ℕ, zero, suc, ◌+◌, ◌==◌, Bool, true, false, not, ◌&&◌, ◌||◌, Option, none, some, List, [], ◌∷◌,
  ◌++◌, length, leb, if◌then◌else◌,
}
use open_light.Base.Int.{ℤ, pos, eqb_ℤ}
use open_light.Base.Text.{Text, codes, trim_space, is_empty_text}
use open_light.Base.Time.{Time}
use open_light.Base.Dict.{put, int_eq}
use open_light.Callback.{Action}
use open_light.Errors.{Error, Result, ok, err, send_failure}
use open_light.Registry.{Definition, get}
use open_light.Sessions.{
  Args, InputFlow, PendingMutation, Store, start_input, pending, advance_input, clear_input,
  store_mutation,
}
use open_light.Watch.World.{Button}
use open_light.Menu.{
  Menu, Desk, InputField, UiDescriptor, CallbackMessage, SkillReply, Call, Shown, sent, edited,
}
use open_light.Menu.Keyboards.{cancel_only, confirm_keyboard, skill_follow_ups}
use open_light.Menu.Render.{human_readable, skill_header, skill_card, error_card}

abbrev pub M : Type 0 → Type 0 → Type 0
M S A = Desk S → A × Desk S

infixl 5 ◌>>=◌ ◌>>◌
abbrev pub ◌>>=◌ : {S A B : Type 0} → M S A → (A → M S B) → M S B
◌>>=◌ m f st = let (a, st') = m st in f a st'

abbrev pub ◌>>◌ : {S B : Type 0} → M S (Unit {0}) → M S B → M S B
m >> k = m >>= λ _. k

abbrev pub pure : {S A : Type 0} → A → M S A
pure a st = (a, st)

abbrev pub first_fault : List Bool → Bool
first_fault [] = false
first_fault (b ∷ bs) = b

abbrev pub later_faults : List Bool → List Bool
later_faults [] = []
later_faults (b ∷ bs) = bs

-- A call of the transport.
unfoldable pub show : {S : Type 0} → Shown → M S (Result (Unit {0}))
show shown st =
    if first_fault st.faults
    then (err send_failure, record st { faults = later_faults st.faults })
    else (ok tt, record st { shown = st.shown ++ shown ∷ []; faults = later_faults st.faults })

-- A method of the session store.
abbrev pub on_sessions : {S A : Type 0} → (Store → Store × A) → M S A
on_sessions f st = let (s, a) = f st.sessions in (a, record st { sessions = s })

abbrev pub change_sessions : {S : Type 0} → (Store → Store) → M S (Unit {0})
change_sessions f st = (tt, record st { sessions = f st.sessions })

-- The fields of `hints.Inputs` that the arguments lack.
unfoldable pub missing_inputs : List InputField → Args → List InputField
missing_inputs [] args = []
missing_inputs (field ∷ fields) args =
    let rest = missing_inputs fields args in
    elim (args field.name) [ some value ↦ rest | none ↦ field ∷ rest ]

unfoldable pub prompt : InputField → Text
prompt field =
    if not (is_empty_text (trim_space field.prompt))
    then field.prompt
    else codes "Send " ++ field.name

-- How many of the first fields have an argument, which `filled` tests.
unfoldable pub filled_steps : (Text → Bool) → List InputField → Args → ℕ
filled_steps filled [] args = 0
filled_steps filled (field ∷ fields) args =
    let rest = filled_steps filled fields args in
    elim (args field.name) [ none ↦ 0 | some value ↦ if filled value then suc rest else 0 ]

abbrev pub nth : List InputField → ℕ → Option InputField
nth [] n = none
nth (f ∷ fs) zero = some f
nth (f ∷ fs) (suc n) = nth fs n

-- The prompt that a skill shows before it runs; empty if it needs no consent.
unfoldable pub needs_consent : Definition → UiDescriptor → Bool
needs_consent skill hints = skill.mutating || not (is_empty_text (trim_space hints.confirm))

abbrev pub group_back : Definition → Action
group_back skill = record { kind = codes "b"; target = codes "g"; extra = skill.group.key }

module _ {S : Type 0} (menu : Menu S) where
  unfoldable pub edit_text : CallbackMessage → Text → List (List Button) → M S (Result (Unit {0}))
  unfolding show
  edit_text m text rows =
      if eqb_ℤ m.message_id (pos 0)
      then show (sent m.chat_id text rows)
      else show (edited m.chat_id m.message_id text rows)

  unfoldable pub deliver :
      CallbackMessage → Text → List (List Button) → Bool → M S (Result (Unit {0}))
  unfolding show
  deliver m text rows edit =
      if edit && not (eqb_ℤ m.message_id (pos 0))
      then show (edited m.chat_id m.message_id text rows)
      else show (sent m.chat_id text rows)

  -- skill.Execute
  unfoldable pub execute : Call → M S (Result SkillReply)
  execute call st =
      let (result, s) = menu.execute call st.outside in
      (result, record st { outside = s; ran = st.ran ++ call ∷ [] })

  skill_done : CallbackMessage → Definition → Bool → Result SkillReply → M S (Result (Unit {0}))
  unfolding deliver skill_card error_card skill_follow_ups
  skill_done m skill edit (err e) =
      deliver m (error_card menu.capitalize skill (menu.error_message e))
        (skill_follow_ups skill (menu.describe skill)) edit
  skill_done m skill edit (ok result) =
      deliver m (skill_card menu.capitalize skill (trim_space result.text))
        (result.buttons ++ skill_follow_ups skill (menu.describe skill)) edit

  -- What is shown while a skill runs; its error is dropped.
  running : CallbackMessage → Definition → Bool → M S (Result (Unit {0}))
  unfolding show human_readable
  running m skill edit =
      if edit && not (eqb_ℤ m.message_id (pos 0))
      then show (
          edited m.chat_id m.message_id
            (codes "⏳ " ++ human_readable menu.capitalize skill.name ++ codes "…") [])
      else pure (ok tt)

  unfoldable pub run_skill : CallbackMessage → Definition → Args → Bool → M S (Result (Unit {0}))
  unfolding running execute skill_done
  run_skill m skill args edit = do
    seen ← running m skill edit
    result ←
        execute (record { skill = skill; args = args; user_id = m.user_id; chat_id = m.chat_id })
    skill_done m skill edit result

  -- The call waits under a new token.
  unfoldable pub confirm_and_run :
      CallbackMessage → Definition → Args → Text → Time → M S (Result (Unit {0}))
  unfolding edit_text confirm_keyboard
  confirm_and_run m skill args text now st =
      let (token, s) = menu.new_token st.outside in
      let stored =
        store_mutation
          (record { skill_name = skill.name; args = args; user_id = m.user_id; stored_at = 0 })
          token now st.sessions in
      edit_text m text (confirm_keyboard token) (record st { sessions = stored.0; outside = s })

  -- The prompt of a skill, or what its name makes of it behind `header`.
  unfoldable pub consent_text : Definition → UiDescriptor → Text → Text
  unfolding human_readable
  consent_text skill hints header =
      if is_empty_text (trim_space hints.confirm)
      then header ++ codes "Run " ++ human_readable menu.capitalize skill.name ++ codes "?"
      else trim_space hints.confirm

  -- A flow that begins with these arguments at this step.
  unfoldable pub begin_flow : ℤ → Definition → Args → ℕ → Time → Store → Store
  begin_flow chat skill args step now s =
      let (s', flow) = start_input chat skill.name (codes "g:" ++ skill.group.key) now s in
      record s' {
        inputs = put s'.inputs chat (record flow { collected = args; step_index = step });
      }

  -- `hints.Inputs[flow.StepIndex]`, which panics behind the end
  ask : CallbackMessage → Definition → Option InputField → M S (Result (Unit {0}))
  unfolding edit_text skill_header prompt cancel_only
  ask m skill none = pure (err send_failure)
  ask m skill (some field) =
      edit_text m (skill_header menu.capitalize skill ++ prompt field)
        (cancel_only (group_back skill))

  unfoldable pub start_skill : CallbackMessage → Definition → Args → Time → M S (Result (Unit {0}))
  unfolding missing_inputs begin_flow filled_steps ask needs_consent consent_text confirm_and_run
      run_skill skill_header
  start_skill m skill args now =
      let hints = menu.describe skill in
      let step = filled_steps (λ value. true) hints.inputs args in
      if not (leb (length (missing_inputs hints.inputs args)) 0)
      then (do
        change_sessions (begin_flow m.chat_id skill args step now)
        ask m skill (nth hints.inputs step))
      else if needs_consent skill hints
      then confirm_and_run m skill args
          (consent_text skill hints (skill_header menu.capitalize skill)) now
      else run_skill m skill args true

  -- StartSkillInput without its first two questions: the flow, and the question of its step.
  ask_input : ℤ → Definition → Option InputField → M S (Bool × Result (Unit {0}))
  unfolding show skill_header prompt cancel_only
  ask_input chat skill none = do change_sessions (clear_input chat); pure (false, ok tt)
  ask_input chat skill (some field) = do
    shown ← show (
        sent chat (skill_header menu.capitalize skill ++ prompt field)
          (cancel_only (group_back skill)))
    pure (true, shown)

  unfoldable pub start_skill_input : ℤ → Definition → Args → Time → M S (Bool × Result (Unit {0}))
  unfolding missing_inputs begin_flow filled_steps ask_input
  start_skill_input chat skill args now =
      let hints = menu.describe skill in
      let step = filled_steps (λ value. not (is_empty_text (trim_space value))) hints.inputs args in
      if leb (length (missing_inputs hints.inputs args)) 0 then pure (false, ok tt) else (do
        change_sessions (begin_flow chat skill args step now)
        ask_input chat skill (nth hints.inputs step))

  -- The message of a flow, which no button carries.
  unfoldable pub typed : ℤ → ℤ → CallbackMessage
  typed chat user = record { chat_id = chat; user_id = user; message_id = pos 0; raw = [] }

  -- Behind the last input.
  unfoldable pub finish_input : ℤ → ℤ → Definition → Args → Time → M S (Result (Unit {0}))
  unfolding needs_consent consent_text confirm_and_run run_skill typed
  finish_input chat user skill args now = do
    change_sessions (clear_input chat)
    if needs_consent skill (menu.describe skill)
        then confirm_and_run (typed chat user) skill args
            (consent_text skill (menu.describe skill) []) now
        else run_skill (typed chat user) skill args false

  -- The next question, or the end of the flow.
  next_input : ℤ → ℤ → Definition → Args → Time → Option InputField → M S (Result (Unit {0}))
  unfolding finish_input show prompt cancel_only
  next_input chat user skill args now none = finish_input chat user skill args now
  next_input chat user skill args now (some field) =
      show (sent chat (prompt field) (cancel_only (group_back skill)))

  advanced_input : ℤ → ℤ → Definition → Time → Option InputFlow → M S (Result (Unit {0}))
  unfolding next_input
  advanced_input chat user skill now none = pure (ok tt)
  advanced_input chat user skill now (some flow) =
      next_input chat user skill flow.collected now
        (nth (menu.describe skill).inputs flow.step_index)

  validated : ℤ → ℤ → Text → Definition → InputField → Time → Option Text → M S (Result (Unit {0}))
  unfolding advanced_input show
  validated chat user value skill field now (some problem) =
      show (sent chat (codes "invalid input for " ++ field.name ++ codes ": " ++ problem) [])
  validated chat user value skill field now none = do
    flow ← on_sessions (advance_input chat field.name value now)
    advanced_input chat user skill now flow

  abbrev pub validate : Option (Text → Option Text) → Text → Option Text
  validate none value = none
  validate (some check) value = check value

  flow_input : ℤ → ℤ → Text → Definition → Time → Option InputField → M S (Result (Unit {0}))
  unfolding validated
  flow_input chat user text skill now none = do change_sessions (clear_input chat); pure (ok tt)
  flow_input chat user text skill now (some field) =
      validated chat user (trim_space text) skill field now
        (validate field.validate (trim_space text))

  flow_skill : ℤ → ℤ → Text → InputFlow → Time → Option Definition → M S (Result (Unit {0}))
  unfolding flow_input show
  flow_skill chat user text flow now none = do
    change_sessions (clear_input chat)
    show (sent chat (codes "session expired") [])
  flow_skill chat user text flow now (some skill) =
      flow_input chat user text skill now (nth (menu.describe skill).inputs flow.step_index)

  -- `false` if no flow is open in the chat.
  pending_flow : ℤ → ℤ → Text → Time → Option InputFlow → M S (Bool × Result (Unit {0}))
  unfolding flow_skill
  pending_flow chat user text now none = pure (false, ok tt)
  pending_flow chat user text now (some flow) = do
    result ← flow_skill chat user text flow now (get flow.skill_name menu.registry)
    pure (true, result)

  unfoldable pub handle_pending_input : ℤ → ℤ → Text → Time → M S (Bool × Result (Unit {0}))
  unfolding pending_flow
  handle_pending_input chat user text now = do
    flow ← on_sessions (pending chat now)
    pending_flow chat user text now flow
