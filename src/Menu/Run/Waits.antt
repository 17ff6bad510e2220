-- ===== src/Menu/Run/Waits.antt =====
-- internal/telegram/ui/ui.go: what becomes of a skill that asks for consent when its last question is
-- answered.
use open_light.Base.{true, not, ◌||◌, [], none, some, ◌≡◌, refl, ap, ◌∙◌, arith, if◌then◌else◌}
use open_light.Base.Int.{ℤ, ltb_ℤ, eqb_ℤ, eqb_ℤ_iff}
use open_light.Base.Text.{Text, trim_space}
use open_light.Base.Time.{Time, time_sub}
use open_light.Registry.{Definition, get}
use open_light.Sessions.{
  Args, InputFlow, Store, pending, advance_input, clear_input, store_mutation, claim_mutation,
}
use open_light.Sessions.Expiry.{pending-ttl, advance_input-ttl}
use open_light.Sessions.Claims.{claim_mutation-store_mutation}
use open_light.Menu.{Menu, Desk, InputField, CallbackMessage}
use open_light.Menu.Keyboards.{confirm_keyboard}
use open_light.Menu.Run.{
  nth, validate, needs_consent, typed, confirm_and_run, consent_text, finish_input, next_input,
  advanced_input, validated, flow_input, flow_skill, pending_flow, handle_pending_input,
}
use open_light.Menu.Run.Consent.{confirm_and_run-Quiet}
use open_light.Menu.Run.Steady.{edit_text-Steady}

-- The sessions behind `confirm_and_run`, whether its message is delivered or not.
confirm_and_run-sessions :
    {S : Type 0} (menu : Menu S) (m : CallbackMessage) (skill : Definition) (args : Args)
    (text : Text) (now : Time) (st : Desk S)
    → (confirm_and_run menu m skill args text now st).1.sessions
      ≡ (store_mutation
          (record { skill_name = skill.name; args = args; user_id = m.user_id; stored_at = 0 })
          (menu.new_token st.outside).0
          now
          st.sessions).0
unfolding confirm_and_run
confirm_and_run-sessions menu m skill args text now st =
    let (token, s) = menu.new_token st.outside in
    let stored =
      store_mutation
        (record { skill_name = skill.name; args = args; user_id = m.user_id; stored_at = 0 }) token
        now st.sessions in
    (edit_text-Steady menu m text (confirm_keyboard token)).steady
      (record st { sessions = stored.0; outside = s })

module _ {S : Type 0} (menu : Menu S) (chat user : ℤ) (text : Text) (now : Time) (st : Desk S)
    (skill : Definition) (after : InputFlow) where
  -- The text answers the last question of the flow that is open in the chat: the flow is of this skill,
  -- the answer is valid for the field that was asked for, and with it no field is left.
  pub record IsLast : Type 0 where
    pub flow : InputFlow
    pub field : InputField
    pub open_flow : (pending chat now st.sessions).1 ≡ some flow
    pub known : get flow.skill_name menu.registry ≡ some skill
    pub asked : nth (menu.describe skill).inputs flow.step_index ≡ some field
    pub valid : validate menu field.validate (trim_space text) ≡ none
    pub advanced :
        (advance_input chat field.name (trim_space text) now (pending chat now st.sessions).0).1
        ≡ some after
    pub last : nth (menu.describe skill).inputs after.step_index ≡ none

  module _ (l : IsLast) where
    abbrev advanced_desk : Desk S
    advanced_desk = record st {
      sessions =
          (advance_input chat l.field.name (trim_space text) now
            (pending chat now st.sessions).0).0;
    }

    handle_pending_input-finish :
        (handle_pending_input menu chat user text now st).1
        ≡ (finish_input menu chat user skill after.collected now advanced_desk).1
    unfolding handle_pending_input pending_flow flow_skill flow_input validated advanced_input
        next_input
    handle_pending_input-finish =
        rw (l.open_flow, l.known, l.asked, l.valid, l.advanced, l.last) refl

    advanced-ttl : advanced_desk.sessions.ttl ≡ st.sessions.ttl
    advanced-ttl =
        advance_input-ttl chat l.field.name (trim_space text) now (pending chat now st.sessions).0
        ∙ pending-ttl chat now st.sessions

    -- The store behind the last answer of a skill that asks for consent.
    abbrev stored : Store
    stored =
        (store_mutation
          (record {
            skill_name = skill.name;
            args = after.collected;
            user_id = user;
            stored_at = 0;
          })
          (menu.new_token st.outside).0 now (clear_input chat advanced_desk.sessions)).0

    no_flow : stored.inputs chat ≡ none
    unfolding store_mutation clear_input
    no_flow = ground (arith, eqb_ℤ_iff chat chat)

    finished :
        needs_consent skill (menu.describe skill) ≡ true
        → ((handle_pending_input menu chat user text now st).1.ran ≡ st.ran)
          × ((handle_pending_input menu chat user text now st).1.sessions ≡ stored)
    unfolding finish_input typed
    finished c = (
      ap (λ s. s.ran) handle_pending_input-finish
          ∙ rw c (
              (confirm_and_run-Quiet menu (typed menu chat user) skill after.collected
                  (consent_text menu skill (menu.describe skill) []) now).quiet
                (record advanced_desk { sessions = clear_input chat advanced_desk.sessions })),
      ap (λ s. s.sessions) handle_pending_input-finish
          ∙ rw c (
              confirm_and_run-sessions menu (typed menu chat user) skill after.collected
                (consent_text menu skill (menu.describe skill) []) now
                (record advanced_desk { sessions = clear_input chat advanced_desk.sessions })),
    )

    -- When the text is a valid answer to the last question of an open flow, whose skill is registered and
    -- changes something or has a text of consent, then nothing runs, whatever deliveries fail: the flow is closed, and the call with
    -- the collected answers waits under the new token of the button, where its own user claims it within
    -- the time to live and nobody else does.
    pub handle_pending_input-waits :
        needs_consent skill (menu.describe skill) ≡ true
        → ((handle_pending_input menu chat user text now st).1.ran ≡ st.ran)
          × ((handle_pending_input menu chat user text now st).1.sessions.inputs chat ≡ none)
          × ((claimant : ℤ) (later : Time)
              → (claim_mutation
                  (menu.new_token st.outside).0
                  claimant
                  later
                  (handle_pending_input menu chat user text now st).1.sessions).1
                ≡ (if not (eqb_ℤ user claimant) || ltb_ℤ st.sessions.ttl (time_sub later now)
                    then none
                    else some (record {
                      skill_name = skill.name;
                      args = after.collected;
                      user_id = user;
                      stored_at = now;
                    })))
    unfolding clear_input
    handle_pending_input-waits c = (
      (finished c).0,
      ap (λ s. s.inputs chat) (finished c).1 ∙ no_flow,
      λ claimant later.
          ap (λ s. (claim_mutation (menu.new_token st.outside).0 claimant later s).1) (finished c).1
          ∙ claim_mutation-store_mutation _ (menu.new_token st.outside).0 claimant now later _
          ∙ rw advanced-ttl refl,
    )
