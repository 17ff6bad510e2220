-- ===== src/Menu/Run/Consent.antt =====
-- internal/telegram/ui/ui.go: which skills run without a press of the button that confirms.
use mathlib.Core.Path.{subst}
use open_light.Base.{
  Bool, true, false, not, ◌&&◌, Option, none, some, List, [], ◌∷◌, ◌++◌, ◌≡◌, refl, sym, ◌⊎◌, inl,
  inr, arith, if◌then◌else◌, length, leb,
}
use open_light.Base.Int.{ℤ, pos, eqb_ℤ}
use open_light.Base.Text.{Text, codes, trim_space}
use open_light.Base.Time.{Time}
use open_light.Errors.{Result, ok, err}
use open_light.Registry.{Definition}
use open_light.Sessions.{Args, InputFlow, Store, clear_input, pending, advance_input}
use open_light.Watch.World.{Button}
use open_light.Menu.{Menu, Desk, InputField, CallbackMessage, SkillReply, Call, Shown, sent}
use open_light.Menu.Render.{skill_header}
use open_light.Menu.Run.{
  M, ◌>>=◌, show, nth, edit_text, deliver, execute, skill_done, running, run_skill, confirm_and_run,
  ask, start_skill, typed, finish_input, next_input, advanced_input, validated, flow_input,
  flow_skill, pending_flow, handle_pending_input, needs_consent, filled_steps, missing_inputs,
  change_sessions, on_sessions, begin_flow, consent_text,
}

-- Nothing ran, or one call did, of which `C` holds.
abbrev pub Ran : (Call → Type 0) → List Call → List Call → Type 0
Ran C before after = (after ≡ before) ⊎ ((call : Call) × (after ≡ before ++ call ∷ []) × C call)

pub record OneRun {S A : Type 0} (C : Call → Type 0) (m : M S A) : Type 0 where
  pub holds : (st : Desk S) → Ran C st.ran (m st).1.ran

pub record Quiet {S A : Type 0} (m : M S A) : Type 0 where
  pub quiet : (st : Desk S) → (m st).1.ran ≡ st.ran

module _ {S : Type 0} {C : Call → Type 0} where
  pub no_run : {A : Type 0} {m : M S A} → Quiet m → OneRun C m
  no_run h = record { holds = λ st. inl (h.quiet st) }

  -- A quiet step in front of another.
  pub bind-OneRun :
      {A B : Type 0} {m : M S A} {f : A → M S B}
      → Quiet m
      → ((a : A) → OneRun C (f a))
      → OneRun C (m >>= f)
  bind-OneRun {m = m} {f = f} hm hf = record {
    holds = λ st.
        subst (λ ran. Ran C ran (f (m st).0 (m st).1).1.ran) (hm.quiet st)
          ((hf (m st).0).holds (m st).1);
  }

  -- A quiet step behind another.
  pub followed :
      {A B : Type 0} {m : M S A} {f : A → M S B}
      → OneRun C m
      → ((a : A) → Quiet (f a))
      → OneRun C (m >>= f)
  followed {m = m} {f = f} hm hf = record {
    holds = λ st. subst (Ran C st.ran) (sym ((hf (m st).0).quiet (m st).1)) (hm.holds st);
  }

  pub if-OneRun :
      {A : Type 0} (b : Bool) {m n : M S A}
      → OneRun C m
      → OneRun C n
      → OneRun C (if b then m else n)
  if-OneRun true hm hn = hm
  if-OneRun false hm hn = hn

pub show-Quiet : {S : Type 0} (shown : Shown) → Quiet (show {S = S} shown)
unfolding show
show-Quiet shown = record { quiet = λ st. ground arith }

pub if-Quiet :
    {S A : Type 0} (b : Bool) {m n : M S A} → Quiet m → Quiet n → Quiet (if b then m else n)
if-Quiet true hm hn = hm
if-Quiet false hm hn = hn

pub same-Quiet : {S A : Type 0} (a : A) → Quiet {S = S} (λ st. (a, st))
same-Quiet a = record { quiet = λ st. refl }

change_sessions-Quiet : {S : Type 0} (f : Store → Store) → Quiet (change_sessions {S = S} f)
change_sessions-Quiet f = record { quiet = λ st. refl }

pub on_sessions-Quiet : {S A : Type 0} (f : Store → Store × A) → Quiet (on_sessions {S = S} f)
on_sessions-Quiet f = record { quiet = λ st. refl }

module _ {S : Type 0} (menu : Menu S) where
  pub edit_text-Quiet :
      (m : CallbackMessage) (text : Text) (rows : List (List Button))
      → Quiet (edit_text menu m text rows)
  unfolding edit_text
  edit_text-Quiet m text rows = if-Quiet (eqb_ℤ m.message_id (pos 0)) (show-Quiet _) (show-Quiet _)

  skill_done-Quiet :
      (m : CallbackMessage) (skill : Definition) (edit : Bool) (result : Result SkillReply)
      → Quiet (skill_done menu m skill edit result)
  unfolding skill_done deliver
  skill_done-Quiet m skill edit (err e) =
      if-Quiet (edit && not (eqb_ℤ m.message_id (pos 0))) (show-Quiet _) (show-Quiet _)
  skill_done-Quiet m skill edit (ok result) =
      if-Quiet (edit && not (eqb_ℤ m.message_id (pos 0))) (show-Quiet _) (show-Quiet _)

  pub confirm_and_run-Quiet :
      (m : CallbackMessage) (skill : Definition) (args : Args) (text : Text) (now : Time)
      → Quiet (confirm_and_run menu m skill args text now)
  unfolding confirm_and_run
  confirm_and_run-Quiet m skill args text now = record {
    quiet = λ st. (edit_text-Quiet m text _).quiet _;
  }

  running-Quiet :
      (m : CallbackMessage) (skill : Definition) (edit : Bool) → Quiet (running menu m skill edit)
  unfolding running
  running-Quiet m skill edit =
      if-Quiet (edit && not (eqb_ℤ m.message_id (pos 0))) (show-Quiet _) (same-Quiet (ok tt))

  execute-OneRun : {C : Call → Type 0} (call : Call) → C call → OneRun C (execute menu call)
  unfolding execute
  execute-OneRun call c = record { holds = λ st. inr (call, refl, c) }

  -- A run is the run of this skill with these arguments, for the user and the chat of the message.
  pub run_skill-OneRun :
      {C : Call → Type 0} (m : CallbackMessage) (skill : Definition) (args : Args) (edit : Bool)
      → C (record { skill = skill; args = args; user_id = m.user_id; chat_id = m.chat_id })
      → OneRun C (run_skill menu m skill args edit)
  unfolding run_skill
  run_skill-OneRun m skill args edit c = bind-OneRun (running-Quiet m skill edit) λ seen.
      followed
        (execute-OneRun
          (record { skill = skill; args = args; user_id = m.user_id; chat_id = m.chat_id }) c)
        (skill_done-Quiet m skill edit)

  -- The call is of a skill that changes nothing and has no text of consent, for this user in this chat.
  pub Free : ℤ → ℤ → Call → Type 0
  Free user chat call =
      (call.skill.mutating ≡ false)
      × (trim_space (menu.describe call.skill).confirm ≡ [])
      × (call.user_id ≡ user)
      × (call.chat_id ≡ chat)

  ask-Quiet :
      (m : CallbackMessage) (skill : Definition) (field : Option InputField)
      → Quiet (ask menu m skill field)
  unfolding ask
  ask-Quiet m skill none = same-Quiet _
  ask-Quiet m skill (some field) = edit_text-Quiet m _ _

  no_consent :
      (skill : Definition)
      → needs_consent skill (menu.describe skill) ≡ false
      → (skill.mutating ≡ false) × (trim_space (menu.describe skill).confirm ≡ [])
  unfolding needs_consent
  no_consent skill h = ground arith

  -- A skill runs at once, or its call waits for the button.
  consented-OneRun :
      (m : CallbackMessage) (skill : Definition) (args : Args) (edit : Bool) (text : Text)
      (now : Time)
      → OneRun (Free m.user_id m.chat_id) (
          if needs_consent skill (menu.describe skill)
          then confirm_and_run menu m skill args text now
          else run_skill menu m skill args edit)
  unfolding Free
  consented-OneRun m skill args edit text now = go (needs_consent skill (menu.describe skill)) refl
    where
      go :
          (b : Bool)
          → needs_consent skill (menu.describe skill) ≡ b
          → OneRun (Free m.user_id m.chat_id) (
              if b
              then confirm_and_run menu m skill args text now
              else run_skill menu m skill args edit)
      go true e = no_run (confirm_and_run-Quiet m skill args text now)
      go false e =
          run_skill-OneRun m skill args edit
            ((no_consent skill e).0, (no_consent skill e).1, refl, refl)

  pub start_skill-OneRun :
      (m : CallbackMessage) (skill : Definition) (args : Args) (now : Time)
      → OneRun (Free m.user_id m.chat_id) (start_skill menu m skill args now)
  unfolding start_skill
  start_skill-OneRun m skill args now =
      if-OneRun (not (leb (length (missing_inputs (menu.describe skill).inputs args)) 0))
        (bind-OneRun
          (change_sessions-Quiet (
            begin_flow menu m.chat_id skill args
              (filled_steps (λ value. true) (menu.describe skill).inputs args) now))
          (λ _. no_run (
            ask-Quiet m skill (
              nth (menu.describe skill).inputs
                (filled_steps (λ value. true) (menu.describe skill).inputs args)))))
        (consented-OneRun m skill args true
          (consent_text menu skill (menu.describe skill) (skill_header menu.capitalize skill)) now)

  next_input-OneRun :
      (chat user : ℤ) (skill : Definition) (args : Args) (now : Time) (field : Option InputField)
      → OneRun (Free user chat) (next_input menu chat user skill args now field)
  unfolding next_input finish_input typed
  next_input-OneRun chat user skill args now none =
      bind-OneRun (change_sessions-Quiet (clear_input chat)) (λ _.
        consented-OneRun (typed menu chat user) skill args false
          (consent_text menu skill (menu.describe skill) []) now)
  next_input-OneRun chat user skill args now (some field) = no_run (show-Quiet _)

  advanced_input-OneRun :
      (chat user : ℤ) (skill : Definition) (now : Time) (flow : Option InputFlow)
      → OneRun (Free user chat) (advanced_input menu chat user skill now flow)
  unfolding advanced_input
  advanced_input-OneRun chat user skill now none = no_run (same-Quiet (ok tt))
  advanced_input-OneRun chat user skill now (some flow) =
      next_input-OneRun chat user skill flow.collected now _

  validated-OneRun :
      (chat user : ℤ) (value : Text) (skill : Definition) (field : InputField) (now : Time)
      (problem : Option Text)
      → OneRun (Free user chat) (validated menu chat user value skill field now problem)
  unfolding validated
  validated-OneRun chat user value skill field now (some problem) = no_run (show-Quiet _)
  validated-OneRun chat user value skill field now none =
      bind-OneRun (on_sessions-Quiet (advance_input chat field.name value now))
        (advanced_input-OneRun chat user skill now)

  flow_skill-OneRun :
      (chat user : ℤ) (text : Text) (flow : InputFlow) (now : Time) (skill : Option Definition)
      → OneRun (Free user chat) (flow_skill menu chat user text flow now skill)
  unfolding flow_skill flow_input
  flow_skill-OneRun chat user text flow now none =
      bind-OneRun (change_sessions-Quiet (clear_input chat))
        (λ _. no_run (show-Quiet (sent chat (codes "session expired") [])))
  flow_skill-OneRun chat user text flow now (some skill) =
      input (nth (menu.describe skill).inputs flow.step_index)
    where
      input :
          (field : Option InputField)
          → OneRun (Free user chat) (flow_input menu chat user text skill now field)
      input none =
          bind-OneRun (change_sessions-Quiet (clear_input chat)) (λ _. no_run (same-Quiet (ok tt)))
      input (some field) = validated-OneRun chat user (trim_space text) skill field now _

  pending_flow-OneRun :
      (chat user : ℤ) (text : Text) (now : Time) (flow : Option InputFlow)
      → OneRun (Free user chat) (pending_flow menu chat user text now flow)
  unfolding pending_flow
  pending_flow-OneRun chat user text now none = no_run (same-Quiet (false, ok tt))
  pending_flow-OneRun chat user text now (some flow) =
      followed (flow_skill-OneRun chat user text flow now _) (λ result. same-Quiet (true, result))

  handle_pending_input-OneRun :
      (chat user : ℤ) (text : Text) (now : Time)
      → OneRun (Free user chat) (handle_pending_input menu chat user text now)
  unfolding handle_pending_input
  handle_pending_input-OneRun chat user text now =
      bind-OneRun (on_sessions-Quiet (pending chat now)) (pending_flow-OneRun chat user text now)

  -- The answer to a question of an input flow runs one skill at most, whatever fails: none that changes
  -- anything or that asks for consent, and only for the user and the chat of the answer.
  pub handle_pending_input-Free :
      (chat user : ℤ) (text : Text) (now : Time) (st : Desk S)
      → Ran (Free user chat) st.ran (handle_pending_input menu chat user text now st).1.ran
  handle_pending_input-Free chat user text now st =
      (handle_pending_input-OneRun chat user text now).holds st
