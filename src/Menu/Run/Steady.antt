-- ===== src/Menu/Run/Steady.antt =====
-- internal/telegram/ui/ui.go: running a skill and showing a text leave the sessions as they are.
use open_light.Base.{Bool, true, false, not, ◌&&◌, List, ◌≡◌, refl, ◌∙◌, arith, if◌then◌else◌}
use open_light.Base.Int.{pos, eqb_ℤ}
use open_light.Base.Text.{Text}
use open_light.Errors.{Result, ok, err}
use open_light.Registry.{Definition}
use open_light.Sessions.{Args}
use open_light.Watch.World.{Button}
use open_light.Menu.{Menu, Desk, CallbackMessage, SkillReply, Call, Shown}
use open_light.Menu.Run.{
  M, ◌>>=◌, show, edit_text, deliver, execute, skill_done, running, run_skill,
}

pub record Steady {S A : Type 0} (m : M S A) : Type 0 where
  pub steady : (st : Desk S) → (m st).1.sessions ≡ st.sessions

bind-Steady :
    {S A B : Type 0} {m : M S A} {f : A → M S B}
    → Steady m
    → ((a : A) → Steady (f a))
    → Steady (m >>= f)
bind-Steady {m = m} hm hf = record { steady = λ st. (hf (m st).0).steady (m st).1 ∙ hm.steady st }

if-Steady :
    {S A : Type 0} (b : Bool) {m n : M S A} → Steady m → Steady n → Steady (if b then m else n)
if-Steady true hm hn = hm
if-Steady false hm hn = hn

show-Steady : {S : Type 0} (shown : Shown) → Steady (show {S = S} shown)
unfolding show
show-Steady shown = record { steady = λ st. ground arith }

module _ {S : Type 0} (menu : Menu S) where
  pub edit_text-Steady :
      (m : CallbackMessage) (text : Text) (rows : List (List Button))
      → Steady (edit_text menu m text rows)
  unfolding edit_text
  edit_text-Steady m text rows =
      if-Steady (eqb_ℤ m.message_id (pos 0)) (show-Steady _) (show-Steady _)

  skill_done-Steady :
      (m : CallbackMessage) (skill : Definition) (edit : Bool) (result : Result SkillReply)
      → Steady (skill_done menu m skill edit result)
  unfolding skill_done deliver
  skill_done-Steady m skill edit (err e) =
      if-Steady (edit && not (eqb_ℤ m.message_id (pos 0))) (show-Steady _) (show-Steady _)
  skill_done-Steady m skill edit (ok result) =
      if-Steady (edit && not (eqb_ℤ m.message_id (pos 0))) (show-Steady _) (show-Steady _)

  running-Steady :
      (m : CallbackMessage) (skill : Definition) (edit : Bool) → Steady (running menu m skill edit)
  unfolding running
  running-Steady m skill edit =
      if-Steady (edit && not (eqb_ℤ m.message_id (pos 0))) (show-Steady _)
        (record { steady = λ st. refl })

  execute-Steady : (call : Call) → Steady (execute menu call)
  unfolding execute
  execute-Steady call = record { steady = λ st. refl }

  pub run_skill-Steady :
      (m : CallbackMessage) (skill : Definition) (args : Args) (edit : Bool)
      → Steady (run_skill menu m skill args edit)
  unfolding run_skill
  run_skill-Steady m skill args edit = bind-Steady (running-Steady m skill edit) λ seen.
      bind-Steady
        (execute-Steady
          (record { skill = skill; args = args; user_id = m.user_id; chat_id = m.chat_id }))
        (skill_done-Steady m skill edit)
