-- ===== src/Menu/Dispatch/Once.antt =====
-- internal/telegram/ui/ui.go: pressing a confirmation twice.
use open_light.Base.{true, Option, none, some, ◌≡◌, refl, ap, ◌∙◌, ◌⊎◌, inl, inr}
use open_light.Base.Time.{Time}
use open_light.Callback.{Action}
use open_light.Registry.{Definition, get}
use open_light.Sessions.{PendingMutation, claim_mutation}
use open_light.Sessions.Claims.{claim_once}
use open_light.Menu.{Menu, Desk, CallbackMessage}
use open_light.Menu.Run.Consent.{edit_text-Quiet}
use open_light.Menu.Run.Steady.{Steady, edit_text-Steady, run_skill-Steady}
use open_light.Menu.Dispatch.{claimed, claimed_skill, confirm_mutation}

module _ {S : Type 0} (menu : Menu S) where
  claimed-Steady : (m : CallbackMessage) (p : Option PendingMutation) → Steady (claimed menu m p)
  unfolding claimed claimed_skill
  claimed-Steady m none = edit_text-Steady menu m _ _
  claimed-Steady m (some p) = go (get p.skill_name menu.registry)
    where
      go : (skill : Option Definition) → Steady (claimed_skill menu m p.args skill)
      go none = edit_text-Steady menu m _ _
      go (some skill) = run_skill-Steady menu m skill p.args true

  -- A press whose claim fails runs nothing.
  claimed-none :
      (m : CallbackMessage) (p : Option PendingMutation)
      → p ≡ none
      → (st : Desk S) → (claimed menu m p st).1.ran ≡ st.ran
  unfolding claimed
  claimed-none m none h st = (edit_text-Quiet menu m _ _).quiet st
  claimed-none m (some p) h st = cc

  -- Of two presses of the same confirmation, by whichever users, at whichever times and whatever fails,
  -- one runs nothing.
  pub confirm_mutation-once :
      (a : Action) (m n : CallbackMessage) (now later : Time) (st : Desk S)
      → ((confirm_mutation menu m a now st).1.ran ≡ st.ran)
        ⊎ ((confirm_mutation menu n a later (confirm_mutation menu m a now st).1).1.ran
            ≡ (confirm_mutation menu m a now st).1.ran)
  unfolding confirm_mutation
  confirm_mutation-once a m n now later st =
      go (claim_mutation a.target m.user_id now st.sessions).1 refl
    where
      first : Desk S
      first = record st { sessions = (claim_mutation a.target m.user_id now st.sessions).0 }

      go :
          (p : Option PendingMutation)
          → (claim_mutation a.target m.user_id now st.sessions).1 ≡ p
          → ((claimed menu m (claim_mutation a.target m.user_id now st.sessions).1 first).1.ran
              ≡ st.ran)
            ⊎ ((confirm_mutation menu n a later
                  (claimed menu m
                    (claim_mutation a.target m.user_id now st.sessions).1
                    first).1).1.ran
                ≡ (claimed menu m
                    (claim_mutation a.target m.user_id now st.sessions).1
                    first).1.ran)
      go none e = inl (claimed-none m _ e first)
      go (some p) e = inr (
          again _
            ((claimed-Steady m (claim_mutation a.target m.user_id now st.sessions).1).steady first)
            e)
        where
          again :
              (st' : Desk S)
              → st'.sessions ≡ (claim_mutation a.target m.user_id now st.sessions).0
              → (claim_mutation a.target m.user_id now st.sessions).1 ≡ some p
              → (confirm_mutation menu n a later st').1.ran ≡ st'.ran
          again st' same won =
              claimed-none n (claim_mutation a.target n.user_id later st'.sessions).1
                (ap (λ s. (claim_mutation a.target n.user_id later s).1) same
                  ∙ (claim_once a.target m.user_id n.user_id now later st.sessions p won).0)
                (record st' { sessions = (claim_mutation a.target n.user_id later st'.sessions).0 })
