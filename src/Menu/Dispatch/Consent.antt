-- ===== src/Menu/Dispatch/Consent.antt =====
-- internal/telegram/ui/ui.go: which skills a press of a button runs.
use open_light.Base.{
  Bool, true, false, ◌||◌, Option, none, some, List, ◌≡◌, refl, ap, sym, ◌⊎◌, inl, inr,
  if◌then◌else◌,
}
use open_light.Base.Text.{Text, codes, eqt, eqt_iff, trim_space, is_empty_text}
use open_light.Base.Time.{Time}
use open_light.Base.Dict.{empty}
use open_light.Callback.{Action}
use open_light.Errors.{Result, err, send_failure}
use open_light.Watch.World.{Button}
use open_light.Registry.{Definition, get}
use open_light.Registry.Groups.{Group}
use open_light.Sessions.{Args, Store, PendingMutation, claim_mutation, cancel_mutation, load_args}
use open_light.Menu.{Menu, Desk, QuickAction, CallbackMessage, Call}
use open_light.Menu.Keyboards.{groups_menu}
use open_light.Menu.Run.{M}
use open_light.Menu.Run.Consent.{
  Ran, OneRun, Quiet, no_run, bind-OneRun, if-OneRun, edit_text-Quiet, confirm_and_run-Quiet,
  run_skill-OneRun, same-Quiet, Free, start_skill-OneRun, on_sessions-Quiet,
}
use open_light.Menu.Dispatch.{
  open_home, card_shown, group_page, open_group, chosen_skill, exec_skill_callback, refreshed,
  shown_logs, asked, contextual_action, navigate_back, page_shown, paginate, claimed_skill, claimed,
  confirm_mutation, cancel_pending_mutation, quick_skill, quick_found, run_quick_action, fallback,
  handle_action, find_group, or_no_args, groups_text,
}

module _ {S : Type 0} (menu : Menu S) (m : CallbackMessage) (a : Action) (now : Time) where
  -- What the user of the message had waiting under the token of the button is this call.
  pub Claimed : Store → Call → Type 0
  Claimed s call =
      (p : PendingMutation) × ((claim_mutation a.target m.user_id now s).1 ≡ some p)
      × (get p.skill_name menu.registry ≡ some call.skill)
      × (call.args ≡ p.args)

  -- Why a press may run the call: it needs no consent, the press confirms it, the press refreshes a
  -- result or shows logs, or it is a quick action.
  pub data Reason (s : Store) (call : Call) : Type 0 where
    free : Free menu m.user_id m.chat_id call → Reason s call
    confirmed : a.kind ≡ codes "c" → Claimed s call → Reason s call
    contextual :
        a.kind ≡ codes "a"
        → (a.target ≡ codes "refresh") ⊎ (a.target ≡ codes "logs")
        → Reason s call
    quick : a.kind ≡ codes "q" → Reason s call

  -- A step that begins with these sessions runs calls with a reason only.
  record Answers {A : Type 0} (s : Store) (step : M S A) : Type 0 where
    pub holds : (st : Desk S) → st.sessions ≡ s → Ran (Reason s) st.ran (step st).1.ran

  module _ (s : Store) where
    by_reason :
        {A : Type 0} {C : Call → Type 0} {step : M S A}
        → OneRun C step
        → ((call : Call) → C call → Reason s call)
        → Answers s step
    by_reason {C = C} h k = record { holds = λ st e. weaken (h.holds st) }
      where
        weaken : {before after : List Call} → Ran C before after → Ran (Reason s) before after
        weaken (inl same) = inl same
        weaken (inr (call, e, c)) = inr (call, e, k call c)

    silent : {A : Type 0} {step : M S A} → Quiet step → Answers s step
    silent h = record { holds = λ st e. inl (h.quiet st) }

    if-Answers :
        (x y : Text) {n n' : M S (Result (Unit {0}))}
        → (x ≡ y → Answers s n)
        → Answers s n'
        → Answers s (if eqt x y then n else n')
    if-Answers x y {n} {n'} h h' = go (eqt x y) refl
      where
        go : (b : Bool) → eqt x y ≡ b → Answers s (if b then n else n')
        go true e = h ((eqt_iff x y).0 e)
        go false e = h'

    groups-Answers : (text : Text) → Answers s (groups_text menu m text)
    groups-Answers text = silent (edit_text-Quiet menu m text _)

    card-Answers :
        (group : Group) (rows : Option (List (List Button)))
        → Answers s (card_shown menu m group rows)
    unfolding card_shown
    card-Answers group none = silent (same-Quiet (err send_failure))
    card-Answers group (some rows) = silent (edit_text-Quiet menu m _ rows)

    group_page-Answers : (group : Option Group) → Answers s (group_page menu m group)
    unfolding group_page
    group_page-Answers none = groups-Answers _
    group_page-Answers (some group) = card-Answers group _

    exec_skill-Answers : Answers s (exec_skill_callback menu m a now)
    unfolding exec_skill_callback chosen_skill
    exec_skill-Answers = record {
      holds = λ st e.
          (go (or_no_args (load_args a.extra st.sessions)) (get a.target menu.registry)).holds st e;
    }
      where
        go :
            (args : Args) (skill : Option Definition)
            → Answers s (chosen_skill menu m args now skill)
        go args none = groups-Answers _
        go args (some skill) =
            by_reason (start_skill-OneRun menu m skill args now) (λ call c. free c)

    contextual-Answers : a.kind ≡ codes "a" → Answers s (contextual_action menu m a now)
    unfolding contextual_action refreshed shown_logs asked
    contextual-Answers kind =
        if-Answers a.target (codes "refresh") (λ e. refresh e (get a.extra menu.registry))
          (if-Answers a.target (codes "logs")
            (λ e. logs e (get (codes "service_logs") menu.registry))
            (if-Answers a.target (codes "restart")
              (λ e. question _ _ _ (get (codes "service_restart") menu.registry))
              (if-Answers a.target (codes "watch")
                (λ e. question _ _ _ (get (codes "watch_add") menu.registry)) (groups-Answers _))))
      where
        refresh :
            a.target ≡ codes "refresh"
            → (skill : Option Definition) → Answers s (refreshed menu m skill)
        refresh e none = groups-Answers _
        refresh e (some skill) =
            by_reason {C = λ call. Unit {0}} (run_skill-OneRun menu m skill empty true tt)
              (λ call c. contextual kind (inl e))

        logs :
            a.target ≡ codes "logs"
            → (skill : Option Definition) → Answers s (shown_logs menu m a.extra skill)
        logs e none = silent (edit_text-Quiet menu m _ _)
        logs e (some skill) =
            by_reason {C = λ call. Unit {0}} (run_skill-OneRun menu m skill _ true tt)
              (λ call c. contextual kind (inr e))

        question :
            (missing : Text) (args : Args) (text : Text) (skill : Option Definition)
            → Answers s (asked menu m missing args text now skill)
        question missing args text none = silent (edit_text-Quiet menu m missing _)
        question missing args text (some skill) =
            silent (confirm_and_run-Quiet menu m skill args text now)

    navigate_back-Answers : Answers s (navigate_back menu m a)
    unfolding navigate_back open_group open_home
    navigate_back-Answers =
        if-plain (is_empty_text a.target || eqt a.target (codes "groups")) (groups-Answers _) (
          if-plain (eqt a.target (codes "g"))
            (if-plain (is_empty_text (trim_space a.extra)) (groups-Answers _)
              (group_page-Answers _))
            (groups-Answers _))
      where
        if-plain :
            (b : Bool) {n n' : M S (Result (Unit {0}))}
            → Answers s n
            → Answers s n'
            → Answers s (if b then n else n')
        if-plain true h h' = h
        if-plain false h h' = h'

    paginate-Answers : Answers s (paginate menu m a)
    unfolding paginate page_shown
    paginate-Answers = go (find_group menu.registry (trim_space a.target))
      where
        go : (group : Option Group) → Answers s (page_shown menu m a group)
        go none = groups-Answers _
        go (some group) = card-Answers group _

    -- The call that a claimed mutation runs.
    claimed-OneRun :
        (p : Option PendingMutation)
        → a.kind ≡ codes "c"
        → (claim_mutation a.target m.user_id now s).1 ≡ p
        → OneRun (Reason s) (claimed menu m p)
    unfolding claimed claimed_skill Claimed
    claimed-OneRun none kind e = no_run (edit_text-Quiet menu m _ _)
    claimed-OneRun (some p) kind e = go (get p.skill_name menu.registry) refl
      where
        go :
            (skill : Option Definition)
            → get p.skill_name menu.registry ≡ skill
            → OneRun (Reason s) (claimed_skill menu m p.args skill)
        go none h = no_run (edit_text-Quiet menu m _ _)
        go (some skill) h =
            run_skill-OneRun menu m skill p.args true (confirmed kind (p, e, h, refl))

    confirm-Answers : a.kind ≡ codes "c" → Answers s (confirm_mutation menu m a now)
    unfolding confirm_mutation
    confirm-Answers kind = record {
      holds = λ st h.
          (claimed-OneRun (claim_mutation a.target m.user_id now st.sessions).1 kind
              (ap (λ t. (claim_mutation a.target m.user_id now t).1) (sym h))).holds
            (record st { sessions = (claim_mutation a.target m.user_id now st.sessions).0 });
    }

    quick-Answers : a.kind ≡ codes "q" → Answers s (run_quick_action menu m a now)
    unfolding run_quick_action quick_found quick_skill
    quick-Answers kind = found (menu.quick_actions a.target)
      where
        skill_found :
            (qa : QuickAction) (skill : Option Definition)
            → Answers s (quick_skill menu m qa now skill)
        skill_found qa none = silent (edit_text-Quiet menu m _ _)
        skill_found qa (some skill) =
            by_reason {C = λ call. Unit {0}}
              (if-OneRun qa.confirm (no_run (confirm_and_run-Quiet menu m skill qa.args _ now))
                (run_skill-OneRun menu m skill qa.args true tt))
              (λ call c. quick kind)

        found : (qa : Option QuickAction) → Answers s (quick_found menu m now qa)
        found none = silent (edit_text-Quiet menu m _ _)
        found (some qa) = skill_found qa (get qa.skill_name menu.registry)

    cancel-Answers : Answers s (cancel_pending_mutation menu m a)
    unfolding cancel_pending_mutation
    cancel-Answers =
        by_reason {C = λ call. ⊥}
          (bind-OneRun (on_sessions-Quiet (cancel_mutation a.target m.user_id)) (λ dropped.
            no_run (edit_text-Quiet menu m (codes "Cancelled.") (groups_menu menu.registry))))
          (λ call c. absurd c)

    handle_action-Answers : Answers s (handle_action menu m a now)
    unfolding handle_action open_home open_group fallback
    handle_action-Answers =
        if-Answers a.kind (codes "home") (λ e. groups-Answers _)
          (if-Answers a.kind (codes "g") (λ e. group_page-Answers _)
            (if-Answers a.kind (codes "s") (λ e. exec_skill-Answers)
              (if-Answers a.kind (codes "a") contextual-Answers (
                if-Answers a.kind (codes "b") (λ e. navigate_back-Answers)
                  (if-Answers a.kind (codes "p") (λ e. paginate-Answers)
                    (if-Answers a.kind (codes "c") confirm-Answers (
                      if-Answers a.kind (codes "x") (λ e. cancel-Answers)
                        (if-Answers a.kind (codes "q") quick-Answers (groups-Answers _)))))))))

  -- A press of a button runs one skill at most, whatever fails, and has a reason for it: the skill
  -- changes nothing and asks for no consent, or the press confirms a call that the same user had waiting
  -- and that has not expired, with the skill and the arguments of that call, or it refreshes a result or
  -- shows logs, or it is a quick action.
  pub handle_action-Reason :
      (st : Desk S) → Ran (Reason st.sessions) st.ran (handle_action menu m a now st).1.ran
  handle_action-Reason st = (handle_action-Answers st.sessions).holds st refl
