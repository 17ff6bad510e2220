-- ===== src/Menu/Dispatch.antt =====
-- internal/telegram/ui/ui.go, internal/telegram/ui/callback/router.go: what a press of a button and a
-- tap on the reply keyboard do. The handlers are those that `New` registers; logging is left out.
pub mod Consent
pub mod Once
use open_light.Base.{
  Bool, true, false, not, ◌||◌, Option, none, some, List, [], ◌∷◌, ◌++◌, if◌then◌else◌,
}
use open_light.Base.Int.{ℤ, pos}
use open_light.Base.Text.{
  Text, codes, eqt, to_lower, trim_space, has_prefix, trim_prefix, is_empty_text,
}
use open_light.Base.Time.{Time}
use open_light.Base.Dict.{empty, put, remove, int_eq, text_eq}
use open_light.Callback.{Action, decode, page_number}
use open_light.Errors.{Result, ok, err, send_failure}
use open_light.Registry.{Definition, Registry, get, list_groups}
use open_light.Registry.Groups.{Group}
use open_light.Sessions.{
  Args, PendingMutation, load_args, claim_mutation, cancel_mutation, clear_input,
}
use open_light.Watch.World.{Button}
use open_light.Menu.{Menu, Desk, QuickAction, CallbackMessage, Shown, sent, reply_keyboard}
use open_light.Menu.Keyboards.{groups_menu, group_menu, quick_actions_menu, root_reply}
use open_light.Menu.Render.{group_card}
use open_light.Menu.Run.{
  M, ◌>>=◌, ◌>>◌, pure, show, on_sessions, change_sessions, edit_text, run_skill, confirm_and_run,
  start_skill, typed,
}

unfoldable pub first_group : Text → List Group → Option Group
first_group key [] = none
first_group key (g ∷ gs) = if eqt g.key key then some g else first_group key gs

unfoldable pub find_group : Registry → Text → Option Group
unfolding first_group
find_group reg key =
    let lowered = to_lower (trim_space key) in
    if is_empty_text lowered then none else first_group lowered (list_groups reg)

-- The screen of a tap on the reply keyboard.
unfoldable pub map_reply_keyboard : Text → Option Text
map_reply_keyboard text =
    let label = trim_space text in
    if eqt label (codes "Skills")
    then some (codes "groups")
    else if eqt label (codes "Status")
    then some (codes "skill:status")
    else if eqt label (codes "System")
    then some (codes "g:system")
    else if eqt label (codes "Watches")
    then some (codes "g:watch")
    else if eqt label (codes "Services")
    then some (codes "g:services")
    else if eqt label (codes "AI")
    then some (codes "chat")
    else none

unfoldable pub or_no_args : Option Args → Args
or_no_args none = empty
or_no_args (some args) = args

-- One argument.
abbrev single : Text → Text → Args
single key value = put empty key value

module _ {S : Type 0} (menu : Menu S) where
  unfoldable pub quick_action_metas : List Text → List (Text × Text)
  quick_action_metas [] = []
  quick_action_metas (id ∷ ids) =
      let rest = quick_action_metas ids in
      elim (menu.quick_actions id) [ none ↦ (id, []) ∷ rest | some qa ↦ (id, qa.label) ∷ rest ]

  unfoldable pub set_free_chat : ℤ → Bool → M S (Unit {0})
  set_free_chat chat enabled st = (
    tt,
    record st {
      free_chat = if enabled then put st.free_chat chat tt else remove st.free_chat chat;
    },
  )

  abbrev home_text : Text
  home_text = codes "Available skill groups:"

  abbrev groups_text : CallbackMessage → Text → M S (Result (Unit {0}))
  groups_text m text = edit_text menu m text (groups_menu menu.registry)

  unfoldable pub open_home : CallbackMessage → M S (Result (Unit {0}))
  open_home m = groups_text m home_text

  -- A panic of the rows is a failed delivery.
  card_shown : CallbackMessage → Group → Option (List (List Button)) → M S (Result (Unit {0}))
  unfolding group_card
  card_shown m group none = pure (err send_failure)
  card_shown m group (some rows) = edit_text menu m (group_card group) rows

  group_page : CallbackMessage → Option Group → M S (Result (Unit {0}))
  unfolding card_shown
  group_page m none = groups_text m (codes "Unknown group.")
  group_page m (some group) =
      card_shown m group (group_menu menu.capitalize menu.registry group.key 0)

  unfoldable pub open_group : CallbackMessage → Text → M S (Result (Unit {0}))
  unfolding group_page find_group
  open_group m key = group_page m (find_group menu.registry key)

  chosen_skill : CallbackMessage → Args → Time → Option Definition → M S (Result (Unit {0}))
  unfolding start_skill
  chosen_skill m args now none = groups_text m (codes "Skill not found.")
  chosen_skill m args now (some skill) = start_skill menu m skill args now

  unfoldable pub exec_skill_callback : CallbackMessage → Action → Time → M S (Result (Unit {0}))
  unfolding chosen_skill or_no_args
  exec_skill_callback m a now st =
      chosen_skill m (or_no_args (load_args a.extra st.sessions)) now (get a.target menu.registry)
        st

  refreshed : CallbackMessage → Option Definition → M S (Result (Unit {0}))
  unfolding run_skill
  refreshed m none = groups_text m (codes "Skill not found.")
  refreshed m (some skill) = run_skill menu m skill empty true

  shown_logs : CallbackMessage → Text → Option Definition → M S (Result (Unit {0}))
  unfolding run_skill
  shown_logs m service none = edit_text menu m (codes "Logs are not available.") []
  shown_logs m service (some skill) = run_skill menu m skill (single (codes "service") service) true

  asked : CallbackMessage → Text → Args → Text → Time → Option Definition → M S (Result (Unit {0}))
  unfolding confirm_and_run
  asked m missing args question now none = edit_text menu m missing []
  asked m missing args question now (some skill) = confirm_and_run menu m skill args question now

  unfoldable pub contextual_action : CallbackMessage → Action → Time → M S (Result (Unit {0}))
  unfolding refreshed shown_logs asked
  contextual_action m a now =
      if eqt a.target (codes "refresh")
      then refreshed m (get a.extra menu.registry)
      else if eqt a.target (codes "logs")
      then shown_logs m a.extra (get (codes "service_logs") menu.registry)
      else if eqt a.target (codes "restart")
      then asked m (codes "Restart is not available.") (single (codes "service") a.extra)
          (codes "Restart service " ++ menu.quote a.extra ++ codes "?") now
          (get (codes "service_restart") menu.registry)
      else if eqt a.target (codes "watch")
      then asked m (codes "Watch is not available.") (single (codes "spec") a.extra)
          (codes "Add watch " ++ menu.quote a.extra ++ codes "?") now
          (get (codes "watch_add") menu.registry)
      else groups_text m (codes "Unsupported action.")

  unfoldable pub navigate_back : CallbackMessage → Action → M S (Result (Unit {0}))
  unfolding open_group open_home
  navigate_back m a =
      if is_empty_text a.target || eqt a.target (codes "groups")
      then groups_text m home_text
      else if eqt a.target (codes "g")
      then (if is_empty_text (trim_space a.extra)
          then groups_text m home_text
          else open_group m (trim_space a.extra))
      else open_home m

  page_shown : CallbackMessage → Action → Option Group → M S (Result (Unit {0}))
  unfolding card_shown
  page_shown m a none = groups_text m (codes "Unknown group.")
  page_shown m a (some group) =
      card_shown m group
        (group_menu menu.capitalize menu.registry (trim_space a.target) (page_number a))

  unfoldable pub paginate : CallbackMessage → Action → M S (Result (Unit {0}))
  unfolding page_shown find_group
  paginate m a = page_shown m a (find_group menu.registry (trim_space a.target))

  claimed_skill : CallbackMessage → Args → Option Definition → M S (Result (Unit {0}))
  unfolding run_skill
  claimed_skill m args none = groups_text m (codes "Skill no longer available.")
  claimed_skill m args (some skill) = run_skill menu m skill args true

  claimed : CallbackMessage → Option PendingMutation → M S (Result (Unit {0}))
  unfolding claimed_skill
  claimed m none = groups_text m (codes "Confirmation expired.")
  claimed m (some p) = claimed_skill m p.args (get p.skill_name menu.registry)

  unfoldable pub confirm_mutation : CallbackMessage → Action → Time → M S (Result (Unit {0}))
  unfolding claimed
  confirm_mutation m a now = do
    pending ← on_sessions (claim_mutation a.target m.user_id now)
    claimed m pending

  unfoldable pub cancel_pending_mutation : CallbackMessage → Action → M S (Result (Unit {0}))
  cancel_pending_mutation m a = do
    dropped ← on_sessions (cancel_mutation a.target m.user_id)
    groups_text m (codes "Cancelled.")

  quick_skill : CallbackMessage → QuickAction → Time → Option Definition → M S (Result (Unit {0}))
  unfolding confirm_and_run run_skill
  quick_skill m qa now none =
      edit_text menu m (codes "Quick action skill not registered.")
        (quick_actions_menu (quick_action_metas menu.quick_order))
  quick_skill m qa now (some skill) =
      if qa.confirm
      then confirm_and_run menu m skill qa.args
          (if is_empty_text (trim_space qa.prompt)
            then codes "Run quick action " ++ menu.quote qa.label ++ codes "?"
            else trim_space qa.prompt)
          now
      else run_skill menu m skill qa.args true

  quick_found : CallbackMessage → Time → Option QuickAction → M S (Result (Unit {0}))
  unfolding quick_skill
  quick_found m now none =
      edit_text menu m (codes "Unknown quick action.")
        (quick_actions_menu (quick_action_metas menu.quick_order))
  quick_found m now (some qa) = quick_skill m qa now (get qa.skill_name menu.registry)

  unfoldable pub run_quick_action : CallbackMessage → Action → Time → M S (Result (Unit {0}))
  unfolding quick_found
  run_quick_action m a now = quick_found m now (menu.quick_actions a.target)

  unfoldable pub fallback : CallbackMessage → M S (Result (Unit {0}))
  fallback m = groups_text m (codes "That action is no longer available.")

  -- The handler of a kind.
  unfoldable pub handle_action : CallbackMessage → Action → Time → M S (Result (Unit {0}))
  unfolding open_home open_group exec_skill_callback contextual_action navigate_back paginate
      confirm_mutation cancel_pending_mutation run_quick_action fallback
  handle_action m a now =
      if eqt a.kind (codes "home")
      then open_home m
      else if eqt a.kind (codes "g")
      then open_group m a.target
      else if eqt a.kind (codes "s")
      then exec_skill_callback m a now
      else if eqt a.kind (codes "a")
      then contextual_action m a now
      else if eqt a.kind (codes "b")
      then navigate_back m a
      else if eqt a.kind (codes "p")
      then paginate m a
      else if eqt a.kind (codes "c")
      then confirm_mutation m a now
      else if eqt a.kind (codes "x")
      then cancel_pending_mutation m a
      else if eqt a.kind (codes "q")
      then run_quick_action m a now
      else fallback m

  dispatch_decoded : CallbackMessage → Time → Option Action → M S (Result (Unit {0}))
  unfolding handle_action fallback
  dispatch_decoded m now none = fallback m
  dispatch_decoded m now (some a) = handle_action m a now

  unfoldable pub dispatch : CallbackMessage → Time → M S (Result (Unit {0}))
  unfolding dispatch_decoded
  dispatch m now = dispatch_decoded m now (decode m.raw)

  unfoldable pub send_home : ℤ → M S (Result (Unit {0}))
  unfolding show root_reply
  send_home chat =
      show (reply_keyboard chat (codes "openLight ready. Tap a section below.") root_reply)

  screen_skill : ℤ → ℤ → Text → Option Definition → M S (Result (Unit {0}))
  unfolding show run_skill typed
  screen_skill chat user name none = show (sent chat (codes "Skill not registered: " ++ name) [])
  screen_skill chat user name (some skill) = run_skill menu (typed menu chat user) skill empty false

  card_sent : ℤ → Group → Option (List (List Button)) → M S (Result (Unit {0}))
  unfolding show group_card
  card_sent chat group none = pure (err send_failure)
  card_sent chat group (some rows) = show (sent chat (group_card group) rows)

  screen_group : ℤ → Text → Option Group → M S (Result (Unit {0}))
  unfolding show card_sent
  screen_group chat key none = show (sent chat (codes "Unknown group.") (groups_menu menu.registry))
  screen_group chat key (some group) =
      card_sent chat group (group_menu menu.capitalize menu.registry key 0)

  -- Only the screen of the chat turns the free chat on; every other turns it off.
  unfoldable pub open_screen : ℤ → ℤ → Text → M S (Result (Unit {0}))
  unfolding set_free_chat show screen_skill screen_group find_group send_home
  open_screen chat user screen = do
    set_free_chat chat (eqt screen (codes "chat"))
    if eqt screen (codes "quick")
        then show (
            sent chat (codes "Quick Actions:")
              (quick_actions_menu (quick_action_metas menu.quick_order)))
        else if has_prefix screen (codes "skill:")
        then screen_skill chat user (trim_prefix screen (codes "skill:"))
            (get (trim_prefix screen (codes "skill:")) menu.registry)
        else if eqt screen (codes "chat")
        then show (
            sent chat
              (codes
                "💬 Chat mode on. Just type — I'll reply via LLM. Tap any other section or send /menu to exit.")
              [])
        else if has_prefix screen (codes "g:")
        then screen_group chat (trim_prefix screen (codes "g:"))
            (find_group menu.registry (trim_prefix screen (codes "g:")))
        else if eqt screen (codes "home")
        then send_home chat
        else show (sent chat home_text (groups_menu menu.registry))
