-- ===== src/Menu/AsUi.antt =====
-- internal/core/agent.go, internal/telegram/ui/ui.go: the button interface as the agent sees it, within
-- the handling of one message, whose time is `now`.
use open_light.Base.{Bool, true, false, Option, none, some, ◌≡◌, ap, arith}
use open_light.Base.Int.{ℤ, eqb_ℤ_iff}
use open_light.Base.Time.{Time}
use open_light.Base.Dict.{int_eq}
use open_light.Errors.{Error, Result, ok, err}
use open_light.Router.Route.{look_up}
use open_light.Sessions.{Store, expired, pending, clear_input}
use open_light.Agent.{Ui, IncomingMessage}
use open_light.Agent.Buttons.Escape.{IsLawful}
use open_light.Menu.{Menu, Desk, CallbackMessage}
use open_light.Menu.Run.{handle_pending_input, start_skill_input}
use open_light.Menu.Dispatch.{dispatch, map_reply_keyboard, open_screen, send_home, set_free_chat}

abbrev is_some : {A : Type 0} → Option A → Bool
is_some none = false
is_some (some a) = true

abbrev flag_of : Bool × Result (Unit {0}) → Result Bool
flag_of (flag, ok done) = ok flag
flag_of (flag, err e) = err e

abbrev error_of : Bool × Result (Unit {0}) → Bool × Option Error
error_of (flag, ok done) = (flag, none)
error_of (flag, err e) = (flag, some e)

abbrev to_callback : IncomingMessage → CallbackMessage
to_callback m = record {
  chat_id = m.chat_id;
  user_id = m.user_id;
  message_id = m.message_id;
  raw = m.text;
}

module _ {S : Type 0} (menu : Menu S) (now : Time) where
  -- HasPendingInput
  unfoldable pub has_pending_input : ℤ → Desk S → Bool × Desk S
  has_pending_input chat desk =
      let (sessions, flow) = pending chat now desk.sessions in
      (is_some flow, record desk { sessions = sessions })

  -- CancelPending
  unfoldable pub cancel_pending : ℤ → Desk S → Desk S
  cancel_pending chat desk = record desk { sessions = clear_input chat desk.sessions }

  unfoldable pub as_ui : Ui (Desk S)
  unfolding has_pending_input cancel_pending
  as_ui = record {
    handle_callback = λ m desk. dispatch menu (to_callback m) now desk;
    handle_pending_input = λ m desk.
        let (handled, desk') = handle_pending_input menu m.chat_id m.user_id m.text now desk in
        (flag_of handled, desk');
    has_pending_input = has_pending_input;
    start_skill_input = λ chat user skill args desk.
        let (handed, desk') =
          start_skill_input menu chat skill (λ key. look_up key args) now desk in
        (error_of handed, desk');
    cancel_pending = cancel_pending;
    map_reply_keyboard = map_reply_keyboard;
    open_screen = open_screen menu;
    send_home = send_home menu;
    is_free_chat = λ chat desk. is_some (desk.free_chat chat);
    set_free_chat = λ chat enabled desk. (set_free_chat menu chat enabled desk).1;
  }

  pending-clear_input :
      (chat : ℤ) (s : Store) → pending chat now (clear_input chat s) ≡ (clear_input chat s, none)
  unfolding pending clear_input
  pending-clear_input chat s = ground (arith, eqb_ℤ_iff chat chat)

  pending_twice :
      (chat : ℤ) (s : Store)
      → is_some (pending chat now s).1 ≡ false
      → pending chat now (pending chat now s).0 ≡ ((pending chat now s).0, none)
  unfolding pending expired
  pending_twice chat s h = ground (arith, eqb_ℤ_iff chat chat)

  -- The interface does what the agent relies on.
  pub as_ui-IsLawful : IsLawful as_ui
  unfolding as_ui has_pending_input cancel_pending
  as_ui-IsLawful = record {
    cancelled = λ chat desk.
        ap (λ x. (is_some x.1, record desk { sessions = x.0 }))
          (pending-clear_input chat desk.sessions);
    asked = λ chat desk h.
        ap (λ x. (is_some x.1, record desk { sessions = x.0 }))
          (pending_twice chat desk.sessions h);
  }
