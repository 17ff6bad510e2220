-- ===== src/Agent/Clarify/Keeps.antt =====
-- internal/core/agent.go: what the routing with an open question keeps.
use open_light.Base.{Option, none, some, []}
use open_light.Base.Int.{ℤ}
use open_light.Base.Text.{Text, trim_space, is_empty_text}
use open_light.Base.Time.{Time}
use open_light.Errors.{Result, ok, err}
use open_light.Router.{Decision}
use open_light.Router.Route.{route}
use open_light.Agent.{Agent, State, IncomingMessage, PendingClarification, Setting}
use open_light.Agent.Texts.{pending_clarification_key}
use open_light.Agent.Clarify.{
  Routed, save_pending_clarification, clarification_for, clear_pending_clarification, or_cleared,
  loaded, load_pending_clarification, answered, routed_first, route_with_clarification,
  with_clarification,
}
use open_light.Agent.Triples.{
  Triple, Closed, bind-Triple, if-Triple, pure-Triple, set_setting-Triple, get_setting-Triple,
}

module _ {S : Type 0} {P : State S → Type 0} (c : Closed P) (agent : Agent S) where
  pub save_pending_clarification-Triple :
      (chat : ℤ) (source_text question : Text) (now : Time)
      → Triple P P (save_pending_clarification agent chat source_text question now)
  unfolding save_pending_clarification
  save_pending_clarification-Triple chat source_text question now =
      set_setting-Triple c (pending_clarification_key chat)
        (agent.marshal (clarification_for agent source_text question)) now

  clear_pending_clarification-Triple :
      (chat : ℤ) (now : Time) → Triple P P (clear_pending_clarification agent chat now)
  unfolding clear_pending_clarification
  clear_pending_clarification-Triple chat now =
      set_setting-Triple c (pending_clarification_key chat) [] now

  or_cleared-Triple :
      (chat : ℤ) (now : Time) (p : Option PendingClarification)
      → Triple P P (or_cleared agent chat now p)
  unfolding or_cleared
  or_cleared-Triple chat now (some pending) = pure-Triple _ (λ st p. p)
  or_cleared-Triple chat now none =
      bind-Triple (clear_pending_clarification-Triple chat now) (λ _. pure-Triple none (λ st p. p))

  loaded-Triple :
      (chat : ℤ) (now : Time) (s : Option Setting) → Triple P P (loaded agent chat now s)
  unfolding loaded
  loaded-Triple chat now none = pure-Triple _ (λ st p. p)
  loaded-Triple chat now (some setting) =
      if-Triple (is_empty_text (trim_space setting.value)) (pure-Triple none (λ st p. p))
        (or_cleared-Triple chat now _)

  load_pending_clarification-Triple :
      (chat : ℤ) (now : Time) → Triple P P (load_pending_clarification agent chat now)
  unfolding load_pending_clarification
  load_pending_clarification-Triple chat now =
      bind-Triple (get_setting-Triple c.talks (pending_clarification_key chat))
        (loaded-Triple chat now)

  answered-Triple :
      (message : IncomingMessage) (routed : Routed) (now : Time) (p : Option PendingClarification)
      → Triple P P (answered agent message routed now p)
  unfolding answered
  answered-Triple message routed now none = pure-Triple routed (λ st p. p)
  answered-Triple message routed now (some pending) =
      bind-Triple (clear_pending_clarification-Triple message.chat_id now)
        (λ _. pure-Triple (with_clarification agent message.text routed pending) (λ st p. p))

  routed_first-Triple :
      (message : IncomingMessage) (now : Time) (d : Result Decision)
      → Triple P P (routed_first agent message now d)
  unfolding routed_first
  routed_first-Triple message now (err e) = pure-Triple (err e) (λ st p. p)
  routed_first-Triple message now (ok decision) =
      bind-Triple (load_pending_clarification-Triple message.chat_id now) λ pending.
        bind-Triple
          (answered-Triple message (record { decision = decision; text = message.text }) now
            pending)
          λ routed. pure-Triple (ok routed) (λ st p. p)

  pub route_with_clarification-Triple :
      (message : IncomingMessage) (now : Time)
      → Triple P P (route_with_clarification agent message now)
  unfolding route_with_clarification
  route_with_clarification-Triple message now =
      routed_first-Triple message now (route agent.router message.text)
