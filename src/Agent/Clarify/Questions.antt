-- ===== src/Agent/Clarify/Questions.antt =====
-- internal/core/agent.go: the life of an open question.
use mathlib.Core.Path.{subst}
use open_light.Base.{
  Bool, true, false, Option, none, some, [], ◌≡◌, refl, ap, sym, ◌∙◌, ◌||◌, arith, if◌then◌else◌,
  ◌*◌,
}
use open_light.Base.Int.{ℤ, pos, ltb_ℤ}
use open_light.Base.Text.{
  Text, codes, eqt_refl, trim_space, trim_left, trim_right, has_prefix, is_empty_text,
}
use open_light.Base.Text.Trim.{trim_space_twice}
use open_light.Base.Time.{Time, minute, time_sub}
use open_light.Errors.{Result, ok, err}
use open_light.Redact.{redact_sensitive_text}
use open_light.Router.{Decision}
use open_light.Router.Route.{route}
use open_light.Agent.{Agent, State, IncomingMessage, PendingClarification, Setting}
use open_light.Agent.Texts.{pending_clarification_key, should_use_pending_clarification}
use open_light.Base.Dict.{put, text_eq}
use open_light.Agent.Store.{pure, draw, attempt, set_setting, get_setting}
use open_light.Agent.Clarify.{
  save_pending_clarification, clarification_for, clear_pending_clarification, or_cleared, loaded,
  valid_clarification, load_pending_clarification, answered, routed_first, route_with_clarification,
  with_clarification, apply_chat_fallback,
}

-- No call of the database fails from here on.
abbrev pub Faultless : {S : Type 0} → State S → Type 0
Faultless st = st.faults ≡ []

module _ {S : Type 0} (agent : Agent S) (chat : ℤ) (now : Time) where
  load-setting :
      (st : State S) (s : Option Setting)
      → Faultless st
      → st.settings (pending_clarification_key chat) ≡ s
      → load_pending_clarification agent chat now st ≡ loaded agent chat now s st
  unfolding load_pending_clarification get_setting draw
  load-setting st s e h = ground arith

  set_setting-state :
      (st : State S) (value : Text) (at : Time)
      → Faultless st
      → (set_setting (pending_clarification_key chat) value at st).1 ≡ record st {
        settings =
            put st.settings
              (pending_clarification_key chat)
              (record { value = value; updated_at = at });
        faults = [];
      }
  unfolding set_setting attempt draw
  set_setting-state st value at e = ground arith

  -- What is loaded behind a write.
  load-set_setting :
      (st : State S) (value : Text) (at : Time)
      → Faultless st
      → load_pending_clarification agent chat now
          (set_setting (pending_clarification_key chat) value at st).1
        ≡ loaded agent chat now
            (some (record { value = value; updated_at = at }))
            (set_setting (pending_clarification_key chat) value at st).1
  load-set_setting st value at e =
      load-setting _ (some (record { value = value; updated_at = at }))
        (ap (λ st'. st'.faults) (set_setting-state st value at e))
        (ap (λ st'. st'.settings (pending_clarification_key chat)) (set_setting-state st value at e)
          ∙ put_lem)
    where
      put_lem :
          put st.settings
            (pending_clarification_key chat)
            (record { value = value; updated_at = at })
            (pending_clarification_key chat)
          ≡ some (record { value = value; updated_at = at })
      put_lem = ground (arith, eqt_refl (pending_clarification_key chat))

  load-cleared :
      (st : State S)
      → Faultless st
      → (load_pending_clarification agent chat now
          (clear_pending_clarification agent chat now st).1).0
        ≡ none
  unfolding clear_pending_clarification loaded trim_space trim_left trim_right
  load-cleared st e = ap (λ x. x.0) (load-set_setting st [] now e)

  clear-Faultless :
      (st : State S) → Faultless st → Faultless (clear_pending_clarification agent chat now st).1
  unfolding clear_pending_clarification
  clear-Faultless st e = ap (λ st'. st'.faults) (set_setting-state st [] now e)

  -- A state from which no question is loaded, or a question that was.
  Settles : Option PendingClarification × State S → Type 0
  Settles (none, st) = Faultless st × ((load_pending_clarification agent chat now st).0 ≡ none)
  Settles (some p, st) = Faultless st

  or_cleared-Settles :
      (p : Option PendingClarification) (st : State S)
      → Faultless st
      → Settles (or_cleared agent chat now p st)
  unfolding Settles or_cleared
  or_cleared-Settles none st e = (clear-Faultless st e, load-cleared st e)
  or_cleared-Settles (some p) st e = e

  loaded-Settles :
      (s : Option Setting) (st : State S)
      → Faultless st
      → st.settings (pending_clarification_key chat) ≡ s
      → Settles (loaded agent chat now s st)
  unfolding Settles loaded
  loaded-Settles none st e h = (e, ap (λ x. x.0) (load-setting st none e h))
  loaded-Settles (some setting) st e h = go (is_empty_text (trim_space setting.value)) refl
    where
      rest : Option PendingClarification
      rest =
          if ltb_ℤ (pos (10 * minute)) (time_sub now setting.updated_at)
          then none
          else valid_clarification agent (agent.unmarshal setting.value)

      go :
          (b : Bool)
          → is_empty_text (trim_space setting.value) ≡ b
          → Settles ((if b then pure none else or_cleared agent chat now rest) st)
      go true blank = (
        e,
        ap (λ x. x.0) (load-setting st (some setting) e h)
            ∙ ap (λ b. ((if b then pure none else or_cleared agent chat now rest) st).0) blank,
      )
      go false other = or_cleared-Settles rest st e

-- Behind the routing of a message that the router decides no question is open in its chat: the one that
-- was is answered, or dropped, and the next message meets none. The database works.
pub route_with_clarification-settled :
    {S : Type 0} (agent : Agent S) (message : IncomingMessage) (now : Time) (st : State S)
    {decision : Decision}
    → Faultless st
    → route agent.router message.text ≡ ok decision
    → (load_pending_clarification agent message.chat_id now
        (route_with_clarification agent message now st).1).0
      ≡ none
unfolding route_with_clarification routed_first answered Settles
route_with_clarification-settled agent message now st {decision} e h =
    subst
      (λ d.
        (load_pending_clarification agent message.chat_id now
          (routed_first agent message now d st).1).0
        ≡ none)
      (sym h)
      (go (load_pending_clarification agent message.chat_id now st) (
        subst (Settles agent message.chat_id now)
          (sym (load-setting agent message.chat_id now st _ e refl))
          (loaded-Settles agent message.chat_id now _ st e refl)))
  where
    go :
        (x : Option PendingClarification × State _)
        → Settles agent message.chat_id now x
        → (load_pending_clarification agent message.chat_id now
            (answered agent message
              (record { decision = decision; text = message.text })
              now
              x.0
              x.1).1).0
          ≡ none
    go (none, st') s = s.1
    go (some p, st') s = load-cleared agent message.chat_id now st' s

or_cleared-result :
    {S : Type 0} (agent : Agent S) (chat : ℤ) (now : Time) (p : Option PendingClarification)
    (st : State S)
    → (or_cleared agent chat now p st).0 ≡ p
unfolding or_cleared
or_cleared-result agent chat now none st = refl
or_cleared-result agent chat now (some p) st = refl

valid_clarification-saved :
    {S : Type 0} (agent : Agent S) (source_text question : Text)
    → valid_clarification agent (some (clarification_for agent source_text question)) ≡ (
        if is_empty_text (trim_space (redact_sensitive_text source_text))
          || is_empty_text (trim_space question)
        then none
        else some (clarification_for agent source_text question))
unfolding valid_clarification clarification_for
valid_clarification-saved agent source_text question =
    rw (trim_space_twice (redact_sensitive_text source_text), trim_space_twice question)

loaded-saved :
    {S : Type 0} (agent : Agent S) (chat : ℤ) (source_text question : Text) (at now : Time)
    → agent.unmarshal (agent.marshal (clarification_for agent source_text question))
      ≡ some (clarification_for agent source_text question)
    → is_empty_text (trim_space (agent.marshal (clarification_for agent source_text question)))
      ≡ false
    → (st : State S)
    → (loaded agent chat now
        (some (record {
          value = agent.marshal (clarification_for agent source_text question);
          updated_at = at;
        }))
        st).0
      ≡ (if ltb_ℤ (pos (10 * minute)) (time_sub now at)
            || is_empty_text (trim_space (redact_sensitive_text source_text))
            || is_empty_text (trim_space question)
          then none
          else some (clarification_for agent source_text question))
unfolding loaded
loaded-saved agent chat source_text question at now decodes filled st =
    rw (filled, decodes)
      (or_cleared-result agent chat now
          (if ltb_ℤ (pos (10 * minute)) (time_sub now at)
            then none
            else valid_clarification agent (some (clarification_for agent source_text question)))
          st
        ∙ rw (valid_clarification-saved agent source_text question)
            (over (ltb_ℤ (pos (10 * minute)) (time_sub now at))))
  where
    over :
        (b : Bool)
        → (if b
            then none
            else (if is_empty_text (trim_space (redact_sensitive_text source_text))
                  || is_empty_text (trim_space question)
                then none
                else some (clarification_for agent source_text question)))
          ≡ (if b
                || is_empty_text (trim_space (redact_sensitive_text source_text))
                || is_empty_text (trim_space question)
              then none
              else some (clarification_for agent source_text question))
    over true = refl
    over false = refl

-- A question that is saved is loaded again, with the text it is about redacted and trimmed and the
-- question itself trimmed, unless the ten minutes are over, or the redacted text or the question is
-- blank; then none is. The database works, and its payload is decoded to what was encoded and is not
-- blank.
pub load-save :
    {S : Type 0} (agent : Agent S) (chat : ℤ) (source_text question : Text) (at now : Time)
    (st : State S)
    → Faultless st
    → agent.unmarshal (agent.marshal (clarification_for agent source_text question))
      ≡ some (clarification_for agent source_text question)
    → is_empty_text (trim_space (agent.marshal (clarification_for agent source_text question)))
      ≡ false
    → (load_pending_clarification agent chat now
        (save_pending_clarification agent chat source_text question at st).1).0
      ≡ (if ltb_ℤ (pos (10 * minute)) (time_sub now at)
            || is_empty_text (trim_space (redact_sensitive_text source_text))
            || is_empty_text (trim_space question)
          then none
          else some (clarification_for agent source_text question))
unfolding save_pending_clarification
load-save agent chat source_text question at now st e decodes filled =
    ap (λ x. x.0)
      (load-set_setting agent chat now st
        (agent.marshal (clarification_for agent source_text question)) at e)
    ∙ loaded-saved agent chat source_text question at now decodes filled _

-- A text that begins with a slash is routed on its own words, whatever question is open, and is never
-- handed to the chat in place of a skill that was not found.
route_with_clarification-slash :
    {S : Type 0} (agent : Agent S) (message : IncomingMessage) (now : Time) (st : State S)
    → has_prefix (trim_space message.text) (codes "/") ≡ true
    → ((route_with_clarification agent message now st).0 ≡ elim (route agent.router message.text) [
      | ok decision ↦ ok (record { decision = decision; text = message.text })
      | err e ↦ err e
    ])
      × ((decision : Decision) → apply_chat_fallback agent message decision ≡ decision)
unfolding route_with_clarification apply_chat_fallback answered routed_first with_clarification
    should_use_pending_clarification
route_with_clarification-slash agent message now st slash_text =
    (routed (route agent.router message.text), λ decision. ground arith)
  where
    kept :
        (decision : Decision) (p : Option PendingClarification) (st' : State _)
        → (answered agent message (record { decision = decision; text = message.text }) now p st').0
          ≡ record { decision = decision; text = message.text }
    kept decision none st' = refl
    kept decision (some p) st' = ground arith

    routed :
        (d : Result Decision)
        → (routed_first agent message now d st).0 ≡ elim d [
          | ok decision ↦ ok (record { decision = decision; text = message.text })
          | err e ↦ err e
        ]
    routed (err e) = refl
    routed (ok decision) = ap ok (kept decision _ _)
