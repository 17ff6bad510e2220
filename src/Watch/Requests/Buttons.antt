-- ===== src/Watch/Requests/Buttons.antt =====
-- internal/watch/actions.go and service.go: the data of an alert's buttons and their parser.
use open_light.Base.{
  ℕ, suc, ◌-◌, ◌^◌, ◌≤◌, Bool, true, false, ◌||◌, if◌then◌else◌, List, [], ◌∷◌, ◌++◌, some, ◌≡◌,
  refl, ◌∙◌, ap, append_assoc, append-nil, arith, All, All-append,
}
use open_light.Base.Text.{
  Text, codes, is_space, lower, to_lower, split, split_from, has_prefix, is_empty_text,
}
use open_light.Base.Int.{pos}
use open_light.Base.Text.Trim.{
  NoSpace, Lacks, trim_space-NoSpace, split_from-append, strip_prefix-append,
}
use open_light.Base.Decimal.{itoa}
use open_light.Base.Decimal.RoundTrip.{IsDigit, itoa-IsDigit, parse_int-itoa}
use open_light.Models.{
  Watch, WatchIncident, WatchKind, service_down, cpu_high, memory_high, disk_high, temperature_high,
  port_down, cert_expiring, unknown_kind, is_ask, is_auto,
}
use open_light.Watch.Env.{Env}
use open_light.Watch.Actions.{
  Action, restart_service_id, show_logs_id, show_status_id, ignore_alert_id, restart_action,
  passive, ignore_action, kind_actions, button_for, actions_for_incident,
}
use open_light.Watch.Requests.{positive, action_parts, parse_action_request}

-- The text is in lower case.
abbrev IsLower : Text → Type 0
IsLower = All (λ c. lower c ≡ c)

to_lower-IsLower : (s : Text) → IsLower s → to_lower s ≡ s
unfolding to_lower
to_lower-IsLower [] h = refl
to_lower-IsLower (c ∷ s) h = ground (arith, to_lower-IsLower s h.1)

digits_word : (s : Text) → All IsDigit s → NoSpace s × Lacks b':' s × IsLower s
unfolding is_space lower
digits_word [] h = (tt, tt, tt)
digits_word (c ∷ s) h =
    let (a, b, l) = digits_word s h.1 in ((ground arith, a), (ground arith, b), (ground arith, l))

has_prefix-append : (p s : Text) → has_prefix (p ++ s) p ≡ true
unfolding has_prefix
has_prefix-append p s = ground (arith, strip_prefix-append p s)

-- The ids that a button can carry.
record IsWord (s : Text) : Type 0 where
  ne_nil : is_empty_text s ≡ false
  word : NoSpace s
  lacks : Lacks b':' s
  low : IsLower s

split_data :
    (d id : Text)
    → Lacks b':' d
    → Lacks b':' id
    → split (codes "watch:action:" ++ (d ++ (codes ":" ++ id))) b':'
      ≡ codes "watch" ∷ codes "action" ∷ d ∷ id ∷ []
unfolding split codes
split_data d id hd hi =
    ap (λ l. codes "watch" ∷ codes "action" ∷ l)
      (split_from-append b':' d (codes ":" ++ id) [] hd
        ∙ (unfold split_from in
            ap (λ l. d ∷ l) (rw append-nil at (split_from-append b':' id [] [] hi))))

data-NoSpace :
    (d id : Text)
    → NoSpace d
    → NoSpace id
    → NoSpace (codes "watch:action:" ++ (d ++ (codes ":" ++ id)))
unfolding codes is_space
data-NoSpace d id hd hi =
    All-append (λ c. is_space c ≡ false) (codes "watch:action:") (d ++ (codes ":" ++ id))
      (ground arith) (All-append (λ c. is_space c ≡ false) d (b':' ∷ id) hd (refl, hi))

data-IsLower :
    (d id : Text)
    → IsLower d
    → IsLower id
    → IsLower (codes "watch:action:" ++ (d ++ (codes ":" ++ id)))
unfolding codes lower
data-IsLower d id hd hi =
    All-append (λ c. lower c ≡ c) (codes "watch:action:") (d ++ (codes ":" ++ id)) (ground arith)
      (All-append (λ c. lower c ≡ c) d (b':' ∷ id) hd (refl, hi))

parsed :
    (n : ℕ) (id : Text)
    → suc n ≤ 2 ^ 63 - 1
    → IsWord id
    → parse_action_request (codes "watch:action:" ++ (itoa (suc n) ++ (codes ":" ++ id)))
      ≡ some (record { action_id = id; incident_id = pos (suc n) })
unfolding parse_action_request action_parts positive
parsed n id le h =
    let (space, colon, low) = digits_word (itoa (suc n)) (itoa-IsDigit (suc n)) in
    rw
      (
        trim_space-NoSpace _ (data-NoSpace (itoa (suc n)) id space h.word),
        to_lower-IsLower _ (data-IsLower (itoa (suc n)) id low h.low),
        has_prefix-append (codes "watch:action:") (itoa (suc n) ++ (codes ":" ++ id)),
        split_data (itoa (suc n)) id colon h.lacks,
        trim_space-NoSpace id h.word,
        trim_space-NoSpace (itoa (suc n)) space,
        parse_int-itoa (suc n) le,
        h.ne_nil,
      )
      refl

restart-IsWord : IsWord restart_service_id
restart-IsWord =
    unfold codes is_space lower in
    record { ne_nil = refl; word = ground arith; lacks = ground arith; low = ground arith }

logs-IsWord : IsWord show_logs_id
logs-IsWord =
    unfold codes is_space lower in
    record { ne_nil = refl; word = ground arith; lacks = ground arith; low = ground arith }

status-IsWord : IsWord show_status_id
status-IsWord =
    unfold codes is_space lower in
    record { ne_nil = refl; word = ground arith; lacks = ground arith; low = ground arith }

ignore-IsWord : IsWord ignore_alert_id
ignore-IsWord =
    unfold codes is_space lower in
    record { ne_nil = refl; word = ground arith; lacks = ground arith; low = ground arith }

service_words :
    (watch : Watch) (incident : WatchIncident) (b : Bool) (shown : List Action)
    → All (λ a. IsWord a.id) shown
    → All (λ a. IsWord a.id) (if b then restart_action watch ∷ shown else shown)
unfolding restart_action
service_words watch incident true shown h = (restart-IsWord, h)
service_words watch incident false shown h = h

kind_words :
    (kind : WatchKind) (watch : Watch) (incident : WatchIncident)
    → All (λ a. IsWord a.id) (kind_actions kind watch incident)
unfolding kind_actions passive
kind_words service_down watch incident =
    service_words watch incident (is_ask watch.reaction_mode || is_auto watch.reaction_mode) _
      (logs-IsWord, (status-IsWord, tt))
kind_words cpu_high watch incident = (status-IsWord, tt)
kind_words memory_high watch incident = (status-IsWord, tt)
kind_words disk_high watch incident = (status-IsWord, tt)
kind_words temperature_high watch incident = (status-IsWord, tt)
kind_words port_down watch incident = (status-IsWord, tt)
kind_words cert_expiring watch incident = (status-IsWord, tt)
kind_words (unknown_kind t) watch incident = (status-IsWord, tt)

actions_for_incident-IsWord :
    (watch : Watch) (incident : WatchIncident)
    → All (λ a. IsWord a.id) (actions_for_incident watch incident)
unfolding actions_for_incident ignore_action passive
actions_for_incident-IsWord watch incident =
    All-append (λ a. IsWord a.id) (kind_actions watch.kind watch incident)
      (ignore_action incident ∷ []) (kind_words watch.kind watch incident) (ignore-IsWord, tt)

All-map :
    {A : Type 0} {P Q : A → Type 0} (f : (a : A) → P a → Q a) (xs : List A) → All P xs → All Q xs
All-map f [] h = tt
All-map f (x ∷ xs) h = (f x h.0, All-map f xs h.1)

module _ (env : Env) where
  answers :
      (n : ℕ) (action : Action)
      → suc n ≤ 2 ^ 63 - 1
      → IsWord action.id
      → parse_action_request (button_for env (suc n) action).callback_data
        ≡ some (record { action_id = action.id; incident_id = pos (suc n) })
  unfolding button_for
  answers n action le h =
      ap parse_action_request (rw (append_assoc, append_assoc) refl) ∙ parsed n action.id le h

  -- Each button of an alert sends data that is read back as its own action on its own alert: for
  -- every action that the alert offers and every row id of 63 bits.
  pub parse_action_request-button_for :
      (watch : Watch) (incident : WatchIncident) (n : ℕ)
      → suc n ≤ 2 ^ 63 - 1
      → All
          (λ action.
            parse_action_request (button_for env (suc n) action).callback_data
            ≡ some (record { action_id = action.id; incident_id = pos (suc n) }))
          (actions_for_incident watch incident)
  parse_action_request-button_for watch incident n le =
      All-map (λ action h. answers n action le h) (actions_for_incident watch incident)
        (actions_for_incident-IsWord watch incident)
