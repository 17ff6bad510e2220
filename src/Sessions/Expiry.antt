-- ===== src/Sessions/Expiry.antt =====
-- Input flows and the collector.
use open_light.Base.{◌≤◌, ◌+◌, ◌≡◌, refl, not, true, Option, none, some, arith, if◌then◌else◌}
use open_light.Base.Dict.{keep_value, put, text_eq}
use open_light.Base.Int.{ℤ, ltb_ℤ, eqb_ℤ, eqb_ℤ_iff}
use open_light.Base.Text.{Text}
use open_light.Base.Time.{Time, time_sub, time_sub_mono}
use open_light.Sessions.{
  Store, InputFlow, PendingMutation, expired, start_input, live_flow, pending, advance_flow,
  advance_input, claim_found, claim_mutation, gc,
}

-- What has expired stays expired.
expired_mono :
    (s : Store) (now later at : Time)
    → now ≤ later
    → expired s now at ≡ true
    → expired s later at ≡ true
unfolding expired
expired_mono s now later at le h = time_sub_mono s.ttl now later at le h

-- A flow that is started is returned as long as the time to live has not passed; then it is
-- dropped. Flows of other chats are not touched by the start.
pending-start_input :
    (chat other : ℤ) (skill back : Text) (now later : Time) (s : Store)
    → ((pending other later (start_input chat skill back now s).0).1 ≡ (
        if eqb_ℤ chat other
        then (if ltb_ℤ s.ttl (time_sub later now)
            then none
            else some (start_input chat skill back now s).1)
        else (pending other later s).1))
unfolding start_input pending expired
pending-start_input chat other skill back now later s = ground (arith, eqb_ℤ_iff chat other)

kept_flow :
    (chat : ℤ) (now later : Time) (s : Store) (o : Option InputFlow)
    → now ≤ later
    → (live_flow chat later (gc now s) (keep_value (λ f. not (expired s now f.started_at)) o)).1
      ≡ (live_flow chat later s o).1
unfolding gc live_flow
kept_flow chat now later s none le = refl
kept_flow chat now later s (some f) le = ground (arith, expired_mono s now later f.started_at)

kept_mutation :
    (token : Text) (user : ℤ) (now later : Time) (s : Store) (o : Option PendingMutation)
    → now ≤ later
    → (claim_found token user later
        (gc now s)
        (keep_value (λ p. not (expired s now p.stored_at)) o)).1
      ≡ (claim_found token user later s o).1
unfolding gc claim_found
kept_mutation token user now later s none le = refl
kept_mutation token user now later s (some p) le =
    ground (arith, expired_mono s now later p.stored_at)

-- The collector is not needed for correctness: at its time or later, `Pending` and
-- `ClaimMutation` return what they return without it.
pub gc_transparent :
    (chat user : ℤ) (token : Text) (now later : Time) (s : Store)
    → now ≤ later
    → ((pending chat later (gc now s)).1 ≡ (pending chat later s).1)
      × ((claim_mutation token user later (gc now s)).1 ≡ (claim_mutation token user later s).1)
unfolding gc pending claim_mutation
gc_transparent chat user token now later s le = (
  kept_flow chat now later s (s.inputs chat) le,
  kept_mutation token user now later s (s.muts token) le,
)

-- An answer advances the flow of its chat by one step, keeps the answers to other fields, and starts
-- the time to live anew: the flow is then pending for as long as a new one.
pending-advance_input :
    (chat : ℤ) (field value : Text) (now later : Time) (s : Store) (flow : InputFlow)
    → s.inputs chat ≡ some flow
    → (pending chat later (advance_input chat field value now s).0).1 ≡ (
        if ltb_ℤ s.ttl (time_sub later now)
        then none
        else some (record flow {
          collected = put flow.collected field value;
          step_index = flow.step_index + 1;
          started_at = now;
        }))
unfolding pending advance_input expired
pending-advance_input chat field value now later s flow h = ground (arith, eqb_ℤ_iff chat chat)

pub pending-ttl : (chat : ℤ) (now : Time) (s : Store) → (pending chat now s).0.ttl ≡ s.ttl
unfolding pending live_flow
pending-ttl chat now s = ground arith

pub advance_input-ttl :
    (chat : ℤ) (name value : Text) (now : Time) (s : Store)
    → (advance_input chat name value now s).0.ttl ≡ s.ttl
unfolding advance_input advance_flow
advance_input-ttl chat name value now s = ground arith
