-- ===== src/Sessions.antt =====
-- internal/telegram/ui/sessions/sessions.go: the input flows, stored arguments and pending
-- mutations of the button interface. A method takes the store and the time that `nowFunc` returns,
-- and returns the new store with its result. The mutex makes each method one step. A token that
-- `newToken` draws is an argument.
pub mod Steps
pub mod Expiry
pub mod Claims
mod Examples
use open_light.Base.{
  ℕ, suc, ◌+◌, ◌*◌, Bool, true, false, not, Option, none, some, [], if◌then◌else◌,
}
use open_light.Base.Int.{ℤ, pos, eqb_ℤ, ltb_ℤ}
use open_light.Base.Text.{Text, eqt}
use open_light.Base.Time.{Time, Duration, minute, time_sub}
use open_light.Base.Dict.{Dict, empty, put, remove, keep, int_eq, text_eq}

abbrev pub Args : Type 0
Args = Dict Text Text

pub record InputFlow : Type 0 where
  pub skill_name : Text
  pub step_index : ℕ
  pub collected : Args
  pub started_at : Time
  pub back_target : Text

pub record PendingMutation : Type 0 where
  pub skill_name : Text
  pub args : Args
  pub user_id : ℤ
  pub stored_at : Time

pub record Store : Type 0 where
  pub inputs : Dict ℤ InputFlow
  pub args : Dict Text Args
  pub muts : Dict Text PendingMutation
  pub ttl : Duration

unfoldable pub new_store : Duration → Store
new_store ttl = record {
  inputs = empty;
  args = empty;
  muts = empty;
  ttl = if ltb_ℤ (pos 0) ttl then ttl else pos (15 * minute);
}

-- s.now().Sub(at) > s.ttl
unfoldable pub expired : Store → Time → Time → Bool
expired s now at = ltb_ℤ s.ttl (time_sub now at)

unfoldable pub start_input : ℤ → Text → Text → Time → Store → Store × InputFlow
start_input chat_id skill_name back_target now s =
    let flow : InputFlow = record {
      skill_name = skill_name;
      step_index = 0;
      collected = empty;
      started_at = now;
      back_target = back_target;
    } in
    (record s { inputs = put s.inputs chat_id flow }, flow)

live_flow : ℤ → Time → Store → Option InputFlow → Store × Option InputFlow
unfolding expired
live_flow chat_id now s none = (s, none)
live_flow chat_id now s (some flow) =
    if expired s now flow.started_at
    then (record s { inputs = remove s.inputs chat_id }, none)
    else (s, some flow)

unfoldable pub pending : ℤ → Time → Store → Store × Option InputFlow
unfolding live_flow
pending chat_id now s = live_flow chat_id now s (s.inputs chat_id)

advance_flow : ℤ → Text → Text → Time → Store → Option InputFlow → Store × Option InputFlow
advance_flow chat_id field_name value now s none = (s, none)
advance_flow chat_id field_name value now s (some flow) =
    let flow' = record flow {
      collected = put flow.collected field_name value;
      step_index = flow.step_index + 1;
      started_at = now;
    } in
    (record s { inputs = put s.inputs chat_id flow' }, some flow')

unfoldable pub advance_input : ℤ → Text → Text → Time → Store → Store × Option InputFlow
unfolding advance_flow
advance_input chat_id field_name value now s =
    advance_flow chat_id field_name value now s (s.inputs chat_id)

unfoldable pub clear_input : ℤ → Store → Store
clear_input chat_id s = record s { inputs = remove s.inputs chat_id }

unfoldable pub store_args : Args → Text → Store → Store × Text
store_args args token s = (record s { args = put s.args token args }, token)

unfoldable pub load_args : Text → Store → Option Args
load_args token s = if eqt token [] then none else s.args token

unfoldable pub store_mutation : PendingMutation → Text → Time → Store → Store × Text
store_mutation p token now s =
    (record s { muts = put s.muts token (record p { stored_at = now }) }, token)

claim_found : Text → ℤ → Time → Store → Option PendingMutation → Store × Option PendingMutation
unfolding expired
claim_found token user_id now s none = (s, none)
claim_found token user_id now s (some p) =
    if not (eqb_ℤ p.user_id user_id)
    then (s, none)
    else if expired s now p.stored_at
    then (record s { muts = remove s.muts token }, none)
    else (record s { muts = remove s.muts token }, some p)

unfoldable pub claim_mutation : Text → ℤ → Time → Store → Store × Option PendingMutation
unfolding claim_found
claim_mutation token user_id now s = claim_found token user_id now s (s.muts token)

cancel_found : Text → ℤ → Store → Option PendingMutation → Store × Bool
cancel_found token user_id s none = (s, false)
cancel_found token user_id s (some p) =
    if not (eqb_ℤ p.user_id user_id)
    then (s, false)
    else (record s { muts = remove s.muts token }, true)

unfoldable pub cancel_mutation : Text → ℤ → Store → Store × Bool
unfolding cancel_found
cancel_mutation token user_id s = cancel_found token user_id s (s.muts token)

-- The two loops of `GC`.
unfoldable pub gc : Time → Store → Store
unfolding expired
gc now s = record s {
  inputs = keep (λ flow. not (expired s now flow.started_at)) s.inputs;
  muts = keep (λ p. not (expired s now p.stored_at)) s.muts;
}
