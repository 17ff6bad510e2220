-- ===== src/Sessions/Examples.antt =====
-- The session store at concrete values.
use open_light.Base.{
  [], ◌∷◌, some, none, ◌≡◌, ◌≢◌, not, false, ◌||◌, ◌+◌, ◌*◌, arith, refl, if◌then◌else◌,
}
use open_light.Base.Int.{pos, negsuc, eqb_ℤ, ltb_ℤ}
use open_light.Base.Text.{Text, codes}
use open_light.Base.Time.{minute, time_sub}
use open_light.Base.Dict.{empty, put, text_eq, int_eq}
use open_light.Sessions.{
  Args, Store, InputFlow, PendingMutation, new_store, pending, store_args, load_args,
  store_mutation, claim_mutation, cancel_mutation, gc,
}
use open_light.Sessions.Steps.{save_args, collect, claim, run, load_args-run}
use open_light.Sessions.Expiry.{gc_transparent}
use open_light.Sessions.Claims.{claim_mutation-store_mutation, claim_once, claim_sound}

abbrev token_a : Text
token_a = 97 ∷ []

abbrev token_b : Text
token_b = 98 ∷ []

abbrev restart : PendingMutation
restart = record { skill_name = token_b; args = empty; user_id = pos 7; stored_at = 0 }

abbrev no_store : Store
no_store = record { inputs = empty; args = empty; muts = empty; ttl = pos (15 * minute) }

abbrev stored_restart : PendingMutation
stored_restart = record restart { stored_at = 5 }

-- What `StoreMutation` makes of the empty store at time 5.
abbrev one_pending : Store
one_pending = record no_store { muts = put empty token_a stored_restart }

abbrev flow : InputFlow
flow = record {
  skill_name = token_a;
  step_index = 0;
  collected = empty;
  started_at = 3;
  back_target = token_b;
}

abbrev one_flow : Store
one_flow = record no_store { inputs = put empty (negsuc 9) flow }

default_ttl : new_store (negsuc 0) ≡ no_store
unfolding new_store
default_ttl = refl

claim_works : (claim_mutation token_a (pos 7) 9 one_pending).1 ≡ some stored_restart
unfolding claim_mutation time_sub open_light.Base.Text.eqt
claim_works = refl

gc_transparent_example :
    ((pending (negsuc 9) 20 (gc 10 one_flow)).1 ≡ (pending (negsuc 9) 20 one_flow).1)
    × ((claim_mutation token_a (pos 7) 20 (gc 10 one_flow)).1
        ≡ (claim_mutation token_a (pos 7) 20 one_flow).1)
gc_transparent_example = gc_transparent (negsuc 9) (pos 7) token_a 10 20 one_flow (omega arith)

claim_mutation-store_mutation_example :
    (claim_mutation token_a (pos 7) 9 (store_mutation restart token_a 5 no_store).0).1 ≡ (
      if not (eqb_ℤ restart.user_id (pos 7)) || ltb_ℤ no_store.ttl (time_sub 9 5)
      then none
      else some (record restart { stored_at = 5 }))
claim_mutation-store_mutation_example =
    claim_mutation-store_mutation restart token_a (pos 7) 5 9 no_store

claim_once_example :
    ((claim_mutation token_a (pos 8) 10 (claim_mutation token_a (pos 7) 9 one_pending).0).1 ≡ none)
    × ((cancel_mutation token_a (pos 8) (claim_mutation token_a (pos 7) 9 one_pending).0).1 ≡ false)
claim_once_example = claim_once token_a (pos 7) (pos 8) 9 10 one_pending stored_restart claim_works

claim_sound_example :
    (one_pending.muts token_a ≡ some stored_restart)
    × (stored_restart.user_id ≡ pos 7)
    × (ltb_ℤ one_pending.ttl (time_sub 9 stored_restart.stored_at) ≡ false)
    × ((claim_mutation token_a (pos 7) 9 one_pending).0.muts token_a ≡ none)
claim_sound_example = claim_sound token_a (pos 7) 9 one_pending claim_works

abbrev some_args : Args
some_args = put empty token_b token_b

load_args-run_example :
    load_args token_a (
      run
        (collect 2_000_000_000_000_000 ∷ save_args empty token_b ∷ claim token_a (pos 7) 9 ∷ [])
        (store_args some_args token_a no_store).0)
    ≡ some some_args
load_args-run_example =
    load_args-run some_args token_a
      (collect 2_000_000_000_000_000 ∷ save_args empty token_b ∷ claim token_a (pos 7) 9 ∷ [])
      no_store (λ e. ground arith) ((λ e. ground arith), tt)
