-- ===== src/Sessions/Steps.antt =====
-- The store under any sequence of calls.
use open_light.Base.{◌≡◌, ◌≢◌, refl, ◌∙◌, List, [], ◌∷◌, some, arith}
use open_light.Base.Int.{ℤ}
use open_light.Base.Text.{Text, eqt_iff}
use open_light.Base.Time.{Time}
use open_light.Sessions.{
  Args, Store, PendingMutation, start_input, pending, advance_input, clear_input, store_args,
  load_args, store_mutation, claim_mutation, cancel_mutation, gc,
}

-- A call of a method that may change the store.
pub data Call : Type 0 where
  start : ℤ → Text → Text → Time → Call
  look : ℤ → Time → Call
  advance : ℤ → Text → Text → Time → Call
  clear : ℤ → Call
  save_args : Args → Text → Call
  save_mutation : PendingMutation → Text → Time → Call
  claim : Text → ℤ → Time → Call
  cancel : Text → ℤ → Call
  collect : Time → Call

pub apply : Call → Store → Store
apply (start chat skill back now) s = (start_input chat skill back now s).0
apply (look chat now) s = (pending chat now s).0
apply (advance chat field value now) s = (advance_input chat field value now s).0
apply (clear chat) s = clear_input chat s
apply (save_args args token) s = (store_args args token s).0
apply (save_mutation p token now) s = (store_mutation p token now s).0
apply (claim token user now) s = (claim_mutation token user now s).0
apply (cancel token user) s = (cancel_mutation token user s).0
apply (collect now) s = gc now s

pub run : List Call → Store → Store
unfolding apply
run [] s = s
run (c ∷ cs) s = run cs (apply c s)

-- No call of the list stores arguments under the token.
abbrev pub Spares : Text → List Call → Type 0
Spares token [] = Unit
Spares token (save_args args t ∷ cs) = (t ≢ token) × Spares token cs
Spares token (_ ∷ cs) = Spares token cs

abbrev SparesOne : Text → Call → Type 0
SparesOne token (save_args args t) = t ≢ token
SparesOne token _ = Unit

apply_keeps_args :
    (token : Text) (c : Call) (s : Store)
    → SparesOne token c
    → (apply c s).args token ≡ s.args token
unfolding apply start_input pending advance_input clear_input store_args store_mutation
    claim_mutation cancel_mutation gc
apply_keeps_args token (save_args args t) s h = ground (arith, eqt_iff t token)
apply_keeps_args token _ s h = ground arith

Spares-split :
    (token : Text) (c : Call) (cs : List Call)
    → Spares token (c ∷ cs)
    → SparesOne token c × Spares token cs
Spares-split token (save_args args t) cs h = h
Spares-split token _ cs h = (tt, h)

run_keeps_args :
    (token : Text) (cs : List Call) (s : Store)
    → Spares token cs
    → (run cs s).args token ≡ s.args token
unfolding run
run_keeps_args token [] s h = refl
run_keeps_args token (c ∷ cs) s h =
    let parts = Spares-split token c cs h in
    run_keeps_args token cs (apply c s) parts.1 ∙ apply_keeps_args token c s parts.0

load-store :
    (args : Args) (token : Text) (s : Store) → (store_args args token s).0.args token ≡ some args
unfolding store_args
load-store args token s = ground (arith, eqt_iff token token)

load_args-eq : (token : Text) (s : Store) → token ≢ [] → load_args token s ≡ s.args token
unfolding load_args
load_args-eq token s ne = ground (arith, eqt_iff token [])

-- Stored arguments never expire: after any sequence of calls, the collector's included and at any
-- times, that stores nothing else under the token, `LoadArgs` returns what `StoreArgs` was given.
pub load_args-run :
    (args : Args) (token : Text) (cs : List Call) (s : Store)
    → token ≢ []
    → Spares token cs
    → load_args token (run cs (store_args args token s).0) ≡ some args
load_args-run args token cs s ne h =
    load_args-eq token (run cs (store_args args token s).0) ne
    ∙ run_keeps_args token cs (store_args args token s).0 h
    ∙ load-store args token s
