-- ===== src/Sessions/Claims.antt =====
-- Pending mutations: one-shot tokens that belong to one user.
use open_light.Base.{◌≡◌, ◌≢◌, refl, not, false, Option, none, some, arith, if◌then◌else◌, ◌||◌}
use open_light.Base.Int.{ℤ, ltb_ℤ, eqb_ℤ, eqb_ℤ_iff}
use open_light.Base.Text.{Text, eqt_iff}
use open_light.Base.Time.{Time, time_sub}
use open_light.Sessions.{
  Store, PendingMutation, claim_found, expired, store_mutation, claim_mutation, cancel_mutation,
}

-- A stored mutation is claimed by its own user, with the time at which it was stored, as long as the
-- time to live has not passed; nobody else gets it, and nobody gets it later.
pub claim_mutation-store_mutation :
    (p : PendingMutation) (token : Text) (user : ℤ) (now later : Time) (s : Store)
    → (claim_mutation token user later (store_mutation p token now s).0).1 ≡ (
        if not (eqb_ℤ p.user_id user) || ltb_ℤ s.ttl (time_sub later now)
        then none
        else some (record p { stored_at = now }))
unfolding store_mutation claim_mutation expired
claim_mutation-store_mutation p token user now later s = ground (arith, eqt_iff token token)

-- A token is good for one claim: after a claim that succeeded, no claim by any user at any time
-- succeeds, and no cancellation does.
pub claim_once :
    (token : Text) (user other : ℤ) (now later : Time) (s : Store) (p : PendingMutation)
    → (claim_mutation token user now s).1 ≡ some p
    → ((claim_mutation token other later (claim_mutation token user now s).0).1 ≡ none)
      × ((cancel_mutation token other (claim_mutation token user now s).0).1 ≡ false)
unfolding claim_mutation cancel_mutation expired
claim_once token user other now later s p h = ground (arith, eqt_iff token token)

-- A claim or a cancellation by a user whom the mutation does not belong to fails and leaves the
-- store as it was.
wrong_user_keeps_store :
    (token : Text) (user : ℤ) (now : Time) (s : Store) (p : PendingMutation)
    → s.muts token ≡ some p
    → p.user_id ≢ user
    → (claim_mutation token user now s ≡ (s, none)) × (cancel_mutation token user s ≡ (s, false))
unfolding claim_mutation cancel_mutation
wrong_user_keeps_store token user now s p h ne = ground (arith, eqb_ℤ_iff p.user_id user)

claim_found_sound :
    (token : Text) (user : ℤ) (now : Time) (s : Store) (o : Option PendingMutation)
    → s.muts token ≡ o
    → {p : PendingMutation} → (claim_found token user now s o).1 ≡ some p
    → (o ≡ some p)
      × (p.user_id ≡ user)
      × (ltb_ℤ s.ttl (time_sub now p.stored_at) ≡ false)
      × ((claim_found token user now s o).0.muts token ≡ none)
unfolding claim_found expired
claim_found_sound token user now s none e h = cc
claim_found_sound token user now s (some q) e h =
    ground (arith, eqb_ℤ_iff q.user_id user, eqt_iff token token)

-- A claim that succeeds returns what is stored under the token, to the user whom it belongs to,
-- within the time to live, and drops the token.
pub claim_sound :
    (token : Text) (user : ℤ) (now : Time) (s : Store) {p : PendingMutation}
    → (claim_mutation token user now s).1 ≡ some p
    → (s.muts token ≡ some p)
      × (p.user_id ≡ user)
      × (ltb_ℤ s.ttl (time_sub now p.stored_at) ≡ false)
      × ((claim_mutation token user now s).0.muts token ≡ none)
unfolding claim_mutation expired
claim_sound token user now s {p} h = claim_found_sound token user now s (s.muts token) refl h
