-- ===== src/Auth/Exact.antt =====
-- Who an authorizer built from two allowlists lets in.
use open_light.Base.{
  true, false, not, ◌&&◌, ◌||◌, List, [], ◌∷◌, ◌≡◌, ◌≢◌, ◌↔◌, ◌⊎◌, inl, inr, refl, arith,
  if◌then◌else◌,
}
use open_light.Base.Int.{ℤ, eqb_ℤ_iff}
use open_light.Auth.{member, to_set_from, to_set, Authorizer, new, is_empty, allowed}

-- `v` stands in the list.
abbrev pub In : ℤ → List ℤ → Type 0
In v [] = ⊥
In v (x ∷ xs) = (v ≡ x) ⊎ In v xs

member→In : (v : ℤ) (xs : List ℤ) → member v xs ≡ true → In v xs
unfolding member
member→In v [] h = cc
member→In v (x ∷ xs) h = ground (arith, eqb_ℤ_iff v x, member→In v xs)

In→member : (v : ℤ) (xs : List ℤ) → In v xs → member v xs ≡ true
unfolding member
In→member v [] h = absurd h
In→member v (x ∷ xs) h = ground (arith, eqb_ℤ_iff v x, In→member v xs)

member-to_set_from :
    (v : ℤ) (xs result : List ℤ)
    → member v (to_set_from xs result) ≡ (member v xs || member v result)
unfolding member to_set_from
member-to_set_from v [] result = refl
member-to_set_from v (x ∷ xs) result = ground (
  arith,
  eqb_ℤ_iff v x,
  eqb_ℤ_iff x v,
  member-to_set_from v xs (if member x result then result else x ∷ result),
)

member-to_set : (v : ℤ) (xs : List ℤ) → member v (to_set xs) ≡ member v xs
unfolding member to_set
member-to_set v xs = ground (arith, member-to_set_from v xs [])

is_empty-to_set_from :
    (xs result : List ℤ) → is_empty result ≡ false → is_empty (to_set_from xs result) ≡ false
unfolding to_set_from
is_empty-to_set_from [] result h = h
is_empty-to_set_from (x ∷ xs) result h =
    is_empty-to_set_from xs (if member x result then result else x ∷ result) (ground arith)

is_empty-to_set : (xs : List ℤ) → is_empty (to_set xs) ≡ is_empty xs
unfolding to_set member
is_empty-to_set [] = refl
is_empty-to_set (x ∷ xs) = is_empty-to_set_from xs (x ∷ []) refl

-- What the two allowlists say of a user in a chat: one list at least is given, the user is in the
-- list of users unless that is empty, and the chat in the list of chats unless that is empty.
pub record IsListed (users chats : List ℤ) (user chat : ℤ) : Type 0 where
  pub configured : (users ≢ []) ⊎ (chats ≢ [])
  pub user_listed : (users ≡ []) ⊎ In user users
  pub chat_listed : (chats ≡ []) ⊎ In chat chats

is_empty-true : (xs : List ℤ) → is_empty xs ≡ true → xs ≡ []
is_empty-true [] h = refl
is_empty-true (x ∷ xs) h = cc

is_empty-false : (xs : List ℤ) → is_empty xs ≡ false → xs ≢ []
is_empty-false [] h = cc
is_empty-false (x ∷ xs) h = λ e. cc

-- The one test that `Allowed` makes of a list.
list_test :
    (v : ℤ) (xs : List ℤ)
    → (is_empty (to_set xs) || member v (to_set xs)) ≡ true
    → (xs ≡ []) ⊎ In v xs
list_test v xs h =
    ground (arith, is_empty-to_set xs, member-to_set v xs, is_empty-true xs, member→In v xs)

list_test_rev :
    (v : ℤ) (xs : List ℤ)
    → (xs ≡ []) ⊎ In v xs
    → (is_empty (to_set xs) || member v (to_set xs)) ≡ true
unfolding to_set member
list_test_rev v [] h = refl
list_test_rev v (x ∷ xs) h =
    ground (arith, is_empty-to_set (x ∷ xs), member-to_set v (x ∷ xs), In→member v (x ∷ xs))

-- `Allowed` written as one formula.
allowed_formula :
    (a : Authorizer) (user chat : ℤ)
    → allowed a user chat ≡ (
        not (is_empty a.allowed_users && is_empty a.allowed_chats)
        && (is_empty a.allowed_users || member user a.allowed_users)
        && (is_empty a.allowed_chats || member chat a.allowed_chats))
unfolding allowed
allowed_formula a user chat = ground arith

one_given :
    (users chats : List ℤ)
    → not (is_empty (to_set users) && is_empty (to_set chats)) ≡ true
    → (users ≢ []) ⊎ (chats ≢ [])
one_given [] [] h = unfold to_set to_set_from in cc
one_given [] (c ∷ cs) h = inr (λ e. cc)
one_given (u ∷ us) chats h = inl (λ e. cc)

one_given_rev :
    (users chats : List ℤ)
    → (users ≢ []) ⊎ (chats ≢ [])
    → not (is_empty (to_set users) && is_empty (to_set chats)) ≡ true
one_given_rev [] [] (inl h) = absurd (h refl)
one_given_rev [] [] (inr h) = absurd (h refl)
one_given_rev [] (c ∷ cs) h = ground (arith, is_empty-to_set (c ∷ cs))
one_given_rev (u ∷ us) chats h = ground (arith, is_empty-to_set (u ∷ us))

-- An authorizer made by `New` allows exactly the listed pairs: for all lists, a pair is allowed if
-- and only if `IsListed` holds of it, so with both lists empty nobody is let in.
pub allowed-new_iff :
    (users chats : List ℤ) (user chat : ℤ)
    → (allowed (new users chats) user chat ≡ true) ↔ IsListed users chats user chat
unfolding new
allowed-new_iff users chats user chat = (
  λ h. record {
    configured = one_given users chats (ground (arith, f));
    user_listed = list_test user users (ground (arith, f));
    chat_listed = list_test chat chats (ground (arith, f));
  },
  λ l. ground (
    arith,
    f,
    one_given_rev users chats l.configured,
    list_test_rev user users l.user_listed,
    list_test_rev chat chats l.chat_listed,
  ),
)
  where
    f : allowed (new users chats) user chat ≡ (
        not (is_empty (to_set users) && is_empty (to_set chats))
        && (is_empty (to_set users) || member user (to_set users))
        && (is_empty (to_set chats) || member chat (to_set chats)))
    f = allowed_formula (new users chats) user chat
