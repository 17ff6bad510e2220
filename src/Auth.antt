-- ===== src/Auth.antt =====
-- internal/auth/auth.go: the allowlists of users and chats.
pub mod Exact
mod Examples
use open_light.Base.{Bool, true, false, Option, none, some, List, [], ◌∷◌, ◌&&◌, not, if◌then◌else◌}
use open_light.Base.Int.{ℤ, eqb_ℤ}

-- `_, ok := set[value]`
unfoldable pub member : ℤ → List ℤ → Bool
member v [] = false
member v (x ∷ xs) = elim (eqb_ℤ v x) [ true ↦ true | false ↦ member v xs ]

-- A set holds each value once.
unfoldable pub to_set_from : List ℤ → List ℤ → List ℤ
unfolding member
to_set_from [] result = result
to_set_from (v ∷ vs) result = to_set_from vs (if member v result then result else v ∷ result)

unfoldable pub to_set : List ℤ → List ℤ
unfolding to_set_from
to_set values = to_set_from values []

pub record Authorizer : Type 0 where
  pub allowed_users : List ℤ
  pub allowed_chats : List ℤ

unfoldable pub new : List ℤ → List ℤ → Authorizer
unfolding to_set
new allowed_users allowed_chats = record {
  allowed_users = to_set allowed_users;
  allowed_chats = to_set allowed_chats;
}

-- len(set) == 0
abbrev pub is_empty : List ℤ → Bool
is_empty [] = true
is_empty (x ∷ xs) = false

unfoldable pub allowed : Authorizer → ℤ → ℤ → Bool
unfolding member
allowed a user_id chat_id =
    if is_empty a.allowed_users && is_empty a.allowed_chats
    then false
    else if not (is_empty a.allowed_users) && not (member user_id a.allowed_users)
    then false
    else if not (is_empty a.allowed_chats) && not (member chat_id a.allowed_chats)
    then false
    else true

-- The error of a refused pair; its text names the user and the chat.
pub data AccessError : Type 0 where
  access_denied : ℤ → ℤ → AccessError

unfoldable pub error : Authorizer → ℤ → ℤ → Option AccessError
unfolding allowed
error a user_id chat_id =
    if allowed a user_id chat_id then none else some (access_denied user_id chat_id)
