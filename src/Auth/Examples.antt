-- ===== src/Auth/Examples.antt =====
-- The authorizer at concrete lists.
use open_light.Base.{[], ◌∷◌, true, false, ◌≡◌, ◌↔◌, refl}
use open_light.Base.Int.{pos, negsuc}
use open_light.Auth.{new, allowed}
use open_light.Auth.Exact.{IsListed, allowed-new_iff}

unknown_chat : allowed (new (pos 100 ∷ []) (negsuc 199 ∷ [])) (pos 100) (pos 201) ≡ false
unfolding allowed new
unknown_chat = refl

no_lists : allowed (new [] []) (pos 1) (pos 1) ≡ false
unfolding allowed new
no_lists = refl

allowed-new_iff_example :
    (allowed (new (pos 100 ∷ []) []) (pos 100) (pos 999) ≡ true)
    ↔ IsListed (pos 100 ∷ []) [] (pos 100) (pos 999)
allowed-new_iff_example = allowed-new_iff (pos 100 ∷ []) [] (pos 100) (pos 999)
