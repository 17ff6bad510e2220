-- ===== src/Errors.antt =====
-- internal/skills/errors.go and the failures of the packages that the program calls. An error is its
-- sentinel: the detail that `%w: …` adds to it is left out. A failure of a probe or a skill carries
-- its text.
use open_light.Base.{◌≡◌, refl}
use open_light.Base.Text.{Text}

pub data Error : Type 0 where
  invalid_arguments not_found skill_not_found access_denied unavailable : Error
  storage_failure send_failure : Error
  -- context.DeadlineExceeded
  deadline_exceeded : Error
  failure : Text → Error
  -- `userFacingError`: an error and what the user is told of it
  user_error : Error → Text → Error

-- What a Go function returns beside its error.
pub data Result (R : Type 0) : Type 0 where
  err : Error → Result R
  ok : R → Result R

infixl 5 ◌>>=◌
-- `if err != nil { return …, err }`
abbrev pub ◌>>=◌ : {R S : Type 0} → Result R → (R → Result S) → Result S
err failed >>= next = err failed
ok r >>= next = next r

-- Inversion of a successful bind.
pub >>=-eq-ok :
    {R S : Type 0} (m : Result R) (next : R → Result S) {s : S}
    → (m >>= next) ≡ ok s
    → (r : R) × (m ≡ ok r) × (next r ≡ ok s)
>>=-eq-ok (err failed) next h = cc
>>=-eq-ok (ok r) next h = (r, refl, h)
