-- ===== src/Menu/Run/Questions.antt =====
-- internal/telegram/ui/ui.go: which input a skill asks for first.
use open_light.Base.{suc, true, Option, none, some, List, [], ◌∷◌, ◌≡◌, if◌then◌else◌}
use open_light.Base.Text.{Text}
use open_light.Sessions.{Args}
use open_light.Menu.{InputField}
use open_light.Menu.Run.{nth, missing_inputs, filled_steps}

-- The first question is for the first field that the arguments lack, so its index never passes the end
-- of the fields while one is missing.
nth-filled_steps :
    (inputs : List InputField) (args : Args) (field : InputField) (rest : List InputField)
    → missing_inputs inputs args ≡ field ∷ rest
    → nth inputs (filled_steps (λ value. true) inputs args) ≡ some field
unfolding missing_inputs filled_steps
nth-filled_steps [] args field rest h = cc
nth-filled_steps (input ∷ inputs) args field rest h =
    go (args input.name) (nth-filled_steps inputs args field rest) h
  where
    go :
        (o : Option Text)
        → (missing_inputs inputs args ≡ field ∷ rest
            → nth inputs (filled_steps (λ value. true) inputs args) ≡ some field)
        → (elim o [
          | some value ↦ missing_inputs inputs args
          | none ↦ input ∷ missing_inputs inputs args
        ])
          ≡ field ∷ rest
        → nth (input ∷ inputs) (elim o [
          | none ↦ 0
          | some value ↦ if true then suc (filled_steps (λ v. true) inputs args) else 0
        ])
          ≡ some field
    go none ih e = cc
    go (some value) ih e = ih e
