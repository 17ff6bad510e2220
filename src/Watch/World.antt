-- ===== src/Watch/World.antt =====
-- What the watch engine reads and writes: the two tables of the database, what it has sent and
-- saved, and the faults that its next calls meet. A method is a function on it that may fail; what it
-- wrote before it failed stays written.
pub mod Triples
use open_light.Base.{ℕ, Bool, true, false, Option, none, some, List, [], ◌∷◌, if◌then◌else◌}
use open_light.Base.Int.{ℤ}
use open_light.Base.Text.{Text}
use open_light.Errors.{Error, Result, ok, err, storage_failure, not_found}
use open_light.Models.{Watch, WatchIncident}

-- telegram.Button
pub record Button : Type 0 where
  pub label : Text
  pub callback_data : Text

-- What the notifier has delivered.
pub record Sent : Type 0 where
  pub chat_id : ℤ
  pub text : Text
  pub buttons : List (List Button)

-- models.Message with the role "assistant"
pub record Message : Type 0 where
  pub user_id : ℤ
  pub chat_id : ℤ
  pub text : Text

-- models.SkillCall; `error_text` is empty for a call that succeeded
pub record SkillCall : Type 0 where
  pub skill_name : Text
  pub input_text : Text
  pub args : List (Text × Text)
  pub succeeded : Bool
  pub error_text : Text

pub record World : Type 0 where
  pub watches : List Watch
  pub incidents : List WatchIncident
  pub last_watch_id : ℕ
  pub last_incident_id : ℕ
  pub sent : List Sent
  pub messages : List Message
  pub skill_calls : List SkillCall
  -- whether each of the next calls of the database or the notifier fails; behind the end none does
  pub faults : List Bool

abbrev pub M : Type 0 → Type 0
M A = World → Result A × World

abbrev pub continue : {A B : Type 0} → Result A → (A → M B) → World → Result B × World
continue (ok a) f w = f a w
continue (err e) f w = (err e, w)

infixl 5 ◌>>=◌ ◌>>◌
abbrev pub ◌>>=◌ : {A B : Type 0} → M A → (A → M B) → M B
◌>>=◌ m f w = let (r, w') = m w in continue r f w'

abbrev pub ◌>>◌ : {B : Type 0} → M (Unit {0}) → M B → M B
m >> k = m >>= λ _. k

abbrev pub pure : {A : Type 0} → A → M A
pure a w = (ok a, w)

abbrev pub raise : {A : Type 0} → Error → M A
raise e w = (err e, w)

abbrev pub lift : {A : Type 0} → Result A → M A
lift r w = (r, w)

-- Whether the next call fails, and the faults behind it.
unfoldable pub next_fault : List Bool → Bool × List Bool
next_fault [] = (false, [])
next_fault (b ∷ bs) = (b, bs)

unfoldable pub draw : World → Bool × World
unfolding next_fault
draw w = let (bad, rest) = next_fault w.faults in (bad, record w { faults = rest })

-- A query.
unfoldable pub read : {A : Type 0} → (World → A) → M A
unfolding draw
read f w = let (bad, w') = draw w in if bad then (err storage_failure, w') else (ok (f w'), w')

abbrev pub written : Option World → World → Result (Unit {0}) × World
written none w = (err not_found, w)
written (some w') w = (ok tt, w')

-- A statement; `none` is one that affects no row.
unfoldable pub write : (World → Option World) → M (Unit {0})
unfolding draw
write f w = let (bad, w') = draw w in if bad then (err storage_failure, w') else written (f w') w'

-- An insertion: what it returns and the new tables.
unfoldable pub store : {A : Type 0} → (World → A × World) → M A
unfolding draw
store f w =
    let (bad, w') = draw w in
    let (a, w'') = f w' in if bad then (err storage_failure, w') else (ok a, w'')
