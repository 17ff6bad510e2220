-- ===== src/Menu.antt =====
-- internal/telegram/ui/ui.go: the button interface of a chat, what it is wired to and what it keeps.
-- The arguments of a skill are a map; a flow that the store returns is a pointer, so a change of it is
-- a change of the store.
pub mod Render
pub mod Keyboards
pub mod Run
pub mod Dispatch
pub mod AsUi
mod Examples
use open_light.Base.{Bool, Option, List}
use open_light.Base.Int.{ℤ}
use open_light.Base.Text.{Text}
use open_light.Base.Dict.{Dict}
use open_light.Errors.{Error, Result}
use open_light.Registry.{Definition, Registry}
use open_light.Sessions.{Args, Store}
use open_light.Watch.World.{Button}

-- skills.InputField; `validate` returns the text of the error
pub record InputField : Type 0 where
  pub name : Text
  pub prompt : Text
  pub placeholder : Text
  pub validate : Option (Text → Option Text)

pub record FollowUp : Type 0 where
  pub label : Text
  pub action : Text
  pub target : Text

pub record UiDescriptor : Type 0 where
  pub inputs : List InputField
  pub follow_ups : List FollowUp
  pub confirm : Text

pub record QuickAction : Type 0 where
  pub id : Text
  pub label : Text
  pub skill_name : Text
  pub args : Args
  pub confirm : Bool
  pub prompt : Text

-- callback.Message
pub record CallbackMessage : Type 0 where
  pub chat_id : ℤ
  pub user_id : ℤ
  pub message_id : ℤ
  pub raw : Text

-- The text and the buttons of a result.
pub record SkillReply : Type 0 where
  pub text : Text
  pub buttons : List (List Button)

-- A run of a skill.
pub record Call : Type 0 where
  pub skill : Definition
  pub args : Args
  pub user_id : ℤ
  pub chat_id : ℤ

-- What the transport has delivered.
pub data Shown : Type 0 where
  sent : ℤ → Text → List (List Button) → Shown
  edited : ℤ → ℤ → Text → List (List Button) → Shown
  reply_keyboard : ℤ → Text → List (List Text) → Shown

pub record Desk (S : Type 0) : Type 0 where
  pub sessions : Store
  pub free_chat : Dict ℤ (Unit {0})
  pub ran : List Call
  pub shown : List Shown
  -- whether each of the next deliveries fails
  pub faults : List Bool
  -- what belongs to others
  pub outside : S

-- What the interface is wired to.
pub record Menu (S : Type 0) : Type 0 where
  pub registry : Registry
  pub quick_actions : Dict Text QuickAction
  pub quick_order : List Text
  -- DescribeUI
  pub describe : Definition → UiDescriptor
  -- skill.Execute
  pub execute : Call → S → Result SkillReply × S
  -- newToken
  pub new_token : S → Text × S
  -- userErrorMessage
  pub error_message : Error → Text
  -- strings.ToUpper(p[:1]) + p[1:], which works on bytes
  pub capitalize : Text → Text
  -- the verb %q
  pub quote : Text → Text
