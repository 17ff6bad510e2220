-- ===== src/Agent.antt =====
-- internal/core/agent.go: what the agent is wired to, what it keeps and what it is handed. Logging,
-- the typing indicator and the request timeout are left out.
pub mod Texts
pub mod Store
pub mod Clarify
pub mod Files
pub mod Inbox
pub mod Prepare
pub mod Buttons
pub mod Handle
pub mod Triples
mod Examples
use open_light.Base.{ℕ, Bool, Option, List}
use open_light.Base.Int.{ℤ}
use open_light.Base.Text.{Text}
use open_light.Base.Time.{Time}
use open_light.Base.Dict.{Dict}
use open_light.Errors.{Error, Result}
use open_light.Auth.{Authorizer}
use open_light.Registry.{Definition, Registry}
use open_light.Router.Route.{Router}
use open_light.Watch.World.{World, Button, SkillCall}
use open_light.Watch.Env.{Env}

-- telegram.AudioAttachment
pub record Audio : Type 0 where
  pub kind : Text
  pub file_id : Text
  pub file_name : Text
  pub mime_type : Text

-- telegram.ImageAttachment
pub record Image : Type 0 where
  pub kind : Text
  pub file_id : Text
  pub file_name : Text
  pub mime_type : Text
  pub caption : Text

-- telegram.DocumentAttachment
pub record Document : Type 0 where
  pub file_id : Text
  pub file_name : Text
  pub mime_type : Text
  pub file_size : ℤ
  pub caption : Text

pub record IncomingMessage : Type 0 where
  pub message_id : ℤ
  pub chat_id : ℤ
  pub user_id : ℤ
  pub text : Text
  pub source : Text
  pub audio : Option Audio
  pub image : Option Image
  pub document : Option Document
  pub is_callback : Bool

-- skills.Input
pub record Input : Type 0 where
  pub raw_text : Text
  pub args : List (Text × Text)
  pub user_id : ℤ
  pub chat_id : ℤ
  pub source : Text

pub data AttachmentKind : Type 0 where
  attachment_photo attachment_document : AttachmentKind

pub record Attachment : Type 0 where
  pub path : Text
  pub caption : Text
  pub kind : AttachmentKind

-- skills.Result
pub record SkillResult : Type 0 where
  pub text : Text
  pub buttons : List (List Button)
  pub attachments : List Attachment

pub data Role : Type 0 where
  role_user role_assistant : Role

-- models.Message
pub record Message : Type 0 where
  pub user_id : ℤ
  pub chat_id : ℤ
  pub role : Role
  pub text : Text

-- A turn that long-term memory was handed.
pub record Turn : Type 0 where
  pub chat_id : ℤ
  pub role : Role
  pub text : Text

-- models.Setting
pub record Setting : Type 0 where
  pub value : Text
  pub updated_at : Time

-- What the transport has delivered.
pub data Delivery : Type 0 where
  text_sent : ℤ → Text → List (List Button) → Delivery
  file_sent : ℤ → AttachmentKind → Text → Text → Delivery

pub record PendingClarification : Type 0 where
  pub source_text : Text
  pub question : Text

-- `MemoryFile`
pub record MemoryFile : Type 0 where
  pub path : Text
  pub kind : Text
  pub file_name : Text
  pub mime_type : Text
  pub title : Text
  pub source : Text
  pub external_id : Text
  pub chat_id : ℤ
  pub user_id : ℤ
  pub metadata : List (Text × Text)

-- voice.Result
pub record VoiceResult : Type 0 where
  pub transcript : Text
  pub routed_text : Text

-- The state: the tables of the database, the turns and files that memory was handed, the skills that
-- were run and with what, what was delivered, the engine of the watches, and what belongs to others
-- (the sessions of the buttons, the data of the skills).
pub record State (S : Type 0) : Type 0 where
  pub messages : List Message
  pub turns : List Turn
  pub skill_calls : List SkillCall
  pub settings : Dict Text Setting
  pub executed : List (Text × Input)
  pub sent : List Delivery
  -- whether each of the next calls of the database or the transport fails
  pub faults : List Bool
  pub watch : World
  pub outside : S

-- The interface `UI`. An error comes with the flag that the caller does not read then.
pub record Ui (S : Type 0) : Type 0 where
  pub handle_callback : IncomingMessage → S → Result (Unit {0}) × S
  pub handle_pending_input : IncomingMessage → S → Result Bool × S
  pub has_pending_input : ℤ → S → Bool × S
  pub start_skill_input : ℤ → ℤ → Definition → List (Text × Text) → S → (Bool × Option Error) × S
  pub cancel_pending : ℤ → S → S
  pub map_reply_keyboard : Text → Option Text
  pub open_screen : ℤ → ℤ → Text → S → Result (Unit {0}) × S
  pub send_home : ℤ → S → Result (Unit {0}) × S
  pub is_free_chat : ℤ → S → Bool
  pub set_free_chat : ℤ → Bool → S → S

-- `ImageInbox`; its registry is that of the agent.
pub record ImageInbox : Type 0 where
  pub vision_available : Bool
  pub ocr_available : Bool
  pub default_prompt : Text

-- voice.Processor; its archiver is that of the agent. A conversion yields the path of the new file.
pub record VoiceProcessor (S : Type 0) : Type 0 where
  pub enabled : Bool
  pub convert_to_wav : Option (Text → S → Result Text × S)
  pub transcribe : Option (Text → S → Result Text × S)

pub record Agent (S : Type 0) : Type 0 where
  pub authorizer : Authorizer
  pub router : Router
  pub registry : Registry
  pub watch_service : Option Env
  pub voice_processor : Option (VoiceProcessor S)
  pub image_inbox : Option ImageInbox
  -- IngestFile; the Boolean of its result is `Duplicate`
  pub memory : Option (MemoryFile → S → Result Bool × S)
  pub ui : Option (Ui S)
  pub reply_transcript : Bool
  -- what the transport implements beside SendText
  pub sends_buttons : Bool
  pub sends_photos : Bool
  -- DownloadFile; the path of the copy
  pub download_file : Option (Text → S → Result Text × S)
  -- skill.Execute
  pub execute : Definition → Input → S → Result SkillResult × S
  -- err.Error()
  pub error_text : Error → Text
  -- strconv.Quote, the verb %q
  pub quote : Text → Text
  -- json.Marshal and json.Unmarshal of a `PendingClarification`
  pub marshal : PendingClarification → Text
  pub unmarshal : Text → Option PendingClarification
  -- filepath.Base
  pub base_name : Text → Text
  -- utils.FormatBytes
  pub format_bytes : ℤ → Text
