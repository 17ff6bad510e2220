-- ===== src/Agent/Prepare.antt =====
-- internal/core/agent.go, internal/core/document_inbox.go: what HandleMessage does with the files of a
-- message before it reads the text.
pub mod Keeps
pub mod Plain
use open_light.Base.{
  Bool, true, false, not, ◌&&◌, ◌||◌, Option, none, some, List, [], ◌∷◌, ◌++◌, if◌then◌else◌,
}
use open_light.Base.Int.{ℤ, pos, ltb_ℤ}
use open_light.Base.Text.{Text, codes, trim_space, has_prefix, is_empty_text}
use open_light.Base.Time.{Time}
use open_light.Errors.{Error, Result, ok, err}
use open_light.Redact.{redact_sensitive_text, redact_sensitive_args}
use open_light.Auth.{AccessError, error}
use open_light.Registry.{Definition, get}
use open_light.Router.{Decision, matched, should_clarify}
use open_light.Router.Args.{one_arg}
use open_light.Router.Route.{is_command}
use open_light.Watch.World.{World, SkillCall}
use open_light.Watch.Env.{Env}
use open_light.Watch.Handle.{handle_action}
use open_light.Agent.{
  Agent, State, Ui, IncomingMessage, Audio, Image, Document, Input, Message, role_user, ImageInbox,
  SkillResult, VoiceResult, VoiceProcessor, MemoryFile,
}
use open_light.Agent.Texts.{
  with_reply_prefix, normalize_incoming_source, command_token, is_menu_command,
  is_bare_slash_command, user_message_for_error,
}
use open_light.Agent.Store.{
  M, ◌>>=◌, ◌>>◌, pure, save_message, save_skill_call, record_turn, reply, reply_result, is_some,
}
use open_light.Agent.Clarify.{
  Routed, save_pending_clarification, route_with_clarification, apply_chat_fallback,
}
use open_light.Agent.Files.{enabled, document_file, trimmed_or}
use open_light.Agent.Inbox.{on_outside, run_skill, process_voice, process_image}

-- What a stage returns: the result of the handler, or the prefix of the replies and the message for
-- the next stage.
pub data Prepared : Type 0 where
  finished : Result (Unit {0}) → Prepared
  prepared : Text → IncomingMessage → Prepared

abbrev pub handled : {S : Type 0} → M S (Result (Unit {0})) → M S (Option (Result (Unit {0})))
handled m = m >>= λ result. pure (some result)

abbrev pub max_inbound_document_bytes : ℤ
max_inbound_document_bytes = pos 33554432

module _ {S : Type 0} (agent : Agent S) where
  abbrev answer : IncomingMessage → Text → M S (Result (Unit {0}))
  answer message text = reply agent message.chat_id message.user_id text

  -- `true` is a duplicate.
  archived : IncomingMessage → Text → Result Bool → M S (Result (Unit {0}))
  archived message title (err e) = answer message (codes "could not save the file to memory")
  archived message title (ok true) =
      answer message (title ++ codes " is already in memory — nothing to re-index.")
  archived message title (ok false) = answer message (
      codes "Saved " ++ title ++ codes ". Indexing in the background; ask me about it in a moment.")

  downloaded_document :
      IncomingMessage
      → Document
      → (MemoryFile → S → Result Bool × S)
      → Result Text
      → M S (Result (Unit {0}))
  unfolding archived
  downloaded_document message document ingest_file (err e) =
      answer message (codes "failed to download the file")
  downloaded_document message document ingest_file (ok path) = do
    receipt ← on_outside (ingest_file (document_file agent.base_name message document path))
    archived message (trimmed_or document.file_name (agent.base_name path)) receipt

  document_downloader :
      IncomingMessage
      → Document
      → (MemoryFile → S → Result Bool × S)
      → Option (Text → S → Result Text × S)
      → M S (Result (Unit {0}))
  unfolding downloaded_document
  document_downloader message document ingest_file none =
      answer message (codes "file download is unavailable")
  document_downloader message document ingest_file (some download_file) = do
    path ← on_outside (download_file document.file_id)
    downloaded_document message document ingest_file path

  remembered_document :
      IncomingMessage
      → Document
      → Option (MemoryFile → S → Result Bool × S)
      → M S (Result (Unit {0}))
  unfolding document_downloader
  remembered_document message document none = pure (ok tt)
  remembered_document message document (some ingest_file) =
      if is_some (error agent.authorizer message.user_id message.chat_id)
      then answer message (codes "access denied")
      else if ltb_ℤ max_inbound_document_bytes document.file_size
      then answer message (
          codes "file is too large ("
          ++ agent.format_bytes document.file_size
          ++ codes "); the limit is "
          ++ agent.format_bytes max_inbound_document_bytes)
      else document_downloader message document ingest_file agent.download_file

  unfoldable pub handle_inbound_document : IncomingMessage → Document → M S (Result (Unit {0}))
  unfolding remembered_document
  handle_inbound_document message document = remembered_document message document agent.memory

  image_result : IncomingMessage → Result SkillResult → M S (Result (Unit {0}))
  image_result message (err e) = answer message (user_message_for_error agent.error_text e)
  image_result message (ok result) = reply_result agent message.chat_id message.user_id result

  -- The inbox; the sender is checked in front of it.
  image_inbox : IncomingMessage → Image → Option ImageInbox → M S (Result (Unit {0}))
  unfolding image_result
  image_inbox message image none =
      answer message (codes "image input is disabled (enable vision or ocr)")
  image_inbox message image (some inbox) =
      if not (enabled inbox)
      then answer message (codes "image input is disabled (enable vision or ocr)")
      else if is_some (error agent.authorizer message.user_id message.chat_id)
      then answer message (codes "access denied")
      else do result ← process_image agent inbox message image; image_result message result

  abbrev finish : M S (Result (Unit {0})) → M S Prepared
  finish m = m >>= λ result. pure (finished result)

  -- The path of a downloaded image becomes the text of the message.
  image_path : Text → IncomingMessage → Image → Result Text → M S Prepared
  unfolding image_inbox
  image_path prefix message image (ok path) =
      pure (prepared prefix (record message { text = path; image = none }))
  image_path prefix message image (err e) = finish (image_inbox message image agent.image_inbox)

  waited_image :
      Text → IncomingMessage → Image → Bool → Option (Text → S → Result Text × S) → M S Prepared
  unfolding image_path
  waited_image prefix message image true (some download_file) = do
    path ← on_outside (download_file image.file_id)
    image_path prefix message image path
  waited_image prefix message image true none = finish (image_inbox message image agent.image_inbox)
  waited_image prefix message image false downloader =
      finish (image_inbox message image agent.image_inbox)

  -- HasPendingInput, which drops a flow that is over; without buttons nothing is pending.
  unfoldable pub has_pending_input : Option (Ui S) → ℤ → M S Bool
  has_pending_input none chat = pure false
  has_pending_input (some ui) chat = on_outside (ui.has_pending_input chat)

  preprocess_image : Text → IncomingMessage → Option Image → M S Prepared
  unfolding waited_image has_pending_input
  preprocess_image prefix message none = pure (prepared prefix message)
  preprocess_image prefix message (some image) = do
    waiting ← has_pending_input agent.ui message.chat_id
    waited_image prefix message image waiting agent.download_file

  preprocess_files : Text → IncomingMessage → Option Document → M S Prepared
  unfolding preprocess_image handle_inbound_document
  preprocess_files prefix message (some document) =
      finish (handle_inbound_document message document)
  preprocess_files prefix message none = preprocess_image prefix message message.image

  heard : IncomingMessage → Result VoiceResult → M S Prepared
  unfolding preprocess_files
  heard message (err e) = finish (answer message (user_message_for_error agent.error_text e))
  heard message (ok result) =
      preprocess_files
        (if agent.reply_transcript then codes "Transcript: " ++ result.transcript else [])
        (record message { text = result.routed_text }) message.document

  preprocess_voice : IncomingMessage → Option (VoiceProcessor S) → M S Prepared
  unfolding heard
  preprocess_voice message none = finish (answer message (codes "voice is disabled"))
  preprocess_voice message (some processor) = do
    result ← process_voice agent message processor
    heard message result

  unfoldable pub preprocess_attachments : IncomingMessage → M S Prepared
  unfolding preprocess_voice preprocess_files
  preprocess_attachments message =
      if is_empty_text (trim_space message.text) && is_some message.audio
      then preprocess_voice message agent.voice_processor
      else preprocess_files [] message message.document
