-- ===== src/Agent/Prepare/Keeps.antt =====
-- internal/core/agent.go, internal/core/document_inbox.go: what handling the files of a message keeps.
use open_light.Base.{Bool, true, false, Option, none, some, [], if◌then◌else◌, not, ◌&&◌, ◌≡◌, refl}
use open_light.Base.Int.{ℤ, ltb_ℤ}
use open_light.Base.Text.{Text, codes, trim_space, is_empty_text}
use open_light.Errors.{Result, ok, err}
use open_light.Auth.{error}
use open_light.Agent.{
  Agent, State, Ui, IncomingMessage, Image, Document, ImageInbox, MemoryFile, VoiceProcessor,
  VoiceResult, SkillResult,
}
use open_light.Agent.Texts.{user_message_for_error}
use open_light.Agent.Store.{M, ◌>>=◌, is_some}
use open_light.Agent.Inbox.{process_image}
use open_light.Agent.Files.{enabled, document_file, trimmed_or}
use open_light.Agent.Inbox.Keeps.{process_voice-Triple, process_image-Triple}
use open_light.Agent.Prepare.{
  Prepared, finished, prepared, answer, archived, downloaded_document, document_downloader,
  remembered_document, handle_inbound_document, image_result, image_inbox, finish, image_path,
  waited_image, has_pending_input, preprocess_image, preprocess_files, heard, preprocess_voice,
  preprocess_attachments, max_inbound_document_bytes,
}
use open_light.Agent.Triples.{
  Triple, Closed, bind-Triple, if-Triple, pure-Triple, on_outside-Triple, reply-Triple,
  reply_result-Triple, From, error-From, Runs, no_run, Yields, with_result, bind-Yields, if-Yields,
  pure-Yields,
}

-- What holds when the files are handled: a finished message may have run a skill, a prepared one has
-- not, and comes from the same user and chat.
abbrev pub Ready :
    {S : Type 0} (user chat : ℤ) (P Q : State S → Type 0) → Prepared → State S → Type 0
Ready user chat P Q (finished result) st = Q st
Ready user chat P Q (prepared prefix message) st = P st × From user chat message

module _ {S : Type 0} {P : State S → Type 0} (c : Closed P) (agent : Agent S) where
  answer-Triple : (message : IncomingMessage) (text : Text) → Triple P P (answer agent message text)
  answer-Triple message text = reply-Triple c.talks agent message.chat_id message.user_id text

  archived-Triple :
      (message : IncomingMessage) (title : Text) (receipt : Result Bool)
      → Triple P P (archived agent message title receipt)
  unfolding archived
  archived-Triple message title (err e) = answer-Triple message _
  archived-Triple message title (ok true) = answer-Triple message _
  archived-Triple message title (ok false) = answer-Triple message _

  downloaded_document-Triple :
      (message : IncomingMessage) (document : Document)
      (ingest_file : MemoryFile → S → Result Bool × S) (path : Result Text)
      → Triple P P (downloaded_document agent message document ingest_file path)
  unfolding downloaded_document
  downloaded_document-Triple message document ingest_file (err e) = answer-Triple message _
  downloaded_document-Triple message document ingest_file (ok path) =
      bind-Triple
        (on_outside-Triple c (ingest_file (document_file agent.base_name message document path)))
        (archived-Triple message (trimmed_or document.file_name (agent.base_name path)))

  document_downloader-Triple :
      (message : IncomingMessage) (document : Document)
      (ingest_file : MemoryFile → S → Result Bool × S) (d : Option (Text → S → Result Text × S))
      → Triple P P (document_downloader agent message document ingest_file d)
  unfolding document_downloader
  document_downloader-Triple message document ingest_file none = answer-Triple message _
  document_downloader-Triple message document ingest_file (some d) =
      bind-Triple (on_outside-Triple c (d document.file_id))
        (downloaded_document-Triple message document ingest_file)

  handle_inbound_document-Triple :
      (message : IncomingMessage) (document : Document)
      → Triple P P (handle_inbound_document agent message document)
  unfolding handle_inbound_document remembered_document
  handle_inbound_document-Triple message document = go agent.memory
    where
      go :
          (memory : Option (MemoryFile → S → Result Bool × S))
          → Triple P P (remembered_document agent message document memory)
      go none = pure-Triple (ok tt) (λ st p. p)
      go (some ingest_file) =
          if-Triple (is_some (error agent.authorizer message.user_id message.chat_id))
            (answer-Triple message _)
            (if-Triple (ltb_ℤ max_inbound_document_bytes document.file_size)
              (answer-Triple message _)
              (document_downloader-Triple message document ingest_file agent.download_file))

module _ {S : Type 0} {agent : Agent S} {user chat : ℤ} {P Q : State S → Type 0}
    (r : Runs agent user chat P Q) where
  finish-Yields :
      {m : M S (Result (Unit {0}))} → Triple P Q m → Yields P (Ready user chat P Q) (finish agent m)
  finish-Yields h =
      bind-Yields (with_result h (λ a st q. q))
        (λ result. pure-Yields (finished result) (λ st q. q))

  image_result-Triple :
      {P : State S → Type 0} (c : Closed P) (message : IncomingMessage)
      (result : Result SkillResult)
      → Triple P P (image_result agent message result)
  unfolding image_result
  image_result-Triple c message (err e) =
      answer-Triple c agent message (user_message_for_error agent.error_text e)
  image_result-Triple c message (ok result) =
      reply_result-Triple c.talks agent message.chat_id message.user_id result

  image_inbox-Triple :
      (message : IncomingMessage) (f : From user chat message) (image : Image)
      (inbox : Option ImageInbox)
      → Triple P Q (image_inbox agent message image inbox)
  unfolding image_inbox
  image_inbox-Triple message f image none = no_run r (answer-Triple r.before agent message _)
  image_inbox-Triple message f image (some inbox) =
      if-Triple (not (enabled inbox)) (no_run r (answer-Triple r.before agent message _))
        (checked (is_some (error agent.authorizer message.user_id message.chat_id)) refl)
    where
      checked :
          (b : Bool)
          → is_some (error agent.authorizer message.user_id message.chat_id) ≡ b
          → Triple P Q (
              if b
              then answer agent message (codes "access denied")
              else (process_image agent inbox message image >>= image_result agent message))
      checked true e = no_run r (answer-Triple r.before agent message _)
      checked false e =
          bind-Triple
            (process_image-Triple r (error-From agent.authorizer f e) message f inbox image)
            (image_result-Triple r.after message)

  image_path-Yields :
      (prefix : Text) (message : IncomingMessage) (f : From user chat message) (image : Image)
      (path : Result Text)
      → Yields P (Ready user chat P Q) (image_path agent prefix message image path)
  unfolding image_path
  image_path-Yields prefix message f image (ok path) =
      pure-Yields (prepared prefix (record message { text = path; image = none }))
        (λ st p. (p, record { user_is = f.user_is; chat_is = f.chat_is }))
  image_path-Yields prefix message f image (err e) =
      finish-Yields (image_inbox-Triple message f image agent.image_inbox)

  waited_image-Yields :
      (prefix : Text) (message : IncomingMessage) (f : From user chat message) (image : Image)
      (waiting : Bool) (d : Option (Text → S → Result Text × S))
      → Yields P (Ready user chat P Q) (waited_image agent prefix message image waiting d)
  unfolding waited_image
  waited_image-Yields prefix message f image true (some d) =
      bind-Yields
        (with_result {R = λ a. P} (on_outside-Triple r.before (d image.file_id)) (λ a st p. p))
        (image_path-Yields prefix message f image)
  waited_image-Yields prefix message f image true none =
      finish-Yields (image_inbox-Triple message f image agent.image_inbox)
  waited_image-Yields prefix message f image false d =
      finish-Yields (image_inbox-Triple message f image agent.image_inbox)

  has_pending_input-Triple :
      (ui : Option (Ui S)) (chat : ℤ) → Triple P P (has_pending_input agent ui chat)
  unfolding has_pending_input
  has_pending_input-Triple none chat = pure-Triple false (λ st p. p)
  has_pending_input-Triple (some ui) chat = on_outside-Triple r.before (ui.has_pending_input chat)

  preprocess_image-Yields :
      (prefix : Text) (message : IncomingMessage) (f : From user chat message)
      (image : Option Image)
      → Yields P (Ready user chat P Q) (preprocess_image agent prefix message image)
  unfolding preprocess_image
  preprocess_image-Yields prefix message f none =
      pure-Yields (prepared prefix message) (λ st p. (p, f))
  preprocess_image-Yields prefix message f (some image) =
      bind-Yields
        (with_result {R = λ a. P} (has_pending_input-Triple agent.ui message.chat_id) (λ a st p. p))
        (λ waiting. waited_image-Yields prefix message f image waiting agent.download_file)

  preprocess_files-Yields :
      (prefix : Text) (message : IncomingMessage) (f : From user chat message)
      (document : Option Document)
      → Yields P (Ready user chat P Q) (preprocess_files agent prefix message document)
  unfolding preprocess_files
  preprocess_files-Yields prefix message f (some document) =
      finish-Yields (no_run r (handle_inbound_document-Triple r.before agent message document))
  preprocess_files-Yields prefix message f none =
      preprocess_image-Yields prefix message f message.image

  heard-Yields :
      (message : IncomingMessage) (f : From user chat message) (result : Result VoiceResult)
      → Yields P (Ready user chat P Q) (heard agent message result)
  unfolding heard
  heard-Yields message f (err e) = finish-Yields (no_run r (answer-Triple r.before agent message _))
  heard-Yields message f (ok result) =
      preprocess_files-Yields _ (record message { text = result.routed_text })
        (record { user_is = f.user_is; chat_is = f.chat_is }) message.document

  preprocess_voice-Yields :
      (message : IncomingMessage) (f : From user chat message)
      (processor : Option (VoiceProcessor S))
      → Yields P (Ready user chat P Q) (preprocess_voice agent message processor)
  unfolding preprocess_voice
  preprocess_voice-Yields message f none =
      finish-Yields (no_run r (answer-Triple r.before agent message _))
  preprocess_voice-Yields message f (some processor) =
      bind-Yields
        (with_result {R = λ a. P} (process_voice-Triple r.before agent message processor)
          (λ a st p. p))
        (heard-Yields message f)

  pub preprocess_attachments-Yields :
      (message : IncomingMessage) (f : From user chat message)
      → Yields P (Ready user chat P Q) (preprocess_attachments agent message)
  unfolding preprocess_attachments
  preprocess_attachments-Yields message f =
      if-Yields (is_empty_text (trim_space message.text) && is_some message.audio)
        (preprocess_voice-Yields message f agent.voice_processor)
        (preprocess_files-Yields [] message f message.document)
