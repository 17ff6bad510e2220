-- ===== src/Agent/Inbox/Keeps.antt =====
-- internal/core/image_inbox.go, internal/voice/voice.go: what handling a file keeps.
use open_light.Base.{Bool, Option, none, some, not, false, ◌≡◌}
use open_light.Base.Int.{ℤ}
use open_light.Base.Text.{Text, trim_space, is_empty_text}
use open_light.Errors.{Result, ok, err}
use open_light.Auth.{error}
use open_light.Registry.{Definition}
use open_light.Agent.{
  Agent, State, IncomingMessage, Audio, Image, ImageInbox, MemoryFile, VoiceProcessor,
}
use open_light.Agent.Store.{is_some}
use open_light.Agent.Files.{enabled, voice_file, image_file}
use open_light.Agent.Inbox.{
  archive, archive_of_image, archive_image, archive_of_voice, archive_voice_note, transcribed,
  transcribed_file, converted, downloaded_voice, with_downloader, voice_file_id, process_voice,
  image_skill, image_args, derived, downloaded_image, image_downloader, process_image,
}
use open_light.Agent.Triples.{
  Triple, Closed, bind-Triple, if-Triple, pure-Triple, on_outside-Triple, From, Runs, no_run,
}

module _ {S : Type 0} {P : State S → Type 0} (c : Closed P) (agent : Agent S) where
  archive-Triple :
      (memory : Option (MemoryFile → S → Result Bool × S)) (file : MemoryFile)
      → Triple P P (archive agent memory file)
  archive-Triple none file = pure-Triple tt (λ st p. p)
  archive-Triple (some ingest_file) file =
      bind-Triple (on_outside-Triple c (ingest_file file)) (λ _. pure-Triple tt (λ st p. p))

  archive_of_image-Triple :
      (message : IncomingMessage) (path description ocr_text : Text) (image : Option Image)
      → Triple P P (archive_of_image agent message path description ocr_text image)
  unfolding archive_of_image
  archive_of_image-Triple message path description ocr_text none = pure-Triple tt (λ st p. p)
  archive_of_image-Triple message path description ocr_text (some image) =
      if-Triple (is_empty_text (trim_space path)) (pure-Triple tt (λ st p. p))
        (archive-Triple agent.memory (image_file message image path description ocr_text))

  archive_image-Triple :
      (message : IncomingMessage) (path description ocr_text : Text)
      → Triple P P (archive_image agent message path description ocr_text)
  unfolding archive_image
  archive_image-Triple message path description ocr_text =
      archive_of_image-Triple message path description ocr_text message.image

  archive_of_voice-Triple :
      (message : IncomingMessage) (path transcript : Text) (audio : Option Audio)
      → Triple P P (archive_of_voice agent message path transcript audio)
  unfolding archive_of_voice
  archive_of_voice-Triple message path transcript none = pure-Triple tt (λ st p. p)
  archive_of_voice-Triple message path transcript (some audio) =
      if-Triple (is_empty_text (trim_space path)) (pure-Triple tt (λ st p. p))
        (archive-Triple agent.memory (voice_file message audio path transcript))

  transcribed-Triple :
      (message : IncomingMessage) (path : Text) (transcript : Result Text)
      → Triple P P (transcribed agent message path transcript)
  unfolding transcribed archive_voice_note
  transcribed-Triple message path (err e) = pure-Triple (err e) (λ st p. p)
  transcribed-Triple message path (ok transcript) =
      if-Triple (is_empty_text (trim_space transcript)) (pure-Triple _ (λ st p. p)) (
        bind-Triple (archive_of_voice-Triple message path (trim_space transcript) message.audio)
          (λ _.
            pure-Triple
              (ok (record {
                transcript = trim_space transcript;
                routed_text = trim_space transcript;
              }))
              (λ st p. p)))

  converted-Triple :
      (convert : Option (Text → S → Result Text × S)) (path : Text)
      → Triple P P (converted agent convert path)
  converted-Triple none path = pure-Triple (ok path) (λ st p. p)
  converted-Triple (some convert_to_wav) path = on_outside-Triple c (convert_to_wav path)

  transcribed_file-Triple :
      (message : IncomingMessage) (path : Text) (transcribe : Text → S → Result Text × S)
      (audio_path : Result Text)
      → Triple P P (transcribed_file agent message path transcribe audio_path)
  unfolding transcribed_file
  transcribed_file-Triple message path transcribe (err e) = pure-Triple (err e) (λ st p. p)
  transcribed_file-Triple message path transcribe (ok audio_path) =
      bind-Triple (on_outside-Triple c (transcribe audio_path)) (transcribed-Triple message path)

  downloaded_voice-Triple :
      (message : IncomingMessage) (processor : VoiceProcessor S)
      (transcribe : Text → S → Result Text × S) (path : Result Text)
      → Triple P P (downloaded_voice agent message processor transcribe path)
  unfolding downloaded_voice
  downloaded_voice-Triple message processor transcribe (err e) = pure-Triple _ (λ st p. p)
  downloaded_voice-Triple message processor transcribe (ok path) =
      bind-Triple (converted-Triple processor.convert_to_wav path)
        (transcribed_file-Triple message path transcribe)

  with_downloader-Triple :
      (message : IncomingMessage) (processor : VoiceProcessor S) (file_id : Text)
      (downloader transcribe : Option (Text → S → Result Text × S))
      → Triple P P (with_downloader agent message processor file_id downloader transcribe)
  unfolding with_downloader
  with_downloader-Triple message processor file_id none transcribe = pure-Triple _ (λ st p. p)
  with_downloader-Triple message processor file_id (some d) none = pure-Triple _ (λ st p. p)
  with_downloader-Triple message processor file_id (some d) (some transcribe) =
      bind-Triple (on_outside-Triple c (d file_id))
        (downloaded_voice-Triple message processor transcribe)

  pub process_voice-Triple :
      (message : IncomingMessage) (processor : VoiceProcessor S)
      → Triple P P (process_voice agent message processor)
  unfolding process_voice
  process_voice-Triple message processor =
      if-Triple (not processor.enabled) (pure-Triple _ (λ st p. p)) (
        if-Triple (is_empty_text (trim_space (voice_file_id agent message.audio)))
          (pure-Triple _ (λ st p. p))
          (with_downloader-Triple message processor _ agent.download_file processor.transcribe))

module _ {S : Type 0} {agent : Agent S} {user chat : ℤ} {P Q : State S → Type 0}
    (r : Runs agent user chat P Q) (allowed : is_some (error agent.authorizer user chat) ≡ false)
    (message : IncomingMessage) (f : From user chat message) where
  image_skill-Triple :
      (skill_name prompt path : Text) (skill : Option Definition)
      → Triple P Q (image_skill agent message skill_name prompt path skill)
  unfolding image_skill
  image_skill-Triple skill_name prompt path none = no_run r (pure-Triple _ (λ st p. p))
  image_skill-Triple skill_name prompt path (some skill) =
      bind-Triple
        (r.runs skill
          (record {
            raw_text = message.text;
            args = image_args agent skill_name prompt path;
            user_id = message.user_id;
            chat_id = message.chat_id;
            source = message.source;
          })
          f.user_is f.chat_is allowed)
        λ result.
          bind-Triple
            (archive_image-Triple r.after agent message path (derived agent skill_name result).0
              (derived agent skill_name result).1)
            (λ _. pure-Triple result (λ st p. p))

  downloaded_image-Triple :
      (inbox : ImageInbox) (image : Image) (path : Result Text)
      → Triple P Q (downloaded_image agent inbox message image path)
  unfolding downloaded_image
  downloaded_image-Triple inbox image (err e) = no_run r (pure-Triple _ (λ st p. p))
  downloaded_image-Triple inbox image (ok path) = image_skill-Triple _ _ path _

  image_downloader-Triple :
      (inbox : ImageInbox) (image : Image) (d : Option (Text → S → Result Text × S))
      → Triple P Q (image_downloader agent inbox message image d)
  unfolding image_downloader
  image_downloader-Triple inbox image none = no_run r (pure-Triple _ (λ st p. p))
  image_downloader-Triple inbox image (some d) =
      bind-Triple (on_outside-Triple r.before (d image.file_id))
        (downloaded_image-Triple inbox image)

  pub process_image-Triple :
      (inbox : ImageInbox) (image : Image) → Triple P Q (process_image agent inbox message image)
  unfolding process_image
  process_image-Triple inbox image =
      if-Triple (not (enabled inbox)) (no_run r (pure-Triple _ (λ st p. p))) (
        if-Triple (is_empty_text (trim_space image.file_id)) (no_run r (pure-Triple _ (λ st p. p)))
          (image_downloader-Triple inbox image agent.download_file))
