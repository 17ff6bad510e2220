-- ===== src/Agent/Inbox.antt =====
-- internal/core/image_inbox.go, internal/core/document_inbox.go, internal/voice/voice.go: the files
-- that a message brings, downloaded, archived and handed to the skills. Removing the temporary copies
-- is left out.
pub mod Keeps
use open_light.Base.{
  Bool, true, false, not, ◌||◌, Option, none, some, List, [], ◌∷◌, ◌++◌, if◌then◌else◌,
}
use open_light.Base.Int.{ℤ, pos, ltb_ℤ}
use open_light.Base.Text.{Text, codes, eqt, trim_space, is_empty_text}
use open_light.Errors.{Error, Result, ok, err, unavailable, invalid_arguments, user_error}
use open_light.Auth.{AccessError}
use open_light.Registry.{Definition, get}
use open_light.Agent.{
  Agent, State, IncomingMessage, Audio, Image, Document, Input, MemoryFile, ImageInbox, SkillResult,
  VoiceResult, VoiceProcessor,
}
use open_light.Agent.Files.{
  enabled, route_caption, trimmed_or, image_file, document_file, voice_file,
}
use open_light.Agent.Store.{M, ◌>>=◌, ◌>>◌, pure, reply}

-- What another component does to its own state.
abbrev pub on_outside : {S A : Type 0} → (S → A × S) → M S A
on_outside f st = let (a, s) = f st.outside in (a, record st { outside = s })

abbrev pub to_user : {A : Type 0} → Text → Result A
to_user message = err (user_error unavailable message)

module _ {S : Type 0} (agent : Agent S) where
  -- skill.Execute
  unfoldable pub run_skill : Definition → Input → M S (Result SkillResult)
  run_skill skill input = on_outside (agent.execute skill input) >>= λ result st.
      (result, record st { executed = st.executed ++ (skill.name, input) ∷ [] })

  -- IngestFile where there is a memory; its error is logged.
  abbrev archive : Option (MemoryFile → S → Result Bool × S) → MemoryFile → M S (Unit {0})
  archive none file = pure tt
  archive (some ingest_file) file = do receipt ← on_outside (ingest_file file); pure tt

  archive_of_image : IncomingMessage → Text → Text → Text → Option Image → M S (Unit {0})
  archive_of_image message path description ocr_text none = pure tt
  archive_of_image message path description ocr_text (some image) =
      if is_empty_text (trim_space path)
      then pure tt
      else archive agent.memory (image_file message image path description ocr_text)

  unfoldable pub archive_image : IncomingMessage → Text → Text → Text → M S (Unit {0})
  unfolding archive_of_image
  archive_image message path description ocr_text =
      archive_of_image message path description ocr_text message.image

  archive_of_voice : IncomingMessage → Text → Text → Option Audio → M S (Unit {0})
  archive_of_voice message path transcript none = pure tt
  archive_of_voice message path transcript (some audio) =
      if is_empty_text (trim_space path)
      then pure tt
      else archive agent.memory (voice_file message audio path transcript)

  unfoldable pub archive_voice_note : IncomingMessage → Text → Text → M S (Unit {0})
  unfolding archive_of_voice
  archive_voice_note message path transcript =
      archive_of_voice message path transcript message.audio

  transcribed : IncomingMessage → Text → Result Text → M S (Result VoiceResult)
  unfolding archive_voice_note
  transcribed message path (err e) = pure (err e)
  transcribed message path (ok transcript) =
      if is_empty_text (trim_space transcript)
      then pure (to_user (codes "could not transcribe voice message"))
      else do
        archive_voice_note message path (trim_space transcript)
        pure (
            ok (record { transcript = trim_space transcript; routed_text = trim_space transcript }))

  -- The file that is transcribed: the download, or what it was converted to.
  abbrev converted : Option (Text → S → Result Text × S) → Text → M S (Result Text)
  converted none path = pure (ok path)
  converted (some convert_to_wav) path = on_outside (convert_to_wav path)

  transcribed_file :
      IncomingMessage → Text → (Text → S → Result Text × S) → Result Text → M S (Result VoiceResult)
  unfolding transcribed
  transcribed_file message path transcribe (err e) = pure (err e)
  transcribed_file message path transcribe (ok audio_path) = do
    transcript ← on_outside (transcribe audio_path)
    transcribed message path transcript

  downloaded_voice :
      IncomingMessage
      → VoiceProcessor S
      → (Text → S → Result Text × S)
      → Result Text
      → M S (Result VoiceResult)
  unfolding transcribed_file
  downloaded_voice message processor transcribe (err e) =
      pure (to_user (codes "failed to download voice message"))
  downloaded_voice message processor transcribe (ok path) = do
    audio_path ← converted processor.convert_to_wav path
    transcribed_file message path transcribe audio_path

  voice_file_id : Option Audio → Text
  voice_file_id none = []
  voice_file_id (some audio) = audio.file_id

  -- The checks in front of the download.
  with_downloader :
      IncomingMessage
      → VoiceProcessor S
      → Text
      → Option (Text → S → Result Text × S)
      → Option (Text → S → Result Text × S)
      → M S (Result VoiceResult)
  unfolding downloaded_voice
  with_downloader message processor file_id none transcribe =
      pure (to_user (codes "voice download is unavailable"))
  with_downloader message processor file_id (some download_file) none =
      pure (to_user (codes "voice transcription is unavailable"))
  with_downloader message processor file_id (some download_file) (some transcribe) = do
    path ← on_outside (download_file file_id)
    downloaded_voice message processor transcribe path

  unfoldable pub process_voice : IncomingMessage → VoiceProcessor S → M S (Result VoiceResult)
  unfolding with_downloader voice_file_id
  process_voice message processor =
      if not processor.enabled
      then pure (to_user (codes "voice is disabled"))
      else if is_empty_text (trim_space (voice_file_id message.audio))
      then pure (err invalid_arguments)
      else with_downloader message processor (voice_file_id message.audio) agent.download_file
          processor.transcribe

  -- What the archive learns of a result.
  unfoldable pub derived : Text → Result SkillResult → Text × Text
  derived skill_name (err e) = ([], [])
  derived skill_name (ok result) =
      if eqt skill_name (codes "ocr_extract") then ([], result.text) else (result.text, [])

  unfoldable pub image_args : Text → Text → Text → List (Text × Text)
  image_args skill_name prompt path =
      if eqt skill_name (codes "vision_analyze")
      then (codes "path", path) ∷ (codes "prompt", prompt) ∷ []
      else (codes "path", path) ∷ []

  image_skill : IncomingMessage → Text → Text → Text → Option Definition → M S (Result SkillResult)
  unfolding run_skill archive_image derived image_args
  image_skill message skill_name prompt path none =
      pure (to_user (codes "image skill is not registered"))
  image_skill message skill_name prompt path (some skill) = do
    result ← run_skill skill (record {
      raw_text = message.text;
      args = image_args skill_name prompt path;
      user_id = message.user_id;
      chat_id = message.chat_id;
      source = message.source;
    })
    archive_image message path (derived skill_name result).0 (derived skill_name result).1
    pure result

  downloaded_image : ImageInbox → IncomingMessage → Image → Result Text → M S (Result SkillResult)
  unfolding image_skill route_caption trimmed_or
  downloaded_image inbox message image (err e) = pure (to_user (codes "failed to download image"))
  downloaded_image inbox message image (ok path) =
      let (skill_name, prompt) =
        route_caption inbox (trimmed_or image.caption (trim_space message.text)) in
      image_skill message skill_name prompt path (get skill_name agent.registry)

  image_downloader :
      ImageInbox
      → IncomingMessage
      → Image
      → Option (Text → S → Result Text × S)
      → M S (Result SkillResult)
  unfolding downloaded_image
  image_downloader inbox message image none = pure (to_user (codes "image download is unavailable"))
  image_downloader inbox message image (some download_file) = do
    path ← on_outside (download_file image.file_id)
    downloaded_image inbox message image path

  unfoldable pub process_image : ImageInbox → IncomingMessage → Image → M S (Result SkillResult)
  unfolding image_downloader enabled
  process_image inbox message image =
      if not (enabled inbox)
      then pure (to_user (codes "image input is disabled"))
      else if is_empty_text (trim_space image.file_id)
      then pure (err invalid_arguments)
      else image_downloader inbox message image agent.download_file
