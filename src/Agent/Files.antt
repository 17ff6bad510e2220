-- ===== src/Agent/Files.antt =====
-- internal/core/document_inbox.go, internal/core/image_inbox.go: the files that a message brings.
use open_light.Base.{Bool, false, ◌&&◌, ◌||◌, List, [], ◌∷◌, ◌++◌, if◌then◌else◌}
use open_light.Base.Int.{ℤ}
use open_light.Base.Text.{Text, codes, trim_space, to_lower, is_empty_text}
use open_light.Base.Decimal.{itoa_ℤ}
use open_light.Redact.{redact_sensitive_text}
use open_light.Agent.{IncomingMessage, Audio, Image, Document, MemoryFile, ImageInbox}
use open_light.Agent.Texts.{contains_one}

unfoldable pub ocr_markers : List Text
ocr_markers =
    codes "ocr"
    ∷ codes "read text"
    ∷ codes "read the text"
    ∷ codes "extract text"
    ∷ codes "распознай"
    ∷ codes "распознать текст"
    ∷ codes "извлеки текст"
    ∷ codes "прочитай"
    ∷ []

unfoldable pub caption_looks_like_ocr : Text → Bool
unfolding ocr_markers contains_one
caption_looks_like_ocr caption =
    if is_empty_text caption then false else contains_one caption ocr_markers

unfoldable pub enabled : ImageInbox → Bool
enabled inbox = inbox.vision_available || inbox.ocr_available

-- The skill and its prompt.
unfoldable pub route_caption : ImageInbox → Text → Text × Text
unfolding caption_looks_like_ocr
route_caption inbox caption =
    let lowered = to_lower (trim_space caption) in
    if inbox.ocr_available && caption_looks_like_ocr lowered
    then (codes "ocr_extract", [])
    else if inbox.vision_available
    then (codes "vision_analyze", if is_empty_text lowered then inbox.default_prompt else caption)
    else if inbox.ocr_available
    then (codes "ocr_extract", [])
    else (codes "vision_analyze", inbox.default_prompt)

-- `if trimmed := strings.TrimSpace(value); trimmed != "" { metadata[key] = … }`
unfoldable pub metadata_entry : Text → Text → List (Text × Text)
metadata_entry key value = if is_empty_text value then [] else (key, value) ∷ []

-- The trimmed text, or another one in place of the empty text.
unfoldable pub trimmed_or : Text → Text → Text
trimmed_or value other = if is_empty_text (trim_space value) then other else trim_space value

-- A caption is kept in its redacted form.
unfoldable pub caption_entry : Text → List (Text × Text)
caption_entry caption =
    if is_empty_text (trim_space caption)
    then []
    else (codes "caption", redact_sensitive_text (trim_space caption)) ∷ []

unfoldable pub source_label : ℤ → Text
source_label chat = codes "telegram:chat:" ++ itoa_ℤ chat

unfoldable pub image_file : IncomingMessage → Image → Text → Text → Text → MemoryFile
unfolding metadata_entry trimmed_or caption_entry source_label
image_file message image path description ocr_text = record {
  path = path;
  kind = codes "images";
  file_name = trimmed_or image.file_name (codes "photo.jpg");
  mime_type = image.mime_type;
  title = trimmed_or image.caption (codes "Image");
  source = source_label message.chat_id;
  external_id = image.file_id;
  chat_id = message.chat_id;
  user_id = message.user_id;
  metadata =
      metadata_entry (codes "description") (trim_space description)
      ++ metadata_entry (codes "ocr_text") (trim_space ocr_text)
      ++ caption_entry image.caption;
}

unfoldable pub document_file : (Text → Text) → IncomingMessage → Document → Text → MemoryFile
unfolding trimmed_or caption_entry source_label
document_file base_name message document path = record {
  path = path;
  kind = codes "documents";
  file_name = trimmed_or document.file_name (base_name path);
  mime_type = document.mime_type;
  title = trimmed_or document.file_name (base_name path);
  source = source_label message.chat_id;
  external_id = document.file_id;
  chat_id = message.chat_id;
  user_id = message.user_id;
  metadata = caption_entry document.caption;
}

unfoldable pub voice_file : IncomingMessage → Audio → Text → Text → MemoryFile
unfolding trimmed_or source_label
voice_file message audio path transcript = record {
  path = path;
  kind = codes "voice";
  file_name = trimmed_or audio.file_name (codes "voice.ogg");
  mime_type = audio.mime_type;
  title = codes "Voice note";
  source = source_label message.chat_id;
  external_id = audio.file_id;
  chat_id = message.chat_id;
  user_id = message.user_id;
  metadata =
      if is_empty_text (trim_space transcript)
      then []
      else (codes "transcript", redact_sensitive_text (trim_space transcript)) ∷ [];
}
