-- ===== src/Document/Sniff.antt =====
-- `sniff_content_type` of app/modules/document_version/service.py.
use regnova.Prelude.{String, Bool, true, false, [], ◌∷◌, any, ◌==◌, ◌&&◌, if◌then◌else◌}
use regnova.Prelude.Results.{Result, ok, raise}
use regnova.Prelude.Text.{str_eq}
use regnova.Document.Model.{Bytes, Error, document_version_invalid_file_type, Services}

-- `content.startswith(signature)`.
unfoldable pub starts_with : Bytes → Bytes → Bool
starts_with content [] = true
starts_with [] (b ∷ signature) = false
starts_with (c ∷ content) (b ∷ signature) = (c == b) && starts_with content signature

-- _MAGIC_SIGNATURES and _ZIP_SIGNATURE.
abbrev pub pdf_signature : Bytes
pdf_signature = 37 ∷ 80 ∷ 68 ∷ 70 ∷ 45 ∷ []

abbrev pub png_signature : Bytes
png_signature = 137 ∷ 80 ∷ 78 ∷ 71 ∷ 13 ∷ 10 ∷ 26 ∷ 10 ∷ []

abbrev pub jpeg_signature : Bytes
jpeg_signature = 255 ∷ 216 ∷ 255 ∷ []

abbrev pub zip_signature : Bytes
zip_signature = 80 ∷ 75 ∷ 3 ∷ 4 ∷ []

-- _OOXML_CONTENT_TYPES and _CSV_CONTENT_TYPES.
abbrev pub is_ooxml : String → Bool
is_ooxml declared = any (str_eq declared) (
    "application/vnd.openxmlformats-officedocument.wordprocessingml.document"
    ∷ "application/vnd.openxmlformats-officedocument.spreadsheetml.sheet" ∷ [])

abbrev pub is_csv : String → Bool
is_csv declared = any (str_eq declared) ("text/csv" ∷ "application/vnd.ms-excel" ∷ [])

module _ (services : Services) where
  unfoldable pub sniff_content_type : Bytes → String → Result Error String
  unfolding starts_with
  sniff_content_type content declared =
      if starts_with content pdf_signature
      then ok "application/pdf"
      else if starts_with content png_signature
      then ok "image/png"
      else if starts_with content jpeg_signature
      then ok "image/jpeg"
      else if is_ooxml declared
      then (if starts_with content zip_signature
          then ok declared
          else raise document_version_invalid_file_type)
      else if is_csv declared
      then (if services.decodes content
          then ok "text/csv"
          else raise document_version_invalid_file_type)
      else raise document_version_invalid_file_type
