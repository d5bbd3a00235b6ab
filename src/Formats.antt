-- ===== src/Formats.antt =====
-- The routing of an uploaded document to its parser (semikb_ingest/routing.py). A source is its
-- bytes. The directory of a zip archive, the suffix of a file name in small letters and the
-- normalized media type are what the standard library makes of them, and arguments here.
pub mod Archive
pub mod Resolve
use semiconductor_agent_know.Base.{
  ℕ, ◌+◌, ◌*◌, String, Bool, true, false, not, ◌&&◌, ◌||◌, Option, none, some, List, [], ◌∷◌, ◌++◌,
  ◌==◌, eqb, leb, ltb, any, all, map, filter, contains, is_empty, length, if◌then◌else◌, Key, ◌≡◌,
  ◌↔◌, arith, string_eq, option_eq,
}
use semiconductor_agent_know.Base.Result.{Result, ok, err}

pub data SourceFormat : Type 0 where
  pdf docx xlsx csv pptx image markdown text html : SourceFormat

abbrev source_format_place : SourceFormat → ℕ
source_format_place SourceFormat.pdf = 0
source_format_place SourceFormat.docx = 1
source_format_place SourceFormat.xlsx = 2
source_format_place SourceFormat.csv = 3
source_format_place SourceFormat.pptx = 4
source_format_place SourceFormat.image = 5
source_format_place SourceFormat.markdown = 6
source_format_place SourceFormat.text = 7
source_format_place SourceFormat.html = 8

pub source_format_iff :
    (a b : SourceFormat) → (eqb (source_format_place a) (source_format_place b) ≡ true) ↔ (a ≡ b)
source_format_iff a b = ground arith

instance abbrev pub source_format_eq : Key SourceFormat
source_format_eq = record {
  is_same = λ a b. eqb (source_format_place a) (source_format_place b);
  is_same_iff = source_format_iff;
}

-- The codes that the router raises.
pub data IngestErrorCode : Type 0 where
  unsupported_format file_type_mismatch invalid_office_container zip_bomb_suspected corrupt_document
        encrypted_document document_limit_exceeded :
      IngestErrorCode

pub record RoutingPolicy : Type 0 where
  pub max_source_bytes : ℕ
  pub max_office_entries : ℕ
  pub max_office_uncompressed_bytes : ℕ
  pub max_office_compression_ratio : ℕ

pub record ExtensionRule : Type 0 where
  pub extension : String
  pub media_types : List String
  pub signatures : List String
  pub office_family : Option SourceFormat

pub record FormatRoute : Type 0 where
  pub source_format : SourceFormat
  pub parser_id : String
  pub provider : String
  pub fallback : String
  pub rules : List ExtensionRule

pub record ResolvedRoute : Type 0 where
  pub source_format : SourceFormat
  pub parser_id : String
  pub provider : String
  pub fallback : String
  pub normalized_extension : String
  pub declared_media_type : String
  pub detected_signature : Option String

-- An entry of the archive: the parts of its path without "." and empty ones, whether the path is
-- absolute, and what the directory says of its contents.
pub record ZipInfo : Type 0 where
  pub is_absolute : Bool
  pub has_drive : Bool
  pub parts : List String
  pub is_encrypted : Bool
  pub file_size : ℕ
  pub compress_size : ℕ

abbrev pub generic_media_types : List String
generic_media_types =
    "" ∷ "application/octet-stream" ∷ "application/x-zip-compressed" ∷ "application/zip"
    ∷ "binary/octet-stream" ∷ []

abbrev rule_of : String → List String → List String → Option SourceFormat → ExtensionRule
rule_of extension media_types signatures family = record {
  extension = extension;
  media_types = media_types;
  signatures = signatures;
  office_family = family;
}

abbrev route_of : SourceFormat → String → String → String → List ExtensionRule → FormatRoute
route_of format parser provider fallback rules = record {
  source_format = format;
  parser_id = parser;
  provider = provider;
  fallback = fallback;
  rules = rules;
}

abbrev docx_type : String
docx_type = "application/vnd.openxmlformats-officedocument.wordprocessingml.document"

abbrev xlsx_type : String
xlsx_type = "application/vnd.openxmlformats-officedocument.spreadsheetml.sheet"

abbrev pub pptx_type : String
pptx_type = "application/vnd.openxmlformats-officedocument.presentationml.presentation"

unfoldable pub format_routes : List FormatRoute
format_routes =
    route_of SourceFormat.markdown "markdown-structured-v1" "builtin" "none" (
      rule_of ".md" ("text/markdown" ∷ "text/plain" ∷ []) [] none
      ∷ rule_of ".markdown" ("text/markdown" ∷ "text/plain" ∷ []) [] none
      ∷ [])
    ∷ route_of SourceFormat.text "text-structured-v1" "builtin" "none"
        (rule_of ".txt" ("text/plain" ∷ []) [] none ∷ [])
    ∷ route_of SourceFormat.html "html-structured-v1" "local-html" "none" (
        rule_of ".html" ("text/html" ∷ []) [] none ∷ rule_of ".htm" ("text/html" ∷ []) [] none ∷ [])
    ∷ route_of SourceFormat.pdf "pdf-mineru-v1" "mineru" "none"
        (rule_of ".pdf" ("application/pdf" ∷ []) ("pdf" ∷ []) none ∷ [])
    ∷ route_of SourceFormat.docx "docx-structured-v1" "local-docx" "none"
        (rule_of ".docx" (docx_type ∷ []) ("zip" ∷ []) (some SourceFormat.docx) ∷ [])
    ∷ route_of SourceFormat.xlsx "xlsx-structured-v1" "local-xlsx" "none"
        (rule_of ".xlsx" (xlsx_type ∷ []) ("zip" ∷ []) (some SourceFormat.xlsx) ∷ [])
    ∷ route_of SourceFormat.csv "csv-structured-v1" "builtin-csv" "none"
        (rule_of ".csv" ("text/csv" ∷ "text/plain" ∷ "application/csv" ∷ []) [] none ∷ [])
    ∷ route_of SourceFormat.pptx "pptx-structured-v1" "local-pptx" "none"
        (rule_of ".pptx" (pptx_type ∷ []) ("zip" ∷ []) (some SourceFormat.pptx) ∷ [])
    ∷ route_of SourceFormat.image "image-vlm-v1" "qwen-vl" "ocr_only_when_configured" (
        rule_of ".png" ("image/png" ∷ []) ("png" ∷ []) none
        ∷ rule_of ".jpg" ("image/jpeg" ∷ []) ("jpeg" ∷ []) none
        ∷ rule_of ".jpeg" ("image/jpeg" ∷ []) ("jpeg" ∷ []) none
        ∷ [])
    ∷ []
