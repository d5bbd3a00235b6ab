-- ===== src/Tests/Formats.antt =====
-- A document and an archive on their way to a parser.
use semiconductor_agent_know.Base.{
  ℕ, String, false, Option, some, List, [], ◌∷◌, All, length, is_empty, ◌≡◌, ◌≤◌, refl,
}
use semiconductor_agent_know.Base.Result.{ok, err}
use semiconductor_agent_know.Formats.{
  SourceFormat, IngestErrorCode, RoutingPolicy, ResolvedRoute, ZipInfo, format_routes, pptx_type,
}
use semiconductor_agent_know.Formats.Archive.{entry_fault, entries_from, inspect_office}
use semiconductor_agent_know.Formats.Archive.Safe.{SafeEntry, sizes, inspect_office-SafeEntry}
use semiconductor_agent_know.Formats.Resolve.{
  starts_with, detect_signature, validate_media_type, validate_signature, rules_from, all_rules,
  indexed, is_candidate, sole_candidate, resolve_without_extension, route_for, rule_fault,
  office_family_of, resolve,
}
use semiconductor_agent_know.Formats.Resolve.Routed.{Routed, resolve-Routed}

abbrev policy : RoutingPolicy
policy = record {
  max_source_bytes = 100;
  max_office_entries = 10;
  max_office_uncompressed_bytes = 1000;
  max_office_compression_ratio = 100;
}

abbrev entry : List String → ZipInfo
entry parts = record {
  is_absolute = false;
  has_drive = false;
  parts = parts;
  is_encrypted = false;
  file_size = 40;
  compress_size = 4;
}

abbrev slides : List ZipInfo
slides = entry ("[Content_Types].xml" ∷ []) ∷ entry ("ppt" ∷ "presentation.xml" ∷ []) ∷ []

abbrev directory : List ℕ → Option (List ZipInfo)
directory content = some slides

abbrev zipped : List ℕ
zipped = 80 ∷ 75 ∷ 3 ∷ 4 ∷ 0 ∷ []

abbrev slides_route : ResolvedRoute
slides_route = record {
  source_format = SourceFormat.pptx;
  parser_id = "pptx-structured-v1";
  provider = "local-pptx";
  fallback = "none";
  normalized_extension = ".pptx";
  declared_media_type = pptx_type;
  detected_signature = some "zip";
}

inspected : inspect_office policy (some slides) ≡ ok (some SourceFormat.pptx)
unfolding inspect_office entries_from entry_fault
inspected = refl

inspect_office-SafeEntry_example :
    (infos : List ZipInfo) × (some slides ≡ some infos)
    × (length infos ≤ policy.max_office_entries)
    × (sizes infos ≤ policy.max_office_uncompressed_bytes)
    × All (SafeEntry policy) infos
inspect_office-SafeEntry_example = inspect_office-SafeEntry policy (some slides) inspected

routed : resolve policy directory ".pptx" zipped pptx_type ≡ ok slides_route
unfolding resolve detect_signature starts_with office_family_of inspect_office entries_from
    entry_fault route_for indexed all_rules rules_from format_routes rule_fault validate_media_type
    validate_signature
routed = refl

-- The same archive under the name of a text document is refused.
renamed : resolve policy directory ".docx" zipped "" ≡ err IngestErrorCode.file_type_mismatch
unfolding resolve detect_signature starts_with office_family_of inspect_office entries_from
    entry_fault route_for indexed all_rules rules_from format_routes rule_fault validate_media_type
    validate_signature
renamed = refl

-- Without a suffix and a media type the archive itself tells its format.
nameless :
    resolve policy directory "" zipped ""
    ≡ ok (record slides_route { normalized_extension = ""; declared_media_type = "" })
unfolding resolve detect_signature starts_with office_family_of inspect_office entries_from
    entry_fault route_for resolve_without_extension sole_candidate is_candidate all_rules rules_from
    format_routes rule_fault validate_media_type validate_signature
nameless = refl

resolve-Routed_example :
    (is_empty zipped ≡ false)
    × (length zipped ≤ policy.max_source_bytes)
    × Routed policy directory zipped pptx_type slides_route
resolve-Routed_example = resolve-Routed policy directory ".pptx" zipped pptx_type routed
