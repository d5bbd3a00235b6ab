-- ===== src/Formats/Resolve.antt =====
-- From a source to its route (`resolve` of semikb_ingest/routing.py).
pub mod Routed
use semiconductor_agent_know.Base.{
  ℕ, ◌+◌, ◌*◌, String, Bool, true, false, not, ◌&&◌, ◌||◌, Option, none, some, List, [], ◌∷◌, ◌++◌,
  ◌==◌, eqb, leb, ltb, any, all, map, filter, contains, is_empty, length, if◌then◌else◌, Key, ◌≡◌,
  ◌↔◌, arith, string_eq, option_eq,
}
use semiconductor_agent_know.Base.Result.{Result, ok, err}
use semiconductor_agent_know.Formats.{
  SourceFormat, IngestErrorCode, RoutingPolicy, ExtensionRule, FormatRoute, ResolvedRoute, ZipInfo,
  generic_media_types, format_routes, source_format_eq,
}
use semiconductor_agent_know.Formats.Archive.{inspect_office, parts_eq}

-- `content.startswith(prefix)`
unfoldable pub starts_with : List ℕ → List ℕ → Bool
starts_with [] content = true
starts_with (p ∷ ps) [] = false
starts_with (p ∷ ps) (c ∷ cs) = let rest = starts_with ps cs in eqb p c && rest

unfoldable pub detect_signature : List ℕ → Option String
detect_signature content =
    if starts_with (37 ∷ 80 ∷ 68 ∷ 70 ∷ 45 ∷ []) content
    then some "pdf"
    else if starts_with (137 ∷ 80 ∷ 78 ∷ 71 ∷ 13 ∷ 10 ∷ 26 ∷ 10 ∷ []) content
    then some "png"
    else if starts_with (255 ∷ 216 ∷ 255 ∷ []) content
    then some "jpeg"
    else if starts_with (80 ∷ 75 ∷ 3 ∷ 4 ∷ []) content
        || starts_with (80 ∷ 75 ∷ 5 ∷ 6 ∷ []) content
        || starts_with (80 ∷ 75 ∷ 7 ∷ 8 ∷ []) content
    then some "zip"
    else none

abbrev pub is_generic : String → Bool
is_generic media_type = contains generic_media_types media_type

abbrev pub has_signature : List String → Option String → Bool
has_signature signatures none = false
has_signature signatures (some s) = contains signatures s

-- `_validate_media_type`: whether it raises nothing
unfoldable pub validate_media_type : ExtensionRule → String → Bool
validate_media_type rule media_type = is_generic media_type || contains rule.media_types media_type

-- `_validate_signature`
unfoldable pub validate_signature : ExtensionRule → Option String → Bool
validate_signature rule signature =
    if not (is_empty rule.signatures)
    then has_signature rule.signatures signature
    else signature == none

-- `_EXTENSION_INDEX`: no extension stands twice in the table.
unfoldable pub rules_from : FormatRoute → List ExtensionRule → List (FormatRoute × ExtensionRule)
rules_from r [] = []
rules_from r (rule ∷ rules) = (r, rule) ∷ rules_from r rules

unfoldable pub all_rules : List FormatRoute → List (FormatRoute × ExtensionRule)
all_rules [] = []
all_rules (r ∷ rs) = rules_from r r.rules ++ all_rules rs

unfoldable pub indexed :
    String → List (FormatRoute × ExtensionRule) → Option (FormatRoute × ExtensionRule)
indexed extension [] = none
indexed extension ((r, rule) ∷ rest) =
    let later = indexed extension rest in
    if rule.extension == extension then some (r, rule) else later

-- Whether a rule is a candidate for a source without an extension.
unfoldable pub is_candidate : String → Option String → Option SourceFormat → ExtensionRule → Bool
is_candidate media_type signature office_family rule =
    let media_matches = not (is_generic media_type) && contains rule.media_types media_type in
    let signature_matches = has_signature rule.signatures signature in
    elim rule.office_family [
      | some f ↦ (office_family == some f) && (is_generic media_type || media_matches)
      | none ↦
          (media_matches && (is_empty rule.signatures || signature_matches))
          || (signature_matches && is_generic media_type)
    ]

abbrev pub same_kind : FormatRoute × ExtensionRule → FormatRoute × ExtensionRule → Bool
same_kind (r, a) (s, b) =
    (r.source_format == s.source_format)
    && (a.office_family == b.office_family)
    && (a.signatures == b.signatures)

-- Whether some rule of the table knows the media type.
abbrev pub is_known : String → List (FormatRoute × ExtensionRule) → Bool
is_known media_type rules =
    any (λ (p : FormatRoute × ExtensionRule). contains p.1.media_types media_type) rules

-- All candidates are of one kind, and there is one: `len(unique) == 1`.
unfoldable pub sole_candidate :
    Bool → List (FormatRoute × ExtensionRule) → Result IngestErrorCode (FormatRoute × ExtensionRule)
sole_candidate known [] =
    err (if known then IngestErrorCode.file_type_mismatch else IngestErrorCode.unsupported_format)
sole_candidate known (c ∷ cs) =
    if all (same_kind c) cs then ok c else err IngestErrorCode.unsupported_format

unfoldable pub resolve_without_extension :
    String
    → Option String
    → Option SourceFormat
    → Result IngestErrorCode (FormatRoute × ExtensionRule)
resolve_without_extension media_type signature office_family =
    let rules = all_rules format_routes in
    sole_candidate (is_known media_type rules) (
      filter
        (λ (p : FormatRoute × ExtensionRule). is_candidate media_type signature office_family p.1)
        rules)

unfoldable pub route_for :
    String
    → String
    → Option String
    → Option SourceFormat
    → Result IngestErrorCode (FormatRoute × ExtensionRule)
route_for extension media_type signature office_family =
    if extension == ""
    then resolve_without_extension media_type signature office_family
    else elim (indexed extension (all_rules format_routes)) [
      | none ↦ err IngestErrorCode.unsupported_format
      | some found ↦ ok found
    ]

-- The tests of the chosen rule.
unfoldable pub rule_fault :
    ExtensionRule → String → Option String → Option SourceFormat → Option IngestErrorCode
rule_fault rule media_type signature office_family =
    if not (validate_media_type rule media_type) || not (validate_signature rule signature)
    then some IngestErrorCode.file_type_mismatch
    else elim rule.office_family [
      | none ↦ none
      | some f ↦ elim office_family [
        | none ↦ some IngestErrorCode.invalid_office_container
        | some g ↦ if g == f then none else some IngestErrorCode.file_type_mismatch
      ]
    ]

abbrev pub resolved : FormatRoute → String → String → Option String → ResolvedRoute
resolved r extension media_type signature = record {
  source_format = r.source_format;
  parser_id = r.parser_id;
  provider = r.provider;
  fallback = r.fallback;
  normalized_extension = extension;
  declared_media_type = media_type;
  detected_signature = signature;
}

module _ (policy : RoutingPolicy) (infolist : List ℕ → Option (List ZipInfo)) where
  -- The family of an Office container, where the source is a zip archive.
  unfoldable pub office_family_of :
      List ℕ → Option String → Result IngestErrorCode (Option SourceFormat)
  office_family_of content signature =
      if signature == some "zip" then inspect_office policy (infolist content) else ok none

  -- `resolve`, with the suffix of the file name and the normalized media type.
  unfoldable pub resolve : String → List ℕ → String → Result IngestErrorCode ResolvedRoute
  resolve extension content media_type =
      let signature = detect_signature content in
      if is_empty content
      then err IngestErrorCode.corrupt_document
      else if ltb policy.max_source_bytes (length content)
      then err IngestErrorCode.document_limit_exceeded
      else elim (office_family_of content signature) [
        | err e ↦ err e
        | ok family ↦ elim (route_for extension media_type signature family) [
          | err e ↦ err e
          | ok (r, rule) ↦ elim (rule_fault rule media_type signature family) [
            | some e ↦ err e
            | none ↦ ok (resolved r extension media_type signature)
          ]
        ]
      ]
