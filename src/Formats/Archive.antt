-- ===== src/Formats/Archive.antt =====
-- The tests of an Office archive (`_inspect_office` of semikb_ingest/routing.py).
pub mod Safe
use semiconductor_agent_know.Base.{
  ℕ, ◌+◌, ◌*◌, String, Bool, true, false, not, ◌&&◌, ◌||◌, Option, none, some, List, [], ◌∷◌, ◌++◌,
  ◌==◌, eqb, leb, ltb, any, all, map, filter, contains, is_empty, length, if◌then◌else◌, Key, ◌≡◌,
  ◌↔◌, arith, string_eq, option_eq,
}
use semiconductor_agent_know.Base.Result.{Result, ok, err}
use semiconductor_agent_know.Formats.{
  SourceFormat, IngestErrorCode, RoutingPolicy, ExtensionRule, FormatRoute, ResolvedRoute, ZipInfo,
  generic_media_types, format_routes, source_format_eq,
}

abbrev parts_same : List String → List String → Bool
parts_same [] [] = true
parts_same (a ∷ s) (b ∷ t) = (a == b) && parts_same s t
parts_same _ _ = false

pub parts_same_iff : (s t : List String) → (parts_same s t ≡ true) ↔ (s ≡ t)
parts_same_iff [] [] = ground arith
parts_same_iff [] (b ∷ t) = ground arith
parts_same_iff (a ∷ s) [] = ground arith
parts_same_iff (a ∷ s) (b ∷ t) = ground (arith, string_eq.is_same_iff a b, parts_same_iff s t)

instance abbrev pub parts_eq : Key (List String)
parts_eq = record { is_same = parts_same; is_same_iff = parts_same_iff }

-- The members that an Office family requires.
abbrev pub office_required_members : List (SourceFormat × List (List String))
office_required_members =
    (SourceFormat.docx, ("[Content_Types].xml" ∷ []) ∷ ("word" ∷ "document.xml" ∷ []) ∷ [])
    ∷ (SourceFormat.xlsx, ("[Content_Types].xml" ∷ []) ∷ ("xl" ∷ "workbook.xml" ∷ []) ∷ [])
    ∷ (SourceFormat.pptx, ("[Content_Types].xml" ∷ []) ∷ ("ppt" ∷ "presentation.xml" ∷ []) ∷ [])
    ∷ []

abbrev pub matches_of :
    List (SourceFormat × List (List String)) → List (List String) → List SourceFormat
matches_of [] names = []
matches_of ((family, required) ∷ rest) names =
    let more = matches_of rest names in
    if all (contains names) required then family ∷ more else more

module _ (policy : RoutingPolicy) where
  -- The tests of one entry, with the size so far; its size is counted by then.
  unfoldable pub entry_fault : ZipInfo → ℕ → List (List String) → Option IngestErrorCode
  entry_fault info total names =
      if info.is_absolute || contains info.parts ".." || info.has_drive
      then some IngestErrorCode.invalid_office_container
      else if info.is_encrypted
      then some IngestErrorCode.encrypted_document
      else if ltb policy.max_office_uncompressed_bytes total
      then some IngestErrorCode.zip_bomb_suspected
      else if not (eqb info.file_size 0)
          && (eqb info.compress_size 0
              || ltb (policy.max_office_compression_ratio * info.compress_size) info.file_size)
      then some IngestErrorCode.zip_bomb_suspected
      else if contains names info.parts
      then some IngestErrorCode.invalid_office_container
      else none

  -- The loop over the entries, and the names of all of them.
  unfoldable pub entries_from :
      List ZipInfo → ℕ → List (List String) → Result IngestErrorCode (List (List String))
  entries_from [] total names = ok names
  entries_from (info ∷ infos) total names =
      let size = total + info.file_size in
      let rest = entries_from infos size (info.parts ∷ names) in
      elim (entry_fault info size names) [ some e ↦ err e | none ↦ rest ]

  abbrev pub one_family : List SourceFormat → Result IngestErrorCode (Option SourceFormat)
  one_family [] = ok none
  one_family (f ∷ []) = ok (some f)
  one_family (f ∷ (g ∷ fs)) = err IngestErrorCode.invalid_office_container

  -- `_inspect_office`; no directory stands for an archive that is not valid.
  unfoldable pub inspect_office :
      Option (List ZipInfo) → Result IngestErrorCode (Option SourceFormat)
  inspect_office none = err IngestErrorCode.invalid_office_container
  inspect_office (some infos) =
      if ltb policy.max_office_entries (length infos)
      then err IngestErrorCode.zip_bomb_suspected
      else elim (entries_from infos 0 []) [
        | err e ↦ err e
        | ok names ↦ one_family (matches_of office_required_members names)
      ]
