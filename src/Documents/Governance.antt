-- ===== src/Documents/Governance.antt =====
-- The publication gate shared by first publication and restoration
-- (semikb/rag_ingestion/publication_governance.py). `none` means that the gate is passed.
pub mod Gate
use semiconductor_agent_know.Base.{
  String, Bool, true, false, not, ◌&&◌, ◌||◌, Option, none, some, List, [], ◌∷◌, ◌++◌, ◌==◌, truthy,
  given, any, all, contains, is_empty, if◌then◌else◌, string_eq, option_eq,
}
use semiconductor_agent_know.Documents.Kinds.{
  ApprovalStatus, SourceManifestStatus, SourceLicenseStatus, RedistributionPolicy,
  SourceIndexArtifact, ChunkType, approval_eq, license_eq, redistribution_eq, artifact_eq,
}
use semiconductor_agent_know.Documents.Model.{
  ObjectRef, SourceManifest, DocumentRevision, Chunk, ImageAsset, TableAsset,
}
use semiconductor_agent_know.Documents.Codes.{Code}

abbrev pub is_image_text : ChunkType → Bool
is_image_text ChunkType.image_text = true
is_image_text _ = false

abbrev pub is_approved : SourceManifestStatus → Bool
is_approved SourceManifestStatus.approved = true
is_approved _ = false

abbrev pub is_reviewed_license : SourceLicenseStatus → Bool
is_reviewed_license SourceLicenseStatus.verified = true
is_reviewed_license SourceLicenseStatus.declared = true
is_reviewed_license _ = false

abbrev pub is_reviewed_redistribution : RedistributionPolicy → Bool
is_reviewed_redistribution RedistributionPolicy.allowed = true
is_reviewed_redistribution RedistributionPolicy.restricted = true
is_reviewed_redistribution _ = false

-- The set of artifacts is the list of its members; a document that declares none has those that its
-- chunks and images show.
unfoldable pub actual_artifacts :
    DocumentRevision → List Chunk → List ImageAsset → List SourceIndexArtifact
actual_artifacts doc chunks images =
    if is_empty doc.source_index_artifacts
    then ((if any (λ c. not (is_image_text c.chunk_type)) chunks
          then SourceIndexArtifact.document_chunks ∷ []
          else [])
        ++ (if not (is_empty images) || any (λ c. is_image_text c.chunk_type) chunks
            then SourceIndexArtifact.image_text ∷ []
            else []))
    else doc.source_index_artifacts

abbrev pub snapshot_matches : String → Option ObjectRef → Bool
snapshot_matches hash none = true
snapshot_matches hash (some ref) = ref.sha256 == hash

-- `actual_artifacts.issubset(declared_artifacts)`
abbrev pub is_subset : List SourceIndexArtifact → List SourceIndexArtifact → Bool
is_subset actual declared = all (contains declared) actual

-- The tests that need only the artifacts, the last three of the gate.
unfoldable pub validate_artifacts :
    List SourceIndexArtifact → List Chunk → List TableAsset → SourceManifest → Option Code
validate_artifacts actual chunks tables m =
    if not (is_subset actual m.ingestion_policy.index_artifacts)
    then some Code.source_ingestion_policy_mismatch
    else if not (is_empty chunks) && is_empty actual
    then some Code.source_ingestion_policy_empty
    else if not (is_empty tables) && m.ingestion_policy.raw_row_vectorization
    then some Code.raw_table_rows_cannot_be_vectorized
    else none

-- The tests of the document against a manifest that was found.
unfoldable pub validate_manifest : DocumentRevision → SourceManifest → Option Code
validate_manifest doc m =
    if not (is_approved m.status)
    then some Code.source_manifest_not_approved
    else if not (some m.source_id == doc.source_id)
        || not (some m.manifest_version == doc.source_manifest_version)
    then some Code.source_manifest_link_mismatch
    else if not (some m.access_scope_key == doc.access_scope_key)
    then some Code.source_manifest_scope_mismatch
    else if not (doc.dataset_version == some m.dataset_version)
    then some Code.source_manifest_dataset_mismatch
    else if not (doc.source_license == m.license_name)
    then some Code.source_manifest_license_mismatch
    else if not (doc.source_license_status == some m.license_status)
    then some Code.source_manifest_license_status_mismatch
    else if not (doc.redistribution_policy == some m.redistribution_policy)
    then some Code.source_manifest_redistribution_mismatch
    else if not (is_reviewed_license m.license_status)
    then some Code.source_license_requires_review
    else if not (is_reviewed_redistribution m.redistribution_policy)
    then some Code.source_redistribution_requires_review
    else if not (doc.source_hash == doc.source_ref.sha256)
    then some Code.source_object_hash_mismatch
    else if not (snapshot_matches m.source_hash m.source_snapshot_ref)
    then some Code.source_manifest_snapshot_hash_mismatch
    else none

-- `a` raised, or else `b`
abbrev pub or_else : Option Code → Option Code → Option Code
or_else (some c) _ = some c
or_else none b = b

unfoldable pub validate_found :
    DocumentRevision
    → List Chunk
    → List ImageAsset
    → List TableAsset
    → Option SourceManifest
    → Option Code
unfolding validate_manifest validate_artifacts
validate_found doc chunks images tables none = some Code.source_manifest_missing
validate_found doc chunks images tables (some m) =
    or_else (validate_manifest doc m)
      (validate_artifacts (actual_artifacts doc chunks images) chunks tables m)

unfoldable pub validate_publication_governance :
    DocumentRevision
    → List Chunk
    → List ImageAsset
    → List TableAsset
    → Option SourceManifest
    → Option Code
unfolding validate_found
validate_publication_governance doc chunks images tables manifest =
    if not (doc.approval_status == ApprovalStatus.approved)
    then some Code.revision_not_approved
    else if not (given doc.access_scope_key)
    then some Code.access_scope_missing
    else if not (given doc.source_id) || not (given doc.source_manifest_version)
    then some Code.source_manifest_link_missing
    else validate_found doc chunks images tables manifest
