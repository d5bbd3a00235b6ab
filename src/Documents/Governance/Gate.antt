-- ===== src/Documents/Governance/Gate.antt =====
-- What passing the publication gate means.
use semiconductor_agent_know.Base.{
  String, ◌≡◌, refl, ◌⊎◌, ◌↔◌, true, false, Option, none, some, List, arith, ==_iff, given,
  contains, In, here, there, all-In, contains-In, In-contains, [], ◌∷◌, is_empty, string_eq,
  option_eq,
}
use semiconductor_agent_know.Documents.Kinds.{
  ApprovalStatus, SourceManifestStatus, SourceLicenseStatus, RedistributionPolicy,
  SourceIndexArtifact, license_eq, redistribution_eq, artifact_eq,
}
use semiconductor_agent_know.Documents.Model.{
  ObjectRef, SourceManifest, DocumentRevision, Chunk, ImageAsset, TableAsset,
}
use semiconductor_agent_know.Documents.Codes.{Code}
use semiconductor_agent_know.Documents.Governance.{
  actual_artifacts, is_subset, snapshot_matches, or_else, validate_artifacts, validate_manifest,
  validate_found, validate_publication_governance,
}

abbrev pub SnapshotMatches : String → Option ObjectRef → Type 0
SnapshotMatches hash none = Unit
SnapshotMatches hash (some ref) = ref.sha256 ≡ hash

-- The document carries the reviewed provenance that its manifest declares.
pub record Agrees (doc : DocumentRevision) (m : SourceManifest) : Type 0 where
  pub manifest_approved : m.status ≡ SourceManifestStatus.approved
  pub source_id : doc.source_id ≡ some m.source_id
  pub version : doc.source_manifest_version ≡ some m.manifest_version
  pub scope : doc.access_scope_key ≡ some m.access_scope_key
  pub dataset : doc.dataset_version ≡ some m.dataset_version
  pub license : doc.source_license ≡ m.license_name
  pub license_status : doc.source_license_status ≡ some m.license_status
  pub redistribution : doc.redistribution_policy ≡ some m.redistribution_policy
  pub license_reviewed :
      (m.license_status ≡ SourceLicenseStatus.verified)
      ⊎ (m.license_status ≡ SourceLicenseStatus.declared)
  pub redistribution_reviewed :
      (m.redistribution_policy ≡ RedistributionPolicy.allowed)
      ⊎ (m.redistribution_policy ≡ RedistributionPolicy.restricted)
  pub source_hash : doc.source_hash ≡ doc.source_ref.sha256
  pub snapshot : SnapshotMatches m.source_hash m.source_snapshot_ref

snapshot_matches_iff :
    (hash : String) (ref : Option ObjectRef)
    → (snapshot_matches hash ref ≡ true) ↔ SnapshotMatches hash ref
snapshot_matches_iff hash none = (λ _. tt, λ _. refl)
snapshot_matches_iff hash (some ref) = ==_iff ref.sha256 hash

validate_manifest→Agrees :
    (doc : DocumentRevision) (m : SourceManifest) → validate_manifest doc m ≡ none → Agrees doc m
unfolding validate_manifest
validate_manifest→Agrees doc m h = record {
  manifest_approved = ground arith;
  source_id = ground (arith, ==_iff (some m.source_id) doc.source_id);
  version = ground (arith, ==_iff (some m.manifest_version) doc.source_manifest_version);
  scope = ground (arith, ==_iff (some m.access_scope_key) doc.access_scope_key);
  dataset = ground (arith, ==_iff doc.dataset_version (some m.dataset_version));
  license = ground (arith, ==_iff doc.source_license m.license_name);
  license_status = ground (arith, ==_iff doc.source_license_status (some m.license_status));
  redistribution = ground (arith, ==_iff doc.redistribution_policy (some m.redistribution_policy));
  license_reviewed = ground arith;
  redistribution_reviewed = ground arith;
  source_hash = ground (arith, ==_iff doc.source_hash doc.source_ref.sha256);
  snapshot = (snapshot_matches_iff m.source_hash m.source_snapshot_ref).0 (ground arith);
}

Agrees→validate_manifest :
    (doc : DocumentRevision) (m : SourceManifest) → Agrees doc m → validate_manifest doc m ≡ none
unfolding validate_manifest
Agrees→validate_manifest doc m a = ground (
  arith,
  ==_iff (some m.source_id) doc.source_id,
  ==_iff (some m.manifest_version) doc.source_manifest_version,
  ==_iff (some m.access_scope_key) doc.access_scope_key,
  ==_iff doc.dataset_version (some m.dataset_version),
  ==_iff doc.source_license m.license_name,
  ==_iff doc.source_license_status (some m.license_status),
  ==_iff doc.redistribution_policy (some m.redistribution_policy),
  ==_iff doc.source_hash doc.source_ref.sha256,
  (snapshot_matches_iff m.source_hash m.source_snapshot_ref).1 a.snapshot,
)

is_subset-In :
    (actual declared : List SourceIndexArtifact)
    → is_subset actual declared ≡ true
    → (a : SourceIndexArtifact) → In a actual
    → In a declared
is_subset-In actual declared h a i = contains-In declared a (all-In (contains declared) actual h i)

In-is_subset :
    (actual declared : List SourceIndexArtifact)
    → ((a : SourceIndexArtifact) → In a actual → In a declared)
    → is_subset actual declared ≡ true
In-is_subset [] declared h = refl
In-is_subset (x ∷ xs) declared h =
    ground (arith, In-contains declared (h x here), In-is_subset xs declared (λ a i. h a (there i)))

-- The representations that enter retrieval are those that the manifest lets in, at least one if
-- there are chunks, and no raw table row.
pub record Representable (actual : List SourceIndexArtifact) (chunks : List Chunk)
    (tables : List TableAsset) (m : SourceManifest) : Type 0 where
  pub declared : (a : SourceIndexArtifact) → In a actual → In a m.ingestion_policy.index_artifacts
  pub represented : is_empty chunks ≡ false → is_empty actual ≡ false
  pub no_raw_rows : (is_empty tables ≡ true) ⊎ (m.ingestion_policy.raw_row_vectorization ≡ false)

module _ (actual : List SourceIndexArtifact) (chunks : List Chunk) (tables : List TableAsset)
    (m : SourceManifest) where
  validate_artifacts→Representable :
      validate_artifacts actual chunks tables m ≡ none → Representable actual chunks tables m
  unfolding validate_artifacts
  validate_artifacts→Representable h = record {
    declared = is_subset-In actual m.ingestion_policy.index_artifacts (ground arith);
    represented = ground arith;
    no_raw_rows = ground arith;
  }

  Representable→validate_artifacts :
      Representable actual chunks tables m → validate_artifacts actual chunks tables m ≡ none
  unfolding validate_artifacts
  Representable→validate_artifacts r =
      ground (arith, In-is_subset actual m.ingestion_policy.index_artifacts r.declared)

-- All that the gate asks, as a statement with no order of tests.
pub record Publishable (doc : DocumentRevision) (chunks : List Chunk) (images : List ImageAsset)
    (tables : List TableAsset) (m : SourceManifest) : Type 0 where
  pub approved : doc.approval_status ≡ ApprovalStatus.approved
  pub scoped : given doc.access_scope_key ≡ true
  pub linked : (given doc.source_id ≡ true) × (given doc.source_manifest_version ≡ true)
  pub agrees : Agrees doc m
  pub representable : Representable (actual_artifacts doc chunks images) chunks tables m

or_else-none : (a b : Option Code) → or_else a b ≡ none → (a ≡ none) × (b ≡ none)
or_else-none a b h = ground arith

module _ (doc : DocumentRevision) (chunks : List Chunk) (images : List ImageAsset)
    (tables : List TableAsset) where
  validate_found→ :
      (manifest : Option SourceManifest)
      → validate_found doc chunks images tables manifest ≡ none
      → (m : SourceManifest) × (manifest ≡ some m)
        × Agrees doc m
        × Representable (actual_artifacts doc chunks images) chunks tables m
  unfolding validate_found
  validate_found→ none h = absurd (cc)
  validate_found→ (some m) h =
      let (p, q) = or_else-none _ _ h in
      (
        m,
        refl,
        validate_manifest→Agrees doc m p,
        validate_artifacts→Representable (actual_artifacts doc chunks images) chunks tables m q,
      )

  validate_found→none :
      (m : SourceManifest)
      → Agrees doc m
      → Representable (actual_artifacts doc chunks images) chunks tables m
      → validate_found doc chunks images tables (some m) ≡ none
  unfolding validate_found
  validate_found→none m a r = ground (
    arith,
    Agrees→validate_manifest doc m a,
    Representable→validate_artifacts (actual_artifacts doc chunks images) chunks tables m r,
  )

  -- The gate raises no error exactly when the document is approved, scoped and linked to a manifest
  -- that was found and approved, agrees with it in scope, dataset version, license, redistribution
  -- and hashes, both reviews being done, and has no representation that the manifest does not let
  -- in.
  pub validate_publication_governance_iff :
      (manifest : Option SourceManifest)
      → (validate_publication_governance doc chunks images tables manifest ≡ none)
        ↔ ((m : SourceManifest) × (manifest ≡ some m) × Publishable doc chunks images tables m)
  unfolding validate_publication_governance
  validate_publication_governance_iff manifest = (
    λ h.
        let (m, e, a, r) = validate_found→ manifest (ground arith) in
        (
          m,
          e,
          record {
            approved = ground arith;
            scoped = ground arith;
            linked = (ground arith, ground arith);
            agrees = a;
            representable = r;
          },
        ),
    λ h.
        let (m, e, p) = h in
        ground (
          arith,
          e,
          validate_found→none m p.agrees p.representable,
          p.approved,
          p.scoped,
          p.linked,
        ),
  )
