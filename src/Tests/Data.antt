-- ===== src/Tests/Data.antt =====
-- Test data: a withdrawn or published manual with one chunk, and services that answer.
use semiconductor_agent_know.Base.{ℕ, String, false, none, some, List, [], ◌∷◌, string_eq, pair_eq}
use semiconductor_agent_know.Base.Dict.{insert}
use semiconductor_agent_know.Base.Result.{Result, ok}
use semiconductor_agent_know.Documents.Kinds.{
  ApprovalStatus, DocumentLifecycle, SourceManifestStatus, SourceLicenseStatus,
  RedistributionPolicy, SourceIndexArtifact, ChunkType, DocumentLifecycleAction,
  DocumentLifecycleOperationStatus, CompensationStatus,
}
use semiconductor_agent_know.Documents.Model.{
  ActorScope, ObjectRef, SourceManifest, DocumentRevision, Chunk, DocumentRevisionSelector,
}
use semiconductor_agent_know.Documents.Store.{Store}
use semiconductor_agent_know.Documents.Repository.{RevisionBundle, Operation, counts}
use semiconductor_agent_know.Documents.Service.{Services, State}

abbrev pub tool_actor : ActorScope
tool_actor = record {
  user_id = "engineer";
  roles = "knowledge_admin" ∷ [];
  access_scope_keys = "fab-a" ∷ [];
  fabs = [];
  products = [];
  tool_ids = "etch-1" ∷ [];
}

abbrev pub source : ObjectRef
source = record { bucket = "raw"; object_key = "manual.pdf"; sha256 = "h1" }

abbrev pub manifest : SourceManifest
manifest = record {
  source_id = "vendor";
  manifest_version = "1";
  status = SourceManifestStatus.approved;
  source_hash = "h1";
  license_name = "internal";
  license_status = SourceLicenseStatus.verified;
  redistribution_policy = RedistributionPolicy.restricted;
  ingestion_policy = record {
    raw_row_vectorization = false;
    index_artifacts = SourceIndexArtifact.document_chunks ∷ [];
  };
  dataset_version = "2026-01";
  access_scope_key = "fab-a";
  source_snapshot_ref = some source;
}

abbrev pub manual : DocumentLifecycle → DocumentRevision
manual l = record {
  document_id = "manual";
  revision = "r1";
  approval_status = ApprovalStatus.approved;
  lifecycle = l;
  effective_at = 10;
  expires_at = some 90;
  source_hash = "h1";
  source_ref = source;
  parsed_ref = none;
  source_license = "internal";
  source_id = some "vendor";
  source_manifest_version = some "1";
  dataset_version = some "2026-01";
  source_license_status = some SourceLicenseStatus.verified;
  redistribution_policy = some RedistributionPolicy.restricted;
  access_scope_key = some "fab-a";
  fab = none;
  product = none;
  tool_id = none;
  index_version = "v1";
  source_index_artifacts = [];
}

abbrev pub step_text : DocumentLifecycle → Chunk
step_text l = record {
  chunk_id = "c1";
  document_id = "manual";
  revision = "r1";
  chunk_type = ChunkType.text;
  chunk_text = "Vent the chamber.";
  approval_status = ApprovalStatus.approved;
  lifecycle = l;
  effective_at = 10;
  expires_at = none;
  access_scope_key = some "fab-a";
  fab = none;
  product = none;
  process_layer = none;
  tool_id = some "etch-1";
  chamber = none;
  recipe_id = none;
  recipe_version = none;
  image_ids = "i1" ∷ [];
  index_version = "v1";
}

abbrev pub shelf : DocumentLifecycle → Store
shelf l = record {
  documents = insert ("manual", "r1") (manual l) [];
  chunks = insert "c1" (step_text l) [];
  images = [];
  tables = [];
  source_manifests = insert ("vendor", "1") manifest [];
}

abbrev pub bundle : DocumentLifecycle → RevisionBundle
bundle l = record { document = manual l; chunks = step_text l ∷ []; images = []; tables = [] }

abbrev pub selector : DocumentRevisionSelector
selector = record { document_id = "manual"; revision = "r1" }

abbrev pub retained : ObjectRef → Result String (List ℕ)
retained ref = ok (7 ∷ 7 ∷ [])

abbrev pub fingerprint : List ℕ → String
fingerprint [] = "h0"
fingerprint (_ ∷ _) = "h1"

-- The vectors of an index are the versions that were activated; the encoder answers with the texts.
abbrev pub services : Services (List String) String
services = record {
  upsert_chunks = λ cs es l v. (ok tt, v);
  delete_chunks = λ version ids v. (ok tt, v);
  verify_chunks_absent = λ version ids v. (ok tt, v);
  activate_alias = λ version v. (ok tt, version ∷ v);
  encode = λ texts. ok texts;
  load_object = retained;
  sha256 = fingerprint;
  milvus_index_version = "v2";
  embedding_batch_size = 1;
}

abbrev pub operation : DocumentLifecycleAction → DocumentLifecycleOperationStatus → Operation
operation a status = record {
  operation_id = "op1";
  request_id = "req1";
  action = a;
  status = status;
  selector = selector;
  actor_user_id = "engineer";
  reason = "superseded step";
  before_lifecycle = DocumentLifecycle.published;
  after_lifecycle = none;
  target_index_version = some "v2";
  affected = counts (bundle DocumentLifecycle.withdrawn);
  compensation_status = CompensationStatus.not_required;
  warning_codes = [];
  created_at = 20;
  updated_at = 20;
  completed_at = none;
}

abbrev pub idle : DocumentLifecycle → State (List String)
idle l = record {
  repository = record {
    store = shelf l;
    operations = [];
    request_ids = [];
    operation_claims = [];
    audit_events = [];
  };
  vectors = [];
}
