-- ===== src/Documents/Model.antt =====
-- The governed records of contracts/models.py: the fields that a modelled operation reads or writes.
-- A `datetime` is a number of ticks.
use semiconductor_agent_know.Base.{ℕ, String, Bool, Option, List}
use semiconductor_agent_know.Documents.Kinds.{
  ApprovalStatus, DocumentLifecycle, SourceManifestStatus, SourceLicenseStatus,
  RedistributionPolicy, SourceIndexArtifact, ChunkType,
}

pub record ActorScope : Type 0 where
  pub user_id : String
  pub roles : List String
  pub access_scope_keys : List String
  pub fabs : List String
  pub products : List String
  pub tool_ids : List String

pub record ObjectRef : Type 0 where
  pub bucket : String
  pub object_key : String
  pub sha256 : String

pub record SourceIngestionPolicy : Type 0 where
  pub raw_row_vectorization : Bool
  pub index_artifacts : List SourceIndexArtifact

pub record SourceManifest : Type 0 where
  pub source_id : String
  pub manifest_version : String
  pub status : SourceManifestStatus
  pub source_hash : String
  pub license_name : String
  pub license_status : SourceLicenseStatus
  pub redistribution_policy : RedistributionPolicy
  pub ingestion_policy : SourceIngestionPolicy
  pub dataset_version : String
  pub access_scope_key : String
  pub source_snapshot_ref : Option ObjectRef

pub record DocumentRevision : Type 0 where
  pub document_id : String
  pub revision : String
  pub approval_status : ApprovalStatus
  pub lifecycle : DocumentLifecycle
  pub effective_at : ℕ
  pub expires_at : Option ℕ
  pub source_hash : String
  pub source_ref : ObjectRef
  pub parsed_ref : Option ObjectRef
  pub source_license : String
  pub source_id : Option String
  pub source_manifest_version : Option String
  pub dataset_version : Option String
  pub source_license_status : Option SourceLicenseStatus
  pub redistribution_policy : Option RedistributionPolicy
  pub access_scope_key : Option String
  pub fab : Option String
  pub product : Option String
  pub tool_id : Option String
  pub index_version : String
  pub source_index_artifacts : List SourceIndexArtifact

pub record Chunk : Type 0 where
  pub chunk_id : String
  pub document_id : String
  pub revision : String
  pub chunk_type : ChunkType
  pub chunk_text : String
  pub approval_status : ApprovalStatus
  pub lifecycle : DocumentLifecycle
  pub effective_at : ℕ
  pub expires_at : Option ℕ
  pub access_scope_key : Option String
  pub fab : Option String
  pub product : Option String
  pub process_layer : Option String
  pub tool_id : Option String
  pub chamber : Option String
  pub recipe_id : Option String
  pub recipe_version : Option String
  pub image_ids : List String
  pub index_version : String

pub record ImageAsset : Type 0 where
  pub image_id : String
  pub document_id : String
  pub revision : String
  pub object_ref : ObjectRef
  pub caption : String
  pub access_scope_key : Option String
  pub approval_status : ApprovalStatus
  pub lifecycle : DocumentLifecycle
  pub effective_at : ℕ
  pub expires_at : Option ℕ

pub record TableAsset : Type 0 where
  pub table_id : String
  pub document_id : String
  pub revision : String
  pub object_ref : ObjectRef
  pub lifecycle : DocumentLifecycle

pub record DocumentRevisionSelector : Type 0 where
  pub document_id : String
  pub revision : String
