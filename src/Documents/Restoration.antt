-- ===== src/Documents/Restoration.antt =====
-- The parts of a restoration (document_lifecycle.py): the embeddings, the checks of the bundle and of
-- its retained objects, the projection to the vector index and the way back after a failure.
pub mod Encode
pub mod Checks
use semiconductor_agent_know.Base.{
  ℕ, zero, suc, String, Bool, true, false, not, ◌&&◌, ◌||◌, Option, none, some, List, [], ◌∷◌, ◌++◌,
  map, ◌==◌, contains, truthy, ltb, leb, eqb, length, is_empty, any, take, drop, if◌then◌else◌,
  string_eq, pair_eq, option_eq,
}
use semiconductor_agent_know.Base.Dict.{lookup}
use semiconductor_agent_know.Base.Result.{
  Result, ok, err, Exec, pure, raise, raise_if, or_raise, gets, ◌>>=◌, ◌>>◌,
}
use semiconductor_agent_know.Documents.Kinds.{
  ApprovalStatus, DocumentLifecycle, DocumentLifecycleAction, DocumentLifecycleOperationStatus,
  CompensationStatus, approval_eq, lifecycle_eq, action_eq,
}
use semiconductor_agent_know.Documents.Model.{
  ActorScope, ObjectRef, DocumentRevision, Chunk, DocumentRevisionSelector, SourceManifest,
}
use semiconductor_agent_know.Documents.Codes.{Code, Failure, warning_code, same_code}
use semiconductor_agent_know.Documents.Store.{Store, holds, expired_by}
use semiconductor_agent_know.Documents.Governance.{validate_publication_governance}
use semiconductor_agent_know.Documents.Repository.{
  RevisionBundle, counts, Operation, AuditPhase, AuditEvent, Repository, same_selector, get_bundle,
  get_operation, get_operation_by_request_id, create_operation, save_operation, claim_operation,
  release_operation, block_revision, publish_revision, append_audit,
}
use semiconductor_agent_know.Documents.Lifecycle.{or_configured}
use semiconductor_agent_know.Documents.Service.{
  Services, State, Action, repo, index, lift, failed_with, plain, is_terminal, needs_retry, save,
  audit, require_compensation, fail_validation, complete,
}

module _ {V E : Type 0} (env : Services V E) where
  open env use {
    upsert_chunks, delete_chunks, verify_chunks_absent, activate_alias, encode, load_object, sha256,
    milvus_index_version, embedding_batch_size,
  }

  abbrev pub extend : List E → Result String (List E) → Result String (List E)
  extend es (ok fs) = ok (es ++ fs)
  extend es (err w) = err w

  abbrev pub after_batch : Result String (List E) → Result String (List E) → Result String (List E)
  after_batch (ok es) rest = extend es rest
  after_batch (err w) rest = err w

  -- The loop of `_encode` over the offsets, as a loop over what is left of the texts.
  unfoldable pub encode_from : ℕ → List String → Result String (List E)
  encode_from zero texts = ok []
  encode_from (suc fuel) [] = ok []
  encode_from (suc fuel) (t ∷ texts) =
      after_batch (encode (take embedding_batch_size (t ∷ texts)))
        (encode_from fuel (drop embedding_batch_size (t ∷ texts)))

  abbrev pub check_rows : ℕ → Result String (List E) → Result Failure (List E)
  check_rows n (err w) = err (Failure.external w)
  check_rows n (ok es) = if eqb (length es) n then ok es else err Failure.row_count

  unfoldable pub encode_chunks : List Chunk → Result Failure (List E)
  unfolding encode_from
  encode_chunks chunks =
      check_rows (length chunks) (encode_from (length chunks) (map (λ c. c.chunk_text) chunks))

  abbrev pub content_fault : Result String (List ℕ) → ObjectRef → Option Code
  content_fault (err w) ref = some Code.retained_object_missing
  content_fault (ok content) ref =
      if sha256 content == ref.sha256 then none else some Code.retained_object_hash_mismatch

  -- `_validate_object`
  unfoldable pub object_fault : ObjectRef → Option Code
  object_fault ref = content_fault (load_object ref) ref

  unfoldable pub objects_fault : List ObjectRef → Option Code
  unfolding object_fault
  objects_fault [] = none
  objects_fault (ref ∷ refs) =
      let rest = objects_fault refs in elim (object_fault ref) [ some c ↦ some c | none ↦ rest ]

  abbrev pub parsed_refs : Option ObjectRef → List ObjectRef
  parsed_refs none = []
  parsed_refs (some ref) = ref ∷ []

  abbrev pub references : RevisionBundle → List ObjectRef
  references b =
      b.document.source_ref
      ∷ (parsed_refs b.document.parsed_ref
          ++ (map (λ i. i.object_ref) b.images ++ map (λ t. t.object_ref) b.tables))

  abbrev pub check_source : Result String (List ℕ) → DocumentRevision → Result Failure (Unit {0})
  check_source (err w) doc = err (Failure.external w)
  check_source (ok content) doc =
      if sha256 content == doc.source_hash
      then ok tt
      else err (Failure.validation Code.source_hash_mismatch)

  -- The checks of the retained objects, which follow those of the metadata.
  unfoldable pub validate_objects : RevisionBundle → Result Failure (Unit {0})
  unfolding objects_fault
  validate_objects b = elim (objects_fault (references b)) [
    | some c ↦ err (Failure.validation c)
    | none ↦ check_source (load_object b.document.source_ref) b.document
  ]

  unfoldable pub manifest_of : DocumentRevision → Store → Option SourceManifest
  manifest_of doc s = elim doc.source_id [
    | none ↦ none
    | some id ↦ elim doc.source_manifest_version [
      | none ↦ none
      | some version ↦
          if truthy id && truthy version then lookup (id, version) s.source_manifests else none
    ]
  ]

  unfoldable pub validate_restore_bundle :
      ℕ → RevisionBundle → Option String → Store → Result Failure (Unit {0})
  unfolding validate_objects manifest_of
  validate_restore_bundle now b target s =
      if not (b.document.lifecycle == DocumentLifecycle.withdrawn)
      then err (Failure.validation Code.revision_not_withdrawn)
      else if not (b.document.approval_status == ApprovalStatus.approved)
      then err (Failure.validation Code.revision_not_approved)
      else if ltb now b.document.effective_at
      then err (Failure.validation Code.revision_not_yet_effective)
      else if expired_by now b.document.expires_at
      then err (Failure.validation Code.revision_expired)
      else if is_empty b.chunks
      then err (Failure.validation Code.revision_has_no_chunks)
      else if not (target == some milvus_index_version)
      then err (Failure.validation Code.target_index_version_inactive)
      else elim (validate_publication_governance b.document b.chunks b.images b.tables
          (manifest_of b.document s)) [
            | some c ↦ err (Failure.validation c)
            | none ↦ validate_objects b
          ]

  unfoldable pub cleanup : String → List String → Action V (Unit {0})
  cleanup version ids = do
    index (delete_chunks version ids)
    index (verify_chunks_absent version ids)

  -- Each `try: … except Exception: pass` keeps what was written and drops the exception.
  unfoldable pub reblock_after_restore_failure : Operation → String → List Chunk → State V → State V
  unfolding cleanup
  reblock_after_restore_failure op version chunks s =
      (cleanup version (map (λ c. c.chunk_id) chunks)
        (repo (block_revision op.selector none) s).1).1

  abbrev pub staged_copy : String → Chunk → Chunk
  staged_copy version c = record c { index_version = version; lifecycle = DocumentLifecycle.staged }

  -- The `try` of `_process_restore`.
  unfoldable pub project : Operation → String → List Chunk → Action V (Unit {0})
  unfolding encode_chunks
  project op version chunks = do
    embeddings ← lift (encode_chunks chunks)
    index (upsert_chunks chunks embeddings DocumentLifecycle.staged)
    repo (publish_revision op.selector version)
    index (upsert_chunks chunks embeddings DocumentLifecycle.published)
    index (activate_alias version)
