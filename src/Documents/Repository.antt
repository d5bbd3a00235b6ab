-- ===== src/Documents/Repository.antt =====
-- `DemoKnowledgeDocumentRepository` (semikb/storage/knowledge_documents.py): revision bundles, the
-- operation records with their request ids, and the claims of the workers. The objects of a bundle
-- are those of the store, so a write to them is a write to the store.
pub mod Consistency
use semiconductor_agent_know.Base.{
  ℕ, String, Bool, true, false, not, ◌&&◌, ◌||◌, Option, none, some, List, [], ◌∷◌, ◌++◌, ◌==◌,
  contains, filter, length, is_empty, if◌then◌else◌, string_eq, pair_eq, option_eq,
}
use semiconductor_agent_know.Base.Dict.{Dict, values, lookup, insert, erase}
use semiconductor_agent_know.Base.Result.{Result, ok, err, Exec, pure, raise, ◌>>=◌, ◌>>◌}
use semiconductor_agent_know.Documents.Kinds.{
  DocumentLifecycle, DocumentLifecycleAction, DocumentLifecycleOperationStatus, CompensationStatus,
  lifecycle_eq, action_eq,
}
use semiconductor_agent_know.Documents.Model.{
  DocumentRevision, Chunk, ImageAsset, TableAsset, DocumentRevisionSelector, SourceManifest,
}
use semiconductor_agent_know.Documents.Codes.{Code, Failure}
use semiconductor_agent_know.Documents.Store.{Store, belongs, set_revision, publish_records}

pub record RevisionBundle : Type 0 where
  pub document : DocumentRevision
  pub chunks : List Chunk
  pub images : List ImageAsset
  pub tables : List TableAsset

pub record AffectedRecordCounts : Type 0 where
  pub documents : ℕ
  pub chunks : ℕ
  pub images : ℕ
  pub tables : ℕ
  pub vectors : ℕ

abbrev pub counts : RevisionBundle → AffectedRecordCounts
counts b = record {
  documents = 1;
  chunks = length b.chunks;
  images = length b.images;
  tables = length b.tables;
  vectors = length b.chunks;
}

pub record Operation : Type 0 where
  pub operation_id : String
  pub request_id : String
  pub action : DocumentLifecycleAction
  pub status : DocumentLifecycleOperationStatus
  pub selector : DocumentRevisionSelector
  pub actor_user_id : String
  pub reason : String
  pub before_lifecycle : DocumentLifecycle
  pub after_lifecycle : Option DocumentLifecycle
  pub target_index_version : Option String
  pub affected : AffectedRecordCounts
  pub compensation_status : CompensationStatus
  pub warning_codes : List Code
  pub created_at : ℕ
  pub updated_at : ℕ
  pub completed_at : Option ℕ

pub data AuditPhase : Type 0 where
  requested completed compensation_required failed : AuditPhase

-- An audit event: its type is the action with the phase, its details are those of the operation.
pub record AuditEvent : Type 0 where
  pub phase : AuditPhase
  pub operation : Operation

pub record Repository : Type 0 where
  pub store : Store
  pub operations : Dict String Operation
  pub request_ids : Dict String String
  pub operation_claims : Dict String String
  pub audit_events : List AuditEvent

abbrev pub Action : Type 0 → Type 0
Action A = Exec Failure Repository A

unfoldable pub get_bundle : DocumentRevisionSelector → Store → Option RevisionBundle
get_bundle sel s = elim (lookup (sel.document_id, sel.revision) s.documents) [
  | none ↦ none
  | some doc ↦ some (record {
    document = doc;
    chunks =
        filter (λ c. belongs sel.document_id sel.revision c.document_id c.revision)
          (values s.chunks);
    images =
        filter (λ i. belongs sel.document_id sel.revision i.document_id i.revision)
          (values s.images);
    tables =
        filter (λ t. belongs sel.document_id sel.revision t.document_id t.revision)
          (values s.tables);
  })
]

abbrev pub same_selector : DocumentRevisionSelector → DocumentRevisionSelector → Bool
same_selector a b = (a.document_id == b.document_id) && (a.revision == b.revision)

-- `_operation_identity(a) == _operation_identity(b)`
abbrev pub same_identity : Operation → Operation → Bool
same_identity a b =
    (a.action == b.action)
    && (same_selector a.selector b.selector
        && ((a.actor_user_id == b.actor_user_id)
            && ((a.reason == b.reason) && (a.target_index_version == b.target_index_version))))

unfoldable pub get_operation : String → Repository → Option Operation
get_operation id r = lookup id r.operations

unfoldable pub get_operation_by_request_id : String → Repository → Option Operation
unfolding get_operation
get_operation_by_request_id request r = elim (lookup request r.request_ids) [
  | none ↦ none
  | some id ↦ get_operation id r
]

unfoldable pub create_operation : Operation → Action Operation
unfolding get_operation
create_operation op r = elim (lookup op.request_id r.request_ids) [
  | none ↦ (
    ok op,
    record r {
      operations = insert op.operation_id op r.operations;
      request_ids = insert op.request_id op.operation_id r.request_ids;
    },
  )
  | some id ↦ elim (get_operation id r) [
    | none ↦ (err Failure.key_error, r)
    | some existing ↦
        if same_identity existing op then (ok existing, r) else (err Failure.request_conflict, r)
  ]
]

unfoldable pub save_operation : Operation → Action Operation
unfolding get_operation
save_operation op r = elim (get_operation op.operation_id r) [
  | none ↦ (err Failure.key_error, r)
  | some _ ↦ (ok op, record r { operations = insert op.operation_id op r.operations })
]

-- `owner not in {None, execution_id}`
abbrev pub held_by_other : Option String → String → Bool
held_by_other none _ = false
held_by_other (some owner) execution_id = not (owner == execution_id)

unfoldable pub claim_operation : String → String → Action Bool
unfolding get_operation
claim_operation id execution_id r = elim (get_operation id r) [
  | none ↦ (err Failure.key_error, r)
  | some _ ↦
      if held_by_other (lookup id r.operation_claims) execution_id
      then (ok false, r)
      else (ok true, record r { operation_claims = insert id execution_id r.operation_claims })
]

unfoldable pub release_operation : String → String → Repository → Repository
release_operation id execution_id r =
    if lookup id r.operation_claims == some execution_id
    then record r { operation_claims = erase id r.operation_claims }
    else r

abbrev pub unexpected : Option DocumentLifecycle → DocumentLifecycle → Bool
unexpected none _ = false
unexpected (some expected) actual = not (actual == expected)

unfoldable pub block_revision :
    DocumentRevisionSelector → Option DocumentLifecycle → Action (Unit {0})
block_revision sel expected r = elim (lookup (sel.document_id, sel.revision) r.store.documents) [
  | none ↦ (err Failure.revision_conflict, r)
  | some doc ↦ if unexpected expected doc.lifecycle then (err Failure.revision_conflict, r) else (
    ok tt,
    record r {
      store = set_revision sel.document_id sel.revision doc DocumentLifecycle.withdrawn r.store;
    },
  )
]

unfoldable pub publish_revision : DocumentRevisionSelector → String → Action (Unit {0})
publish_revision sel version r = elim (lookup (sel.document_id, sel.revision) r.store.documents) [
  | none ↦ (err Failure.revision_conflict, r)
  | some doc ↦
      if not (doc.lifecycle == DocumentLifecycle.withdrawn)
      then (err Failure.revision_conflict, r)
      else (
        ok tt,
        record r { store = publish_records sel.document_id sel.revision doc version r.store },
      )
]

unfoldable pub append_audit : AuditEvent → Repository → Repository
append_audit e r = record r { audit_events = r.audit_events ++ e ∷ [] }
