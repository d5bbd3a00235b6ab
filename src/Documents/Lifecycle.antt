-- ===== src/Documents/Lifecycle.antt =====
-- `KnowledgeDocumentLifecycleService` (semikb/rag_ingestion/document_lifecycle.py): controlled
-- withdrawal and restoration of a revision. The store is authoritative, and the vector index is a
-- projection behind an interface.
mod Blocking
pub mod Requests
use semiconductor_agent_know.Base.{
  ℕ, zero, suc, String, Bool, true, false, not, ◌&&◌, ◌||◌, Option, none, some, List, [], ◌∷◌, ◌++◌,
  map, ◌==◌, contains, truthy, ltb, leb, eqb, length, is_empty, any, take, drop, if◌then◌else◌,
  string_eq, option_eq,
}
use semiconductor_agent_know.Base.Dict.{lookup}
use semiconductor_agent_know.Base.Result.{
  Result, ok, err, Exec, pure, raise, raise_if, or_raise, gets, ◌>>=◌, ◌>>◌,
}
use semiconductor_agent_know.Documents.Kinds.{
  ApprovalStatus, DocumentLifecycle, DocumentLifecycleAction, DocumentLifecycleOperationStatus,
  CompensationStatus, approval_eq, lifecycle_eq, action_eq,
}
use semiconductor_agent_know.Documents.Model.{
  ActorScope, ObjectRef, DocumentRevision, Chunk, DocumentRevisionSelector, SourceManifest,
}
use semiconductor_agent_know.Documents.Codes.{Code, Failure, warning_code, same_code}
use semiconductor_agent_know.Documents.Store.{Store, holds, expired_by}
use semiconductor_agent_know.Documents.Governance.{validate_publication_governance}
use semiconductor_agent_know.Documents.Repository.{
  RevisionBundle, counts, Operation, AuditPhase, AuditEvent, Repository, same_selector, get_bundle,
  get_operation, get_operation_by_request_id, create_operation, save_operation, claim_operation,
  release_operation, block_revision, publish_revision, append_audit,
}
use semiconductor_agent_know.Documents.Service.{
  Services, State, Action, repo, index, lift, failed_with, plain, is_terminal, needs_retry, save,
  audit, require_compensation, fail_validation, complete,
}

module _ {V : Type 0} where
  unfoldable pub authorized_bundle : DocumentRevisionSelector → ActorScope → Action V RevisionBundle
  authorized_bundle sel actor s = elim (get_bundle sel s.repository.store) [
    | none ↦ (err Failure.key_error, s)
    | some b ↦
        if not (contains actor.roles "admin")
          && not (holds actor.access_scope_keys b.document.access_scope_key)
        then (err Failure.permission_error, s)
        else (ok b, s)
  ]

-- The five values that identify a request.
pub record Request : Type 0 where
  pub request_id : String
  pub action : DocumentLifecycleAction
  pub selector : DocumentRevisionSelector
  pub actor_user_id : String
  pub reason : String
  pub target_index_version : Option String

unfoldable pub is_request : Operation → Request → Bool
is_request op q =
    (op.action == q.action)
    && (same_selector op.selector q.selector
        && ((op.actor_user_id == q.actor_user_id)
            && ((op.reason == q.reason) && (op.target_index_version == q.target_index_version))))

unfoldable pub validate_idempotent_request : Operation → Request → Result Failure Operation
validate_idempotent_request existing q =
    if is_request existing q then ok existing else err Failure.request_conflict

-- The operation record that a request creates, under a fresh id.
abbrev pub candidate :
    ℕ → String → Request → DocumentLifecycleOperationStatus → RevisionBundle → Operation
candidate now id q status b = record {
  operation_id = id;
  request_id = q.request_id;
  action = q.action;
  status = status;
  selector = q.selector;
  actor_user_id = q.actor_user_id;
  reason = q.reason;
  before_lifecycle = b.document.lifecycle;
  after_lifecycle = none;
  target_index_version = q.target_index_version;
  affected = counts b;
  compensation_status = CompensationStatus.not_required;
  warning_codes = [];
  created_at = now;
  updated_at = now;
  completed_at = none;
}

abbrev pub or_configured : String → Option String → String
or_configured configured none = configured
or_configured configured (some v) = if truthy v then v else configured

abbrev pub withdrawal : DocumentRevisionSelector → String → String → ActorScope → Request
withdrawal sel request_id reason actor = record {
  request_id = request_id;
  action = DocumentLifecycleAction.withdraw;
  selector = sel;
  actor_user_id = actor.user_id;
  reason = reason;
  target_index_version = none;
}

abbrev pub restoration : DocumentRevisionSelector → String → String → ActorScope → String → Request
restoration sel request_id reason actor version = record {
  request_id = request_id;
  action = DocumentLifecycleAction.restore;
  selector = sel;
  actor_user_id = actor.user_id;
  reason = reason;
  target_index_version = some version;
}

module _ {V : Type 0} (now : ℕ) (id : String) where
  -- The `try` of `request_withdrawal`: a block that is refused marks the operation and is raised again.
  unfoldable pub block_or_fail : Operation → Action V Operation
  block_or_fail op s =
      let (r, t) = repo (block_revision op.selector (some DocumentLifecycle.published)) s in
      elim r [
        | ok _ ↦
            save now op DocumentLifecycleOperationStatus.vector_cleanup
              (record plain { after_lifecycle = some DocumentLifecycle.withdrawn }) t
        | err e ↦
            (save now op DocumentLifecycleOperationStatus.failed
                  (record plain { warning = some Code.mongodb_blocking_failed; completed = true })
                >> raise e)
              t
      ]

  -- A recorded withdrawal is audited, marked as blocking, and blocks the revision.
  unfoldable pub block_operation : Operation → Action V Operation
  block_operation op = do
    audit AuditPhase.requested op
    op' ← save now op DocumentLifecycleOperationStatus.blocking plain
    block_or_fail op'

  -- A fresh operation goes on; one that was there already answers the request.
  unfoldable pub fresh_or_existing : Operation → Request → Action V Operation → Action V Operation
  fresh_or_existing op q m =
      if op.operation_id == id then m else lift (validate_idempotent_request op q)

  unfoldable pub begin_withdrawal : Request → ActorScope → Action V Operation
  unfolding authorized_bundle fresh_or_existing validate_idempotent_request
  begin_withdrawal q actor = do
    bundle ← authorized_bundle q.selector actor
    raise_if (not (bundle.document.lifecycle == DocumentLifecycle.published)) Failure.state_conflict
    op ←
        repo
          (create_operation (candidate now id q DocumentLifecycleOperationStatus.requested bundle))
    fresh_or_existing op q (block_operation op)

  unfoldable pub begin_restore : Request → ActorScope → Action V Operation
  unfolding authorized_bundle fresh_or_existing validate_idempotent_request
  begin_restore q actor = do
    bundle ← authorized_bundle q.selector actor
    raise_if (not (bundle.document.lifecycle == DocumentLifecycle.withdrawn)) Failure.state_conflict
    op ← repo (
        create_operation
          (candidate now id q DocumentLifecycleOperationStatus.restore_validating bundle))
    fresh_or_existing op q do audit AuditPhase.requested op; pure op

  -- A request id that is known answers with its operation, and changes nothing.
  unfoldable pub known_or_begin : Request → Action V Operation → Action V Operation
  unfolding validate_idempotent_request
  known_or_begin q m s = elim (get_operation_by_request_id q.request_id s.repository) [
    | none ↦ m s
    | some existing ↦ (validate_idempotent_request existing q, s)
  ]

  unfoldable pub request_withdrawal :
      DocumentRevisionSelector → String → String → ActorScope → Action V Operation
  unfolding known_or_begin begin_withdrawal
  request_withdrawal sel request_id reason actor =
      let q = withdrawal sel request_id reason actor in known_or_begin q (begin_withdrawal q actor)

  -- `target or self.settings.milvus_index_version`, which must be the configured version.
  unfoldable pub request_restore :
      String
      → DocumentRevisionSelector
      → String
      → String
      → Option String
      → ActorScope
      → Action V Operation
  unfolding known_or_begin begin_restore
  request_restore configured sel request_id reason target actor =
      let version = or_configured configured target in
      let q = restoration sel request_id reason actor version in
      raise_if (not (version == configured)) Failure.inactive_target
      >> known_or_begin q (begin_restore q actor)
