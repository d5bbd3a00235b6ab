-- ===== src/Documents/Worker.antt =====
-- The worker's side of `KnowledgeDocumentLifecycleService` (document_lifecycle.py): a claimed
-- operation is run to its end, and a failed one is prepared for another run.
pub mod Claims
mod Restore
pub mod Outcome
pub mod Withdrawal
use semiconductor_agent_know.Base.{
  ℕ, zero, suc, String, Bool, true, false, not, ◌&&◌, ◌||◌, Option, none, some, List, [], ◌∷◌, ◌++◌,
  map, ◌==◌, contains, truthy, ltb, leb, eqb, length, is_empty, any, take, drop, if◌then◌else◌,
  string_eq, pair_eq, option_eq,
}
use semiconductor_agent_know.Base.Dict.{lookup}
use semiconductor_agent_know.Base.Result.{
  Result, ok, err, Exec, pure, raise, raise_if, or_raise, gets, ◌>>=◌, ◌>>◌,
}
use semiconductor_agent_know.Documents.Kinds.{
  ApprovalStatus, DocumentLifecycle, DocumentLifecycleAction, DocumentLifecycleOperationStatus,
  CompensationStatus, approval_eq, lifecycle_eq, action_eq,
}
use semiconductor_agent_know.Documents.Model.{
  ActorScope, ObjectRef, DocumentRevision, Chunk, DocumentRevisionSelector, SourceManifest,
}
use semiconductor_agent_know.Documents.Codes.{Code, Failure, warning_code, same_code}
use semiconductor_agent_know.Documents.Store.{Store, holds, expired_by}
use semiconductor_agent_know.Documents.Governance.{validate_publication_governance}
use semiconductor_agent_know.Documents.Repository.{
  RevisionBundle, counts, Operation, AuditPhase, AuditEvent, Repository, same_selector, get_bundle,
  get_operation, get_operation_by_request_id, create_operation, save_operation, claim_operation,
  release_operation, block_revision, publish_revision, append_audit,
}
use semiconductor_agent_know.Documents.Lifecycle.{or_configured}
use semiconductor_agent_know.Documents.Service.{
  Services, State, Action, repo, index, lift, failed_with, plain, is_terminal, needs_retry, save,
  audit, require_compensation, fail_validation, complete,
}
use semiconductor_agent_know.Documents.Restoration.{
  validate_restore_bundle, cleanup, reblock_after_restore_failure, staged_copy, project,
}

module _ {V E : Type 0} (env : Services V E) (now : ℕ) where
  unfoldable pub process_withdrawal : Operation → Action V Operation
  process_withdrawal op s = elim (get_bundle op.selector s.repository.store) [
    | none ↦ fail_validation now op Code.revision_not_found s
    | some b ↦
        if not (b.document.lifecycle == DocumentLifecycle.withdrawn)
        then fail_validation now op Code.revision_not_blocked s
        else (let (r, t) =
              cleanup env b.document.index_version (map (λ c. c.chunk_id) b.chunks) s in
            elim r [
              | err e ↦ require_compensation now op e t
              | ok _ ↦
                  complete now op DocumentLifecycleOperationStatus.withdrawn
                    DocumentLifecycle.withdrawn t
            ])
  ]

  unfoldable pub project_or_reblock : Operation → String → List Chunk → Action V Operation
  project_or_reblock op version chunks s =
      let (r, t) = project env op version chunks s in
      elim r [
        | err e ↦
            require_compensation now op e (reblock_after_restore_failure env op version chunks t)
        | ok _ ↦
            complete now op DocumentLifecycleOperationStatus.restored DocumentLifecycle.published t
      ]

  unfoldable pub restore_validated : Operation → RevisionBundle → Action V Operation
  restore_validated op b = do
    op' ← save now op DocumentLifecycleOperationStatus.restore_indexing plain
    let version = or_configured env.milvus_index_version op.target_index_version
    project_or_reblock op' version (map (staged_copy env version) b.chunks)

  abbrev pub failed_validation : Operation → Failure → Action V Operation
  failed_validation op (Failure.validation c) = fail_validation now op c
  failed_validation op e = raise e

  unfoldable pub process_restore : Operation → Action V Operation
  process_restore op s = elim (get_bundle op.selector s.repository.store) [
    | none ↦ fail_validation now op Code.revision_not_found s
    | some b ↦ elim (validate_restore_bundle env now b op.target_index_version s.repository.store) [
      | err e ↦ failed_validation op e s
      | ok _ ↦ restore_validated op b s
    ]
  ]

  unfoldable pub dispatch : DocumentLifecycleAction → Operation → Action V Operation
  dispatch DocumentLifecycleAction.withdraw op = process_withdrawal op
  dispatch DocumentLifecycleAction.restore op = process_restore op

  -- The `try` of `process`, under the claim.
  unfoldable pub run_claimed : String → Action V Operation
  run_claimed id s = elim (get_operation id s.repository) [
    | none ↦ (err Failure.key_error, s)
    | some op ↦ if is_terminal op.status then (ok op, s) else dispatch op.action op s
  ]

  -- Its `finally`: the claim is released whether the run returns or raises.
  abbrev released :
      String → String → Result Failure Operation × State V → Result Failure Operation × State V
  released id owner (r, s) = (r, record s { repository = release_operation id owner s.repository })

  unfoldable pub claim_and_run : String → String → Action V Operation
  claim_and_run id owner = do
    claimed ← repo (claim_operation id owner)
    if claimed then (λ s. released id owner (run_claimed id s)) else (do
      current ← gets (λ s. get_operation id s.repository)
      or_raise current Failure.key_error)

  unfoldable pub process : String → String → Action V Operation
  process id owner s = elim (get_operation id s.repository) [
    | none ↦ (err Failure.key_error, s)
    | some op ↦ if is_terminal op.status then (ok op, s) else claim_and_run id owner s
  ]

abbrev pub retry_status : DocumentLifecycleAction → DocumentLifecycleOperationStatus
retry_status DocumentLifecycleAction.withdraw = DocumentLifecycleOperationStatus.vector_cleanup
retry_status DocumentLifecycleAction.restore = DocumentLifecycleOperationStatus.restore_validating

module _ {V : Type 0} (now : ℕ) where
  unfoldable pub prepare_retry : String → Action V Operation
  prepare_retry id = do
    op ← (λ s. or_raise (get_operation id s.repository) Failure.key_error s)
    if not (needs_retry op.status)
        then pure op
        else save now op (retry_status op.action)
            (record plain { compensation_status = some CompensationStatus.running })

  unfoldable pub mark_dispatch_failed : String → Action V Operation
  mark_dispatch_failed id = do
    op ← (λ s. or_raise (get_operation id s.repository) Failure.key_error s)
    save now op DocumentLifecycleOperationStatus.compensation_required (record plain {
      compensation_status = some CompensationStatus.pending;
      warning = some Code.task_queue_unavailable;
    })
