-- ===== src/Tests/Lifecycle.antt =====
-- The operations of the document lifecycle on one revision with one chunk.
use semiconductor_agent_know.Base.{
  String, false, ◌≡◌, ◌≢◌, refl, ◌⊎◌, none, some, List, [], ◌∷◌, In, here, there, ==_iff, ap, ◌∙◌,
  inl, inr, option_eq, arith, string_eq, pair_eq,
}
use semiconductor_agent_know.Base.Dict.{
  lookup, insert, lookup-insert_self, lookup-empty, insert-found,
}
use semiconductor_agent_know.Base.Result.{Result, ok, err}
use semiconductor_agent_know.Documents.Kinds.{
  DocumentLifecycle, DocumentLifecycleAction, DocumentLifecycleOperationStatus,
}
use semiconductor_agent_know.Documents.Model.{DocumentRevision, Chunk}
use semiconductor_agent_know.Documents.Codes.{Failure}
use semiconductor_agent_know.Documents.Store.{set_revision}
use semiconductor_agent_know.Documents.Store.Access.{Hidden, set_revision_hides}
use semiconductor_agent_know.Documents.Repository.{Operation, get_bundle}
use semiconductor_agent_know.Documents.Service.{State}
use semiconductor_agent_know.Documents.Lifecycle.{
  request_withdrawal, known_or_begin, begin_withdrawal, authorized_bundle, block_operation,
  block_or_fail, fresh_or_existing,
}
use semiconductor_agent_know.Documents.Lifecycle.Requests.{
  request_withdrawal_hides, request_withdrawal_twice,
}
use semiconductor_agent_know.Documents.Repository.{
  create_operation, save_operation, get_operation, get_operation_by_request_id, block_revision,
  append_audit, held_by_other,
}
use semiconductor_agent_know.Documents.Repository.Consistency.{Consistent}
use semiconductor_agent_know.Documents.Service.{save, audit}
use semiconductor_agent_know.Documents.Worker.{process, process_restore, process_withdrawal}
use semiconductor_agent_know.Documents.Worker.Outcome.{Restored, process_restore_lem}
use semiconductor_agent_know.Documents.Worker.Withdrawal.{Reports, cleaned, process_withdrawal_lem}
use semiconductor_agent_know.Documents.Worker.Claims.{process_releases}
use semiconductor_agent_know.Tests.Data.{
  tool_actor, manual, shelf, bundle, selector, services, operation, idle,
}

-- A withdrawal of the published manual.
abbrev asked : Result Failure Operation × State (List String)
asked =
    request_withdrawal 50 "op1" selector "req1" "superseded step" tool_actor
      (idle DocumentLifecycle.published)

abbrev blocked : Operation
blocked =
    record (operation DocumentLifecycleAction.withdraw
      DocumentLifecycleOperationStatus.vector_cleanup) {
        target_index_version = none;
        after_lifecycle = some DocumentLifecycle.withdrawn;
        created_at = 50;
        updated_at = 50;
      }

asked-ok : asked ≡ (ok blocked, asked.1)
unfolding request_withdrawal known_or_begin begin_withdrawal authorized_bundle block_operation
    block_or_fail fresh_or_existing get_operation_by_request_id get_operation create_operation
    save_operation save audit append_audit block_revision get_bundle set_revision lookup insert
asked-ok = refl

request_withdrawal_hides_example :
    (DocumentLifecycle.published ≡ DocumentLifecycle.published)
    × (DocumentLifecycleOperationStatus.vector_cleanup
        ≡ DocumentLifecycleOperationStatus.vector_cleanup)
    × (lookup "op1" asked.1.repository.operations ≡ some blocked)
    × Hidden "manual" "r1" asked.1.repository.store
request_withdrawal_hides_example =
    request_withdrawal_hides 50 "op1" selector "req1" "superseded step" tool_actor
      (idle DocumentLifecycle.published) (lookup-empty "req1") asked-ok

-- The request that is sent again.
abbrev waiting : State (List String)
waiting = record (idle DocumentLifecycle.withdrawn) {
  repository = record (idle DocumentLifecycle.withdrawn).repository {
    operations = insert "op1" blocked [];
    request_ids = insert "req1" "op1" [];
  };
}

-- A revision that is withdrawn already refuses the request.
abbrev refused : Result Failure Operation × State (List String)
refused =
    request_withdrawal 50 "op1" selector "req1" "superseded step" tool_actor
      (idle DocumentLifecycle.withdrawn)

refused-err : refused ≡ (err Failure.state_conflict, refused.1)
unfolding request_withdrawal known_or_begin begin_withdrawal authorized_bundle
    get_operation_by_request_id get_operation get_bundle lookup insert
refused-err = refl

request_withdrawal_twice_example :
    request_withdrawal 70 "op2" selector "req1" "superseded step" tool_actor asked.1
    ≡ (ok blocked, asked.1)
request_withdrawal_twice_example =
    request_withdrawal_twice 50 "op1" selector "req1" "superseded step" tool_actor
      (idle DocumentLifecycle.published) 70 "op2" (lookup-empty "req1") asked-ok

-- A state with one operation on the manual, claimed or not.
abbrev with_operation : Operation → State (List String)
with_operation op = record (idle DocumentLifecycle.withdrawn) {
  repository = record (idle DocumentLifecycle.withdrawn).repository {
    operations = insert "op1" op [];
    operation_claims = insert "op9" "worker-9" [];
  };
}

abbrev restoring : Operation
restoring =
    operation DocumentLifecycleAction.restore DocumentLifecycleOperationStatus.restore_validating

not_published : DocumentLifecycle.withdrawn ≢ DocumentLifecycle.published
not_published h = ground arith

shelf-Hidden : Hidden "manual" "r1" (shelf DocumentLifecycle.withdrawn)
unfolding set_revision insert
shelf-Hidden actor now c i =
    set_revision_hides (shelf DocumentLifecycle.published) (manual DocumentLifecycle.published)
      "manual" "r1" DocumentLifecycle.withdrawn actor now c not_published i

process_restore_lem_example :
    Restored services 50 restoring
      (with_operation restoring)
      (process_restore services 50 restoring (with_operation restoring)).0
      (process_restore services 50 restoring (with_operation restoring)).1.repository.store
    ⊎ Hidden "manual" "r1"
        (process_restore services 50 restoring (with_operation restoring)).1.repository.store
process_restore_lem_example =
    process_restore_lem services 50 restoring (with_operation restoring)
      (lookup-insert_self "op1" restoring []) shelf-Hidden

abbrev cleaning : Operation
cleaning =
    operation DocumentLifecycleAction.withdraw DocumentLifecycleOperationStatus.vector_cleanup

shelf-bundle :
    get_bundle selector (shelf DocumentLifecycle.withdrawn)
    ≡ some (bundle DocumentLifecycle.withdrawn)
unfolding get_bundle lookup insert
shelf-bundle = refl

process_withdrawal_lem_example :
    let run = process_withdrawal services 50 cleaning (with_operation cleaning) in
    (o : Operation) × (run.0 ≡ ok o)
    × (lookup "op1" run.1.repository.operations ≡ some o)
    × (run.1.repository.store ≡ shelf DocumentLifecycle.withdrawn)
    × Reports services 50 cleaning
        (with_operation cleaning)
        (cleaned services 50 cleaning
          (with_operation cleaning)
          (bundle DocumentLifecycle.withdrawn)).0
        o
process_withdrawal_lem_example =
    process_withdrawal_lem services 50 cleaning (with_operation cleaning)
      (bundle DocumentLifecycle.withdrawn) (lookup-insert_self "op1" cleaning []) shelf-bundle refl

abbrev failed : Operation
failed = operation DocumentLifecycleAction.withdraw DocumentLifecycleOperationStatus.failed

unclaimed :
    held_by_other (lookup "op1" (with_operation cleaning).repository.operation_claims) "worker-1"
    ≡ false
unfolding lookup insert
unclaimed = refl

process_releases_example :
    lookup "op1"
      (process services 50 "op1" "worker-1" (with_operation cleaning)).1.repository.operation_claims
    ≡ none
process_releases_example =
    process_releases services 50 "op1" "worker-1" (with_operation cleaning)
      (lookup-insert_self "op1" cleaning []) refl unclaimed

not_worker_1 : ◌≢◌ {A = String} "worker-9" "worker-1"
not_worker_1 h = ground (arith, (==_iff {A = String} "worker-9" "worker-1").1 h)

abbrev claimed : State (List String)
claimed = record (with_operation cleaning) {
  repository = record (with_operation cleaning).repository {
    operation_claims = insert "op1" "worker-9" [];
  };
}

-- The one document has a chunk of its lifecycle.
In-single : {A : Type 0} {v x : A} → In v (x ∷ []) → v ≡ x
In-single here = refl
In-single (there h) = elim h [ ]

pub shelf-Consistent : (l : DocumentLifecycle) → Consistent (shelf l)
unfolding insert
shelf-Consistent l = record {
  follow = λ d r doc h. elim (insert-found ("manual", "r1") (d, r) [] h) [
    | inl (_, e) ↦ (
      λ v i b.
          ap (λ (c : Chunk). c.lifecycle) (In-single i)
          ∙ ap (λ (doc : DocumentRevision). doc.lifecycle) e,
      λ v i b. elim i [ ],
      λ v i b. elim i [ ],
    )
    | inr (_, k) ↦
        ground (arith, lookup-empty {K = String × String} {V = DocumentRevision} (d, r), k)
  ];
}
