-- ===== src/Documents/Lifecycle/Blocking.antt =====
-- The run of a new withdrawal (`request_withdrawal`) after the test of its request id.
use semiconductor_agent_know.Base.{
  ℕ, String, ◌∙◌, ap, ◌≡◌, refl, inl, inr, true, none, some, arith, ==_refl, string_eq, pair_eq,
  option_eq, Option-cases,
}
use semiconductor_agent_know.Base.Dict.{lookup, lookup-insert_self}
use semiconductor_agent_know.Base.Result.{ok, err}
use semiconductor_agent_know.Documents.Kinds.{
  DocumentLifecycle, DocumentLifecycleOperationStatus, action_eq, lifecycle_eq,
}
use semiconductor_agent_know.Documents.Model.{ActorScope, DocumentRevision}
use semiconductor_agent_know.Documents.Codes.{Failure}
use semiconductor_agent_know.Documents.Store.{set_revision}
use semiconductor_agent_know.Documents.Repository.{
  RevisionBundle, Operation, get_bundle, get_operation, create_operation, save_operation,
  block_revision, append_audit, AuditPhase,
}
use semiconductor_agent_know.Documents.Service.{State, save, audit, updated, plain, repo}
use semiconductor_agent_know.Documents.Lifecycle.{
  Request, candidate, is_request, block_or_fail, block_operation, begin_withdrawal,
}

-- The record of an operation whose block went through.
abbrev pub blocked : ℕ → Operation → Operation
blocked now op =
    updated now op DocumentLifecycleOperationStatus.vector_cleanup
      (record plain { after_lifecycle = some DocumentLifecycle.withdrawn })

abbrev pub blocking : ℕ → Operation → Operation
blocking now op = updated now op DocumentLifecycleOperationStatus.blocking plain

-- What a block that went through has done.
pub record Blocked {V : Type 0} (op op' : Operation) (s t : State V) : Type 0 where
  document : DocumentRevision
  written :
      t.repository.store
      ≡ set_revision op.selector.document_id op.selector.revision document
          DocumentLifecycle.withdrawn s.repository.store
  recorded : lookup op.operation_id t.repository.operations ≡ some op'
  request_ids : t.repository.request_ids ≡ s.repository.request_ids

module _ {V : Type 0} (now : ℕ) (id : String) where
  block_or_fail_ok :
      (op : Operation) (s : State V) {op' : Operation} {t : State V}
      → block_or_fail now id op s ≡ (ok op', t)
      → (op' ≡ blocked now op) × Blocked op op' s t
  unfolding block_or_fail save save_operation block_revision
  block_or_fail_ok op s {op'} h =
      elim (Option-cases
        (lookup (op.selector.document_id, op.selector.revision) s.repository.store.documents)) [
          | inl e ↦ ground arith
          | inr (doc, e) ↦ (
            ground arith,
            record {
              document = doc;
              written = ground arith;
              recorded =
                  ground (arith, lookup-insert_self op.operation_id op' s.repository.operations);
              request_ids = ground arith;
            },
          )
        ]

  -- A refused block leaves the store as it was.
  block_or_fail_err :
      (op known : Operation) (s : State V) {e : Failure} {t : State V}
      → lookup op.operation_id s.repository.operations ≡ some known
      → block_or_fail now id op s ≡ (err e, t)
      → t.repository.store ≡ s.repository.store
  unfolding block_or_fail save save_operation get_operation block_revision
  block_or_fail_err op known s k h = ground arith

  block_operation_ok :
      (op known : Operation) (s : State V) {op' : Operation} {t : State V}
      → lookup op.operation_id s.repository.operations ≡ some known
      → block_operation now id op s ≡ (ok op', t)
      → (op' ≡ blocked now (blocking now op)) × Blocked op op' s t
  unfolding block_operation audit append_audit save save_operation get_operation
  block_operation_ok op known s {op'} {t} k h =
      let s' = (audit AuditPhase.requested op s).1 in
      let t' = (save now op DocumentLifecycleOperationStatus.blocking plain s').1 in
      let op'' = blocking now op in
      let (r, b) = block_or_fail_ok op'' t' {op' = op'} {t = t} (ground arith) in
      (
        r,
        record {
          document = b.document;
          written = ground (arith, b.written);
          recorded = b.recorded;
          request_ids = ground (arith, b.request_ids);
        },
      )

  block_operation_err :
      (op known : Operation) (s : State V) {e : Failure} {t : State V}
      → lookup op.operation_id s.repository.operations ≡ some known
      → block_operation now id op s ≡ (err e, t)
      → t.repository.store ≡ s.repository.store
  unfolding block_operation audit append_audit save save_operation get_operation
  block_operation_err op known s {e} {t} k h =
      let s' = (audit AuditPhase.requested op s).1 in
      let t' = (save now op DocumentLifecycleOperationStatus.blocking plain s').1 in
      let op'' = blocking now op in
      ground (
        arith,
        lookup-insert_self op.operation_id op'' s.repository.operations,
        block_or_fail_err op'' op'' t' {e = e} {t = t},
      )

-- What a new withdrawal that is accepted has done.
pub record Withdrawn {V : Type 0} (now : ℕ) (id : String) (q : Request) (s : State V)
    (op : Operation) (t : State V) : Type 0 where
  pub bundle : RevisionBundle
  pub document : DocumentRevision
  pub found : get_bundle q.selector s.repository.store ≡ some bundle
  pub published : bundle.document.lifecycle ≡ DocumentLifecycle.published
  pub written :
      t.repository.store
      ≡ set_revision q.selector.document_id q.selector.revision document DocumentLifecycle.withdrawn
          s.repository.store
  pub result :
      op
      ≡ blocked now
          (blocking now (candidate now id q DocumentLifecycleOperationStatus.requested bundle))
  pub recorded : lookup id t.repository.operations ≡ some op
  pub registered : lookup q.request_id t.repository.request_ids ≡ some id

pub is_request-blocked :
    (now : ℕ) (op : Operation) (q : Request)
    → is_request (blocked now (blocking now op)) q ≡ is_request op q
unfolding is_request
is_request-blocked now op q = refl

pub is_request-candidate :
    (now : ℕ) (id : String) (q : Request) (status : DocumentLifecycleOperationStatus)
    (b : RevisionBundle)
    → is_request (candidate now id q status b) q ≡ true
unfolding is_request
is_request-candidate now id q status b = ground (
  arith,
  ==_refl q.action,
  ==_refl q.selector.document_id,
  ==_refl q.selector.revision,
  ==_refl q.actor_user_id,
  ==_refl q.reason,
  ==_refl q.target_index_version,
)

module _ {V : Type 0} (now : ℕ) (id : String) (q : Request) (actor : ActorScope) (s : State V) where
  -- The rest of the method, from the state `s'` in which the operation has been created.
  after_create :
      (c : Operation) (s' : State V) (b : RevisionBundle) {op : Operation} {t : State V}
      → c ≡ candidate now id q DocumentLifecycleOperationStatus.requested b
      → get_bundle q.selector s.repository.store ≡ some b
      → b.document.lifecycle ≡ DocumentLifecycle.published
      → s'.repository.store ≡ s.repository.store
      → lookup q.request_id s'.repository.request_ids ≡ some id
      → lookup id s'.repository.operations ≡ some c
      → block_operation now id c s' ≡ (ok op, t)
      → Withdrawn now id q s op t
  after_create c s' b {op} {t} ec e p st reg rec h =
      let cand = candidate now id q DocumentLifecycleOperationStatus.requested b in
      let (r, w) = block_operation_ok now id cand c s' {op' = op} {t = t} rec (rw ec at h) in
      record {
        bundle = b;
        document = w.document;
        found = e;
        published = p;
        written =
            w.written
            ∙ ap
                (set_revision q.selector.document_id q.selector.revision w.document
                  DocumentLifecycle.withdrawn)
                st;
        result = r;
        recorded = w.recorded;
        registered = ap (lookup q.request_id) w.request_ids ∙ reg;
      }

  pub begin_withdrawal_ok :
      {op : Operation} {t : State V}
      → lookup q.request_id s.repository.request_ids ≡ none
      → begin_withdrawal now id q actor s ≡ (ok op, t)
      → Withdrawn now id q s op t
  unfolding begin_withdrawal create_operation
  begin_withdrawal_ok {op} {t} h k =
      elim (Option-cases (get_bundle q.selector s.repository.store)) [
        | inl e ↦ ground arith
        | inr (b, e) ↦
            let c = candidate now id q DocumentLifecycleOperationStatus.requested b in
            let s' = (repo (create_operation c) s).1 in
            after_create c s' b refl e (ground arith) (ground arith)
              (ground (arith, lookup-insert_self q.request_id id s.repository.request_ids))
              (ground (arith, lookup-insert_self id c s.repository.operations))
              (ground (arith, ==_refl id))
      ]

  pub begin_withdrawal_err :
      {e : Failure} {t : State V}
      → lookup q.request_id s.repository.request_ids ≡ none
      → begin_withdrawal now id q actor s ≡ (err e, t)
      → t.repository.store ≡ s.repository.store
  unfolding begin_withdrawal create_operation
  begin_withdrawal_err {e} {t} h k =
      elim (Option-cases (get_bundle q.selector s.repository.store)) [
        | inl e ↦ ground arith
        | inr (b, e') ↦
            let c = candidate now id q DocumentLifecycleOperationStatus.requested b in
            let s' = (repo (create_operation c) s).1 in
            ground (
              arith,
              ==_refl id,
              lookup-insert_self id c s.repository.operations,
              block_operation_err now id c c s' {e = e} {t = t},
            )
      ]

  pub begin_withdrawal_lost :
      (old : String) {e : Failure} {t : State V}
      → lookup q.request_id s.repository.request_ids ≡ some old
      → lookup old s.repository.operations ≡ none
      → begin_withdrawal now id q actor s ≡ (err e, t)
      → t.repository.store ≡ s.repository.store
  unfolding begin_withdrawal create_operation get_operation
  begin_withdrawal_lost old h k e = elim (Option-cases (get_bundle q.selector s.repository.store)) [
    | inl x ↦ ground arith
    | inr (b, x) ↦ ground arith
  ]
