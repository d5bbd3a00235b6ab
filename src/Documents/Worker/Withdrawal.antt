-- ===== src/Documents/Worker/Withdrawal.antt =====
-- How a withdrawal ends (`_process_withdrawal`), and how a failed operation is run again.
use semiconductor_agent_know.Base.{
  ℕ, String, true, false, ◌≡◌, ◌∙◌, refl, ap, inl, inr, some, map, arith, string_eq,
}
use semiconductor_agent_know.Base.Dict.{lookup, lookup-insert_self}
use semiconductor_agent_know.Base.Result.{Result, ok, err, Result-cases}
use semiconductor_agent_know.Documents.Kinds.{
  DocumentLifecycle, DocumentLifecycleOperationStatus, CompensationStatus, lifecycle_eq,
}
use semiconductor_agent_know.Documents.Codes.{Failure, warning_code}
use semiconductor_agent_know.Documents.Repository.{
  RevisionBundle, Operation, Repository, get_bundle, get_operation, save_operation, append_audit,
}
use semiconductor_agent_know.Documents.Service.{
  Services, State, updated, plain, settled, complete, require_compensation, save, is_terminal,
  needs_retry,
}
use semiconductor_agent_know.Documents.Restoration.{cleanup}
use semiconductor_agent_know.Documents.Worker.{process_withdrawal, prepare_retry, retry_status}

module _ (now : ℕ) (op : Operation) where
  -- The operation that `complete` saves.
  abbrev finished : DocumentLifecycleOperationStatus → DocumentLifecycle → Operation
  finished status l = updated now op status (record plain {
    after_lifecycle = some l;
    compensation_status = some (settled op.compensation_status);
    completed = true;
  })

  -- The operation that `require_compensation` saves.
  abbrev waiting : Failure → Operation
  waiting e = updated now op DocumentLifecycleOperationStatus.compensation_required (record plain {
    compensation_status = some CompensationStatus.pending;
    warning = some (warning_code e);
  })

module _ {V : Type 0} (now : ℕ) (op : Operation) where
  -- The run has returned the operation, and saved it, and written no record of a document.
  abbrev pub Saves : Operation → State V → Result Failure Operation × State V → Type 0
  Saves o t (r, t') =
      (r ≡ ok o)
      × (lookup op.operation_id t'.repository.operations ≡ some o)
      × (t'.repository.store ≡ t.repository.store)

  module _ (t : State V) {known : Operation}
      (k : lookup op.operation_id t.repository.operations ≡ some known) where
    complete-Saves :
        (status : DocumentLifecycleOperationStatus) (l : DocumentLifecycle)
        → Saves (finished now op status l) t (complete now op status l t)
    unfolding complete save_operation get_operation append_audit
    complete-Saves status l = (
      ground arith,
      ground (
        arith,
        lookup-insert_self op.operation_id (finished now op status l) t.repository.operations,
      ),
      ground arith,
    )

    require_compensation-Saves :
        (e : Failure) → Saves (waiting now op e) t (require_compensation now op e t)
    unfolding require_compensation save_operation get_operation append_audit
    require_compensation-Saves e = (
      ground arith,
      ground (arith, lookup-insert_self op.operation_id (waiting now op e) t.repository.operations),
      ground arith,
    )

module _ {V E : Type 0} (env : Services V E) (now : ℕ) (op : Operation) (s : State V) where
  -- The call of `_cleanup_revision_vectors` on the chunks of the bundle.
  abbrev pub cleaned : RevisionBundle → Result Failure (Unit {0}) × State V
  cleaned b = cleanup env b.document.index_version (map (λ c. c.chunk_id) b.chunks) s

  repository-cleaned : (b : RevisionBundle) → (cleaned b).1.repository ≡ s.repository
  unfolding cleanup
  repository-cleaned b = ground arith

  module _ (b : RevisionBundle) (h : get_bundle op.selector s.repository.store ≡ some b)
      (w : b.document.lifecycle ≡ DocumentLifecycle.withdrawn) where
    process_withdrawal-cleaned :
        (cleaned b).0 ≡ ok tt
        → process_withdrawal env now op s
          ≡ complete now op DocumentLifecycleOperationStatus.withdrawn DocumentLifecycle.withdrawn
              (cleaned b).1
    unfolding process_withdrawal
    process_withdrawal-cleaned e = ground arith

    process_withdrawal-uncleaned :
        (f : Failure)
        → (cleaned b).0 ≡ err f
        → process_withdrawal env now op s ≡ require_compensation now op f (cleaned b).1
    unfolding process_withdrawal
    process_withdrawal-uncleaned f e = ground arith

  -- What the operation that comes back says of the cleanup.
  abbrev pub Reports : Result Failure (Unit {0}) → Operation → Type 0
  Reports (ok _) o =
      (o.status ≡ DocumentLifecycleOperationStatus.withdrawn)
      × (o.after_lifecycle ≡ some DocumentLifecycle.withdrawn)
  Reports (err _) o =
      (o.status ≡ DocumentLifecycleOperationStatus.compensation_required)
      × (o.compensation_status ≡ CompensationStatus.pending)

  -- A known withdrawal of a revision that is blocked always returns, with an operation that it has
  -- saved: withdrawn if the vectors were deleted and their absence was verified, and waiting for
  -- compensation if either failed. No document, chunk, image or table is written.
  pub process_withdrawal_lem :
      {known : Operation} (b : RevisionBundle)
      → lookup op.operation_id s.repository.operations ≡ some known
      → get_bundle op.selector s.repository.store ≡ some b
      → b.document.lifecycle ≡ DocumentLifecycle.withdrawn
      → (o : Operation) × ((process_withdrawal env now op s).0 ≡ ok o)
        × (lookup op.operation_id (process_withdrawal env now op s).1.repository.operations
            ≡ some o)
        × ((process_withdrawal env now op s).1.repository.store ≡ s.repository.store)
        × Reports (cleaned b).0 o
  process_withdrawal_lem b k h w =
      let k' =
        ap (λ (r : Repository). lookup op.operation_id r.operations) (repository-cleaned b) ∙ k in
      let st = ap (λ (r : Repository). r.store) (repository-cleaned b) in
      elim (Result-cases (cleaned b).0) [
        | inl (_, e) ↦
            let (p, q, z) =
              complete-Saves now op (cleaned b).1 k' DocumentLifecycleOperationStatus.withdrawn
                DocumentLifecycle.withdrawn in
            rw (process_withdrawal-cleaned b h w e) (
              finished now op DocumentLifecycleOperationStatus.withdrawn
                  DocumentLifecycle.withdrawn,
              p,
              q,
              z ∙ st,
              rw e (refl, refl),
            )
        | inr (f, e) ↦
            let (p, q, z) = require_compensation-Saves now op (cleaned b).1 k' f in
            rw (process_withdrawal-uncleaned b h w f e)
              (waiting now op f, p, q, z ∙ st, rw e (refl, refl))
      ]

module _ {V : Type 0} (now : ℕ) (id : String) (s : State V) {op : Operation} where
  -- The retry of an operation that failed, or that waits for compensation, returns it and saves it
  -- in a state that a worker runs, and writes no document, chunk, image or table. The operation
  -- stored under an id is taken to have that id.
  pub prepare_retry_lem :
      lookup id s.repository.operations ≡ some op
      → op.operation_id ≡ id
      → needs_retry op.status ≡ true
      → (o : Operation) × Saves now op o s (prepare_retry now id s)
        × (is_terminal o.status ≡ false)
        × (o.compensation_status ≡ CompensationStatus.running)
  unfolding prepare_retry save save_operation get_operation
  prepare_retry_lem k same n =
      let o =
        updated now op (retry_status op.action)
          (record plain { compensation_status = some CompensationStatus.running }) in
      (
        o,
        (
          ground arith,
          ground (arith, lookup-insert_self op.operation_id o s.repository.operations),
          ground arith,
        ),
        ground arith,
        refl,
      )
