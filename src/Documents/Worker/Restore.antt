-- ===== src/Documents/Worker/Restore.antt =====
-- How a restoration ends: published after every check, or still hidden.
use semiconductor_agent_know.Base.{
  ℕ, String, ◌∙◌, ap, ◌≡◌, refl, ◌⊎◌, inl, inr, true, some, List, arith, string_eq, pair_eq,
  option_eq,
}
use semiconductor_agent_know.Base.Dict.{lookup, lookup-insert_self}
use semiconductor_agent_know.Base.Result.{Result, ok, err, Result-cases}
use semiconductor_agent_know.Documents.Kinds.{
  DocumentLifecycle, DocumentLifecycleOperationStatus, lifecycle_eq,
}
use semiconductor_agent_know.Documents.Model.{DocumentRevision, Chunk}
use semiconductor_agent_know.Documents.Codes.{Code, Failure}
use semiconductor_agent_know.Documents.Store.{Store, set_revision, publish_records}
use semiconductor_agent_know.Documents.Store.Access.{Hidden, set_revision_hides}
use semiconductor_agent_know.Documents.Repository.{
  Operation, get_operation, save_operation, block_revision, publish_revision, append_audit,
}
use semiconductor_agent_know.Documents.Service.{
  Services, State, Update, save, fail_validation, require_compensation, complete, plain, updated,
  settled,
}
use semiconductor_agent_know.Documents.Restoration.{reblock_after_restore_failure, project}
use semiconductor_agent_know.Documents.Worker.{project_or_reblock}

-- The bookkeeping of an operation writes no document.
module _ {V : Type 0} (now : ℕ) (op : Operation) (s : State V) where
  store-save :
      (status : DocumentLifecycleOperationStatus) (u : Update)
      → (save now op status u s).1.repository.store ≡ s.repository.store
  unfolding save save_operation
  store-save status u = ground arith

  pub store-fail_validation :
      (c : Code) → (fail_validation now op c s).1.repository.store ≡ s.repository.store
  unfolding fail_validation save_operation append_audit
  store-fail_validation c = ground arith

  store-require_compensation :
      (e : Failure) → (require_compensation now op e s).1.repository.store ≡ s.repository.store
  unfolding require_compensation save_operation append_audit
  store-require_compensation e = ground arith

  store-complete :
      (status : DocumentLifecycleOperationStatus) (l : DocumentLifecycle)
      → (complete now op status l s).1.repository.store ≡ s.repository.store
  unfolding complete save_operation append_audit
  store-complete status l = ground arith

  status-complete :
      (status : DocumentLifecycleOperationStatus) (l : DocumentLifecycle) {op' : Operation}
      → (complete now op status l s).0 ≡ ok op'
      → op'.status ≡ status
  unfolding complete save_operation append_audit
  status-complete status l h = ground arith

module _ {V E : Type 0} (env : Services V E) (op : Operation) (version : String)
    (chunks : List Chunk) where
  abbrev key : String × String
  key = (op.selector.document_id, op.selector.revision)

  -- A projection that goes through has published the revision; one that fails may have done so too.
  project_ok :
      (s : State V) {doc : DocumentRevision}
      → lookup key s.repository.store.documents ≡ some doc
      → (project env op version chunks s).0 ≡ ok tt
      → (project env op version chunks s).1.repository.store
        ≡ publish_records op.selector.document_id op.selector.revision doc version
            s.repository.store
  unfolding project publish_revision
  project_ok s h k = ground arith

  documents-project :
      (s : State V) {doc : DocumentRevision}
      → lookup key s.repository.store.documents ≡ some doc
      → (lookup key (project env op version chunks s).1.repository.store.documents ≡ some doc)
        ⊎ ((project env op version chunks s).1.repository.store
            ≡ publish_records op.selector.document_id op.selector.revision doc version
                s.repository.store)
  unfolding project publish_revision
  documents-project s h = ground arith

  reblock_store :
      (s : State V) {doc : DocumentRevision}
      → lookup key s.repository.store.documents ≡ some doc
      → (reblock_after_restore_failure env op version chunks s).repository.store
        ≡ set_revision op.selector.document_id op.selector.revision doc DocumentLifecycle.withdrawn
            s.repository.store
  unfolding reblock_after_restore_failure block_revision
  reblock_store s h = ground arith

  operations-project :
      (s : State V)
      → (project env op version chunks s).1.repository.operations ≡ s.repository.operations
  unfolding project publish_revision
  operations-project s = ground arith

  document_after_project :
      (s : State V) {doc : DocumentRevision}
      → lookup key s.repository.store.documents ≡ some doc
      → (doc' : DocumentRevision) × (lookup key
            (project env op version chunks s).1.repository.store.documents
          ≡ some doc')
  unfolding publish_records
  document_after_project s {doc} h = elim (documents-project s h) [
    | inl same ↦ (doc, same)
    | inr e ↦ (
      record doc { lifecycle = DocumentLifecycle.published; index_version = version },
      ap (λ (st : Store). lookup key st.documents) e ∙ lookup-insert_self key _ _,
    )
  ]

  reblock_Hidden :
      (s : State V) {doc : DocumentRevision}
      → lookup key s.repository.store.documents ≡ some doc
      → Hidden op.selector.document_id op.selector.revision
          (reblock_after_restore_failure env op version chunks
            (project env op version chunks s).1).repository.store
  reblock_Hidden s {doc} h actor now c m =
      let (doc', e) = document_after_project s h in
      let t = (project env op version chunks s).1 in
      set_revision_hides t.repository.store doc' op.selector.document_id op.selector.revision
        DocumentLifecycle.withdrawn actor now c (cc) (rw (reblock_store t e) at m)

-- How a restoration from the state `s` has ended with the store `t`.
abbrev pub Ends : Operation → String → Store → Result Failure Operation → Store → Type 0
Ends op version s r t =
    ((op' : Operation) × (r ≡ ok op')
      × (op'.status ≡ DocumentLifecycleOperationStatus.restored)
      × (doc : DocumentRevision) × (t
          ≡ publish_records op.selector.document_id op.selector.revision doc version s))
    ⊎ Hidden op.selector.document_id op.selector.revision t

module _ {V E : Type 0} (env : Services V E) (now : ℕ) where
  complete_known :
      (op known : Operation) (status : DocumentLifecycleOperationStatus) (l : DocumentLifecycle)
      (s : State V)
      → lookup op.operation_id s.repository.operations ≡ some known
      → (op' : Operation) × ((complete now op status l s).0 ≡ ok op') × (op'.status ≡ status)
  unfolding complete save_operation get_operation append_audit
  complete_known op known status l s h = (
    updated now op status (record plain {
      after_lifecycle = some l;
      compensation_status = some (settled op.compensation_status);
      completed = true;
    }),
    ground arith,
    refl,
  )

  module _ (op : Operation) (version : String) (chunks : List Chunk) (s : State V) where
    abbrev after : State V
    after = (project env op version chunks s).1

    projected :
        (project env op version chunks s).0 ≡ ok tt
        → project_or_reblock env now op version chunks s
          ≡ complete now op DocumentLifecycleOperationStatus.restored DocumentLifecycle.published
              after
    unfolding project_or_reblock
    projected h = ground arith

    reblocked :
        {e : Failure}
        → (project env op version chunks s).0 ≡ err e
        → project_or_reblock env now op version chunks s
          ≡ require_compensation now op e
              (reblock_after_restore_failure env op version chunks after)
    unfolding project_or_reblock
    reblocked h = ground arith

    pub project_or_reblock-Ends :
        {known : Operation} {doc : DocumentRevision}
        → lookup op.operation_id s.repository.operations ≡ some known
        → lookup (op.selector.document_id, op.selector.revision) s.repository.store.documents
          ≡ some doc
        → Ends op version s.repository.store
            (project_or_reblock env now op version chunks s).0
            (project_or_reblock env now op version chunks s).1.repository.store
    project_or_reblock-Ends {known} {doc} k h =
        elim (Result-cases (project env op version chunks s).0) [
          | inl (_, e) ↦
              let (op', p, q) =
                complete_known op known DocumentLifecycleOperationStatus.restored
                  DocumentLifecycle.published after
                  (ap (lookup op.operation_id) (operations-project env op version chunks s) ∙ k) in
              inl (
                op',
                ap (λ (r : Result Failure Operation × State V). r.0) (projected e) ∙ p,
                q,
                doc,
                ap (λ (r : Result Failure Operation × State V). r.1.repository.store) (projected e)
                    ∙ store-complete now op after _ _
                    ∙ project_ok env op version chunks s h e,
              )
          | inr (f, e) ↦ inr (λ actor t c m. reblock_Hidden env op version chunks s h actor t c (
              rw
                (ap (λ (r : Result Failure Operation × State V). r.1.repository.store) (reblocked e)
                  ∙ store-require_compensation now op _ f)
                at m))
        ]
