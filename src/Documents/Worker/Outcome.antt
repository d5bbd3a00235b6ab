-- ===== src/Documents/Worker/Outcome.antt =====
-- The end of a restoration (`_process_restore`), from any state in which the revision is hidden.
use semiconductor_agent_know.Base.{
  ℕ, String, ◌∙◌, ap, ◌≡◌, refl, ◌⊎◌, inl, inr, none, some, List, arith, map, string_eq, pair_eq,
  Option-cases,
}
use semiconductor_agent_know.Base.Dict.{lookup, insert, lookup-insert_self}
use semiconductor_agent_know.Base.Result.{Result, ok, err, Result-cases}
use semiconductor_agent_know.Documents.Kinds.{DocumentLifecycleOperationStatus}
use semiconductor_agent_know.Documents.Model.{DocumentRevision, Chunk}
use semiconductor_agent_know.Documents.Codes.{Code, Failure}
use semiconductor_agent_know.Documents.Store.{Store, publish_records}
use semiconductor_agent_know.Documents.Store.Access.{Hidden}
use semiconductor_agent_know.Documents.Repository.{
  RevisionBundle, Operation, get_bundle, get_operation, save_operation,
}
use semiconductor_agent_know.Documents.Service.{Services, State, save, plain, updated}
use semiconductor_agent_know.Documents.Lifecycle.{or_configured}
use semiconductor_agent_know.Documents.Restoration.{validate_restore_bundle, staged_copy}
use semiconductor_agent_know.Documents.Restoration.Checks.{Restorable, validate_restore_bundle_iff}
use semiconductor_agent_know.Documents.Worker.{
  project_or_reblock, restore_validated, failed_validation, process_restore,
}
use semiconductor_agent_know.Documents.Worker.Restore.{
  Ends, project_or_reblock-Ends, store-fail_validation,
}

module _ {V E : Type 0} (env : Services V E) (now : ℕ) (op : Operation) (s : State V) where
  abbrev version : String
  version = or_configured env.milvus_index_version op.target_index_version

  abbrev indexing : Operation
  indexing = updated now op DocumentLifecycleOperationStatus.restore_indexing plain

  abbrev saved : State V
  saved = record s {
    repository = record s.repository {
      operations = insert op.operation_id indexing s.repository.operations;
    };
  }

  abbrev copies : RevisionBundle → List Chunk
  copies b = map (staged_copy env version) b.chunks

  restore_validated-saved :
      {known : Operation} (b : RevisionBundle)
      → lookup op.operation_id s.repository.operations ≡ some known
      → restore_validated env now op b s
        ≡ project_or_reblock env now indexing version (copies b) saved
  unfolding restore_validated save save_operation get_operation
  restore_validated-saved b k = ground arith

  restore_validated-Ends :
      {known : Operation} {doc : DocumentRevision} (b : RevisionBundle)
      → lookup op.operation_id s.repository.operations ≡ some known
      → lookup (op.selector.document_id, op.selector.revision) s.repository.store.documents
        ≡ some doc
      → Ends op version s.repository.store
          (restore_validated env now op b s).0
          (restore_validated env now op b s).1.repository.store
  restore_validated-Ends b k h = rw (restore_validated-saved b k) (
      project_or_reblock-Ends env now indexing version (copies b) saved
        (lookup-insert_self op.operation_id indexing s.repository.operations) h)

  failed_validation_store :
      (e : Failure) → (failed_validation env now op e s).1.repository.store ≡ s.repository.store
  failed_validation_store (Failure.validation c) = store-fail_validation now op s c
  failed_validation_store _ = refl

  bundle_document :
      (b : RevisionBundle)
      → get_bundle op.selector s.repository.store ≡ some b
      → lookup (op.selector.document_id, op.selector.revision) s.repository.store.documents
        ≡ some b.document
  unfolding get_bundle
  bundle_document b h = ground arith

  -- The three ways of `_process_restore`, by what it finds.
  process_restore_missing :
      get_bundle op.selector s.repository.store ≡ none
      → (process_restore env now op s).1.repository.store ≡ s.repository.store
  unfolding process_restore
  process_restore_missing h =
      rw (h, process_restore) (store-fail_validation now op s Code.revision_not_found)

  process_restore_refused :
      (b : RevisionBundle) (e : Failure)
      → get_bundle op.selector s.repository.store ≡ some b
      → validate_restore_bundle env now b op.target_index_version s.repository.store ≡ err e
      → process_restore env now op s ≡ failed_validation env now op e s
  unfolding process_restore
  process_restore_refused b e h k = rw (h, process_restore) (rw k)

  process_restore_checked :
      (b : RevisionBundle)
      → get_bundle op.selector s.repository.store ≡ some b
      → validate_restore_bundle env now b op.target_index_version s.repository.store ≡ ok tt
      → process_restore env now op s ≡ restore_validated env now op b s
  unfolding process_restore
  process_restore_checked b h k = rw (h, process_restore) (rw k)

  -- The store is written by a publication under the configured index version, after every check.
  pub record Restored (r : Result Failure Operation) (t : Store) : Type 0 where
    pub bundle : RevisionBundle
    pub found : get_bundle op.selector s.repository.store ≡ some bundle
    pub checked : Restorable env now bundle op.target_index_version s.repository.store
    pub operation : Operation
    pub returned : r ≡ ok operation
    pub status : operation.status ≡ DocumentLifecycleOperationStatus.restored
    pub document : DocumentRevision
    pub written :
        t
        ≡ publish_records op.selector.document_id op.selector.revision document
            env.milvus_index_version s.repository.store

  version-checked :
      (b : RevisionBundle)
      → Restorable env now b op.target_index_version s.repository.store
      → version ≡ env.milvus_index_version
  version-checked b c = ground (arith, c.active_index)

  -- A restoration of a known operation, run on a hidden revision, ends in one of two ways: the
  -- revision has passed every check and is published under the configured index version, and the
  -- operation returned is restored; or no chunk of the revision is retrievable. That is so whichever
  -- of the embeddings, the index writes, the alias switch and the object store failed.
  pub process_restore_lem :
      {known : Operation}
      → lookup op.operation_id s.repository.operations ≡ some known
      → Hidden op.selector.document_id op.selector.revision s.repository.store
      → Restored (process_restore env now op s).0 (process_restore env now op s).1.repository.store
        ⊎ Hidden op.selector.document_id op.selector.revision
            (process_restore env now op s).1.repository.store
  process_restore_lem k hidden = elim (Option-cases (get_bundle op.selector s.repository.store)) [
    | inl missing ↦ inr (rw (process_restore_missing missing) hidden)
    | inr (b, h) ↦
        elim (Result-cases
          (validate_restore_bundle env now b op.target_index_version s.repository.store)) [
            | inr (e, refused) ↦
                inr (
                  rw (process_restore_refused b e h refused)
                    (rw (failed_validation_store e) hidden))
            | inl (_, passed) ↦
                let c =
                  (validate_restore_bundle_iff env now b op.target_index_version
                      s.repository.store).0
                    passed in
                elim (restore_validated-Ends b k (bundle_document b h)) [
                  | inr still ↦ inr (rw (process_restore_checked b h passed) still)
                  | inl (op', r, st, doc, w) ↦ inl (record {
                    bundle = b;
                    found = h;
                    checked = c;
                    operation = op';
                    returned = rw (process_restore_checked b h passed) r;
                    status = st;
                    document = doc;
                    written =
                        ap (λ (r : Result Failure Operation × State V). r.1.repository.store)
                          (process_restore_checked b h passed)
                        ∙ w
                        ∙ ap
                            (λ (v : String).
                              publish_records op.selector.document_id op.selector.revision doc v
                                s.repository.store)
                            (version-checked b c);
                  })
                ]
          ]
  ]
