-- ===== src/Documents/Service.antt =====
-- What the operations of `KnowledgeDocumentLifecycleService` (document_lifecycle.py) share: its
-- collaborators behind an interface, its state, and the record that `_save` writes.
use semiconductor_agent_know.Base.{
  ℕ, String, Bool, true, false, Option, none, some, List, [], ◌∷◌, ◌++◌, any, if◌then◌else◌,
  string_eq, option_eq,
}
use semiconductor_agent_know.Base.Result.{Result, ok, err, Exec, pure, ◌>>=◌, ◌>>◌}
use semiconductor_agent_know.Documents.Kinds.{
  DocumentLifecycle, DocumentLifecycleOperationStatus, CompensationStatus, approval_eq,
  lifecycle_eq, action_eq,
}
use semiconductor_agent_know.Documents.Model.{ObjectRef, Chunk}
use semiconductor_agent_know.Documents.Codes.{Code, Failure, warning_code, same_code}
use semiconductor_agent_know.Documents.Repository.{
  Operation, AuditPhase, Repository, save_operation, append_audit,
}

-- The collaborators: the vector index over a state `V`, the encoder, the object store and its hash.
-- An exception of theirs is the text that becomes its warning code.
pub record Services (V : Type 0) (E : Type 0) : Type 0 where
  pub upsert_chunks : List Chunk → List E → DocumentLifecycle → V → Result String (Unit {0}) × V
  pub delete_chunks : String → List String → V → Result String (Unit {0}) × V
  pub verify_chunks_absent : String → List String → V → Result String (Unit {0}) × V
  pub activate_alias : String → V → Result String (Unit {0}) × V
  pub encode : List String → Result String (List E)
  pub load_object : ObjectRef → Result String (List ℕ)
  pub sha256 : List ℕ → String
  pub milvus_index_version : String
  pub embedding_batch_size : ℕ

pub record State (V : Type 0) : Type 0 where
  pub repository : Repository
  pub vectors : V

abbrev pub Action : Type 0 → Type 0 → Type 0
Action V A = Exec Failure (State V) A

abbrev pub failed_with : {A : Type 0} → Result String A → Result Failure A
failed_with (ok a) = ok a
failed_with (err w) = err (Failure.external w)

module _ {V : Type 0} where
  -- A method of the repository, on the state of the service.
  abbrev pub repo : {A : Type 0} → Exec Failure Repository A → Action V A
  repo m s = let (r, t) = m s.repository in (r, record s { repository = t })

  -- A call of the vector index.
  abbrev pub index : (V → Result String (Unit {0}) × V) → Action V (Unit {0})
  index m s = let (r, v) = m s.vectors in (failed_with r, record s { vectors = v })

  abbrev pub lift : {A : Type 0} → Result Failure A → Action V A
  lift r s = (r, s)

-- The keyword arguments of `_save` beside the status.
pub record Update : Type 0 where
  pub after_lifecycle : Option DocumentLifecycle
  pub compensation_status : Option CompensationStatus
  pub warning : Option Code
  pub completed : Bool

abbrev pub plain : Update
plain = record {
  after_lifecycle = none;
  compensation_status = none;
  warning = none;
  completed = false;
}

abbrev pub add_warning : Option Code → List Code → List Code
add_warning none ws = ws
add_warning (some w) ws = if any (same_code w) ws then ws else ws ++ w ∷ []

abbrev pub or_keep {ℓ} : {A : Type ℓ} → Option A → A → A
or_keep none a = a
or_keep (some b) _ = b

abbrev pub or_keep? {ℓ} : {A : Type ℓ} → Option A → Option A → Option A
or_keep? none a = a
or_keep? (some b) _ = some b

-- The record that `_save` writes.
abbrev pub updated : ℕ → Operation → DocumentLifecycleOperationStatus → Update → Operation
updated now op status u = record op {
  status = status;
  updated_at = now;
  warning_codes = add_warning u.warning op.warning_codes;
  after_lifecycle = or_keep? u.after_lifecycle op.after_lifecycle;
  compensation_status = or_keep u.compensation_status op.compensation_status;
  completed_at = if u.completed then some now else op.completed_at;
}

abbrev pub is_terminal : DocumentLifecycleOperationStatus → Bool
is_terminal DocumentLifecycleOperationStatus.withdrawn = true
is_terminal DocumentLifecycleOperationStatus.restored = true
is_terminal DocumentLifecycleOperationStatus.failed = true
is_terminal _ = false

abbrev pub needs_retry : DocumentLifecycleOperationStatus → Bool
needs_retry DocumentLifecycleOperationStatus.compensation_required = true
needs_retry DocumentLifecycleOperationStatus.failed = true
needs_retry _ = false

-- `COMPLETED if status is not NOT_REQUIRED else NOT_REQUIRED`
abbrev pub settled : CompensationStatus → CompensationStatus
settled CompensationStatus.not_required = CompensationStatus.not_required
settled _ = CompensationStatus.completed

module _ {V : Type 0} (now : ℕ) where
  unfoldable pub save : Operation → DocumentLifecycleOperationStatus → Update → Action V Operation
  save op status u = repo (save_operation (updated now op status u))

module _ {V : Type 0} where
  unfoldable pub audit : AuditPhase → Operation → Action V (Unit {0})
  audit phase op s = (
    ok tt,
    record s { repository = append_audit (record { phase = phase; operation = op }) s.repository },
  )

module _ {V : Type 0} (now : ℕ) where
  unfoldable pub require_compensation : Operation → Failure → Action V Operation
  unfolding save audit
  require_compensation op e = do
    failed ← save now op DocumentLifecycleOperationStatus.compensation_required (record plain {
      compensation_status = some CompensationStatus.pending;
      warning = some (warning_code e);
    })
    audit AuditPhase.compensation_required failed
    pure failed

  unfoldable pub fail_validation : Operation → Code → Action V Operation
  unfolding save audit
  fail_validation op code = do
    failed ←
        save now op DocumentLifecycleOperationStatus.failed
          (record plain { warning = some code; completed = true })
    audit AuditPhase.failed failed
    pure failed

  -- The end of `_process_withdrawal` and `_process_restore`.
  unfoldable pub complete :
      Operation → DocumentLifecycleOperationStatus → DocumentLifecycle → Action V Operation
  unfolding save audit
  complete op status after = do
    completed ← save now op status (record plain {
      after_lifecycle = some after;
      compensation_status = some (settled op.compensation_status);
      completed = true;
    })
    audit AuditPhase.completed completed
    pure completed
