-- ===== src/Documents/Worker/Claims.antt =====
-- Who runs an operation (`process`): the claim keeps a second worker out and is given back at the end.
use semiconductor_agent_know.Base.{
  ℕ, String, ◌∙◌, ◌≡◌, ◌≢◌, refl, inl, inr, true, false, none, some, List, arith, ==_refl, ==_iff,
  string_eq, pair_eq, option_eq,
}
use semiconductor_agent_know.Base.Dict.{Dict, lookup, insert, lookup-insert_self, lookup-erase}
use semiconductor_agent_know.Base.Result.{ok, Result-cases}
use semiconductor_agent_know.Documents.Kinds.{
  DocumentLifecycle, DocumentLifecycleAction, DocumentLifecycleOperationStatus,
}
use semiconductor_agent_know.Documents.Model.{Chunk}
use semiconductor_agent_know.Documents.Codes.{Code, Failure}
use semiconductor_agent_know.Documents.Repository.{
  RevisionBundle, Operation, get_operation, save_operation, claim_operation, release_operation,
  block_revision, publish_revision, append_audit, held_by_other,
}
use semiconductor_agent_know.Documents.Service.{
  Services, State, save, fail_validation, require_compensation, complete, is_terminal, Update,
}
use semiconductor_agent_know.Documents.Restoration.{cleanup, reblock_after_restore_failure, project}
use semiconductor_agent_know.Documents.Worker.{
  process_withdrawal, project_or_reblock, restore_validated, failed_validation, process_restore,
  dispatch, run_claimed, claim_and_run, process,
}

module _ {V E : Type 0} (env : Services V E) (now : ℕ) where
  abbrev claims : State V → Dict String String
  claims s = s.repository.operation_claims

  -- The bookkeeping and both runs leave the claims alone.
  claims-fail_validation :
      (op : Operation) (c : Code) (s : State V) → claims (fail_validation now op c s).1 ≡ claims s
  unfolding fail_validation save_operation append_audit
  claims-fail_validation op c s = ground arith

  claims-require_compensation :
      (op : Operation) (e : Failure) (s : State V)
      → claims (require_compensation now op e s).1 ≡ claims s
  unfolding require_compensation save_operation append_audit
  claims-require_compensation op e s = ground arith

  claims-complete :
      (op : Operation) (status : DocumentLifecycleOperationStatus) (l : DocumentLifecycle)
      (s : State V)
      → claims (complete now op status l s).1 ≡ claims s
  unfolding complete save_operation append_audit
  claims-complete op status l s = ground arith

  claims-cleanup :
      (version : String) (ids : List String) (s : State V)
      → claims (cleanup env version ids s).1 ≡ claims s
  unfolding cleanup
  claims-cleanup version ids s = ground arith

  claims-process_withdrawal :
      (op : Operation) (s : State V) → claims (process_withdrawal env now op s).1 ≡ claims s
  unfolding process_withdrawal
  claims-process_withdrawal op s =
      grind (
        arith, claims-fail_validation, claims-require_compensation, claims-complete, claims-cleanup,
      )

  claims-project :
      (op : Operation) (version : String) (chunks : List Chunk) (s : State V)
      → claims (project env op version chunks s).1 ≡ claims s
  unfolding project publish_revision
  claims-project op version chunks s = ground arith

  claims-reblock :
      (op : Operation) (version : String) (chunks : List Chunk) (s : State V)
      → claims (reblock_after_restore_failure env op version chunks s) ≡ claims s
  unfolding reblock_after_restore_failure block_revision
  claims-reblock op version chunks s = ground arith

  claims-project_or_reblock :
      (op : Operation) (version : String) (chunks : List Chunk) (s : State V)
      → claims (project_or_reblock env now op version chunks s).1 ≡ claims s
  unfolding project_or_reblock
  claims-project_or_reblock op version chunks s =
      elim (Result-cases (project env op version chunks s).0) [
        | inl (_, e) ↦
            rw (e, project_or_reblock)
              (claims-complete op _ _ _ ∙ claims-project op version chunks s)
        | inr (f, e) ↦
            rw (e, project_or_reblock)
              (claims-require_compensation op f _
                ∙ claims-reblock op version chunks _
                ∙ claims-project op version chunks s)
      ]

  claims-save :
      (op : Operation) (status : DocumentLifecycleOperationStatus) (u : Update) (s : State V)
      → claims (save now op status u s).1 ≡ claims s
  unfolding save save_operation
  claims-save op status u s = ground arith

  claims-restore_validated :
      (op : Operation) (b : RevisionBundle) (s : State V)
      → claims (restore_validated env now op b s).1 ≡ claims s
  unfolding restore_validated
  claims-restore_validated op b s = grind (arith, claims-save, claims-project_or_reblock)

  claims-failed_validation :
      (op : Operation) (e : Failure) (s : State V)
      → claims (failed_validation env now op e s).1 ≡ claims s
  claims-failed_validation op (Failure.validation c) s = claims-fail_validation op c s
  claims-failed_validation op _ s = refl

  claims-process_restore :
      (op : Operation) (s : State V) → claims (process_restore env now op s).1 ≡ claims s
  unfolding process_restore
  claims-process_restore op s =
      grind (arith, claims-fail_validation, claims-failed_validation, claims-restore_validated)

  claims-dispatch :
      (a : DocumentLifecycleAction) (op : Operation) (s : State V)
      → claims (dispatch env now a op s).1 ≡ claims s
  unfolding dispatch
  claims-dispatch DocumentLifecycleAction.withdraw op s = claims-process_withdrawal op s
  claims-dispatch DocumentLifecycleAction.restore op s = claims-process_restore op s

  claims-run_claimed : (id : String) (s : State V) → claims (run_claimed env now id s).1 ≡ claims s
  unfolding run_claimed
  claims-run_claimed id s = grind (arith, claims-dispatch)

  module _ (id owner : String) (s : State V) {op : Operation} where
    -- A finished operation is answered as it is, and the state stays as it was.
    pub process_terminal :
        lookup id s.repository.operations ≡ some op
        → is_terminal op.status ≡ true
        → process env now id owner s ≡ (ok op, s)
    unfolding process get_operation
    process_terminal h t = ground arith

    -- A worker that finds an unfinished operation claimed by another gets its record, and the state
    -- stays as it was: nothing is run twice at once.
    pub process_claimed_by_other :
        (other : String)
        → lookup id s.repository.operations ≡ some op
        → lookup id s.repository.operation_claims ≡ some other
        → other ≢ owner
        → process env now id owner s ≡ (ok op, s)
    unfolding process claim_and_run get_operation claim_operation
    process_claimed_by_other other h c ne = ground (arith, ==_iff other owner)

    -- A worker that may claim an unfinished operation holds no claim on it when it returns or raises.
    pub process_releases :
        lookup id s.repository.operations ≡ some op
        → is_terminal op.status ≡ false
        → held_by_other (lookup id s.repository.operation_claims) owner ≡ false
        → lookup id (process env now id owner s).1.repository.operation_claims ≡ none
    unfolding process claim_and_run get_operation claim_operation release_operation
    process_releases h t f =
        let s' = record s {
          repository = record s.repository {
            operation_claims = insert id owner s.repository.operation_claims;
          };
        } in
        ground (
          arith,
          claims-run_claimed id s',
          lookup-insert_self id owner s.repository.operation_claims,
          lookup-erase id id (claims (run_claimed env now id s').1),
          ==_refl id,
          ==_refl (some owner),
        )
