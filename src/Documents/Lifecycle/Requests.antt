-- ===== src/Documents/Lifecycle/Requests.antt =====
-- What `request_withdrawal` and `request_restore` do, on every way out.
use semiconductor_agent_know.Base.{
  ℕ, String, ◌∙◌, ap, sym, if◌then◌else◌, ◌≡◌, inl, inr, Bool, true, Option, none, some, arith,
  string_eq, pair_eq, option_eq, Option-cases,
}
use semiconductor_agent_know.Base.Dict.{lookup}
use semiconductor_agent_know.Base.Result.{Result, ok, err}
use semiconductor_agent_know.Documents.Kinds.{
  DocumentLifecycle, DocumentLifecycleOperationStatus, action_eq, lifecycle_eq,
}
use semiconductor_agent_know.Documents.Model.{ActorScope, DocumentRevisionSelector}
use semiconductor_agent_know.Documents.Codes.{Failure}
use semiconductor_agent_know.Documents.Store.Access.{Hidden, set_revision_hides}
use semiconductor_agent_know.Documents.Repository.{
  Operation, get_operation, get_operation_by_request_id, create_operation, append_audit,
}
use semiconductor_agent_know.Documents.Service.{State, audit}
use semiconductor_agent_know.Documents.Lifecycle.{
  Request, is_request, withdrawal, begin_withdrawal, begin_restore, request_withdrawal,
  request_restore,
}
use semiconductor_agent_know.Documents.Lifecycle.Blocking.{
  is_request-blocked, is_request-candidate, begin_withdrawal_ok, begin_withdrawal_err,
  begin_withdrawal_lost,
}

module _ {V : Type 0} (now : ℕ) (id : String) (sel : DocumentRevisionSelector)
    (request_id reason : String) (actor : ActorScope) (s : State V) where
  abbrev asked : Request
  asked = withdrawal sel request_id reason actor

  request_withdrawal_new :
      lookup request_id s.repository.request_ids ≡ none
      → request_withdrawal now id sel request_id reason actor s
        ≡ begin_withdrawal now id asked actor s
  unfolding request_withdrawal get_operation_by_request_id
  request_withdrawal_new h = ground arith

  -- A withdrawal under a new request id that returns has found the revision published, has recorded
  -- its operation, which waits for the cleanup of the vectors, and has hidden the revision: from then
  -- on no chunk of it is retrievable, for any actor, at any time.
  pub request_withdrawal_hides :
      {op : Operation} {t : State V}
      → lookup request_id s.repository.request_ids ≡ none
      → request_withdrawal now id sel request_id reason actor s ≡ (ok op, t)
      → (op.before_lifecycle ≡ DocumentLifecycle.published)
        × (op.status ≡ DocumentLifecycleOperationStatus.vector_cleanup)
        × (lookup id t.repository.operations ≡ some op)
        × Hidden sel.document_id sel.revision t.repository.store
  request_withdrawal_hides {op} {t} new h =
      let w = begin_withdrawal_ok now id asked actor s new (sym (request_withdrawal_new new) ∙ h) in
      (
        ap (λ (o : Operation). o.before_lifecycle) w.result ∙ w.published,
        ap (λ (o : Operation). o.status) w.result,
        w.recorded,
        λ actor' now' c m.
            set_revision_hides s.repository.store w.document sel.document_id sel.revision
              DocumentLifecycle.withdrawn actor' now' c (cc) (rw w.written at m),
      )

  -- A request id that is known: the state stays as it is, and the answer is the operation itself if
  -- it is of the same request, and a conflict if it is of another.
  pub request_withdrawal_known :
      (old : String) (existing : Operation)
      → lookup request_id s.repository.request_ids ≡ some old
      → lookup old s.repository.operations ≡ some existing
      → request_withdrawal now id sel request_id reason actor s
        ≡ ((if is_request existing asked then ok existing else err Failure.request_conflict), s)
  unfolding request_withdrawal get_operation_by_request_id get_operation
  request_withdrawal_known old existing h k = ground arith

  request_withdrawal_lost :
      (old : String)
      → lookup request_id s.repository.request_ids ≡ some old
      → lookup old s.repository.operations ≡ none
      → request_withdrawal now id sel request_id reason actor s
        ≡ begin_withdrawal now id asked actor s
  unfolding request_withdrawal get_operation_by_request_id get_operation
  request_withdrawal_lost old h k = ground arith

  -- A request that raises leaves documents, chunks, images and tables as they were.
  pub request_withdrawal_err :
      {e : Failure} {t : State V}
      → request_withdrawal now id sel request_id reason actor s ≡ (err e, t)
      → t.repository.store ≡ s.repository.store
  request_withdrawal_err {e} {t} h =
      elim (Option-cases (lookup request_id s.repository.request_ids)) [
        | inl new ↦
            begin_withdrawal_err now id asked actor s new (sym (request_withdrawal_new new) ∙ h)
        | inr (old, k) ↦ elim (Option-cases (lookup old s.repository.operations)) [
          | inl lost ↦
              begin_withdrawal_lost now id asked actor s old k lost
                (sym (request_withdrawal_lost old k lost) ∙ h)
          | inr (op, found) ↦
              let e = request_withdrawal_known old op k found in
              ap (λ (r : Result Failure Operation × State V). r.1.repository.store) (sym h ∙ e)
        ]
      ]

module _ {V : Type 0} (now : ℕ) (id : String) (sel : DocumentRevisionSelector)
    (request_id reason : String) (actor : ActorScope) (s : State V) where
  -- A request that is sent again after it was accepted, with whatever fresh id and at whatever time,
  -- answers with the same operation and changes nothing.
  pub request_withdrawal_twice :
      (later : ℕ) (fresh : String) {op : Operation} {t : State V}
      → lookup request_id s.repository.request_ids ≡ none
      → request_withdrawal now id sel request_id reason actor s ≡ (ok op, t)
      → request_withdrawal later fresh sel request_id reason actor t ≡ (ok op, t)
  request_withdrawal_twice later fresh {op} {t} new h =
      let w =
        begin_withdrawal_ok now id (withdrawal sel request_id reason actor) actor s new
          (sym (request_withdrawal_new now id sel request_id reason actor s new) ∙ h) in
      let q = withdrawal sel request_id reason actor in
      let same : is_request op q ≡ true =
        ap (λ (o : Operation). is_request o q) w.result
        ∙ is_request-blocked now _ q
        ∙ is_request-candidate now id q DocumentLifecycleOperationStatus.requested w.bundle in
      request_withdrawal_known later fresh sel request_id reason actor t id op w.registered
        w.recorded
      ∙ ap (λ (b : Bool). ((if b then ok op else err Failure.request_conflict), t)) same

module _ {V : Type 0} (now : ℕ) (id configured : String) (sel : DocumentRevisionSelector)
    (request_id reason : String) (target : Option String) (actor : ActorScope) (s : State V) where
  -- Asking for a restoration writes no document, chunk, image or table, whatever it answers.
  pub store-request_restore :
      (request_restore now id configured sel request_id reason target actor s).1.repository.store
      ≡ s.repository.store
  unfolding request_restore begin_restore get_operation_by_request_id get_operation create_operation
      audit append_audit
  store-request_restore = ground arith
