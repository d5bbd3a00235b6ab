-- ===== src/Conversations/Lease.antt =====
-- The write lease of a thread: a thread is leased to the request that is in progress on it, and to
-- no other, whatever calls of the store come in whatever order.
use semiconductor_agent_know.Base.{
  String, Bool, true, false, ◌≡◌, ◌≢◌, refl, ap, sym, ◌∙◌, inl, inr, none, some, arith, ◌==◌,
  ==_iff, if◌then◌else◌, string_eq, pair_eq, option_eq,
}
use semiconductor_agent_know.Base.Dict.{
  Dict, lookup, insert, lookup-insert_self, insert-found, lookup-kept, lookup-insert_ne,
}
use semiconductor_agent_know.Conversations.Model.{
  AgentMessageRequestRecord, ThreadRecord, status_eq,
}
use semiconductor_agent_know.Conversations.{Conversations, in_progress}

abbrev Threads : Type 0
Threads = Dict String ThreadRecord

abbrev Requests : Type 0
Requests = Dict (String × (String × String)) AgentMessageRequestRecord

-- A lease belongs to a request in progress of the owner of the thread. A request belongs to the
-- owner of its thread, and holds the lease as long as it is in progress.
pub record LeasedTo (threads : Threads) (requests : Requests) : Type 0 where
  pub holder :
      (t q : String) (th : ThreadRecord)
      → lookup t threads ≡ some th
      → th.active_request_id ≡ some q
      → (r : AgentMessageRequestRecord) × (lookup (t, (th.actor_scope.user_id, q)) requests
          ≡ some r)
        × (in_progress r.status ≡ true)
  pub covered :
      (t u q : String) (r : AgentMessageRequestRecord)
      → lookup (t, (u, q)) requests ≡ some r
      → (th : ThreadRecord) × (lookup t threads ≡ some th)
        × (th.actor_scope.user_id ≡ u)
        × (in_progress r.status ≡ true → th.active_request_id ≡ some q)

abbrev pub Leased : Conversations → Type 0
Leased s = LeasedTo s.threads s.message_requests

pub some_same : {A : Type 0} {a b : A} → some a ≡ some b → a ≡ b
some_same h = ground arith

grant : (q p : String) (b : Bool) → b ≡ true → q ≡ p → (if b then some q else none) ≡ some p
grant q p b h e = ground arith

clash :
    (t j u v q p : String)
    → ◌==◌ {A = String × (String × String)} (t, (u, q)) (j, (v, p)) ≡ false
    → t ≡ j
    → v ≡ u
    → p ≢ q
clash t j u v q p ne e f g = ground (arith, ==_iff t j, ==_iff u v, ==_iff q p)

granted : (q p : String) (b : Bool) → (if b then some q else none) ≡ some p → (b ≡ true) × (q ≡ p)
granted q p b h = ground arith

module _ {threads : Threads} {requests : Requests} (l : LeasedTo threads requests) where
  -- A write to a thread that keeps its owner and its lease.
  pub thread-Leased :
      (t : String) (th th' : ThreadRecord)
      → lookup t threads ≡ some th
      → th'.actor_scope.user_id ≡ th.actor_scope.user_id
      → th'.active_request_id ≡ th.active_request_id
      → LeasedTo (insert t th' threads) requests
  thread-Leased t th th' f u a = record {
    holder = λ j q w k p. elim (insert-found t j threads k) [
      | inl (e, e') ↦
          let w_user = ap (λ (w : ThreadRecord). w.actor_scope.user_id) e' in
          let w_lease = ap (λ (w : ThreadRecord). w.active_request_id) e' in
          let (r, g, i) = l.holder j q th (rw e at f) (sym a ∙ w_lease ∙ p) in
          (r, rw (sym (sym u ∙ w_user)) g, i)
      | inr (_, k') ↦ l.holder j q w k' p
    ];
    covered = λ j v q r k.
        let (w, f', u', a') = l.covered j v q r k in
        elim (lookup-kept t j {v = th'} threads f') [
          | inl (e, g) ↦
              let same : th ≡ w = some_same (sym (rw e at f) ∙ f') in
              (
                th',
                g,
                u ∙ ap (λ (w : ThreadRecord). w.actor_scope.user_id) same ∙ u',
                λ i. a ∙ ap (λ (w : ThreadRecord). w.active_request_id) same ∙ a' i,
              )
          | inr g ↦ (w, g, u', a')
        ];
  }

  -- A write to a request that leaves it in progress, or leaves it ended.
  pub request-Leased :
      (t u q : String) (r r' : AgentMessageRequestRecord)
      → lookup (t, (u, q)) requests ≡ some r
      → in_progress r'.status ≡ in_progress r.status
      → LeasedTo threads (insert (t, (u, q)) r' requests)
  request-Leased t u q r r' f same = record {
    holder = λ j p w k a.
        let (x, g, i) = l.holder j p w k a in
        elim (lookup-kept (t, (u, q)) (j, (w.actor_scope.user_id, p)) {v = r'} requests g) [
          | inl (e, g') ↦ (
            r',
            g',
            same
                ∙ ap (λ (r : AgentMessageRequestRecord). in_progress r.status)
                    (some_same (sym (rw e at f) ∙ g))
                ∙ i,
          )
          | inr g' ↦ (x, g', i)
        ];
    covered = λ j v p x k. elim (insert-found (t, (u, q)) (j, (v, p)) requests k) [
      | inl (e, e') ↦
          let (w, g, v', a) = l.covered j v p r (rw e at f) in
          (
            w,
            g,
            v',
            λ i. a (sym same ∙ ap (λ (r : AgentMessageRequestRecord). in_progress r.status) e' ∙ i),
          )
      | inr (_, k') ↦ l.covered j v p x k'
    ];
  }

  module _ (t u q : String) (th th' : ThreadRecord) (r' : AgentMessageRequestRecord)
      (f : lookup t threads ≡ some th) (owner : th.actor_scope.user_id ≡ u)
      (owner' : th'.actor_scope.user_id ≡ u)
      (free : (p : String) → th.active_request_id ≡ some p → p ≡ q)
      (lease' : th'.active_request_id ≡ (if in_progress r'.status then some q else none)) where
    -- A write that gives the lease of a thread to a request, or ends the lease with the request.
    pub lease-Leased : LeasedTo (insert t th' threads) (insert (t, (u, q)) r' requests)
    lease-Leased = record {
      holder = λ j p w k a. elim (insert-found t j threads k) [
        | inl (e, e') ↦
            let a' = sym lease' ∙ ap (λ (w : ThreadRecord). w.active_request_id) e' ∙ a in
            let (i, same) = granted q p (in_progress r'.status) a' in
            (
              r',
              rw
                  (
                    sym e,
                    sym (ap (λ (w : ThreadRecord). w.actor_scope.user_id) e'),
                    owner',
                    sym same,
                  )
                  (lookup-insert_self (t, (u, q)) r' requests),
              i,
            )
        | inr (ne, k') ↦
            let (x, g, i) = l.holder j p w k' a in
            (
              x,
              lookup-insert_ne (t, (u, q)) (j, (w.actor_scope.user_id, p)) r' requests (rw ne refl)
                  ∙ g,
              i,
            )
      ];
      covered = λ j v p x k. elim (insert-found (t, (u, q)) (j, (v, p)) requests k) [
        | inl (e, e') ↦ (
          th',
          rw (sym (ap (λ (k : String × (String × String)). k.0) e))
              (lookup-insert_self t th' threads),
          owner' ∙ ap (λ (k : String × (String × String)). k.1.0) e,
          λ i.
              lease'
              ∙ grant q p (in_progress r'.status)
                  (ap (λ (r : AgentMessageRequestRecord). in_progress r.status) e' ∙ i)
                  (ap (λ (k : String × (String × String)). k.1.1) e),
        )
        | inr (ne, k') ↦
            let (w, g, v', a) = l.covered j v p x k' in
            elim (lookup-kept t j {v = th'} threads g) [
              | inl (e, g') ↦
                  let same : th ≡ w = some_same (sym (rw e at f) ∙ g) in
                  let v_owner : v ≡ u =
                    sym v' ∙ sym (ap (λ (w : ThreadRecord). w.actor_scope.user_id) same) ∙ owner in
                  (
                    th',
                    g',
                    owner' ∙ sym v_owner,
                    λ i. absurd (
                        clash t j u v q p ne e v_owner
                          (free p (ap (λ (w : ThreadRecord). w.active_request_id) same ∙ a i))),
                  )
              | inr g' ↦ (w, g', v', a)
            ]
      ];
    }

  -- A write of a new thread, which nobody has leased.
  pub new-Leased :
      (t : String) (th : ThreadRecord)
      → lookup t threads ≡ none
      → th.active_request_id ≡ none
      → LeasedTo (insert t th threads) requests
  new-Leased t th new idle = record {
    holder = λ j p w k a. elim (insert-found t j threads k) [
      | inl (e, e') ↦ ground (arith, idle, a, ap (λ (w : ThreadRecord). w.active_request_id) e')
      | inr (_, k') ↦ l.holder j p w k' a
    ];
    covered = λ j v p x k.
        let (w, g, v', a) = l.covered j v p x k in
        elim (lookup-kept t j {v = th} threads g) [
          | inl (e, _) ↦ ground (arith, rw e at new, g)
          | inr g' ↦ (w, g', v', a)
        ];
  }
