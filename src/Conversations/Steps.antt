-- ===== src/Conversations/Steps.antt =====
-- Each call of the conversation store (semikb/storage/memory.py) keeps the leases in order.
use semiconductor_agent_know.Base.{
  ℕ, String, Bool, true, false, ◌≡◌, ◌≢◌, refl, ap, sym, ◌∙◌, ◌⊎◌, inl, inr, Option, none, some, [],
  ◌∷◌, ◌++◌, arith, Bool-cases, Option-cases, ◌==◌, ==_iff, string_eq, pair_eq, option_eq,
}
use semiconductor_agent_know.Base.Dict.{Dict, lookup, insert}
use semiconductor_agent_know.Conversations.Model.{
  AgentMessageRequestStatus, AgentMessageRequestRecord, ChatMessage, ThreadRecord, status_eq,
}
use semiconductor_agent_know.Conversations.{
  Conversations, owned, in_progress, key_of, create_thread, save_thread, prepare_message_request,
  accept_new, accept_again, append_message_once, mark_message_request_running,
}
use semiconductor_agent_know.Conversations.Closing.{
  ended, finalized, answered, Finalization, Ending, finalize_stream_response,
  mark_message_request_terminal, free_thread, freed,
}
use semiconductor_agent_know.Conversations.Lease.{
  Leased, some_same, thread-Leased, request-Leased, lease-Leased, new-Leased,
}

owned_found :
    (o : Option ThreadRecord) (u : String) {th : ThreadRecord}
    → owned o u ≡ some th
    → (o ≡ some th) × (th.actor_scope.user_id ≡ u)
owned_found none u h = ground arith
owned_found (some w) u {th} h =
    let e : w ≡ th = ground arith in
    (
      ap some e,
      sym (ap (λ (w : ThreadRecord). w.actor_scope.user_id) e)
          ∙ ground (arith, ==_iff w.actor_scope.user_id u),
    )

free_thread_held :
    (t q : String) (threads : Dict String ThreadRecord) {th : ThreadRecord}
    → lookup t threads ≡ some th
    → th.active_request_id ≡ some q
    → free_thread t q threads ≡ insert t (freed th) threads
unfolding free_thread
free_thread_held t q threads f h = ground (arith, ==_iff q q)

free_thread_other :
    (t q : String) (threads : Dict String ThreadRecord) {th : ThreadRecord}
    → lookup t threads ≡ some th
    → th.active_request_id ≢ some q
    → free_thread t q threads ≡ threads
unfolding free_thread
free_thread_other t q threads {th} f h = ground (arith, ==_iff th.active_request_id (some q))

ended_request :
    (q : String) (th : ThreadRecord) (b : Bool)
    → (b ≡ true → th.active_request_id ≡ some q)
    → (th.active_request_id ≡ some q) ⊎ ((th.active_request_id ≢ some q) × (b ≡ false))
ended_request q th b h = ground (arith, ==_iff th.active_request_id (some q))

-- The ways out of the calls that test more than one thing.
module _ (now : ℕ) (s : Conversations) where
  append_message_once_cases :
      (t : String) (message : ChatMessage) {th : ThreadRecord}
      → lookup t s.threads ≡ some th
      → ((append_message_once now t message s).1 ≡ s)
        ⊎ ((append_message_once now t message s).1 ≡ record s {
          threads =
              insert t
                (record th { messages = th.messages ++ message ∷ []; updated_at = now })
                s.threads;
        })
  unfolding append_message_once
  append_message_once_cases t message f = ground arith

  append_message_once_missing :
      (t : String) (message : ChatMessage)
      → lookup t s.threads ≡ none
      → (append_message_once now t message s).1 ≡ s
  unfolding append_message_once
  append_message_once_missing t message f = ground arith

  finalize_stream_response_missing :
      (t : String) (message : ChatMessage) (z : Finalization)
      → lookup t s.threads ≡ none
      → (finalize_stream_response now t message z s).1 ≡ s
  unfolding finalize_stream_response
  finalize_stream_response_missing t message z f = ground arith

  prepare_message_request_new :
      (r : AgentMessageRequestRecord)
      → lookup (key_of r) s.message_requests ≡ none
      → prepare_message_request now r s ≡ accept_new now r s
  unfolding prepare_message_request
  prepare_message_request_new r f = ground arith

  mark_message_request_terminal_missing :
      (r : AgentMessageRequestRecord) (status : AgentMessageRequestStatus) (e : Ending)
      → lookup (key_of r) s.message_requests ≡ none
      → (mark_message_request_terminal now r status e s).1 ≡ s
  unfolding mark_message_request_terminal
  mark_message_request_terminal_missing r status e f = ground arith

  mark_message_request_terminal_cases :
      (r : AgentMessageRequestRecord) (status : AgentMessageRequestStatus) (e : Ending)
      {current : AgentMessageRequestRecord}
      → lookup (key_of r) s.message_requests ≡ some current
      → ((mark_message_request_terminal now r status e s).1 ≡ s)
        ⊎ ((in_progress status ≡ false)
            × ((mark_message_request_terminal now r status e s).1 ≡ record s {
              threads = free_thread r.thread_id r.request_id s.threads;
              message_requests =
                  insert (key_of r) (ended now r status e current) s.message_requests;
            }))
  unfolding mark_message_request_terminal
  mark_message_request_terminal_cases r status e f = ground arith

  finalize_stream_response_cases :
      (t : String) (message : ChatMessage) (z : Finalization) {th : ThreadRecord}
      → lookup t s.threads ≡ some th
      → ((finalize_stream_response now t message z s).1 ≡ s)
        ⊎ ((finalize_stream_response now t message z s).1
            ≡ record s { threads = insert t (finalized now z th) s.threads })
        ⊎ ((finalize_stream_response now t message z s).1
            ≡ record s { threads = insert t (finalized now z (answered message th)) s.threads })
  unfolding finalize_stream_response
  finalize_stream_response_cases t message z f = ground arith

  prepare_message_request_cases :
      (r : AgentMessageRequestRecord) {existing : AgentMessageRequestRecord}
      → lookup (key_of r) s.message_requests ≡ some existing
      → ((prepare_message_request now r s).1 ≡ s)
        ⊎ ((prepare_message_request now r s) ≡ (accept_again now r existing s))
  unfolding prepare_message_request
  prepare_message_request_cases r f = ground arith

module _ (now : ℕ) (s : Conversations) (l : Leased s) where
  pub create_thread-Leased :
      (th : ThreadRecord)
      → lookup th.thread_id s.threads ≡ none
      → th.active_request_id ≡ none
      → Leased (create_thread th s).1
  create_thread-Leased th new idle = new-Leased l th.thread_id th new idle

  -- The thread that is saved is of the same owner, and not leased itself.
  pub save_thread-Leased :
      (th : ThreadRecord) {current : ThreadRecord}
      → lookup th.thread_id s.threads ≡ some current
      → th.actor_scope.user_id ≡ current.actor_scope.user_id
      → th.active_request_id ≡ none
      → Leased (save_thread now th s).1
  unfolding save_thread
  save_thread-Leased th {current} f u idle = elim (Option-cases current.active_request_id) [
    | inl free ↦
        rw (save_thread, f, free)
          (thread-Leased l th.thread_id current (record th { updated_at = now }) f u
            (idle ∙ sym free))
    | inr (q, held) ↦ rw (save_thread, f, held) l
  ]

  pub append_message_once-Leased :
      (t : String) (message : ChatMessage) → Leased (append_message_once now t message s).1
  append_message_once-Leased t message = elim (Option-cases (lookup t s.threads)) [
    | inl missing ↦ rw (append_message_once_missing now s t message missing) l
    | inr (th, f) ↦ elim (append_message_once_cases now s t message f) [
      | inl e ↦ rw e l
      | inr e ↦ rw e (thread-Leased l t th _ f refl refl)
    ]
  ]

  pub finalize_stream_response-Leased :
      (t : String) (message : ChatMessage) (z : Finalization)
      → Leased (finalize_stream_response now t message z s).1
  finalize_stream_response-Leased t message z = elim (Option-cases (lookup t s.threads)) [
    | inl missing ↦ rw (finalize_stream_response_missing now s t message z missing) l
    | inr (th, f) ↦ elim (finalize_stream_response_cases now s t message z f) [
      | inl e ↦ rw e l
      | inr (inl e) ↦ rw e (thread-Leased l t th _ f refl refl)
      | inr (inr e) ↦ rw e (thread-Leased l t th _ f refl refl)
    ]
  ]

  pub mark_message_request_running-Leased :
      (r : AgentMessageRequestRecord) → Leased (mark_message_request_running now r s).1
  unfolding mark_message_request_running
  mark_message_request_running-Leased r =
      elim (Option-cases (lookup (key_of r) s.message_requests)) [
        | inl missing ↦ rw (mark_message_request_running, missing) l
        | inr (x, f) ↦ elim (Bool-cases (x.status == AgentMessageRequestStatus.accepted)) [
          | inr other ↦ rw (mark_message_request_running, f, other) l
          | inl waiting ↦
              rw (mark_message_request_running, f, waiting)
                (request-Leased l r.thread_id r.actor_user_id r.request_id x _ f (ground arith))
        ]
      ]

  pub accept_new-Leased :
      (r : AgentMessageRequestRecord)
      → r.status ≡ AgentMessageRequestStatus.accepted
      → Leased (accept_new now r s).1
  unfolding accept_new
  accept_new-Leased r fresh =
      elim (Option-cases (owned (lookup r.thread_id s.threads) r.actor_user_id)) [
        | inl missing ↦ rw (accept_new, missing) l
        | inr (th, o) ↦
            let (f, u) = owned_found _ _ o in
            elim (Option-cases th.active_request_id) [
              | inr (p, busy) ↦ rw (accept_new, o, busy) l
              | inl idle ↦
                  rw (accept_new, o, idle)
                    (lease-Leased l r.thread_id r.actor_user_id r.request_id th _ _ f u u
                      (λ p h. ground (arith, idle, h)) (rw fresh refl))
            ]
      ]

  pub accept_again-Leased :
      (r existing : AgentMessageRequestRecord) → Leased (accept_again now r existing s).1
  unfolding accept_again
  accept_again-Leased r existing =
      elim (Option-cases (owned (lookup r.thread_id s.threads) r.actor_user_id)) [
        | inl missing ↦ rw (accept_again, missing) l
        | inr (th, o) ↦
            let (f, u) = owned_found _ _ o in
            elim (Option-cases th.active_request_id) [
              | inr (p, busy) ↦ rw (accept_again, o, busy) l
              | inl idle ↦
                  rw (accept_again, o, idle)
                    (lease-Leased l r.thread_id r.actor_user_id r.request_id th _ _ f u u
                      (λ p h. ground (arith, idle, h)) refl)
            ]
      ]

  pub prepare_message_request-Leased :
      (r : AgentMessageRequestRecord)
      → r.status ≡ AgentMessageRequestStatus.accepted
      → Leased (prepare_message_request now r s).1
  prepare_message_request-Leased r fresh =
      elim (Option-cases (lookup (key_of r) s.message_requests)) [
        | inl new ↦ rw (prepare_message_request_new now s r new) (accept_new-Leased r fresh)
        | inr (existing, f) ↦ elim (prepare_message_request_cases now s r f) [
          | inl e ↦ rw e l
          | inr e ↦ rw e (accept_again-Leased r existing)
        ]
      ]

  pub mark_message_request_terminal-Leased :
      (r : AgentMessageRequestRecord) (status : AgentMessageRequestStatus) (e : Ending)
      → Leased (mark_message_request_terminal now r status e s).1
  mark_message_request_terminal-Leased r status e =
      elim (Option-cases (lookup (key_of r) s.message_requests)) [
        | inl missing ↦ rw (mark_message_request_terminal_missing now s r status e missing) l
        | inr (x, f) ↦ elim (mark_message_request_terminal_cases now s r status e f) [
          | inl same ↦ rw same l
          | inr (over, written) ↦
              let (th, g, u, a) = l.covered r.thread_id r.actor_user_id r.request_id x f in
              elim (ended_request r.request_id th (in_progress x.status) a) [
                | inl held ↦
                    rw (written, free_thread_held r.thread_id r.request_id s.threads g held)
                      (lease-Leased l r.thread_id r.actor_user_id r.request_id th (freed th)
                        (ended now r status e x) g u u (λ p h. some_same (sym h ∙ held))
                        (rw over refl))
                | inr (free, ended_before) ↦
                    rw (written, free_thread_other r.thread_id r.request_id s.threads g free)
                      (request-Leased l r.thread_id r.actor_user_id r.request_id x
                        (ended now r status e x) f (over ∙ sym ended_before))
              ]
        ]
      ]
