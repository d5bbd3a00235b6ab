-- ===== src/Conversations/Requests.antt =====
-- What sending a message again does: the calls are idempotent by the request id.
use semiconductor_agent_know.Base.{
  ℕ, String, Bool, true, false, ◌≡◌, refl, inl, inr, some, List, [], ◌∷◌, ◌++◌, arith, Option-cases,
  ◌==◌, ==_iff, ==_refl, given, any, if◌then◌else◌, string_eq, pair_eq, option_eq,
}
use semiconductor_agent_know.Base.Dict.{lookup, lookup-insert_self}
use semiconductor_agent_know.Base.Result.{ok, err}
use semiconductor_agent_know.Conversations.Model.{
  AgentMessageRequestStatus, AgentMessageRequestRecord, ChatMessage, ThreadRecord,
  ConversationError, status_eq,
}
use semiconductor_agent_know.Conversations.{
  Conversations, key_of, owned, restarted, is_turn, prepare_message_request, accept_new,
  accept_again, append_message_once,
}
use semiconductor_agent_know.Conversations.Closing.{Ending, ended, mark_message_request_terminal}

-- The ledger holds a request in progress under the key.
record Waiting (k : String × (String × String)) (hash : String) (x : AgentMessageRequestRecord)
    (t : Conversations) : Type 0 where
  found : lookup k t.message_requests ≡ some x
  hashed : x.content_sha256 ≡ hash
  waits : x.status ≡ AgentMessageRequestStatus.accepted

module _ (now : ℕ) (r : AgentMessageRequestRecord) (s : Conversations) where
  accept_new-Waiting :
      {x : AgentMessageRequestRecord} {t : Conversations}
      → r.status ≡ AgentMessageRequestStatus.accepted
      → accept_new now r s ≡ (ok (x, false), t)
      → Waiting (key_of r) r.content_sha256 x t
  unfolding accept_new
  accept_new-Waiting {x} {t} fresh h =
      elim (Option-cases (owned (lookup r.thread_id s.threads) r.actor_user_id)) [
        | inl missing ↦ ground arith
        | inr (th, o) ↦ elim (Option-cases th.active_request_id) [
          | inr (p, busy) ↦ ground arith
          | inl idle ↦ record {
            found = ground (
              arith,
              lookup-insert_self (key_of r) (record r { user_turn_seq = some th.next_turn_seq })
                  s.message_requests,
            );
            hashed = ground arith;
            waits = ground arith;
          }
        ]
      ]

  accept_again-Waiting :
      (existing : AgentMessageRequestRecord) {x : AgentMessageRequestRecord} {t : Conversations}
      → existing.content_sha256 ≡ r.content_sha256
      → accept_again now r existing s ≡ (ok (x, false), t)
      → Waiting (key_of r) r.content_sha256 x t
  unfolding accept_again
  accept_again-Waiting existing {x} {t} same h =
      elim (Option-cases (owned (lookup r.thread_id s.threads) r.actor_user_id)) [
        | inl missing ↦ ground arith
        | inr (th, o) ↦ elim (Option-cases th.active_request_id) [
          | inr (p, busy) ↦ ground arith
          | inl idle ↦ record {
            found = ground (
              arith,
              lookup-insert_self (key_of r) (restarted now r.run_id existing) s.message_requests,
            );
            hashed = ground arith;
            waits = ground arith;
          }
        ]
      ]

  prepare_message_request-Waiting :
      {x : AgentMessageRequestRecord} {t : Conversations}
      → r.status ≡ AgentMessageRequestStatus.accepted
      → prepare_message_request now r s ≡ (ok (x, false), t)
      → Waiting (key_of r) r.content_sha256 x t
  unfolding prepare_message_request
  prepare_message_request-Waiting {x} {t} fresh h =
      elim (Option-cases (lookup (key_of r) s.message_requests)) [
        | inl new ↦ accept_new-Waiting fresh (ground arith)
        | inr (existing, f) ↦
            accept_again-Waiting existing
              (ground (arith, ==_iff existing.content_sha256 r.content_sha256)) (ground arith)
      ]

-- A request that was accepted and is sent again, under the same key and before it has run, is
-- refused and changes nothing: as in progress if the content is the same, as a conflict if not.
pub prepare_message_request_twice :
    (now later : ℕ) (r again : AgentMessageRequestRecord) (s : Conversations)
    {x : AgentMessageRequestRecord} {t : Conversations}
    → r.status ≡ AgentMessageRequestStatus.accepted
    → key_of again ≡ key_of r
    → prepare_message_request now r s ≡ (ok (x, false), t)
    → prepare_message_request later again t ≡ (
      err (
          if r.content_sha256 == again.content_sha256
          then ConversationError.request_in_progress
          else ConversationError.request_conflict),
      t,
    )
unfolding prepare_message_request
prepare_message_request_twice now later r again s {x} {t} fresh k h =
    let w = prepare_message_request-Waiting now r s fresh h in
    ground (arith, k, w.found, w.hashed, w.waits)

module _ (now : ℕ) (r : AgentMessageRequestRecord) (e : Ending) (s : Conversations) where
  mark_completed_found :
      {x : AgentMessageRequestRecord} {t : Conversations}
      → mark_message_request_terminal now r AgentMessageRequestStatus.completed e s ≡ (ok x, t)
      → (lookup (key_of r) t.message_requests ≡ some x)
        × (x.status ≡ AgentMessageRequestStatus.completed)
        × (x.result_payload ≡ e.result_payload)
        × (x.assistant_message_id ≡ e.assistant_message_id)
  unfolding mark_message_request_terminal
  mark_completed_found {x} {t} h = elim (Option-cases (lookup (key_of r) s.message_requests)) [
    | inl missing ↦ ground arith
    | inr (y, f) ↦
        let z = ended now r AgentMessageRequestStatus.completed e y in
        (
          ground (arith, lookup-insert_self (key_of r) z s.message_requests),
          ground arith,
          ground arith,
          ground arith,
        )
  ]

-- Once a request is recorded as completed, sending it again with the same content answers with the
-- recorded result, in whatever state it is sent, and changes nothing.
pub mark_completed_replays :
    (now later : ℕ) (r again : AgentMessageRequestRecord) (e : Ending) (s : Conversations)
    {x : AgentMessageRequestRecord} {t : Conversations}
    → mark_message_request_terminal now r AgentMessageRequestStatus.completed e s ≡ (ok x, t)
    → key_of again ≡ key_of r
    → again.content_sha256 ≡ x.content_sha256
    → (prepare_message_request later again t ≡ (ok (x, true), t))
      × (x.result_payload ≡ e.result_payload)
      × (x.assistant_message_id ≡ e.assistant_message_id)
unfolding prepare_message_request
mark_completed_replays now later r again e s {x} {t} h k c =
    let (f, d, p, m) = mark_completed_found now r e s h in
    (ground (arith, k, f, d, c, ==_iff x.content_sha256 again.content_sha256), p, m)

any-last :
    (f : ChatMessage → Bool) (xs : List ChatMessage) (x : ChatMessage)
    → f x ≡ true
    → any f (xs ++ x ∷ []) ≡ true
any-last f [] x h = rw h refl
any-last f (y ∷ xs) x h = ground (arith, any-last f xs x h)

is_turn_self : (m : ChatMessage) → is_turn m.request_id m.role m ≡ true
is_turn_self m = ground (arith, ==_refl m.request_id, ==_refl m.role)

module _ (now : ℕ) (t : String) (message : ChatMessage) (s : Conversations) where
  -- What is there once the message has been appended.
  append_message_once_found :
      {th : ThreadRecord} {u : Conversations}
      → given message.request_id ≡ true
      → append_message_once now t message s ≡ (ok th, u)
      → (lookup t u.threads ≡ some th)
        × (th.active_request_id ≡ message.request_id)
        × (any (is_turn message.request_id message.role) th.messages ≡ true)
  unfolding append_message_once
  append_message_once_found {th} {u} g h = elim (Option-cases (lookup t s.threads)) [
    | inl missing ↦ ground arith
    | inr (w, f) ↦
        let z = record w { messages = w.messages ++ message ∷ []; updated_at = now } in
        let last =
          any-last (is_turn message.request_id message.role) w.messages message
            (is_turn_self message) in
        let same = ==_iff w.active_request_id message.request_id in
        (
          ground (arith, lookup-insert_self t z s.threads),
          ground (arith, same),
          ground (arith, last),
        )
  ]

-- Appending a message that carries a request id a second time leaves the store as the first left it.
pub append_message_once_twice :
    (now later : ℕ) (t : String) (message : ChatMessage) (s u : Conversations) {th : ThreadRecord}
    → given message.request_id ≡ true
    → append_message_once now t message s ≡ (ok th, u)
    → append_message_once later t message u ≡ (ok th, u)
unfolding append_message_once
append_message_once_twice now later t message s u {th} g h =
    let (f, a, d) = append_message_once_found now t message s g h in
    ground (arith, f, d, a, ==_iff th.active_request_id message.request_id)
