-- ===== src/Conversations.antt =====
-- The conversation part of `DemoStore` (semikb/storage/memory.py): threads, the ledger of idempotent
-- message requests, and the write lease of a thread (`active_request_id`). An object that the
-- source changes in place is written back under its key.
pub mod Model
pub mod Closing
pub mod Lease
mod Steps
pub mod Reachable
pub mod Requests
use semiconductor_agent_know.Base.{
  ℕ, suc, ◌+◌, String, Bool, true, false, not, ◌&&◌, ◌||◌, Option, none, some, List, [], ◌∷◌, ◌++◌,
  ◌==◌, any, given, is_some, if◌then◌else◌, string_eq, pair_eq, option_eq,
}
use semiconductor_agent_know.Base.Dict.{Dict, lookup, insert}
use semiconductor_agent_know.Base.Result.{Result, ok, err, Exec}
use semiconductor_agent_know.Conversations.Model.{
  AgentMessageRequestStatus, AgentStreamErrorCode, AgentMessageRequestRecord, ChatMessage,
  ThreadRecord, ConversationError, RunAudit, no_audit, status_eq,
}

pub record Conversations : Type 0 where
  pub threads : Dict String ThreadRecord
  pub message_requests : Dict (String × (String × String)) AgentMessageRequestRecord

abbrev pub Action : Type 0 → Type 0
Action A = Exec ConversationError Conversations A

abbrev pub key_of : AgentMessageRequestRecord → String × (String × String)
key_of r = (r.thread_id, (r.actor_user_id, r.request_id))

abbrev pub create_thread : ThreadRecord → Action ThreadRecord
create_thread thread s =
    (ok thread, record s { threads = insert thread.thread_id thread s.threads })

-- The lease of a thread that may not be stored.
abbrev pub lease : Option ThreadRecord → Option String
lease none = none
lease (some thread) = thread.active_request_id

unfoldable pub save_thread : ℕ → ThreadRecord → Action ThreadRecord
save_thread now thread s =
    let saved = record thread { updated_at = now } in
    if is_some (lease (lookup thread.thread_id s.threads))
    then (err ConversationError.thread_busy, s)
    else (ok saved, record s { threads = insert thread.thread_id saved s.threads })

-- `thread is None or thread.actor_scope.user_id != actor_user_id`
abbrev pub owned : Option ThreadRecord → String → Option ThreadRecord
owned none actor_user_id = none
owned (some thread) actor_user_id =
    if thread.actor_scope.user_id == actor_user_id then some thread else none

abbrev pub leased : ℕ → String → ThreadRecord → ThreadRecord
leased now request_id thread = record thread {
  active_request_id = some request_id;
  active_request_started_at = some now;
}

-- The turn that a new request takes.
abbrev pub numbered : ThreadRecord → ThreadRecord
numbered thread = record thread {
  last_turn_seq = thread.next_turn_seq;
  next_turn_seq = thread.next_turn_seq + 1;
}

-- A new attempt of a request that failed or was cancelled.
abbrev pub restarted : ℕ → String → AgentMessageRequestRecord → AgentMessageRequestRecord
restarted now run_id existing = record existing {
  status = AgentMessageRequestStatus.accepted;
  attempt = existing.attempt + 1;
  run_id = run_id;
  assistant_message_id = none;
  trace_id = none;
  result_payload = [];
  audit = no_audit;
  error_code = none;
  updated_at = now;
  finished_at = none;
}

unfoldable pub accept_new :
    ℕ → AgentMessageRequestRecord → Action (AgentMessageRequestRecord × Bool)
accept_new now r s = elim (owned (lookup r.thread_id s.threads) r.actor_user_id) [
  | none ↦ (err ConversationError.key_error, s)
  | some thread ↦
      let r' = record r { user_turn_seq = some thread.next_turn_seq } in
      if is_some thread.active_request_id then (err ConversationError.thread_busy, s) else (
        ok (r', false),
        record s {
          threads = insert r.thread_id (leased now r.request_id (numbered thread)) s.threads;
          message_requests = insert (key_of r) r' s.message_requests;
        },
      )
]

unfoldable pub accept_again :
    ℕ
    → AgentMessageRequestRecord
    → AgentMessageRequestRecord
    → Action (AgentMessageRequestRecord × Bool)
accept_again now r existing s = elim (owned (lookup r.thread_id s.threads) r.actor_user_id) [
  | none ↦ (err ConversationError.key_error, s)
  | some thread ↦
      let r' = restarted now r.run_id existing in
      if is_some thread.active_request_id then (err ConversationError.thread_busy, s) else (
        ok (r', false),
        record s {
          threads = insert r.thread_id (leased now r.request_id thread) s.threads;
          message_requests = insert (key_of r) r' s.message_requests;
        },
      )
]

abbrev pub in_progress : AgentMessageRequestStatus → Bool
in_progress AgentMessageRequestStatus.accepted = true
in_progress AgentMessageRequestStatus.running = true
in_progress _ = false

unfoldable pub prepare_message_request :
    ℕ → AgentMessageRequestRecord → Action (AgentMessageRequestRecord × Bool)
unfolding accept_new accept_again
prepare_message_request now r s = elim (lookup (key_of r) s.message_requests) [
  | none ↦ accept_new now r s
  | some existing ↦
      if not (existing.content_sha256 == r.content_sha256)
      then (err ConversationError.request_conflict, s)
      else if existing.status == AgentMessageRequestStatus.completed
      then (ok (existing, true), s)
      else if in_progress existing.status
      then (err ConversationError.request_in_progress, s)
      else accept_again now r existing s
]

-- `item.request_id == request_id and item.role == role`
abbrev pub is_turn : Option String → String → ChatMessage → Bool
is_turn request_id role item = (item.request_id == request_id) && (item.role == role)

unfoldable pub append_message_once : ℕ → String → ChatMessage → Action ThreadRecord
append_message_once now thread_id message s = elim (lookup thread_id s.threads) [
  | none ↦ (err ConversationError.key_error, s)
  | some thread ↦
      let appended = record thread {
        messages = thread.messages ++ message ∷ [];
        updated_at = now;
      } in
      if given message.request_id && not (thread.active_request_id == message.request_id)
      then (err ConversationError.thread_busy, s)
      else if given message.request_id
          && any (is_turn message.request_id message.role) thread.messages
      then (ok thread, s)
      else (ok appended, record s { threads = insert thread_id appended s.threads })
]

unfoldable pub mark_message_request_running :
    ℕ → AgentMessageRequestRecord → Action AgentMessageRequestRecord
mark_message_request_running now r s = elim (lookup (key_of r) s.message_requests) [
  | none ↦ (err ConversationError.request_in_progress, s)
  | some current ↦
      let running = record current {
        status = AgentMessageRequestStatus.running;
        updated_at = now;
      } in
      if current.status == AgentMessageRequestStatus.accepted
      then (
        ok running,
        record s { message_requests = insert (key_of r) running s.message_requests },
      )
      else (err ConversationError.request_in_progress, s)
]
