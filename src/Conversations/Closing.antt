-- ===== src/Conversations/Closing.antt =====
-- The ends of a message request (semikb/storage/memory.py): the answer is appended to the thread,
-- and the request becomes terminal and gives the lease back.
use semiconductor_agent_know.Base.{
  ℕ, String, not, ◌&&◌, Option, none, some, List, [], ◌∷◌, ◌++◌, ◌==◌, any, if◌then◌else◌,
  string_eq, pair_eq, option_eq,
}
use semiconductor_agent_know.Base.Dict.{Dict, lookup, insert}
use semiconductor_agent_know.Base.Result.{ok, err}
use semiconductor_agent_know.Conversations.Model.{
  AgentMessageRequestStatus, AgentStreamErrorCode, AgentMessageRequestRecord, ChatMessage,
  ThreadRecord, ConversationError, status_eq,
}
use semiconductor_agent_know.Conversations.{Action, key_of, in_progress, is_turn, numbered}

-- The keyword arguments of `finalize_stream_response`.
pub record Finalization : Type 0 where
  pub status : String
  pub summary : String
  pub summary_upto_message_id : Option String
  pub active_context : String
  pub context_version : ℕ
  pub pending_fields : List String
  pub clarification_round : ℕ

abbrev pub finalized : ℕ → Finalization → ThreadRecord → ThreadRecord
finalized now f thread = record thread {
  status = f.status;
  summary = f.summary;
  summary_upto_message_id = f.summary_upto_message_id;
  active_context = f.active_context;
  context_version = f.context_version;
  pending_fields = f.pending_fields;
  clarification_round = f.clarification_round;
  updated_at = now;
}

-- The turn that the answer takes.
abbrev pub answered : ChatMessage → ThreadRecord → ThreadRecord
answered message thread = record (numbered thread) {
  messages = thread.messages ++ record message { turn_seq = some thread.next_turn_seq } ∷ [];
}

unfoldable pub finalize_stream_response :
    ℕ → String → ChatMessage → Finalization → Action ThreadRecord
finalize_stream_response now thread_id message f s = elim (lookup thread_id s.threads) [
  | none ↦ (err ConversationError.key_error, s)
  | some thread ↦
      let kept = finalized now f thread in
      let added = finalized now f (answered message thread) in
      if any (is_turn message.request_id "assistant") thread.messages
      then (ok kept, record s { threads = insert thread_id kept s.threads })
      else if not (thread.active_request_id == message.request_id)
      then (err ConversationError.thread_busy, s)
      else (ok added, record s { threads = insert thread_id added s.threads })
]

-- The keyword arguments of `mark_message_request_terminal`, `None` payloads as empty ones.
pub record Ending : Type 0 where
  pub result_payload : Dict String String
  pub assistant_message_id : Option String
  pub trace_id : Option String
  pub error_code : Option AgentStreamErrorCode

abbrev pub ended :
    ℕ
    → AgentMessageRequestRecord
    → AgentMessageRequestStatus
    → Ending
    → AgentMessageRequestRecord
    → AgentMessageRequestRecord
ended now r status e current = record current {
  status = status;
  result_payload = e.result_payload;
  assistant_message_id = e.assistant_message_id;
  assistant_turn_seq = r.assistant_turn_seq;
  trace_id = e.trace_id;
  audit = r.audit;
  direct_reply_audit = r.direct_reply_audit;
  clarification_transition_audit = r.clarification_transition_audit;
  error_code = e.error_code;
  updated_at = now;
  finished_at = some now;
}

abbrev pub freed : ThreadRecord → ThreadRecord
freed thread = record thread { active_request_id = none; active_request_started_at = none }

-- The end of the lease, if the request holds it.
unfoldable pub free_thread : String → String → Dict String ThreadRecord → Dict String ThreadRecord
free_thread thread_id request_id threads = elim (lookup thread_id threads) [
  | none ↦ threads
  | some thread ↦
      if thread.active_request_id == some request_id
      then insert thread_id (freed thread) threads
      else threads
]

unfoldable pub mark_message_request_terminal :
    ℕ
    → AgentMessageRequestRecord
    → AgentMessageRequestStatus
    → Ending
    → Action AgentMessageRequestRecord
unfolding free_thread
mark_message_request_terminal now r status e s =
    if in_progress status
    then (err ConversationError.terminal_status_required, s)
    else elim (lookup (key_of r) s.message_requests) [
      | none ↦ (err ConversationError.key_error, s)
      | some current ↦
          let done = ended now r status e current in
          if not (in_progress current.status) && not (current.status == status)
          then (err ConversationError.not_acknowledged, s)
          else (
            ok done,
            record s {
              threads = free_thread r.thread_id r.request_id s.threads;
              message_requests = insert (key_of r) done s.message_requests;
            },
          )
    ]
