-- ===== src/Tests/Conversations.antt =====
-- One thread, and one message that is sent, sent again, replied and replayed.
use semiconductor_agent_know.Base.{
  String, true, false, ◌≡◌, refl, none, some, [], ◌∷◌, ◌==◌, if◌then◌else◌, string_eq, pair_eq,
}
use semiconductor_agent_know.Base.Dict.{lookup, insert, lookup-empty}
use semiconductor_agent_know.Base.Result.{Result, ok, err}
use semiconductor_agent_know.Tests.Data.{tool_actor}
use semiconductor_agent_know.Conversations.Model.{
  AgentMessageRequestStatus, AgentMessageRequestRecord, ChatMessage, ThreadRecord,
  ConversationError, no_audit,
}
use semiconductor_agent_know.Conversations.{
  Conversations, prepare_message_request, accept_new, append_message_once,
}
use semiconductor_agent_know.Conversations.Closing.{
  Ending, mark_message_request_terminal, free_thread,
}
use semiconductor_agent_know.Conversations.Lease.{Leased}
use semiconductor_agent_know.Conversations.Reachable.{
  Call, perform, Reachable, Reachable-Leased, Reachable_exclusive,
}
use semiconductor_agent_know.Conversations.Requests.{
  prepare_message_request_twice, mark_completed_replays,
}

abbrev thread : ThreadRecord
thread = record {
  thread_id = "t1";
  actor_scope = tool_actor;
  status = "active";
  summary = "";
  summary_upto_message_id = none;
  context_version = 1;
  active_context = "{}";
  next_turn_seq = 1;
  last_turn_seq = 0;
  active_request_id = none;
  active_request_started_at = none;
  clarification_round = 0;
  pending_fields = [];
  messages = [];
  updated_at = 0;
}

abbrev request : String → AgentMessageRequestRecord
request hash = record {
  request_id = "q1";
  thread_id = "t1";
  actor_user_id = "engineer";
  content_sha256 = hash;
  run_id = "run1";
  user_turn_seq = none;
  assistant_turn_seq = none;
  status = AgentMessageRequestStatus.accepted;
  attempt = 1;
  assistant_message_id = none;
  trace_id = none;
  result_payload = [];
  audit = no_audit;
  direct_reply_audit = none;
  clarification_transition_audit = none;
  error_code = none;
  updated_at = 5;
  finished_at = none;
}

abbrev empty : Conversations
empty = record { threads = []; message_requests = [] }

abbrev opened : Conversations
opened = perform (Call.create thread) empty

abbrev sent : Conversations
sent = perform (Call.prepare 5 (request "h1")) opened

-- The request takes the first turn.
abbrev numbered_request : AgentMessageRequestRecord
numbered_request = record (request "h1") { user_turn_seq = some 1 }

sent-ok : prepare_message_request 5 (request "h1") opened ≡ (ok (numbered_request, false), sent)
unfolding prepare_message_request accept_new lookup insert
sent-ok = refl

sent-Reachable : Reachable sent
sent-Reachable =
    Reachable.after (Call.prepare 5 (request "h1")) refl
      (Reachable.after (Call.create thread) (lookup-empty "t1", refl) Reachable.start)

sent-found : lookup ("t1", ("engineer", "q1")) sent.message_requests ≡ some numbered_request
unfolding prepare_message_request accept_new lookup insert
sent-found = refl

Reachable-Leased_example : Leased sent
Reachable-Leased_example = Reachable-Leased sent sent-Reachable

Reachable_exclusive_example :
    (◌≡◌ {A = String} "engineer" "engineer") × (◌≡◌ {A = String} "q1" "q1")
Reachable_exclusive_example =
    Reachable_exclusive sent "t1" "engineer" "engineer" "q1" "q1" numbered_request numbered_request
      sent-Reachable sent-found refl sent-found refl

prepare_message_request_twice_example : prepare_message_request 6 (request "h2") sent ≡ (
  err (
      if ◌==◌ {A = String} "h1" "h2"
      then ConversationError.request_in_progress
      else ConversationError.request_conflict),
  sent,
)
prepare_message_request_twice_example =
    prepare_message_request_twice 5 6 (request "h1") (request "h2") opened refl refl sent-ok

abbrev ending : Ending
ending = record {
  result_payload = ("answer", "Vent the chamber.") ∷ [];
  assistant_message_id = some "m2";
  trace_id = none;
  error_code = none;
}

abbrev replied : Result ConversationError AgentMessageRequestRecord × Conversations
replied =
    mark_message_request_terminal 9 numbered_request AgentMessageRequestStatus.completed ending sent

abbrev completed : AgentMessageRequestRecord
completed = record numbered_request {
  status = AgentMessageRequestStatus.completed;
  result_payload = ("answer", "Vent the chamber.") ∷ [];
  assistant_message_id = some "m2";
  updated_at = 9;
  finished_at = some 9;
}

replied-ok : replied ≡ (ok completed, replied.1)
unfolding mark_message_request_terminal free_thread prepare_message_request accept_new lookup insert
replied-ok = refl

mark_completed_replays_example :
    (prepare_message_request 12 (request "h1") replied.1 ≡ (ok (completed, true), replied.1))
    × (completed.result_payload ≡ ending.result_payload)
    × (completed.assistant_message_id ≡ some "m2")
mark_completed_replays_example =
    mark_completed_replays 9 12 numbered_request (request "h1") ending sent replied-ok refl refl

abbrev question : ChatMessage
question = record {
  message_id = "m1";
  request_id = some "q1";
  turn_seq = some 1;
  role = "user";
  content = "How do I vent the chamber?";
}

abbrev appended : Result ConversationError ThreadRecord × Conversations
appended = append_message_once 6 "t1" question sent

abbrev thread_with_question : ThreadRecord
thread_with_question = record thread {
  next_turn_seq = 2;
  last_turn_seq = 1;
  active_request_id = some "q1";
  active_request_started_at = some 5;
  messages = question ∷ [];
  updated_at = 6;
}

appended-ok : appended ≡ (ok thread_with_question, appended.1)
unfolding append_message_once prepare_message_request accept_new lookup insert
appended-ok = refl
