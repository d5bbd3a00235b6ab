-- ===== src/Conversations/Model.antt =====
-- The records of a conversation: `ThreadRecord` and `ChatMessage` (contracts/models.py) and
-- `AgentMessageRequestRecord` (contracts/streaming.py). A `datetime` is a number of ticks, and a
-- nested record that the modelled code only moves is its text.
use semiconductor_agent_know.Base.{
  ℕ, String, Option, none, List, [], true, ◌≡◌, ◌↔◌, arith, Key, eqb,
}
use semiconductor_agent_know.Base.Dict.{Dict}
use semiconductor_agent_know.Documents.Model.{ActorScope}

pub data AgentMessageRequestStatus : Type 0 where
  accepted running completed failed cancelled : AgentMessageRequestStatus

abbrev status_place : AgentMessageRequestStatus → ℕ
status_place AgentMessageRequestStatus.accepted = 0
status_place AgentMessageRequestStatus.running = 1
status_place AgentMessageRequestStatus.completed = 2
status_place AgentMessageRequestStatus.failed = 3
status_place AgentMessageRequestStatus.cancelled = 4

pub status_iff :
    (a b : AgentMessageRequestStatus) → (eqb (status_place a) (status_place b) ≡ true) ↔ (a ≡ b)
status_iff a b = ground arith

instance abbrev pub status_eq : Key AgentMessageRequestStatus
status_eq = record {
  is_same = λ a b. eqb (status_place a) (status_place b);
  is_same_iff = status_iff;
}

pub data AgentStreamErrorCode : Type 0 where
  invalid_request unauthorized forbidden thread_not_found request_conflict request_in_progress
        provider_timeout provider_rate_limited provider_unavailable verification_failed cancelled
        internal_error :
      AgentStreamErrorCode

-- What a run leaves for the audit. `none` is the default of a field.
pub record RunAudit : Type 0 where
  pub interaction_mode : Option String
  pub route_decision : Option String
  pub route_confidence : Option String
  pub task_items : List String
  pub task_decisions : List String
  pub task_results : List String
  pub context_message_ids : List String
  pub standalone_query : String
  pub retrieval_skipped_reason : Option String
  pub slot_operations : List String
  pub inherited_slots : Dict String String
  pub invalidated_context_refs : List String
  pub cancel_scope : Option String
  pub affect : Option String
  pub understanding_audit : Option String

-- The values that a new attempt starts from.
abbrev pub no_audit : RunAudit
no_audit = record {
  interaction_mode = none;
  route_decision = none;
  route_confidence = none;
  task_items = [];
  task_decisions = [];
  task_results = [];
  context_message_ids = [];
  standalone_query = "";
  retrieval_skipped_reason = none;
  slot_operations = [];
  inherited_slots = [];
  invalidated_context_refs = [];
  cancel_scope = none;
  affect = none;
  understanding_audit = none;
}

pub record AgentMessageRequestRecord : Type 0 where
  pub request_id : String
  pub thread_id : String
  pub actor_user_id : String
  pub content_sha256 : String
  pub run_id : String
  pub user_turn_seq : Option ℕ
  pub assistant_turn_seq : Option ℕ
  pub status : AgentMessageRequestStatus
  pub attempt : ℕ
  pub assistant_message_id : Option String
  pub trace_id : Option String
  pub result_payload : Dict String String
  pub audit : RunAudit
  pub direct_reply_audit : Option String
  pub clarification_transition_audit : Option String
  pub error_code : Option AgentStreamErrorCode
  pub updated_at : ℕ
  pub finished_at : Option ℕ

pub record ChatMessage : Type 0 where
  pub message_id : String
  pub request_id : Option String
  pub turn_seq : Option ℕ
  pub role : String
  pub content : String

pub record ThreadRecord : Type 0 where
  pub thread_id : String
  pub actor_scope : ActorScope
  pub status : String
  pub summary : String
  pub summary_upto_message_id : Option String
  pub context_version : ℕ
  pub active_context : String
  pub next_turn_seq : ℕ
  pub last_turn_seq : ℕ
  pub active_request_id : Option String
  pub active_request_started_at : Option ℕ
  pub clarification_round : ℕ
  pub pending_fields : List String
  pub messages : List ChatMessage
  pub updated_at : ℕ

-- What the conversation part of the store raises.
pub data ConversationError : Type 0 where
  key_error thread_busy request_conflict request_in_progress terminal_status_required
        not_acknowledged :
      ConversationError
