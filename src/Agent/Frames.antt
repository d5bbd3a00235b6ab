-- ===== src/Agent/Frames.antt =====
-- The records of a clarification (semikb/contracts/models.py, semikb/agent_runtime/clarification.py). A
-- frame carries the understanding and the plan that it was built from.
use semiconductor_agent_know.Base.{String, ℕ, Bool, Option, List, map}
use semiconductor_agent_know.Agent.Kinds.{
  AgentRoute, ClarificationKind, ClarificationFrameStatus, ClarificationItemType,
  ClarificationTurnRelation,
}
use semiconductor_agent_know.Agent.Model.{ConversationUnderstanding, RoutePlan}

pub record ClarificationPendingItem : Type 0 where
  pub key : String
  pub item_type : ClarificationItemType
  pub prompt : String
  pub allowed_values : List String

pub record ClarificationResolvedItem : Type 0 where
  pub key : String
  pub value : String
  pub source_message_id : Option String

pub record ClarificationFrame : Type 0 where
  pub frame_id : String
  pub kind : ClarificationKind
  pub original_request : String
  pub candidate_route : AgentRoute
  pub task_ids : List String
  pub pending_items : List ClarificationPendingItem
  pub resolved_items : List ClarificationResolvedItem
  pub round : ℕ
  pub no_progress_count : ℕ
  pub signature : String
  pub status : ClarificationFrameStatus
  pub last_transition : Option ClarificationTurnRelation
  pub last_source_message_id : Option String
  pub superseded_by_request_id : Option String
  pub base_understanding : ConversationUnderstanding
  pub base_route_plan : RoutePlan

-- `frame.pending_keys`
abbrev pub keys_of : List ClarificationPendingItem → List String
keys_of items = map (λ (i : ClarificationPendingItem). i.key) items

abbrev pub pending_keys : ClarificationFrame → List String
pending_keys f = keys_of f.pending_items

pub record ClarificationTransitionAudit : Type 0 where
  pub frame_id : String
  pub relation : ClarificationTurnRelation
  pub classifier_source : String
  pub previous_status : ClarificationFrameStatus
  pub next_status : ClarificationFrameStatus
  pub pending_before : List String
  pub resolved_by_answer : List String
  pub pending_after : List String
  pub made_progress : Bool
  pub warning_codes : List String

pub record ClarificationRelationDecision : Type 0 where
  pub relation : ClarificationTurnRelation
  pub classifier_source : String
  pub warning_codes : List String

-- What `clarification_signature` hashes, the keys and the tasks sorted.
pub record SignaturePayload : Type 0 where
  pub kind : ClarificationKind
  pub pending : List String
  pub tasks : List String
  pub no_progress : ℕ
