-- ===== src/Agent/Model.antt =====
-- The records of contracts/models.py that the agent decides by. A confidence is a number of
-- millionths. The fields of an understanding that no modelled code reads are left out.
use semiconductor_agent_know.Base.{String, ℕ, Option, List}
use semiconductor_agent_know.Base.Dict.{Dict}
use semiconductor_agent_know.Context.{SlotOperation}
use semiconductor_agent_know.Agent.Semantics.{SemanticFrame}
use semiconductor_agent_know.Agent.Kinds.{
  AgentRoute, IntentTarget, IntentTaskAction, PrimaryIntent, TaskShape, TaskExecutionDecision,
  InteractionMode, CancelScope, ClarificationTurnRelation,
}

pub record IntentTaskItem : Type 0 where
  pub task_id : String
  pub primary_intent : PrimaryIntent
  pub target_type : IntentTarget
  pub action : IntentTaskAction
  pub task_shape : TaskShape
  pub depends_on : List String
  pub execution_policy : TaskExecutionDecision

pub record ConversationUnderstanding : Type 0 where
  pub classifier_source : String
  pub interaction_mode : InteractionMode
  pub primary_intent : PrimaryIntent
  pub task_items : List IntentTaskItem
  pub slot_operations : List SlotOperation
  pub explicit_slots : Dict String String
  pub inherited_slots : Dict String String
  pub missing_slots : List String
  pub context_message_ids : List String
  pub semantic_frame : SemanticFrame
  pub standalone_query : String
  pub cancel_scope : Option CancelScope
  pub clarification_relation : Option ClarificationTurnRelation
  pub suggested_route : AgentRoute
  pub confidence : ℕ

pub record RouteTaskDecision : Type 0 where
  pub task_id : String
  pub decision : TaskExecutionDecision
  pub route : Option AgentRoute
  pub reason_code : String

pub record RoutePlan : Type 0 where
  pub route : AgentRoute
  pub confidence : ℕ
  pub reason_codes : List String
  pub task_decisions : List RouteTaskDecision
  pub missing_slots : List String
  pub retrieval_skipped_reason : Option String
  pub invalidated_context_refs : List String
