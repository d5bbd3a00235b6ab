-- ===== src/Agent/Kinds.antt =====
-- The enumerations of contracts/models.py that the agent decides by, with their identity tests.
use semiconductor_agent_know.Base.{ℕ, true, ◌≡◌, ◌↔◌, arith, Key, eqb}

pub data AgentRoute : Type 0 where
  history_direct chat_direct reuse_evidence internal_rag tool_only rag_and_tool rag_and_web clarify
        refuse :
      AgentRoute

abbrev agent_route_place : AgentRoute → ℕ
agent_route_place AgentRoute.history_direct = 0
agent_route_place AgentRoute.chat_direct = 1
agent_route_place AgentRoute.reuse_evidence = 2
agent_route_place AgentRoute.internal_rag = 3
agent_route_place AgentRoute.tool_only = 4
agent_route_place AgentRoute.rag_and_tool = 5
agent_route_place AgentRoute.rag_and_web = 6
agent_route_place AgentRoute.clarify = 7
agent_route_place AgentRoute.refuse = 8

pub agent_route_iff :
    (a b : AgentRoute) → (eqb (agent_route_place a) (agent_route_place b) ≡ true) ↔ (a ≡ b)
agent_route_iff a b = ground arith

instance abbrev pub agent_route_eq : Key AgentRoute
agent_route_eq = record {
  is_same = λ a b. eqb (agent_route_place a) (agent_route_place b);
  is_same_iff = agent_route_iff;
}

pub data IntentTarget : Type 0 where
  previous_user_message previous_answer sop recipe fdc spc wafer_map lot case alarm report general :
      IntentTarget

abbrev intent_target_place : IntentTarget → ℕ
intent_target_place IntentTarget.previous_user_message = 0
intent_target_place IntentTarget.previous_answer = 1
intent_target_place IntentTarget.sop = 2
intent_target_place IntentTarget.recipe = 3
intent_target_place IntentTarget.fdc = 4
intent_target_place IntentTarget.spc = 5
intent_target_place IntentTarget.wafer_map = 6
intent_target_place IntentTarget.lot = 7
intent_target_place IntentTarget.case = 8
intent_target_place IntentTarget.alarm = 9
intent_target_place IntentTarget.report = 10
intent_target_place IntentTarget.general = 11

pub intent_target_iff :
    (a b : IntentTarget) → (eqb (intent_target_place a) (intent_target_place b) ≡ true) ↔ (a ≡ b)
intent_target_iff a b = ground arith

instance abbrev pub intent_target_eq : Key IntentTarget
intent_target_eq = record {
  is_same = λ a b. eqb (intent_target_place a) (intent_target_place b);
  is_same_iff = intent_target_iff;
}

pub data IntentTaskAction : Type 0 where
  recall summarize simplify translate lookup compare diagnose explain execute generate :
      IntentTaskAction

abbrev intent_task_action_place : IntentTaskAction → ℕ
intent_task_action_place IntentTaskAction.recall = 0
intent_task_action_place IntentTaskAction.summarize = 1
intent_task_action_place IntentTaskAction.simplify = 2
intent_task_action_place IntentTaskAction.translate = 3
intent_task_action_place IntentTaskAction.lookup = 4
intent_task_action_place IntentTaskAction.compare = 5
intent_task_action_place IntentTaskAction.diagnose = 6
intent_task_action_place IntentTaskAction.explain = 7
intent_task_action_place IntentTaskAction.execute = 8
intent_task_action_place IntentTaskAction.generate = 9

pub intent_task_action_iff :
    (a b : IntentTaskAction)
    → (eqb (intent_task_action_place a) (intent_task_action_place b) ≡ true) ↔ (a ≡ b)
intent_task_action_iff a b = ground arith

instance abbrev pub intent_task_action_eq : Key IntentTaskAction
intent_task_action_eq = record {
  is_same = λ a b. eqb (intent_task_action_place a) (intent_task_action_place b);
  is_same_iff = intent_task_action_iff;
}

pub data PrimaryIntent : Type 0 where
  conversation knowledge_query investigation data_query action_request content_task : PrimaryIntent

abbrev primary_intent_place : PrimaryIntent → ℕ
primary_intent_place PrimaryIntent.conversation = 0
primary_intent_place PrimaryIntent.knowledge_query = 1
primary_intent_place PrimaryIntent.investigation = 2
primary_intent_place PrimaryIntent.data_query = 3
primary_intent_place PrimaryIntent.action_request = 4
primary_intent_place PrimaryIntent.content_task = 5

pub primary_intent_iff :
    (a b : PrimaryIntent) → (eqb (primary_intent_place a) (primary_intent_place b) ≡ true) ↔ (a ≡ b)
primary_intent_iff a b = ground arith

instance abbrev pub primary_intent_eq : Key PrimaryIntent
primary_intent_eq = record {
  is_same = λ a b. eqb (primary_intent_place a) (primary_intent_place b);
  is_same_iff = primary_intent_iff;
}

pub data TaskShape : Type 0 where
  unspecified direct concept_explanation entity_lookup aggregate_ranking event_list trend_analysis
        causal_investigation content_transform control :
      TaskShape

abbrev task_shape_place : TaskShape → ℕ
task_shape_place TaskShape.unspecified = 0
task_shape_place TaskShape.direct = 1
task_shape_place TaskShape.concept_explanation = 2
task_shape_place TaskShape.entity_lookup = 3
task_shape_place TaskShape.aggregate_ranking = 4
task_shape_place TaskShape.event_list = 5
task_shape_place TaskShape.trend_analysis = 6
task_shape_place TaskShape.causal_investigation = 7
task_shape_place TaskShape.content_transform = 8
task_shape_place TaskShape.control = 9

pub task_shape_iff :
    (a b : TaskShape) → (eqb (task_shape_place a) (task_shape_place b) ≡ true) ↔ (a ≡ b)
task_shape_iff a b = ground arith

instance abbrev pub task_shape_eq : Key TaskShape
task_shape_eq = record {
  is_same = λ a b. eqb (task_shape_place a) (task_shape_place b);
  is_same_iff = task_shape_iff;
}

pub data TaskExecutionDecision : Type 0 where
  execute clarify refuse defer : TaskExecutionDecision

abbrev task_execution_decision_place : TaskExecutionDecision → ℕ
task_execution_decision_place TaskExecutionDecision.execute = 0
task_execution_decision_place TaskExecutionDecision.clarify = 1
task_execution_decision_place TaskExecutionDecision.refuse = 2
task_execution_decision_place TaskExecutionDecision.defer = 3

pub task_execution_decision_iff :
    (a b : TaskExecutionDecision)
    → (eqb (task_execution_decision_place a) (task_execution_decision_place b) ≡ true) ↔ (a ≡ b)
task_execution_decision_iff a b = ground arith

instance abbrev pub task_execution_decision_eq : Key TaskExecutionDecision
task_execution_decision_eq = record {
  is_same = λ a b. eqb (task_execution_decision_place a) (task_execution_decision_place b);
  is_same_iff = task_execution_decision_iff;
}

pub data TaskExecutionStatus : Type 0 where
  completed clarify refused deferred failed : TaskExecutionStatus

abbrev task_execution_status_place : TaskExecutionStatus → ℕ
task_execution_status_place TaskExecutionStatus.completed = 0
task_execution_status_place TaskExecutionStatus.clarify = 1
task_execution_status_place TaskExecutionStatus.refused = 2
task_execution_status_place TaskExecutionStatus.deferred = 3
task_execution_status_place TaskExecutionStatus.failed = 4

pub task_execution_status_iff :
    (a b : TaskExecutionStatus)
    → (eqb (task_execution_status_place a) (task_execution_status_place b) ≡ true) ↔ (a ≡ b)
task_execution_status_iff a b = ground arith

instance abbrev pub task_execution_status_eq : Key TaskExecutionStatus
task_execution_status_eq = record {
  is_same = λ a b. eqb (task_execution_status_place a) (task_execution_status_place b);
  is_same_iff = task_execution_status_iff;
}

pub data InteractionMode : Type 0 where
  task conversation feedback control clarification_answer mixed : InteractionMode

abbrev interaction_mode_place : InteractionMode → ℕ
interaction_mode_place InteractionMode.task = 0
interaction_mode_place InteractionMode.conversation = 1
interaction_mode_place InteractionMode.feedback = 2
interaction_mode_place InteractionMode.control = 3
interaction_mode_place InteractionMode.clarification_answer = 4
interaction_mode_place InteractionMode.mixed = 5

pub interaction_mode_iff :
    (a b : InteractionMode)
    → (eqb (interaction_mode_place a) (interaction_mode_place b) ≡ true) ↔ (a ≡ b)
interaction_mode_iff a b = ground arith

instance abbrev pub interaction_mode_eq : Key InteractionMode
interaction_mode_eq = record {
  is_same = λ a b. eqb (interaction_mode_place a) (interaction_mode_place b);
  is_same_iff = interaction_mode_iff;
}

pub data CancelScope : Type 0 where
  current_generation current_task task_item clarification : CancelScope

abbrev cancel_scope_place : CancelScope → ℕ
cancel_scope_place CancelScope.current_generation = 0
cancel_scope_place CancelScope.current_task = 1
cancel_scope_place CancelScope.task_item = 2
cancel_scope_place CancelScope.clarification = 3

pub cancel_scope_iff :
    (a b : CancelScope) → (eqb (cancel_scope_place a) (cancel_scope_place b) ≡ true) ↔ (a ≡ b)
cancel_scope_iff a b = ground arith

instance abbrev pub cancel_scope_eq : Key CancelScope
cancel_scope_eq = record {
  is_same = λ a b. eqb (cancel_scope_place a) (cancel_scope_place b);
  is_same_iff = cancel_scope_iff;
}

pub data ClarificationKind : Type 0 where
  intent_disambiguation slot_collection history_reference control_confirmation : ClarificationKind

abbrev clarification_kind_place : ClarificationKind → ℕ
clarification_kind_place ClarificationKind.intent_disambiguation = 0
clarification_kind_place ClarificationKind.slot_collection = 1
clarification_kind_place ClarificationKind.history_reference = 2
clarification_kind_place ClarificationKind.control_confirmation = 3

pub clarification_kind_iff :
    (a b : ClarificationKind)
    → (eqb (clarification_kind_place a) (clarification_kind_place b) ≡ true) ↔ (a ≡ b)
clarification_kind_iff a b = ground arith

instance abbrev pub clarification_kind_eq : Key ClarificationKind
clarification_kind_eq = record {
  is_same = λ a b. eqb (clarification_kind_place a) (clarification_kind_place b);
  is_same_iff = clarification_kind_iff;
}

pub data ClarificationFrameStatus : Type 0 where
  waiting paused resolved cancelled superseded : ClarificationFrameStatus

abbrev clarification_frame_status_place : ClarificationFrameStatus → ℕ
clarification_frame_status_place ClarificationFrameStatus.waiting = 0
clarification_frame_status_place ClarificationFrameStatus.paused = 1
clarification_frame_status_place ClarificationFrameStatus.resolved = 2
clarification_frame_status_place ClarificationFrameStatus.cancelled = 3
clarification_frame_status_place ClarificationFrameStatus.superseded = 4

pub clarification_frame_status_iff :
    (a b : ClarificationFrameStatus)
    → (eqb (clarification_frame_status_place a) (clarification_frame_status_place b) ≡ true)
      ↔ (a ≡ b)
clarification_frame_status_iff a b = ground arith

instance abbrev pub clarification_frame_status_eq : Key ClarificationFrameStatus
clarification_frame_status_eq = record {
  is_same = λ a b. eqb (clarification_frame_status_place a) (clarification_frame_status_place b);
  is_same_iff = clarification_frame_status_iff;
}

pub data ClarificationItemType : Type 0 where
  slot choice : ClarificationItemType

abbrev clarification_item_type_place : ClarificationItemType → ℕ
clarification_item_type_place ClarificationItemType.slot = 0
clarification_item_type_place ClarificationItemType.choice = 1

pub clarification_item_type_iff :
    (a b : ClarificationItemType)
    → (eqb (clarification_item_type_place a) (clarification_item_type_place b) ≡ true) ↔ (a ≡ b)
clarification_item_type_iff a b = ground arith

instance abbrev pub clarification_item_type_eq : Key ClarificationItemType
clarification_item_type_eq = record {
  is_same = λ a b. eqb (clarification_item_type_place a) (clarification_item_type_place b);
  is_same_iff = clarification_item_type_iff;
}

pub data ClarificationTurnRelation : Type 0 where
  continue_current cancel_current replace_with_new_request side_conversation ambiguous :
      ClarificationTurnRelation

abbrev clarification_turn_relation_place : ClarificationTurnRelation → ℕ
clarification_turn_relation_place ClarificationTurnRelation.continue_current = 0
clarification_turn_relation_place ClarificationTurnRelation.cancel_current = 1
clarification_turn_relation_place ClarificationTurnRelation.replace_with_new_request = 2
clarification_turn_relation_place ClarificationTurnRelation.side_conversation = 3
clarification_turn_relation_place ClarificationTurnRelation.ambiguous = 4

pub clarification_turn_relation_iff :
    (a b : ClarificationTurnRelation)
    → (eqb (clarification_turn_relation_place a) (clarification_turn_relation_place b) ≡ true)
      ↔ (a ≡ b)
clarification_turn_relation_iff a b = ground arith

instance abbrev pub clarification_turn_relation_eq : Key ClarificationTurnRelation
clarification_turn_relation_eq = record {
  is_same = λ a b. eqb (clarification_turn_relation_place a) (clarification_turn_relation_place b);
  is_same_iff = clarification_turn_relation_iff;
}
