-- ===== src/Agent/Routing.antt =====
-- The route policy (semikb/agent_runtime/routing.py): from a validated understanding to a plan.
pub mod Permitted
pub mod Executes
pub mod Answered
use Prim.Native.String.{◌++◌ as concat}
use semiconductor_agent_know.Base.{
  String, ℕ, Bool, true, false, not, ◌&&◌, ◌||◌, Option, none, some, List, [], ◌∷◌, ◌++◌, ◌==◌, any,
  all, map, filter, contains, is_empty, given, truthy, if◌then◌else◌, ltb, take, string_eq,
  option_eq,
}
use semiconductor_agent_know.Base.Dict.{Dict, lookup, insert}
use semiconductor_agent_know.Context.{
  ActiveConversationContext, ContextEvidenceRef, ContextSlot, SlotOperation, changes,
}
use semiconductor_agent_know.Documents.Model.{ActorScope}
use semiconductor_agent_know.Agent.Text.{
  Codes, Piece, one_of, maybe, many, is_space, search_pattern, has_any, lower, lines,
}
use semiconductor_agent_know.Agent.Kinds.{
  AgentRoute, IntentTarget, IntentTaskAction, PrimaryIntent, TaskShape, TaskExecutionDecision,
  InteractionMode, agent_route_eq, intent_target_eq, intent_task_action_eq, primary_intent_eq,
  task_shape_eq, task_execution_decision_eq, interaction_mode_eq,
}
use semiconductor_agent_know.Agent.Combination.{
  is_execute, enforce_predefined_combination, combine_routes,
}
use semiconductor_agent_know.Agent.Model.{
  IntentTaskItem, ConversationUnderstanding, RouteTaskDecision, RoutePlan,
}
use semiconductor_agent_know.Agent.TaskRoute.{task_route}
use semiconductor_agent_know.Agent.Missing.{required_missing}

-- `{**inherited, **explicit}`
abbrev pub merged : Dict String String → Dict String String → Dict String String
merged d [] = d
merged d ((k, v) ∷ e) = merged (insert k v d) e

unfoldable pub combined_slots : ConversationUnderstanding → Dict String String
combined_slots u = merged u.inherited_slots u.explicit_slots

-- `ROUTE_THRESHOLDS.get(route, 0.65)`
abbrev pub route_threshold : AgentRoute → ℕ
route_threshold AgentRoute.chat_direct = 500000
route_threshold AgentRoute.reuse_evidence = 820000
route_threshold AgentRoute.internal_rag = 580000
route_threshold AgentRoute.tool_only = 680000
route_threshold AgentRoute.rag_and_tool = 720000
route_threshold AgentRoute.rag_and_web = 720000
route_threshold _ = 650000

-- `route.value`
abbrev pub route_value : AgentRoute → String
route_value AgentRoute.history_direct = "history_direct"
route_value AgentRoute.chat_direct = "chat_direct"
route_value AgentRoute.reuse_evidence = "reuse_evidence"
route_value AgentRoute.internal_rag = "internal_rag"
route_value AgentRoute.tool_only = "tool_only"
route_value AgentRoute.rag_and_tool = "rag_and_tool"
route_value AgentRoute.rag_and_web = "rag_and_web"
route_value AgentRoute.clarify = "clarify"
route_value AgentRoute.refuse = "refuse"

abbrev pub is_forbidden_mutation : IntentTaskItem → Bool
is_forbidden_mutation t =
    (t.action == IntentTaskAction.execute) && (t.target_type == IntentTarget.recipe)

abbrev pub is_report_generation : IntentTaskItem → Bool
is_report_generation t =
    (t.target_type == IntentTarget.report) && (t.action == IntentTaskAction.generate)

-- `slots.get(name) and permitted and slots[name] not in permitted`
abbrev pub outside : Option String → List String → Bool
outside none permitted = false
outside (some s) permitted = truthy s && not (is_empty permitted) && not (contains permitted s)

unfoldable pub scope_error : Dict String String → ActorScope → Option String
scope_error slots actor =
    if outside (lookup "product" slots) actor.products
    then some "product_out_of_scope"
    else if outside (lookup "tool_id" slots) actor.tool_ids
    then some "tool_out_of_scope"
    else none

abbrev changed_slots : ConversationUnderstanding → List String
changed_slots u =
    map (λ (o : SlotOperation). o.slot_name)
      (filter (λ (o : SlotOperation). changes o.operation) u.slot_operations)

abbrev slot_refs : List String → Dict String ContextSlot → List String
slot_refs changed [] = []
slot_refs changed ((name, s) ∷ d) =
    let rest = slot_refs changed d in
    if any (contains changed) s.depends_on then concat "slot:" name ∷ rest else rest

abbrev evidence_refs_of : List ContextEvidenceRef → List String
evidence_refs_of [] = []
evidence_refs_of (r ∷ rs) =
    let rest = evidence_refs_of rs in
    if r.valid && truthy r.evidence_id then concat "evidence:" r.evidence_id ∷ rest else rest

unfoldable pub invalidated_refs :
    ConversationUnderstanding → Option ActiveConversationContext → List String
invalidated_refs u none = []
invalidated_refs u (some a) =
    let changed = changed_slots u in
    if is_empty changed then [] else slot_refs changed a.slots ++ evidence_refs_of a.evidence_refs

abbrev pub decided :
    IntentTaskItem → TaskExecutionDecision → Option AgentRoute → String → RouteTaskDecision
decided t d r reason = record { task_id = t.task_id; decision = d; route = r; reason_code = reason }

-- One round of the loop over `task_items`.
unfoldable pub decide_task :
    Option String
    → ConversationUnderstanding
    → Option ActiveConversationContext
    → Codes
    → IntentTaskItem
    → RouteTaskDecision
decide_task scope u context request t =
    if is_forbidden_mutation t
    then decided t TaskExecutionDecision.refuse none "controlled_write_not_allowed"
    else if is_report_generation t
    then decided t TaskExecutionDecision.defer none "report_generation_not_enabled"
    else elim scope [
      | some e ↦ decided t TaskExecutionDecision.refuse none e
      | none ↦
          if t.execution_policy == TaskExecutionDecision.defer
          then decided t TaskExecutionDecision.defer none "task_deferred_by_policy"
          else if t.execution_policy == TaskExecutionDecision.refuse
          then decided t TaskExecutionDecision.refuse none (
              if (t.primary_intent == PrimaryIntent.action_request)
                && (t.target_type == IntentTarget.general)
              then "outside_semikb_capability"
              else "model_flagged_unsafe")
          else decided t t.execution_policy (some (task_route t u context request)) "task_allowed"
    ]

-- The update of each decision where the plan asks back.
abbrev pub clarified : String → RouteTaskDecision → RouteTaskDecision
clarified reason d =
    if is_execute d
    then record d { decision = TaskExecutionDecision.clarify; reason_code = reason }
    else d

abbrev pub skipped_reason : AgentRoute → Option String
skipped_reason AgentRoute.chat_direct = some "answer_available_without_external_retrieval"
skipped_reason AgentRoute.tool_only = some "manufacturing_data_only_no_vector_retrieval"
skipped_reason AgentRoute.reuse_evidence = some "validated_previous_evidence_reused"
skipped_reason _ = none

abbrev pub suggestion : AgentRoute → AgentRoute
suggestion AgentRoute.history_direct = AgentRoute.chat_direct
suggestion r = r

-- Nothing is executed, and something is refused.
abbrev pub all_refused : List RouteTaskDecision → Bool
all_refused decisions =
    not (any is_execute decisions)
    && any (λ (d : RouteTaskDecision). d.decision == TaskExecutionDecision.refuse) decisions

module _ (u : ConversationUnderstanding) (context : Option ActiveConversationContext)
    (decisions : List RouteTaskDecision) where
  abbrev pub refused_plan : RoutePlan
  refused_plan = record {
    route = AgentRoute.refuse;
    confidence = u.confidence;
    reason_codes = "all_tasks_refused" ∷ [];
    task_decisions = decisions;
    missing_slots = [];
    retrieval_skipped_reason = some "request_refused_before_retrieval";
    invalidated_context_refs = invalidated_refs u context;
  }

  abbrev pub missing_plan : AgentRoute → RoutePlan
  missing_plan route = record {
    route = AgentRoute.clarify;
    confidence = u.confidence;
    reason_codes = "required_slots_missing" ∷ [];
    task_decisions = map (clarified "required_slots_missing") decisions;
    missing_slots = required_missing u (combined_slots u) route;
    retrieval_skipped_reason = some "clarification_required_before_retrieval";
    invalidated_context_refs = invalidated_refs u context;
  }

  abbrev pub unsure_plan : AgentRoute → RoutePlan
  unsure_plan route = record {
    route = AgentRoute.clarify;
    confidence = u.confidence;
    reason_codes = concat "confidence_below_" (concat (route_value route) "_threshold") ∷ [];
    task_decisions = map (clarified "semantic_confidence_too_low") decisions;
    missing_slots = [];
    retrieval_skipped_reason = some "low_confidence_requires_clarification";
    invalidated_context_refs = invalidated_refs u context;
  }

  abbrev pub routed_plan : AgentRoute → RoutePlan
  routed_plan route = record {
    route = route;
    confidence = u.confidence;
    reason_codes =
        (if route == u.suggested_route then [] else "server_policy_overrode_suggested_route" ∷ [])
        ++ "route_whitelist_match" ∷ [];
    task_decisions = decisions;
    missing_slots = [];
    retrieval_skipped_reason = skipped_reason route;
    invalidated_context_refs = invalidated_refs u context;
  }

  -- What follows once the tasks are decided and combined to one route.
  unfoldable pub plan_for : AgentRoute → RoutePlan
  plan_for route =
      if all_refused decisions
      then refused_plan
      else if not (is_empty (required_missing u (combined_slots u) route))
      then missing_plan route
      else if ltb u.confidence (route_threshold route)
      then unsure_plan route
      else routed_plan route

-- `RoutePolicy.decide`
unfoldable pub decide :
    ConversationUnderstanding → ActorScope → Option ActiveConversationContext → Codes → RoutePlan
decide u actor context request =
    let scope = scope_error (combined_slots u) actor in
    let (decisions, routes) =
      enforce_predefined_combination (map (decide_task scope u context request) u.task_items) in
    plan_for u context decisions (combine_routes routes (suggestion u.suggested_route))
