-- ===== src/Tests/Agent.antt =====
-- The agent's decisions on a question about a tool: the route policy, a clarification, the results.
use mathlib.Core.Path.{subst}
use semiconductor_agent_know.Base.{
  String, true, false, not, ◌&&◌, ◌||◌, none, some, List, [], ◌∷◌, ◌==◌, In, here, any, contains,
  ◌≡◌, ◌≢◌, ◌↔◌, ◌⊎◌, ◌≤◌, refl, sym, string_eq,
}
use semiconductor_agent_know.Base.Dict.{Dict, lookup, insert}
use semiconductor_agent_know.Agent.Text.{
  codes, has_any, has_term, search_pattern, matches, lines, lower, fold, strip, lstrip, is_space,
}
use semiconductor_agent_know.Agent.Kinds.{
  AgentRoute, IntentTarget, IntentTaskAction, PrimaryIntent, TaskShape, TaskExecutionDecision,
  InteractionMode, ClarificationKind, ClarificationFrameStatus, ClarificationItemType,
  ClarificationTurnRelation, agent_route_eq,
}
use semiconductor_agent_know.Agent.Semantics.{ExpectedOutput, KnowledgeScope}
use semiconductor_agent_know.Agent.Model.{
  IntentTaskItem, ConversationUnderstanding, RouteTaskDecision,
}
use semiconductor_agent_know.Agent.Missing.{
  required_missing, task_missing, data_task_missing, distinct_from,
}
use semiconductor_agent_know.Agent.TaskRoute.{
  task_route, is_evidence_followup, has_valid_evidence, web_disabled,
}
use semiconductor_agent_know.Agent.Combination.{
  adjusted, is_direct, is_compatible, combine_routes, is_execute, is_allowed, non_direct,
  primary_route, enforce_predefined_combination,
}
use semiconductor_agent_know.Agent.Combination.Allowed.{left, is_mixed, enforce-is_allowed}
use semiconductor_agent_know.Agent.Routing.{
  decide, plan_for, decide_task, scope_error, invalidated_refs, combined_slots, route_threshold,
}
use semiconductor_agent_know.Agent.Routing.Permitted.{Cleared, decide-permitted}
use semiconductor_agent_know.Agent.Routing.Executes.{decide-executing}
use semiconductor_agent_know.Agent.Frames.{ClarificationFrame, SignaturePayload, pending_keys}
use semiconductor_agent_know.Agent.Relation.{
  decide_turn_relation, is_over, cancels, looks_like_standalone_task, says, is_unknown_answer,
  is_distinct_new_task, resolved_pending_keys, resolves_key,
}
use semiconductor_agent_know.Agent.Relation.Grounded.{decide_turn_relation-grounds}
use semiconductor_agent_know.Agent.Clarification.{
  resolved_value, update_frame_after_answer, merge_continuation_understanding,
}
use semiconductor_agent_know.Agent.Clarification.Resolved.{update_frame_after_answer-keys}
use semiconductor_agent_know.Agent.Turn.{resolve_turn, continued, pending_after_answer}
use semiconductor_agent_know.Agent.Turn.Outcome.{resolve_turn-resolved}
use semiconductor_agent_know.Agent.Execution.{
  Inputs, executed_result, finalize_tasks, finalize_from, task_result, failed_dependency,
  task_named, decided_result, validate_executed_task, cited, has_answer, meets_contract,
  actual_task_route,
}
use semiconductor_agent_know.Agent.Execution.Completed.{Satisfies, finalize_tasks-completed}
use semiconductor_agent_know.Tests.Data.{tool_actor}

-- A query of the lots of a tool, and what is understood of it with some slots.
abbrev lots : IntentTaskItem
lots = record {
  task_id = "task_1";
  primary_intent = PrimaryIntent.data_query;
  target_type = IntentTarget.lot;
  action = IntentTaskAction.lookup;
  task_shape = TaskShape.event_list;
  depends_on = [];
  execution_policy = TaskExecutionDecision.execute;
}

abbrev understood : Dict String String → ConversationUnderstanding
understood slots = record {
  classifier_source = "llm";
  interaction_mode = InteractionMode.task;
  primary_intent = PrimaryIntent.data_query;
  task_items = lots ∷ [];
  slot_operations = [];
  explicit_slots = slots;
  inherited_slots = [];
  missing_slots = [];
  context_message_ids = [];
  semantic_frame = record {
    expected_output = ExpectedOutput.records;
    knowledge_scope = KnowledgeScope.internal_controlled;
  };
  standalone_query = "lots of etch-1";
  cancel_scope = none;
  clarification_relation = some ClarificationTurnRelation.continue_current;
  suggested_route = AgentRoute.tool_only;
  confidence = 900000;
}

abbrev timed : ConversationUnderstanding
timed = understood (("time_range", "today") ∷ ("tool_id", "etch-1") ∷ [])

abbrev run_lots : RouteTaskDecision
run_lots = record {
  task_id = "task_1";
  decision = TaskExecutionDecision.execute;
  route = some AgentRoute.tool_only;
  reason_code = "task_allowed";
}

plan_lots : (decide timed tool_actor none (codes "lots")).task_decisions ≡ run_lots ∷ []
unfolding decide plan_for combine_routes combined_slots required_missing task_missing
    data_task_missing distinct_from invalidated_refs enforce_predefined_combination adjusted
    is_allowed is_execute is_direct is_compatible decide_task scope_error lookup insert task_route
    is_evidence_followup has_valid_evidence has_any has_term search_pattern matches lines lower
    web_disabled
plan_lots = refl

planned_lots : In run_lots (decide timed tool_actor none (codes "lots")).task_decisions
planned_lots = subst (In run_lots) (sym plan_lots) here

executes_lots : any is_execute (decide timed tool_actor none (codes "lots")).task_decisions ≡ true
unfolding is_execute
executes_lots = rw plan_lots refl

decide-permitted_example :
    (t : IntentTaskItem) × In t (lots ∷ [])
    × Cleared timed tool_actor none (codes "lots") run_lots t
unfolding is_execute
decide-permitted_example = decide-permitted timed tool_actor none (codes "lots") planned_lots refl

decide-executing_example :
    ((decide timed tool_actor none (codes "lots")).route ≢ AgentRoute.clarify)
    × ((decide timed tool_actor none (codes "lots")).route ≢ AgentRoute.refuse)
    × (route_threshold (decide timed tool_actor none (codes "lots")).route ≤ 900000)
    × (required_missing timed
          (combined_slots timed)
          (decide timed tool_actor none (codes "lots")).route
        ≡ [])
decide-executing_example = decide-executing timed tool_actor none (codes "lots") executes_lots

-- An internal search, a query of data and a web search in one request.
abbrev on_route : String → AgentRoute → RouteTaskDecision
on_route id r = record {
  task_id = id;
  decision = TaskExecutionDecision.execute;
  route = some r;
  reason_code = "task_allowed";
}

abbrev three_routes : List RouteTaskDecision
three_routes =
    on_route "task_1" AgentRoute.internal_rag
    ∷ on_route "task_2" AgentRoute.tool_only
    ∷ on_route "task_3" AgentRoute.rag_and_web
    ∷ []

enforce-is_allowed_example :
    is_allowed (non_direct (enforce_predefined_combination three_routes).1)
    ≡ not (
        (primary_route (left three_routes) == AgentRoute.internal_rag)
        && is_mixed (left three_routes))
enforce-is_allowed_example = enforce-is_allowed three_routes

-- The three tasks are all left to run.
mixed_routes_run : (enforce_predefined_combination three_routes).0 ≡ three_routes
unfolding enforce_predefined_combination adjusted is_allowed is_execute is_direct is_compatible
mixed_routes_run = refl

-- A clarification that asks for the time range of the query.
abbrev asks_time : ClarificationFrame
asks_time = record {
  frame_id = "clarify_1";
  kind = ClarificationKind.slot_collection;
  original_request = "lots";
  candidate_route = AgentRoute.tool_only;
  task_ids = "task_1" ∷ [];
  pending_items =
      (record {
        key = "time_range";
        item_type = ClarificationItemType.slot;
        prompt = "When?";
        allowed_values = [];
      })
      ∷ [];
  resolved_items = [];
  round = 1;
  no_progress_count = 0;
  signature = "s";
  status = ClarificationFrameStatus.waiting;
  last_transition = none;
  last_source_message_id = none;
  superseded_by_request_id = none;
  base_understanding = understood (("tool_id", "etch-1") ∷ []);
  base_route_plan = decide (understood (("tool_id", "etch-1") ∷ [])) tool_actor none (codes "lots");
}

abbrev no_digest : SignaturePayload → String
no_digest _ = "s"

abbrev answers : ConversationUnderstanding
answers = understood (("time_range", "today") ∷ [])

decide_turn_relation-grounds_example :
    (((decide_turn_relation asks_time "today" answers).relation
        ≡ ClarificationTurnRelation.cancel_current)
      ↔ ((is_over ClarificationFrameStatus.waiting ≡ false) × (cancels none ≡ true)))
    × (((decide_turn_relation asks_time "today" answers).relation
          ≢ ClarificationTurnRelation.replace_with_new_request)
        ⊎ ((is_over ClarificationFrameStatus.waiting || looks_like_standalone_task "today" answers)
            ≡ true))
decide_turn_relation-grounds_example = decide_turn_relation-grounds asks_time "today" answers

update_frame_after_answer-keys_example :
    ((contains {A = String} [] "time_range" ≡ true)
      × In "time_range" (
          pending_keys
            (update_frame_after_answer no_digest asks_time answers [] (some "m2") "llm").0))
    ⊎ ((contains {A = String} [] "time_range" ≡ false)
        × In
            (record { key = "time_range"; value = "today"; source_message_id = some "m2" })
            (update_frame_after_answer no_digest asks_time answers []
              (some "m2")
              "llm").0.resolved_items)
unfolding lookup insert resolved_value
update_frame_after_answer-keys_example =
    update_frame_after_answer-keys no_digest asks_time answers [] (some "m2") "llm" here

today_resolves :
    (resolve_turn no_digest tool_actor none asks_time "today" answers
      (some "m2")
      "run_2").frame.status
    ≡ ClarificationFrameStatus.resolved
unfolding resolve_turn continued update_frame_after_answer pending_after_answer
    merge_continuation_understanding decide_turn_relation is_over cancels says is_unknown_answer
    fold strip lstrip is_space is_distinct_new_task looks_like_standalone_task resolved_pending_keys
    resolves_key decide plan_for combine_routes combined_slots required_missing task_missing
    data_task_missing distinct_from invalidated_refs enforce_predefined_combination adjusted
    is_allowed is_execute is_direct is_compatible decide_task scope_error lookup insert task_route
    is_evidence_followup has_valid_evidence has_any has_term search_pattern matches lines lower
    web_disabled
today_resolves = refl

resolve_turn-resolved_example :
    ((resolve_turn no_digest tool_actor none asks_time "today" answers (some "m2") "run_2").plan
      ≡ some (
          decide
            (merge_continuation_understanding asks_time "today" answers)
            tool_actor
            none
            (codes "lots")))
    × ((decide
          (merge_continuation_understanding asks_time "today" answers)
          tool_actor
          none
          (codes "lots")).route
        ≢ AgentRoute.clarify)
    × ((decide
          (merge_continuation_understanding asks_time "today" answers)
          tool_actor
          none
          (codes "lots")).missing_slots
        ≡ [])
resolve_turn-resolved_example =
    resolve_turn-resolved no_digest tool_actor none asks_time "today" answers (some "m2") "run_2"
      refl today_resolves

-- The results of the plan, with a tool fact that the answer cites.
abbrev inputs : Inputs
inputs = record {
  task_items = lots ∷ [];
  actual_route = AgentRoute.tool_only;
  answer_text = "Two lots.";
  task_outputs = [];
  evidence_ledger = (record { evidence_id = "tool:1"; source_type = "simulated_live_data" }) ∷ [];
  cited_evidence_ids = "tool:1" ∷ [];
  external_evidence = [];
  missing_fields = [];
  authorization_errors = [];
}

finalize_tasks-completed_example :
    (d : RouteTaskDecision) × In d (run_lots ∷ [])
    × (d.decision ≡ TaskExecutionDecision.execute)
    × (inputs.authorization_errors ≡ [])
    × Satisfies inputs d (executed_result inputs run_lots)
unfolding finalize_tasks finalize_from task_result failed_dependency task_named decided_result
    executed_result validate_executed_task has_answer strip lookup meets_contract actual_task_route
    cited
finalize_tasks-completed_example = finalize_tasks-completed inputs (run_lots ∷ []) here refl
