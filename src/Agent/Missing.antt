-- ===== src/Agent/Missing.antt =====
-- What a plan has to ask for (`_required_missing` of semikb/agent_runtime/routing.py).
use semiconductor_agent_know.Base.{
  String, Bool, not, ◌&&◌, List, [], ◌∷◌, ◌++◌, ◌==◌, any, filter, contains, is_empty, given,
  if◌then◌else◌, take, string_eq, option_eq,
}
use semiconductor_agent_know.Base.Dict.{Dict, lookup}
use semiconductor_agent_know.Agent.Kinds.{
  AgentRoute, IntentTarget, IntentTaskAction, PrimaryIntent, TaskShape, TaskExecutionDecision,
  agent_route_eq, intent_target_eq, intent_task_action_eq, primary_intent_eq, task_shape_eq,
  task_execution_decision_eq, interaction_mode_eq,
}
use semiconductor_agent_know.Agent.Model.{IntentTaskItem, ConversationUnderstanding}
use semiconductor_agent_know.Agent.TaskRoute.{transforms}

-- `not slots.get(name)`
abbrev pub is_missing : Dict String String → String → Bool
is_missing slots name = not (given (lookup name slots))

unfoldable pub has_affected_object : Dict String String → Bool
has_affected_object slots =
    any (λ name. given (lookup name slots))
      ("product" ∷ "tool_id" ∷ "chamber" ∷ "lot_id" ∷ "case_id" ∷ [])

-- What the appends to `missing` add.
abbrev pub append_if : Bool → String → List String
append_if b name = if b then name ∷ [] else []

unfoldable pub legacy_manufacturing_missing : Dict String String → List String
legacy_manufacturing_missing slots =
    append_if (is_missing slots "product") "product"
    ++ append_if (is_missing slots "time_range") "time_range"
    ++ append_if (is_missing slots "tool_id" && is_missing slots "chamber") "tool_or_chamber"

unfoldable pub data_task_missing : IntentTaskItem → Dict String String → List String
data_task_missing t slots =
    if t.task_shape == TaskShape.unspecified
    then legacy_manufacturing_missing slots
    else append_if (is_missing slots "time_range") "time_range"
      ++ (if contains
            (TaskShape.aggregate_ranking ∷ TaskShape.event_list ∷ TaskShape.trend_analysis ∷ [])
            t.task_shape
          then []
          else append_if
              ((t.task_shape == TaskShape.entity_lookup) && not (has_affected_object slots))
              "affected_object")

unfoldable pub task_missing : IntentTaskItem → Dict String String → List String
task_missing t slots =
    if t.primary_intent == PrimaryIntent.data_query
    then data_task_missing t slots
    else if t.primary_intent == PrimaryIntent.investigation
    then if t.task_shape == TaskShape.unspecified
      then legacy_manufacturing_missing slots
      else append_if (is_missing slots "time_range") "time_range"
        ++ append_if (not (has_affected_object slots)) "affected_object"
    else []

abbrev pub all_tasks_missing : List IntentTaskItem → Dict String String → List String
all_tasks_missing [] slots = []
all_tasks_missing (t ∷ ts) slots = task_missing t slots ++ all_tasks_missing ts slots

abbrev pub is_history_task : IntentTaskItem → Bool
is_history_task t =
    contains (IntentTarget.previous_user_message ∷ IntentTarget.previous_answer ∷ []) t.target_type
    && contains (IntentTaskAction.recall ∷ transforms) t.action

-- `list(dict.fromkeys(names))`: the first of each.
unfoldable pub distinct_from : List String → List String → List String
distinct_from seen [] = []
distinct_from seen (x ∷ xs) =
    let fresh = x ∷ distinct_from (x ∷ seen) xs in
    let known = distinct_from seen xs in if contains seen x then known else fresh

unfoldable pub required_missing :
    ConversationUnderstanding → Dict String String → AgentRoute → List String
required_missing u slots route =
    let executable =
      filter (λ (t : IntentTaskItem). t.execution_policy == TaskExecutionDecision.execute)
        u.task_items in
    take 3 (
      distinct_from [] (
        all_tasks_missing executable slots
        ++ (if contains (AgentRoute.tool_only ∷ AgentRoute.rag_and_tool ∷ []) route
              && is_empty executable
            then legacy_manufacturing_missing slots
            else [])
        ++ append_if (any is_history_task u.task_items && is_empty u.context_message_ids)
            "history_reference"))
