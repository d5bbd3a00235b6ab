-- ===== src/Agent/Execution.antt =====
-- One result for each task of a plan (semikb/agent_runtime/task_execution.py). External evidence is
-- read by its source types only.
pub mod Contract
pub mod Completed
use Prim.Native.String.{◌++◌ as concat}
use semiconductor_agent_know.Base.{
  String, ℕ, Bool, true, false, not, ◌&&◌, ◌||◌, Option, none, some, List, [], ◌∷◌, ◌==◌, any, map,
  filter, contains, is_empty, if◌then◌else◌, string_eq,
}
use semiconductor_agent_know.Base.Dict.{Dict, lookup, insert}
use semiconductor_agent_know.Agent.Text.{codes, strip}
use semiconductor_agent_know.Agent.Kinds.{
  AgentRoute, TaskExecutionDecision, TaskExecutionStatus, agent_route_eq,
  task_execution_decision_eq, task_execution_status_eq,
}
use semiconductor_agent_know.Agent.Model.{IntentTaskItem, RouteTaskDecision}
use semiconductor_agent_know.Agent.Routing.{route_value}
use semiconductor_agent_know.Agent.Labels.{
  task_label, status_message, refusal_message, missing_detail,
}

pub record EvidenceLedgerEntry : Type 0 where
  pub evidence_id : String
  pub source_type : String

pub record TaskExecutionResult : Type 0 where
  pub task_id : String
  pub status : TaskExecutionStatus
  pub route : Option AgentRoute
  pub reason_code : String
  pub message : String
  pub evidence_ids : List String
  pub tool_fact_ids : List String
  pub external_evidence_ids : List String
  pub validation_warnings : List String

-- The cited entries of one source type.
unfoldable pub cited : String → List EvidenceLedgerEntry → List String → List String
cited source [] citations = []
cited source (e ∷ es) citations =
    let rest = cited source es citations in
    if (e.source_type == source) && contains citations e.evidence_id
    then e.evidence_id ∷ rest
    else rest

-- Which of the three kinds of evidence a route keeps.
abbrev pub keeps_internal : AgentRoute → Bool
keeps_internal AgentRoute.chat_direct = false
keeps_internal AgentRoute.tool_only = false
keeps_internal _ = true

abbrev pub keeps_tool : AgentRoute → Bool
keeps_tool AgentRoute.chat_direct = false
keeps_tool AgentRoute.reuse_evidence = false
keeps_tool AgentRoute.internal_rag = false
keeps_tool AgentRoute.rag_and_web = false
keeps_tool _ = true

abbrev pub keeps_external : AgentRoute → Bool
keeps_external AgentRoute.chat_direct = false
keeps_external AgentRoute.reuse_evidence = false
keeps_external AgentRoute.internal_rag = false
keeps_external AgentRoute.tool_only = false
keeps_external AgentRoute.rag_and_tool = false
keeps_external _ = true

-- The evidence that a route asks of an answer.
unfoldable pub meets_contract : AgentRoute → List String → List String → List String → Bool
meets_contract AgentRoute.reuse_evidence internal tool external = not (is_empty internal)
meets_contract AgentRoute.internal_rag internal tool external = not (is_empty internal)
meets_contract AgentRoute.tool_only internal tool external = not (is_empty tool)
meets_contract AgentRoute.rag_and_tool internal tool external =
    not (is_empty internal) && not (is_empty tool)
meets_contract AgentRoute.rag_and_web internal tool external =
    not (is_empty internal) || not (is_empty external)
meets_contract _ internal tool external = true

abbrev web_warnings : AgentRoute → List String → List String → List String
web_warnings AgentRoute.rag_and_web external_ids external_evidence =
    if not (is_empty external_ids)
    then []
    else if contains external_evidence "external_unavailable"
    then "external_evidence_unavailable" ∷ []
    else if contains external_evidence "external"
    then "external_evidence_not_cited" ∷ []
    else "external_evidence_empty" ∷ []
web_warnings _ external_ids external_evidence = []

unfoldable pub has_answer : String → Bool
has_answer text = not (is_empty (strip (codes text)))

abbrev pub kept : Bool → List String → List String
kept b ids = if b then ids else []

module _ (ledger : List EvidenceLedgerEntry) (citations external_evidence : List String) where
  unfoldable pub validate_executed_task :
      String → String → AgentRoute → String → TaskExecutionResult
  validate_executed_task task_id label route answer_text =
      let internal = kept (keeps_internal route) (cited "internal_controlled" ledger citations) in
      let tool = kept (keeps_tool route) (cited "simulated_live_data" ledger citations) in
      let external = kept (keeps_external route) (cited "external" ledger citations) in
      let warnings = web_warnings route external external_evidence in
      if has_answer answer_text && meets_contract route internal tool external
      then record {
        task_id = task_id;
        status = TaskExecutionStatus.completed;
        route = some route;
        reason_code =
            if is_empty warnings
            then "route_contract_satisfied"
            else "completed_with_external_degradation";
        message = status_message label (
            if is_empty warnings
            then concat "已完成，并通过 " (concat (route_value route) " 路由校验。")
            else "已完成内部证据校验；外部资料不可用或未返回结果。");
        evidence_ids = internal;
        tool_fact_ids = tool;
        external_evidence_ids = external;
        validation_warnings = warnings;
      }
      else record {
        task_id = task_id;
        status = TaskExecutionStatus.failed;
        route = some route;
        reason_code = "route_contract_not_satisfied";
        message =
            status_message label (concat "未完成：结果没有满足 " (concat (route_value route) " 的证据要求。"));
        evidence_ids = internal;
        tool_fact_ids = tool;
        external_evidence_ids = external;
        validation_warnings = [];
      }

-- `_actual_task_route`
unfoldable pub actual_task_route : Option AgentRoute → AgentRoute → AgentRoute
actual_task_route none actual = actual
actual_task_route (some planned) actual =
    if planned == AgentRoute.history_direct
    then AgentRoute.chat_direct
    else if (planned == AgentRoute.reuse_evidence) && (actual == AgentRoute.internal_rag)
    then actual
    else if (planned == AgentRoute.internal_rag) && (actual == AgentRoute.rag_and_web)
    then actual
    else planned

-- `{item.task_id: item for item in task_items}.get(task_id)`: the last one.
unfoldable pub task_named : String → List IntentTaskItem → Option IntentTaskItem
task_named id [] = none
task_named id (t ∷ ts) = elim (task_named id ts) [
  | some u ↦ some u
  | none ↦ if t.task_id == id then some t else none
]

-- The first dependency that has a result and is not completed.
unfoldable pub failed_dependency : Dict String TaskExecutionResult → List String → Bool
failed_dependency known [] = false
failed_dependency known (d ∷ ds) =
    let rest = failed_dependency known ds in
    elim (lookup d known) [
      | none ↦ rest
      | some r ↦ if r.status == TaskExecutionStatus.completed then rest else true
    ]

abbrev pub dependencies_of : Option IntentTaskItem → List String
dependencies_of none = []
dependencies_of (some t) = t.depends_on

-- A result that was not run.
abbrev unrun :
    String → TaskExecutionStatus → Option AgentRoute → String → String → TaskExecutionResult
unrun id status route reason message = record {
  task_id = id;
  status = status;
  route = route;
  reason_code = reason;
  message = message;
  evidence_ids = [];
  tool_fact_ids = [];
  external_evidence_ids = [];
  validation_warnings = [];
}

-- The arguments of `finalize_tasks` that do not change in its loop.
pub record Inputs : Type 0 where
  pub task_items : List IntentTaskItem
  pub actual_route : AgentRoute
  pub answer_text : String
  pub task_outputs : Dict String String
  pub evidence_ledger : List EvidenceLedgerEntry
  pub cited_evidence_ids : List String
  pub external_evidence : List String
  pub missing_fields : List String
  pub authorization_errors : List String

abbrev pub output_of : Inputs → String → String
output_of i id = elim (lookup id i.task_outputs) [ none ↦ i.answer_text | some t ↦ t ]

-- `authorization[0]`, where there is one
abbrev first_error : List String → Option String
first_error [] = none
first_error (e ∷ _) = some e

unfoldable pub executed_result : Inputs → RouteTaskDecision → TaskExecutionResult
executed_result i d =
    validate_executed_task i.evidence_ledger i.cited_evidence_ids i.external_evidence d.task_id
      (task_label (task_named d.task_id i.task_items)) (actual_task_route d.route i.actual_route)
      (output_of i d.task_id)

-- The tail of the chain, where no dependency failed and nothing is out of scope.
unfoldable pub decided_result : Inputs → RouteTaskDecision → TaskExecutionResult
decided_result i d =
    let label = task_label (task_named d.task_id i.task_items) in
    if d.decision == TaskExecutionDecision.clarify
    then unrun d.task_id TaskExecutionStatus.clarify (some AgentRoute.clarify) d.reason_code
        (status_message label (concat "需要先补充：" (concat (missing_detail i.missing_fields) "。")))
    else if d.decision == TaskExecutionDecision.refuse
    then unrun d.task_id TaskExecutionStatus.refused (some AgentRoute.refuse) d.reason_code
        (refusal_message label d.reason_code)
    else if d.decision == TaskExecutionDecision.defer
    then unrun d.task_id TaskExecutionStatus.deferred d.route d.reason_code
        (status_message label "已延后，本轮没有静默执行该任务。")
    else executed_result i d

unfoldable pub task_result :
    Inputs → Dict String TaskExecutionResult → RouteTaskDecision → TaskExecutionResult
task_result i known d =
    let task = task_named d.task_id i.task_items in
    let label = task_label task in
    let runs = d.decision == TaskExecutionDecision.execute in
    if failed_dependency known (dependencies_of task) && runs
    then unrun d.task_id TaskExecutionStatus.deferred d.route "dependency_not_completed"
        (status_message label "已延后：依赖任务尚未完成。")
    else if not (is_empty i.authorization_errors) && runs
    then unrun d.task_id TaskExecutionStatus.refused none
        (elim (first_error i.authorization_errors) [ none ↦ "" | some e ↦ e ])
        (status_message label "未执行：请求对象超出当前授权范围。")
    else decided_result i d

-- The loop of `finalize_tasks` over the decisions of the plan.
unfoldable pub finalize_from :
    Inputs → Dict String TaskExecutionResult → List RouteTaskDecision → List TaskExecutionResult
finalize_from i known [] = []
finalize_from i known (d ∷ ds) =
    let r = task_result i known d in r ∷ finalize_from i (insert r.task_id r known) ds

unfoldable pub finalize_tasks : Inputs → List RouteTaskDecision → List TaskExecutionResult
finalize_tasks i ds = finalize_from i [] ds
