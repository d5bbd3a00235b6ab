-- ===== src/Agent/Labels.antt =====
-- The texts of a task's result (semikb/agent_runtime/task_execution.py).
use Prim.Native.String.{◌++◌ as concat}
use mathlib.Core.List.{reverse}
use semiconductor_agent_know.Base.{
  String, Bool, false, ◌&&◌, ◌||◌, Option, none, some, List, [], ◌∷◌, ◌==◌, leb, is_some, contains,
  if◌then◌else◌, string_eq,
}
use semiconductor_agent_know.Agent.Text.{Codes, codes, rest_after}
use semiconductor_agent_know.Agent.Kinds.{
  IntentTarget, IntentTaskAction, intent_target_eq, intent_task_action_eq,
}
use semiconductor_agent_know.Agent.Model.{IntentTaskItem}

abbrev target_label : IntentTarget → String
target_label IntentTarget.previous_user_message = "回顾上一条用户问题"
target_label IntentTarget.previous_answer = "处理上一条回答"
target_label IntentTarget.sop = "SOP"
target_label IntentTarget.recipe = "Recipe"
target_label IntentTarget.fdc = "FDC 数据"
target_label IntentTarget.spc = "SPC 数据"
target_label IntentTarget.wafer_map = "晶圆图"
target_label IntentTarget.lot = "Lot 数据"
target_label IntentTarget.case = "异常 Case"
target_label IntentTarget.alarm = "报警信息"
target_label IntentTarget.report = "报告"
target_label IntentTarget.general = "当前请求"

abbrev action_label : IntentTaskAction → String
action_label IntentTaskAction.recall = "回顾"
action_label IntentTaskAction.summarize = "总结"
action_label IntentTaskAction.simplify = "简化"
action_label IntentTaskAction.translate = "翻译"
action_label IntentTaskAction.lookup = "查询"
action_label IntentTaskAction.compare = "对照"
action_label IntentTaskAction.diagnose = "分析"
action_label IntentTaskAction.explain = "解释"
action_label IntentTaskAction.execute = "执行"
action_label IntentTaskAction.generate = "生成"

-- `MISSING_FIELD_LABELS.get(field, "必要信息")`
user_facing_missing_field : String → String
user_facing_missing_field field =
    if field == "product"
    then "产品"
    else if field == "time_range"
    then "时间范围"
    else if field == "tool_or_chamber"
    then "设备或腔体"
    else if field == "affected_object"
    then "受影响对象"
    else if field == "history_reference"
    then "需要处理的历史内容"
    else if field == "intent_target"
    then "希望执行的任务类型"
    else if field == "request_goal"
    then "希望执行的任务类型"
    else "必要信息"

-- `isascii() and isalpha()`, `isascii() and isalnum()` of one character; the empty text is neither.
abbrev is_letter : Codes → Bool
is_letter [] = false
is_letter (c ∷ _) = (leb b'A' c && leb c b'Z') || (leb b'a' c && leb c b'z')

abbrev is_letter_or_digit : Codes → Bool
is_letter_or_digit [] = false
is_letter_or_digit (c ∷ cs) = is_letter (c ∷ cs) || (leb b'0' c && leb c b'9')

-- `"、".join(...)`
joined_from : String → List String → String
unfolding user_facing_missing_field
joined_from s [] = s
joined_from s (f ∷ fs) = joined_from (concat s (concat "、" (user_facing_missing_field f))) fs

unfoldable pub missing_detail : List String → String
unfolding joined_from
missing_detail [] = "关键条件"
missing_detail (f ∷ fs) = joined_from (user_facing_missing_field f) fs

unfoldable pub task_label : Option IntentTaskItem → String
task_label none = "该任务"
task_label (some t) =
    let action = action_label t.action in
    let target = target_label t.target_type in
    if (t.action == IntentTaskAction.execute) && (t.target_type == IntentTarget.recipe)
    then "Recipe 修改"
    else if is_some (rest_after (codes action) (codes target))
    then target
    else concat action (concat (if is_letter (codes target) then " " else "") target)

unfoldable pub status_message : String → String → String
status_message label detail =
    concat label (concat (if is_letter_or_digit (reverse (codes label)) then " " else "") detail)

unfoldable pub refusal_message : String → String → String
unfolding status_message
refusal_message label reason = status_message label (
    if reason == "controlled_write_not_allowed"
    then "未执行：智库只提供受控只读分析，不能修改 Recipe。"
    else if contains ("product_out_of_scope" ∷ "tool_out_of_scope" ∷ []) reason
    then "未执行：请求对象超出当前授权范围。"
    else "未执行：该操作超出当前智库的受控能力边界。")
