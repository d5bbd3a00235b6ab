-- ===== src/Agent/TaskRoute.antt =====
-- The route of one task (`_task_route` of semikb/agent_runtime/routing.py). A context is the active
-- context that it holds, if it holds a dict. A request is its code points.
use semiconductor_agent_know.Base.{
  String, Bool, false, not, ◌&&◌, ◌||◌, Option, none, some, List, [], ◌∷◌, ◌==◌, any, contains,
  if◌then◌else◌, string_eq, option_eq,
}
use semiconductor_agent_know.Context.{ActiveConversationContext}
use semiconductor_agent_know.Agent.Text.{
  Codes, Piece, one_of, maybe, many, is_space, search_pattern, has_any, lower, lines,
}
use semiconductor_agent_know.Agent.Kinds.{
  AgentRoute, IntentTarget, IntentTaskAction, PrimaryIntent, InteractionMode, agent_route_eq,
  intent_target_eq, intent_task_action_eq, primary_intent_eq, task_shape_eq,
  task_execution_decision_eq, interaction_mode_eq,
}
use semiconductor_agent_know.Agent.Model.{IntentTaskItem, ConversationUnderstanding}

abbrev latest_terms : List String
latest_terms = "最新" ∷ "当前版本" ∷ "现行" ∷ "实时" ∷ "现在" ∷ "today" ∷ "latest" ∷ []

abbrev external_terms : List String
external_terms = "外部" ∷ "互联网" ∷ "网上" ∷ "web" ∷ "公开资料" ∷ "行业最新" ∷ "官方公告" ∷ []

-- The first alternative of `WEB_DISABLED_PATTERN`, and the second.
abbrev web_refused : List Piece
web_refused =
    one_of ("不要" ∷ "不需要" ∷ "无需" ∷ "不用" ∷ "禁止" ∷ "别" ∷ [])
    ∷ maybe ("使用" ∷ "调用" ∷ "查询" ∷ "搜索" ∷ "访问" ∷ "走" ∷ [])
    ∷ many is_space
    ∷ one_of ("web" ∷ "外部" ∷ "互联网" ∷ "网上" ∷ [])
    ∷ []

abbrev internal_only : List Piece
internal_only =
    one_of ("仅" ∷ "只" ∷ [])
    ∷ maybe ("查询" ∷ "检索" ∷ "使用" ∷ [])
    ∷ one_of ("内部" ∷ "知识库" ∷ "已入库" ∷ [])
    ∷ []

unfoldable pub web_disabled : Codes → Bool
web_disabled s = search_pattern web_refused s || search_pattern internal_only s

-- Both lookaheads of `EVIDENCE_FOLLOWUP_PATTERN` succeed at the start of a line, or nowhere in it.
unfoldable pub is_evidence_followup : Codes → Bool
is_evidence_followup request =
    any
      (λ line.
        has_any ("刚才" ∷ "上一轮" ∷ "上面" ∷ "上述" ∷ "其中" ∷ "这些" ∷ "该条" ∷ "这条" ∷ []) line
        && has_any ("证据" ∷ "来源" ∷ "引用" ∷ "依据" ∷ []) line)
      (lines request)

unfoldable pub has_valid_evidence : Option ActiveConversationContext → Bool
has_valid_evidence none = false
has_valid_evidence (some a) = any (λ r. r.valid) a.evidence_refs

abbrev pub transforms : List IntentTaskAction
transforms =
    IntentTaskAction.simplify ∷ IntentTaskAction.summarize ∷ IntentTaskAction.translate ∷ []

unfoldable pub task_route :
    IntentTaskItem
    → ConversationUnderstanding
    → Option ActiveConversationContext
    → Codes
    → AgentRoute
task_route t u context request =
    if is_evidence_followup request && has_valid_evidence context
    then AgentRoute.reuse_evidence
    else if (t.target_type == IntentTarget.previous_user_message)
        && (t.action == IntentTaskAction.recall)
    then AgentRoute.chat_direct
    else if (t.target_type == IntentTarget.previous_answer)
        && contains (IntentTaskAction.recall ∷ transforms) t.action
    then AgentRoute.chat_direct
    else if (u.primary_intent == PrimaryIntent.investigation)
        && contains
            (PrimaryIntent.investigation ∷ PrimaryIntent.data_query ∷ PrimaryIntent.knowledge_query
              ∷ [])
            t.primary_intent
    then AgentRoute.rag_and_tool
    else if contains (PrimaryIntent.conversation ∷ PrimaryIntent.content_task ∷ []) t.primary_intent
    then if (u.interaction_mode == InteractionMode.feedback) && not (contains transforms t.action)
      then AgentRoute.chat_direct
      else if contains (IntentTarget.previous_user_message ∷ IntentTarget.previous_answer ∷ [])
          t.target_type
      then AgentRoute.chat_direct
      else AgentRoute.chat_direct
    else if t.primary_intent == PrimaryIntent.data_query
    then AgentRoute.tool_only
    else if t.primary_intent == PrimaryIntent.investigation
    then AgentRoute.rag_and_tool
    else if has_any external_terms (lower request) && not (web_disabled (lower request))
    then AgentRoute.rag_and_web
    else if has_any ("继续" ∷ "基于刚才" ∷ "根据刚才" ∷ "再分析" ∷ []) (lower request)
        && not (has_any latest_terms (lower request))
        && has_valid_evidence context
    then AgentRoute.reuse_evidence
    else AgentRoute.internal_rag
