-- ===== src/Agent/Relation.antt =====
-- How a message relates to the clarification that waits (`decide_turn_relation` of
-- semikb/agent_runtime/clarification.py).
pub mod Grounded
use semiconductor_agent_know.Base.{
  String, ℕ, Bool, true, false, not, ◌&&◌, ◌||◌, Option, none, some, List, [], ◌∷◌, ◌==◌, eqb, any,
  all, map, filter, contains, is_empty, given, if◌then◌else◌, string_eq, option_eq, pair_eq,
}
use semiconductor_agent_know.Base.Dict.{Dict, lookup}
use semiconductor_agent_know.Agent.Text.{
  Codes, codes, Piece, one_of, maybe, many, at_end, is_space, matches, search_pattern, fold, strip,
}
use semiconductor_agent_know.Agent.Kinds.{
  AgentRoute, IntentTarget, IntentTaskAction, PrimaryIntent, CancelScope, ClarificationFrameStatus,
  ClarificationTurnRelation, agent_route_eq, intent_target_eq, intent_task_action_eq,
  primary_intent_eq, cancel_scope_eq, clarification_frame_status_eq, clarification_turn_relation_eq,
}
use semiconductor_agent_know.Agent.Model.{IntentTaskItem, ConversationUnderstanding}
use semiconductor_agent_know.Agent.Missing.{has_affected_object}
use semiconductor_agent_know.Agent.Routing.{merged}
use semiconductor_agent_know.Agent.Frames.{
  ClarificationFrame, ClarificationRelationDecision, pending_keys,
}

abbrev pub intent_target_key : String
intent_target_key = "intent_target"

abbrev explicit_switch : List Piece
explicit_switch =
    one_of ("换个问题" ∷ "换一个问题" ∷ "换问题" ∷ "改问" ∷ "另一个问题" ∷ "不问这个了" ∷ "先不说这个" ∷ "重新问" ∷ "我想问别的" ∷ [])
    ∷ []

-- The optional ends of `EXPLICIT_CONTINUE_PATTERN` do not change whether it is found.
abbrev explicit_continue : List Piece
explicit_continue = one_of ("继续" ∷ "补充" ∷ "关于刚才" ∷ []) ∷ []

abbrev unknown_answer : List Piece
unknown_answer =
    maybe ("暂时" ∷ [])
    ∷ one_of ("不知道" ∷ "不清楚" ∷ "没有更多信息" ∷ "无法确认" ∷ "不确定" ∷ "还是没有更多信息" ∷ [])
    ∷ many (λ c. any (eqb c) (codes "。！! "))
    ∷ at_end
    ∷ []

abbrev standalone_task : List Piece
standalone_task =
    one_of (
      "？" ∷ "?" ∷ "为什么" ∷ "怎么" ∷ "如何" ∷ "是什么" ∷ "查" ∷ "查看" ∷ "检索" ∷ "分析" ∷ "比较" ∷ "对比" ∷ "帮我" ∷ "请问"
      ∷ "sop" ∷ "recipe" ∷ "fdc" ∷ "spc" ∷ "良率" ∷ "报警" ∷ "缺陷" ∷ "wafer" ∷ "lot" ∷ [])
    ∷ []

unfoldable pub says : List Piece → String → Bool
says pattern message = search_pattern pattern (fold (codes message))

unfoldable pub is_unknown_answer : String → Bool
is_unknown_answer message = matches unknown_answer (strip (codes message))

unfoldable pub is_direct_conversation : ConversationUnderstanding → Bool
is_direct_conversation u =
    (u.primary_intent == PrimaryIntent.conversation)
    && contains (AgentRoute.chat_direct ∷ AgentRoute.history_direct ∷ []) u.suggested_route

unfoldable pub looks_like_standalone_task : String → ConversationUnderstanding → Bool
looks_like_standalone_task message u =
    says standalone_task message && not (is_empty u.task_items) && not (is_direct_conversation u)

-- `{(item.target_type, item.action) for item in task_items}`
abbrev task_signatures : ConversationUnderstanding → List (IntentTarget × IntentTaskAction)
task_signatures u = map (λ (t : IntentTaskItem). (t.target_type, t.action)) u.task_items

unfoldable pub is_distinct_new_task : ClarificationFrame → String → ConversationUnderstanding → Bool
is_distinct_new_task f message u =
    let base = f.base_understanding in
    looks_like_standalone_task message u
    && (not (u.primary_intent == base.primary_intent)
        || (not (is_empty (task_signatures u))
            && not (is_empty (task_signatures base))
            && all (λ s. not (contains (task_signatures base) s)) (task_signatures u)))

-- `values.get(name)` as a truth value
abbrev pub has_value : Dict String String → String → Bool
has_value values name = given (lookup name values)

unfoldable pub resolves_key : ConversationUnderstanding → String → Bool
resolves_key u key =
    let values = merged u.inherited_slots u.explicit_slots in
    if (key == "tool_or_chamber") && (has_value values "tool_id" || has_value values "chamber")
    then true
    else if (key == "affected_object") && has_affected_object values
    then true
    else if (key == "history_reference") && not (is_empty u.context_message_ids)
    then true
    else if (key == intent_target_key)
        && (contains
              (PrimaryIntent.knowledge_query ∷ PrimaryIntent.data_query ∷ PrimaryIntent.content_task
                ∷ [])
              u.primary_intent
            || contains
                (AgentRoute.internal_rag ∷ AgentRoute.tool_only ∷ AgentRoute.rag_and_tool
                  ∷ AgentRoute.rag_and_web ∷ AgentRoute.chat_direct ∷ [])
                u.suggested_route)
    then true
    else has_value values key

unfoldable pub resolved_pending_keys : ClarificationFrame → ConversationUnderstanding → List String
resolved_pending_keys f u = filter (resolves_key u) (pending_keys f)

unfoldable pub is_over : ClarificationFrameStatus → Bool
is_over status =
    contains
      (ClarificationFrameStatus.cancelled ∷ ClarificationFrameStatus.resolved
        ∷ ClarificationFrameStatus.superseded ∷ [])
      status

-- `cancel_scope in {CLARIFICATION, CURRENT_TASK}`
unfoldable pub cancels : Option CancelScope → Bool
cancels none = false
cancels (some s) = contains (CancelScope.clarification ∷ CancelScope.current_task ∷ []) s

abbrev related : ClarificationTurnRelation → String → List String → ClarificationRelationDecision
related r source warnings = record {
  relation = r;
  classifier_source = source;
  warning_codes = warnings;
}

-- The relation that the model proposed, where the message itself has not decided.
unfoldable pub proposed_relation :
    String → ConversationUnderstanding → ClarificationRelationDecision
proposed_relation message u =
    let source = u.classifier_source in
    let proposed = u.clarification_relation in
    if proposed == some ClarificationTurnRelation.cancel_current
    then related ClarificationTurnRelation.ambiguous "server_policy"
        ("ungrounded_cancel_relation" ∷ [])
    else if (proposed == some ClarificationTurnRelation.side_conversation)
        && is_direct_conversation u
    then related ClarificationTurnRelation.side_conversation source []
    else if (proposed == some ClarificationTurnRelation.replace_with_new_request)
        && looks_like_standalone_task message u
    then related ClarificationTurnRelation.replace_with_new_request source []
    else if proposed == some ClarificationTurnRelation.continue_current
    then related ClarificationTurnRelation.continue_current source []
    else if is_direct_conversation u
    then related ClarificationTurnRelation.side_conversation source []
    else if looks_like_standalone_task message u
    then related ClarificationTurnRelation.replace_with_new_request source []
    else related ClarificationTurnRelation.continue_current "server_policy"
        ("relation_defaulted_to_current_frame" ∷ [])

unfoldable pub decide_turn_relation :
    ClarificationFrame → String → ConversationUnderstanding → ClarificationRelationDecision
decide_turn_relation f message u =
    let source = u.classifier_source in
    if is_over f.status
    then related ClarificationTurnRelation.replace_with_new_request "server_policy"
        ("terminal_frame_cannot_resume" ∷ [])
    else if cancels u.cancel_scope
    then related ClarificationTurnRelation.cancel_current source []
    else if says explicit_switch message
    then related
        (if looks_like_standalone_task message u
          then ClarificationTurnRelation.replace_with_new_request
          else ClarificationTurnRelation.ambiguous)
        "l0" []
    else if says explicit_continue message
    then related ClarificationTurnRelation.continue_current "l0"
        (if is_empty (resolved_pending_keys f u) then "explicit_resume_without_answer" ∷ [] else [])
    else if is_unknown_answer message
    then related ClarificationTurnRelation.continue_current source []
    else if is_distinct_new_task f message u
    then related ClarificationTurnRelation.replace_with_new_request source []
    else if not (is_empty (resolved_pending_keys f u))
    then related ClarificationTurnRelation.continue_current source []
    else proposed_relation message u
