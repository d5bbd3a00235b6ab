-- ===== src/Agent/Turn.antt =====
-- One turn of a clarification: the frame that is built to ask back (`build_clarification_frame` of
-- semikb/agent_runtime/clarification.py), and what an answer does to it
-- (`_resolve_clarification_turn` of semikb/agent_runtime/graph.py).
pub mod Outcome
use semiconductor_agent_know.Base.{
  String, ℕ, Bool, true, false, not, ◌&&◌, Option, none, some, List, [], ◌∷◌, ◌==◌, ◌+◌, map,
  contains, is_empty, take, if◌then◌else◌, string_eq, option_eq,
}
use semiconductor_agent_know.Base.Dict.{Dict, lookup}
use semiconductor_agent_know.Context.{ActiveConversationContext}
use semiconductor_agent_know.Documents.Model.{ActorScope}
use semiconductor_agent_know.Agent.Text.{codes}
use semiconductor_agent_know.Agent.Kinds.{
  AgentRoute, ClarificationKind, ClarificationFrameStatus, ClarificationItemType,
  ClarificationTurnRelation, agent_route_eq, clarification_kind_eq, clarification_turn_relation_eq,
}
use semiconductor_agent_know.Agent.Model.{IntentTaskItem, ConversationUnderstanding, RoutePlan}
use semiconductor_agent_know.Agent.Missing.{distinct_from}
use semiconductor_agent_know.Agent.Routing.{decide}
use semiconductor_agent_know.Agent.Frames.{
  ClarificationPendingItem, ClarificationFrame, pending_keys, ClarificationTransitionAudit,
  SignaturePayload,
}
use semiconductor_agent_know.Agent.Relation.{intent_target_key, decide_turn_relation}
use semiconductor_agent_know.Agent.Clarification.{
  clarification_signature, candidate_route_of, merge_continuation_understanding,
  update_frame_after_answer, terminal_transition,
}

abbrev intent_target_values : List String
intent_target_values = "knowledge_query" ∷ "data_query" ∷ "history_task" ∷ []

-- The items to ask for. A key without a prompt is a KeyError.
unfoldable pub pending_item : Dict String String → String → Option ClarificationPendingItem
pending_item prompts key =
    if key == intent_target_key
    then some (record {
      key = key;
      item_type = ClarificationItemType.choice;
      prompt = "请明确希望查询受控知识、查看制造数据，还是处理上一轮内容。";
      allowed_values = intent_target_values;
    })
    else elim (lookup key prompts) [
      | none ↦ none
      | some p ↦ some (record {
        key = key;
        item_type = ClarificationItemType.slot;
        prompt = p;
        allowed_values = [];
      })
    ]

unfoldable pub pending_items_for :
    Dict String String → List String → Option (List ClarificationPendingItem)
pending_items_for prompts [] = some []
pending_items_for prompts (k ∷ ks) =
    let rest = pending_items_for prompts ks in
    elim (pending_item prompts k) [
      | none ↦ none
      | some i ↦ elim rest [ none ↦ none | some is ↦ some (i ∷ is) ]
    ]

-- `keys == ["history_reference"]`
abbrev keys_are_history : List String → Bool
keys_are_history (k ∷ []) = k == "history_reference"
keys_are_history _ = false

abbrev pub kind_for : List String → ClarificationKind
kind_for keys =
    if keys_are_history keys
    then ClarificationKind.history_reference
    else if is_empty keys
    then ClarificationKind.intent_disambiguation
    else ClarificationKind.slot_collection

abbrev pub asked_keys : List String → List String
asked_keys keys = if is_empty keys then intent_target_key ∷ [] else keys

abbrev task_ids_or : List String → List String → List String
task_ids_or ids other = if is_empty ids then other else ids

module _ (digest : SignaturePayload → String) where
  abbrev new_frame :
      String
      → String
      → ConversationUnderstanding
      → RoutePlan
      → ClarificationKind
      → List String
      → List ClarificationPendingItem
      → ClarificationFrame
  new_frame new_id request u plan kind keys items =
      let ids = map (λ (t : IntentTaskItem). t.task_id) u.task_items in
      record {
        frame_id = new_id;
        kind = kind;
        original_request = request;
        candidate_route = candidate_route_of plan u;
        task_ids = ids;
        pending_items = items;
        resolved_items = [];
        round = 0;
        no_progress_count = 0;
        signature = clarification_signature digest kind keys ids 0;
        status = ClarificationFrameStatus.waiting;
        last_transition = none;
        last_source_message_id = none;
        superseded_by_request_id = none;
        base_understanding = u;
        base_route_plan = plan;
      }

  abbrev rebuilt_frame :
      ClarificationFrame
      → ConversationUnderstanding
      → RoutePlan
      → ClarificationKind
      → List String
      → List ClarificationPendingItem
      → ClarificationFrame
  rebuilt_frame f u plan kind keys items =
      let ids = map (λ (t : IntentTaskItem). t.task_id) u.task_items in
      record f {
        kind = kind;
        candidate_route =
            if f.candidate_route == AgentRoute.clarify
            then candidate_route_of plan u
            else f.candidate_route;
        task_ids = task_ids_or ids f.task_ids;
        pending_items = items;
        signature = clarification_signature digest kind keys ids f.no_progress_count;
        status = ClarificationFrameStatus.waiting;
      }

  unfoldable pub build_clarification_frame :
      String
      → String
      → ConversationUnderstanding
      → RoutePlan
      → List String
      → Dict String String
      → Option ClarificationFrame
      → Option ClarificationFrame
  build_clarification_frame new_id request u plan missing prompts existing =
      let keys = take 3 (distinct_from [] missing) in
      elim (pending_items_for prompts (asked_keys keys)) [
        | none ↦ none
        | some items ↦ elim existing [
          | none ↦ some (new_frame new_id request u plan (kind_for keys) (asked_keys keys) items)
          | some f ↦ some (rebuilt_frame f u plan (kind_for keys) (asked_keys keys) items)
        ]
      ]

-- The frame part of `_clarify_missing_fields`.
unfoldable pub ask : ClarificationFrame → ClarificationFrame
ask f = record f { round = f.round + 1; status = ClarificationFrameStatus.waiting }

-- What a turn leaves in the state: `clarification_frame`, the audit, the relation, whether the
-- questions are asked again unchanged, and the plan of the continued request.
pub record Turn : Type 0 where
  pub frame : ClarificationFrame
  pub audit : ClarificationTransitionAudit
  pub relation : ClarificationTurnRelation
  pub resume_only : Bool
  pub plan : Option RoutePlan

-- The keys that are still asked for once the continued request has been planned.
unfoldable pub pending_after_answer : ClarificationFrame → RoutePlan → List String
pending_after_answer f plan =
    if (plan.route == AgentRoute.clarify) && is_empty plan.missing_slots
    then if f.kind == ClarificationKind.intent_disambiguation
      then intent_target_key ∷ []
      else pending_keys f
    else plan.missing_slots

abbrev resumed : ClarificationFrame → Option String → String → List String → Turn
resumed f source classifier warnings = record {
  frame = record f {
    status = ClarificationFrameStatus.waiting;
    last_transition = some ClarificationTurnRelation.continue_current;
    last_source_message_id = source;
  };
  audit = record {
    frame_id = f.frame_id;
    relation = ClarificationTurnRelation.continue_current;
    classifier_source = classifier;
    previous_status = f.status;
    next_status = ClarificationFrameStatus.waiting;
    pending_before = pending_keys f;
    resolved_by_answer = [];
    pending_after = pending_keys f;
    made_progress = false;
    warning_codes = warnings;
  };
  relation = ClarificationTurnRelation.continue_current;
  resume_only = true;
  plan = none;
}

-- The frame is left for a new request, a side conversation or a question back, or cancelled.
unfoldable pub left_frame :
    ClarificationFrame
    → ClarificationTurnRelation
    → String
    → List String
    → Option String
    → String
    → Turn
left_frame f relation classifier warnings source run_id =
    let request_id =
      if relation == ClarificationTurnRelation.replace_with_new_request
      then some run_id
      else none in
    let (frame, audit) = terminal_transition f relation classifier source request_id warnings in
    record { frame = frame; audit = audit; relation = relation; resume_only = false; plan = none }

module _ (digest : SignaturePayload → String) (actor : ActorScope)
    (context : Option ActiveConversationContext) where
  unfoldable pub continued :
      ClarificationFrame → String → ConversationUnderstanding → Option String → String → Turn
  continued f response u source classifier =
      let own = merge_continuation_understanding f response u in
      let plan = decide own actor context (codes f.original_request) in
      let (frame, audit) =
        update_frame_after_answer digest f own (pending_after_answer f plan) source classifier in
      record {
        frame = frame;
        audit = audit;
        relation = ClarificationTurnRelation.continue_current;
        resume_only = false;
        plan = some plan;
      }

  unfoldable pub resolve_turn :
      ClarificationFrame → String → ConversationUnderstanding → Option String → String → Turn
  resolve_turn f response u source run_id =
      let d = decide_turn_relation f response u in
      if d.relation == ClarificationTurnRelation.continue_current
      then if contains d.warning_codes "explicit_resume_without_answer"
        then resumed f source d.classifier_source d.warning_codes
        else continued f response u source d.classifier_source
      else left_frame f d.relation d.classifier_source d.warning_codes source run_id
