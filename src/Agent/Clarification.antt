-- ===== src/Agent/Clarification.antt =====
-- The frame of a clarification and its transitions (semikb/agent_runtime/clarification.py). The hash
-- of `clarification_signature` is a parameter.
pub mod Resolved
use Prim.Native.Nat.{compare, Ordering, zero, suc, max}
use Prim.Native.String.{◌++◌ as concat, compare as compare_text}
use semiconductor_agent_know.Base.{
  String, ℕ, ◌+◌, min, Bool, true, false, not, ◌&&◌, ◌||◌, Option, none, some, List, [], ◌∷◌, ◌++◌,
  ◌==◌, any, map, filter, contains, is_empty, given, truthy, take, eqb, if◌then◌else◌, string_eq,
  option_eq,
}
use semiconductor_agent_know.Base.Dict.{Dict, lookup}
use semiconductor_agent_know.Context.{SlotOperation, SlotOperationKind}
use semiconductor_agent_know.Agent.Kinds.{
  AgentRoute, PrimaryIntent, InteractionMode, ClarificationKind, ClarificationFrameStatus,
  ClarificationItemType, ClarificationTurnRelation, agent_route_eq, clarification_kind_eq,
  clarification_frame_status_eq, clarification_turn_relation_eq,
}
use semiconductor_agent_know.Agent.Model.{
  IntentTaskItem, ConversationUnderstanding, RouteTaskDecision, RoutePlan,
}
use semiconductor_agent_know.Agent.Missing.{distinct_from}
use semiconductor_agent_know.Agent.Routing.{merged}
use semiconductor_agent_know.Agent.Frames.{
  ClarificationPendingItem, ClarificationResolvedItem, ClarificationFrame, keys_of, pending_keys,
  ClarificationTransitionAudit, SignaturePayload,
}
use semiconductor_agent_know.Agent.Relation.{intent_target_key}

-- `sorted(names)`
unfoldable pub before : String → String → Bool
before s t = elim (compare_text s t) [ Ordering.gt ↦ false | _ ↦ true ]

unfoldable pub insert_sorted : String → List String → List String
unfolding before
insert_sorted s [] = s ∷ []
insert_sorted s (t ∷ ts) = if before s t then s ∷ t ∷ ts else t ∷ insert_sorted s ts

unfoldable pub sorted : List String → List String
unfolding insert_sorted
sorted [] = []
sorted (s ∷ ss) = insert_sorted s (sorted ss)

-- `text[:n]`
unfoldable pub take_text : ℕ → String → String
take_text zero s = String.[]
take_text (suc n) String.[] = String.[]
take_text (suc n) (String.◌∷◌ c s) = String.◌∷◌ c (take_text n s)

-- `values.get(name)` where it is a true value, or another value.
abbrev pub first_given : List String → Dict String String → String → String
first_given [] values other = other
first_given (n ∷ ns) values other = elim (lookup n values) [
  | none ↦ first_given ns values other
  | some v ↦ if truthy v then v else first_given ns values other
]

abbrev intent_value : PrimaryIntent → String
intent_value PrimaryIntent.conversation = "conversation"
intent_value PrimaryIntent.knowledge_query = "knowledge_query"
intent_value PrimaryIntent.investigation = "investigation"
intent_value PrimaryIntent.data_query = "data_query"
intent_value PrimaryIntent.action_request = "action_request"
intent_value PrimaryIntent.content_task = "content_task"

-- `values.get(key, "provided")`
abbrev value_or_provided : Option String → String
value_or_provided none = "provided"
value_or_provided (some v) = v

abbrev first_or_provided : List String → String
first_or_provided [] = "provided"
first_or_provided (i ∷ _) = i

unfoldable pub resolved_value : String → Dict String String → ConversationUnderstanding → String
resolved_value key values u =
    if key == "tool_or_chamber"
    then first_given ("tool_id" ∷ "chamber" ∷ []) values "provided"
    else if key == "affected_object"
    then first_given ("product" ∷ "tool_id" ∷ "chamber" ∷ "lot_id" ∷ "case_id" ∷ []) values
        "provided"
    else if key == "history_reference"
    then first_or_provided u.context_message_ids
    else if key == intent_target_key
    then intent_value u.primary_intent
    else value_or_provided (lookup key values)

abbrev kind_place : SlotOperationKind → ℕ
kind_place SlotOperationKind.set = 0
kind_place SlotOperationKind.inherit = 1
kind_place SlotOperationKind.correct = 2
kind_place SlotOperationKind.clear = 3

unfoldable pub same_operation : SlotOperation → SlotOperation → Bool
same_operation o p =
    eqb (kind_place o.operation) (kind_place p.operation)
    && (o.slot_name == p.slot_name)
    && (o.value == p.value)
    && (o.source_message_id == p.source_message_id)

-- `if operation not in operations: operations.append(operation)`, in a loop
unfoldable pub merged_operations : List SlotOperation → List SlotOperation → List SlotOperation
merged_operations known [] = known
merged_operations known (o ∷ os) =
    merged_operations (if any (same_operation o) known then known else known ++ o ∷ []) os

abbrev first_route : List RouteTaskDecision → Option AgentRoute
first_route [] = none
first_route (d ∷ ds) = let rest = first_route ds in elim d.route [ none ↦ rest | some r ↦ some r ]

-- `_candidate_route`
unfoldable pub candidate_route_of : RoutePlan → ConversationUnderstanding → AgentRoute
candidate_route_of plan u = elim (first_route plan.task_decisions) [
  | some r ↦ r
  | none ↦
      if u.suggested_route == AgentRoute.clarify then AgentRoute.internal_rag else u.suggested_route
]

-- `merge_continuation_understanding`
unfoldable pub merge_continuation_understanding :
    ClarificationFrame → String → ConversationUnderstanding → ConversationUnderstanding
merge_continuation_understanding f response u =
    let base = f.base_understanding in
    let own = (f.kind == ClarificationKind.intent_disambiguation) && not (is_empty u.task_items) in
    record base {
      classifier_source = u.classifier_source;
      interaction_mode = InteractionMode.clarification_answer;
      primary_intent = if own then u.primary_intent else base.primary_intent;
      task_items = if own then u.task_items else base.task_items;
      slot_operations = take 12 (merged_operations base.slot_operations u.slot_operations);
      explicit_slots = merged base.explicit_slots u.explicit_slots;
      inherited_slots = merged base.inherited_slots u.inherited_slots;
      missing_slots = [];
      context_message_ids =
          if is_empty u.context_message_ids
          then base.context_message_ids
          else u.context_message_ids;
      standalone_query = take_text 8000 (concat f.original_request (concat "\n补充条件：" response));
      cancel_scope = none;
      clarification_relation = some ClarificationTurnRelation.continue_current;
      suggested_route = if own then u.suggested_route else base.suggested_route;
      confidence = max base.confidence u.confidence;
    }

-- One round of the loop over the resolved keys.
abbrev pub resolve_item :
    Dict String String
    → ConversationUnderstanding
    → Option String
    → String
    → List ClarificationResolvedItem
    → List ClarificationResolvedItem
resolve_item values u source key items =
    filter (λ (i : ClarificationResolvedItem). not (i.key == key)) items
    ++ (record { key = key; value = resolved_value key values u; source_message_id = source }) ∷ []

unfoldable pub resolve_items :
    Dict String String
    → ConversationUnderstanding
    → Option String
    → List String
    → List ClarificationResolvedItem
    → List ClarificationResolvedItem
resolve_items values u source [] items = items
resolve_items values u source (k ∷ ks) items =
    resolve_items values u source ks (resolve_item values u source k items)

abbrev pub status_for : List String → ClarificationFrameStatus
status_for pending_after =
    if is_empty pending_after
    then ClarificationFrameStatus.resolved
    else ClarificationFrameStatus.waiting

-- The keys that the answer has resolved, and the count of answers without progress.
abbrev pub resolved_keys : ClarificationFrame → List String → List String
resolved_keys f pending_after = filter (λ k. not (contains pending_after k)) (pending_keys f)

abbrev pub next_count : ClarificationFrame → List String → ℕ
next_count f pending_after =
    if is_empty (resolved_keys f pending_after) then min (f.no_progress_count + 1) 3 else 0

module _ (digest : SignaturePayload → String) where
  unfoldable pub clarification_signature :
      ClarificationKind → List String → List String → ℕ → String
  clarification_signature kind pending tasks count =
      digest (record {
        kind = kind;
        pending = sorted pending;
        tasks = sorted tasks;
        no_progress = count;
      })

  unfoldable pub update_frame_after_answer :
      ClarificationFrame
      → ConversationUnderstanding
      → List String
      → Option String
      → String
      → ClarificationFrame × ClarificationTransitionAudit
  update_frame_after_answer f u pending_after source classifier =
      let resolved = resolved_keys f pending_after in
      let values = merged u.inherited_slots u.explicit_slots in
      let count = next_count f pending_after in
      (
        record f {
          pending_items =
              filter (λ (i : ClarificationPendingItem). contains pending_after i.key)
                f.pending_items;
          resolved_items = resolve_items values u source resolved f.resolved_items;
          no_progress_count = count;
          signature = clarification_signature f.kind pending_after f.task_ids count;
          status = status_for pending_after;
          last_transition = some ClarificationTurnRelation.continue_current;
          last_source_message_id = source;
          base_understanding = u;
        },
        record {
          frame_id = f.frame_id;
          relation = ClarificationTurnRelation.continue_current;
          classifier_source = classifier;
          previous_status = f.status;
          next_status = status_for pending_after;
          pending_before = pending_keys f;
          resolved_by_answer = resolved;
          pending_after = pending_after;
          made_progress = not (is_empty resolved);
          warning_codes = if is_empty resolved then "clarification_no_progress" ∷ [] else [];
        },
      )

abbrev pub status_after :
    ClarificationTurnRelation → ClarificationFrameStatus → ClarificationFrameStatus
status_after ClarificationTurnRelation.cancel_current s = ClarificationFrameStatus.cancelled
status_after ClarificationTurnRelation.replace_with_new_request s =
    ClarificationFrameStatus.superseded
status_after ClarificationTurnRelation.side_conversation s = ClarificationFrameStatus.paused
status_after ClarificationTurnRelation.ambiguous s = ClarificationFrameStatus.paused
status_after ClarificationTurnRelation.continue_current s = s

unfoldable pub terminal_transition :
    ClarificationFrame
    → ClarificationTurnRelation
    → String
    → Option String
    → Option String
    → List String
    → ClarificationFrame × ClarificationTransitionAudit
terminal_transition f relation classifier source request_id warnings =
    let status = status_after relation f.status in
    (
      record f {
        status = status;
        last_transition = some relation;
        last_source_message_id = source;
        superseded_by_request_id =
            if relation == ClarificationTurnRelation.replace_with_new_request
            then request_id
            else f.superseded_by_request_id;
      },
      record {
        frame_id = f.frame_id;
        relation = relation;
        classifier_source = classifier;
        previous_status = f.status;
        next_status = status;
        pending_before = pending_keys f;
        resolved_by_answer = [];
        pending_after = if status == ClarificationFrameStatus.paused then pending_keys f else [];
        made_progress =
            contains
              (ClarificationTurnRelation.cancel_current
                ∷ ClarificationTurnRelation.replace_with_new_request ∷ [])
              relation;
        warning_codes = warnings;
      },
    )
