-- ===== src/Context.antt =====
-- The working context of a conversation (semikb/agent_runtime/context.py): what an answer changes in
-- the slots and the evidence of a thread (`update_active_context`).
pub mod Slots
pub mod Turns
use semiconductor_agent_know.Base.{
  ℕ, String, Bool, true, false, not, ◌&&◌, ◌||◌, Option, none, some, List, [], ◌∷◌, ◌++◌, ◌==◌, any,
  map, filter, contains, is_empty, given, truthy, if◌then◌else◌, string_eq,
}
use semiconductor_agent_know.Base.Dict.{Dict, values, map_values, lookup, insert}

pub record ContextSlot : Type 0 where
  pub value : String
  pub source_message_id : String
  pub source_kind : String
  pub depends_on : List String
  pub valid : Bool
  pub invalidated_by_message_id : Option String
  pub invalidation_reason : Option String
  pub updated_at : ℕ

pub record ContextEvidenceRef : Type 0 where
  pub evidence_id : String
  pub source_type : String
  pub source_message_id : String
  pub trace_id : Option String
  pub valid : Bool
  pub invalidated_by_message_id : Option String
  pub updated_at : ℕ

pub record ActiveConversationContext : Type 0 where
  pub topic : Option String
  pub slots : Dict String ContextSlot
  pub evidence_refs : List ContextEvidenceRef
  pub trace_id : Option String
  pub updated_at : ℕ

pub data SlotOperationKind : Type 0 where
  set inherit correct clear : SlotOperationKind

pub record SlotOperation : Type 0 where
  pub operation : SlotOperationKind
  pub slot_name : String
  pub value : Option String
  pub source_message_id : Option String

-- `SLOT_DEPENDENCIES.get(name, ())`
abbrev pub slot_dependencies : String → List String
slot_dependencies name =
    if name == "chamber"
    then "tool_id" ∷ []
    else if name == "recipe_id"
    then "tool_id" ∷ "chamber" ∷ []
    else if name == "recipe_version"
    then "recipe_id" ∷ "tool_id" ∷ "chamber" ∷ []
    else []

abbrev pub context_slot_names : List String
context_slot_names =
    "product" ∷ "process_layer" ∷ "tool_id" ∷ "chamber" ∷ "recipe_id" ∷ "recipe_version"
    ∷ "time_range" ∷ "lot_id" ∷ "case_id" ∷ []

-- What the answer says: the constraints as texts, the operations that validate, the evidence as
-- pairs of an id and a source type.
pub record Answer : Type 0 where
  pub route_decision : String
  pub constraints : Dict String String
  pub slot_operations : List SlotOperation
  pub evidence_ledger : List (String × String)
  pub trace_id : Option String
  pub intent : Option String

abbrev pub constraints_of : Answer → Dict String String
constraints_of a = if a.route_decision == "refuse" then [] else a.constraints

abbrev pub operations_of : Answer → List SlotOperation
operations_of a = if a.route_decision == "refuse" then [] else a.slot_operations

-- `raw in (None, "")` is no value.
abbrev pub given_text : Option String → Option String
given_text none = none
given_text (some s) = if truthy s then some s else none

abbrev pub constraint : Dict String String → String → Option String
constraint cs name = given_text (lookup name cs)

abbrev pub changes : SlotOperationKind → Bool
changes SlotOperationKind.correct = true
changes SlotOperationKind.clear = true
changes _ = false

abbrev pub is_clear : SlotOperationKind → Bool
is_clear SlotOperationKind.clear = true
is_clear _ = false

abbrev pub is_inherit : SlotOperationKind → Bool
is_inherit SlotOperationKind.inherit = true
is_inherit _ = false

-- A slot that is valid with another value.
abbrev pub differs : Option ContextSlot → Option String → Bool
differs (some slot) (some value) = slot.valid && not (slot.value == value)
differs _ _ = false

unfoldable pub changed_names :
    Dict String String → List SlotOperation → Dict String ContextSlot → List String
changed_names cs ops slots =
    map (λ (o : SlotOperation). o.slot_name) (filter (λ o. changes o.operation) ops)
    ++ filter (λ name. differs (lookup name slots) (constraint cs name)) context_slot_names

-- `changed.intersection(slot.depends_on)`
abbrev pub meets : List String → List String → Bool
meets changed depends_on = any (contains changed) depends_on

-- The first operation that inherits the slot.
abbrev pub inheriting : List SlotOperation → String → Option SlotOperation
inheriting [] name = none
inheriting (o ∷ ops) name =
    let rest = inheriting ops name in
    if (o.slot_name == name) && is_inherit o.operation then some o else rest

-- The source of a value: the message that it is inherited from, or the one that `find` gives.
abbrev pub source_of : Option SlotOperation → String → String
source_of none found = found
source_of (some o) found = elim o.source_message_id [
  | none ↦ found
  | some id ↦ if truthy id then id else found
]

abbrev pub kind_of : Option SlotOperation → String
kind_of none = "explicit"
kind_of (some o) = "inherited"

abbrev pub keeps_inherited : Option SlotOperation → Option ContextSlot → Bool
keeps_inherited (some o) (some slot) = slot.valid
keeps_inherited _ _ = false

abbrev pub or_kept : Option String → Option String → Option String
or_kept none old = old
or_kept (some new) old = some new

module _ (now : ℕ) (message_id : String) where
  abbrev pub invalidated : String → ContextSlot → ContextSlot
  invalidated reason slot = record slot {
    valid = false;
    invalidated_by_message_id = some message_id;
    invalidation_reason = some reason;
    updated_at = now;
  }

  abbrev pub invalidated_if : List String → ContextSlot → ContextSlot
  invalidated_if changed slot =
      if slot.valid && meets changed slot.depends_on
      then invalidated "dependency_changed" slot
      else slot

  abbrev pub stale_ref : ContextEvidenceRef → ContextEvidenceRef
  stale_ref ref =
      if ref.valid
      then record ref {
        valid = false;
        invalidated_by_message_id = some message_id;
        updated_at = now;
      }
      else ref

  -- `if changed: self._invalidate_dependents(…)`
  unfoldable pub invalidate_dependents :
      List String → Dict String ContextSlot → Dict String ContextSlot
  invalidate_dependents changed slots = map_values (invalidated_if changed) slots

  abbrev pub stale_refs : List String → List ContextEvidenceRef → List ContextEvidenceRef
  stale_refs changed refs = if is_empty changed then refs else map stale_ref refs

  abbrev pub cleared :
      String → Option ContextSlot → Dict String ContextSlot → Dict String ContextSlot
  cleared name none slots = slots
  cleared name (some slot) slots = insert name (invalidated "user_cleared" slot) slots

  unfoldable pub clear_slots :
      List SlotOperation → Dict String ContextSlot → Dict String ContextSlot
  clear_slots [] slots = slots
  clear_slots (o ∷ ops) slots =
      let next =
        if is_clear o.operation
        then cleared o.slot_name (lookup o.slot_name slots) slots
        else slots in
      clear_slots ops next

  -- The slot that is written.
  abbrev pub filled : (String → String) → Option SlotOperation → String → String → ContextSlot
  filled find inherited name value = record {
    value = value;
    source_message_id = source_of inherited (find value);
    source_kind = kind_of inherited;
    depends_on = slot_dependencies name;
    valid = true;
    invalidated_by_message_id = none;
    invalidation_reason = none;
    updated_at = now;
  }

  -- One round of the loop that fills the slots. `find` is `_find_source_message` on the thread.
  abbrev pub fill :
      (String → String)
      → List SlotOperation
      → String
      → Option String
      → Dict String ContextSlot
      → Dict String ContextSlot
  fill find ops name none slots = slots
  fill find ops name (some value) slots =
      let inherited = inheriting ops name in
      if keeps_inherited inherited (lookup name slots)
      then slots
      else insert name (filled find inherited name value) slots

  unfoldable pub fill_slots :
      (String → String)
      → List SlotOperation
      → Dict String String
      → List String
      → Dict String ContextSlot
      → Dict String ContextSlot
  fill_slots find ops cs [] slots = slots
  fill_slots find ops cs (name ∷ names) slots =
      fill_slots find ops cs names (fill find ops name (constraint cs name) slots)

  abbrev pub evidence : Answer → List ContextEvidenceRef → List ContextEvidenceRef
  evidence a refs =
      if is_empty a.evidence_ledger
      then refs
      else map
          (λ (e : String × String). record {
            evidence_id = e.0;
            source_type = e.1;
            source_message_id = message_id;
            trace_id = given_text a.trace_id;
            valid = true;
            invalidated_by_message_id = none;
            updated_at = now;
          })
          (filter (λ (e : String × String). truthy e.0) a.evidence_ledger)

  unfoldable pub update_active_context :
      (String → String) → Answer → ActiveConversationContext → ActiveConversationContext
  unfolding changed_names invalidate_dependents clear_slots fill_slots
  update_active_context find a context =
      let cs = constraints_of a in
      let ops = operations_of a in
      let changed = changed_names cs ops context.slots in
      record context {
        slots =
            fill_slots find ops cs context_slot_names
              (clear_slots ops (invalidate_dependents changed context.slots));
        evidence_refs = evidence a (stale_refs changed context.evidence_refs);
        trace_id = or_kept (given_text a.trace_id) context.trace_id;
        topic = or_kept (given_text a.intent) context.topic;
        updated_at = now;
      }
