-- ===== src/Tests/Context.antt =====
-- A conversation that moves from one tool to another.
use mathlib.Core.List.{Perm}
use semiconductor_agent_know.Base.{
  ℕ, String, true, false, ◌≡◌, refl, Option, none, some, List, [], ◌∷◌, here, there, string_eq, All,
  map,
}
use semiconductor_agent_know.Base.Dict.{lookup, insert}
use semiconductor_agent_know.Conversations.Model.{ChatMessage}
use semiconductor_agent_know.Context.{
  ContextSlot, ActiveConversationContext, Answer, constraints_of, constraint, changed_names,
  update_active_context, invalidate_dependents, clear_slots, fill_slots,
}
use semiconductor_agent_know.Context.Slots.{
  Filled, Untouched, is_cleared, update_active_context-kept, update_active_context-Filled,
}
use semiconductor_agent_know.Context.Turns.{
  Growing, KeepsOwn, normalized_messages, normalized_messages_lem,
}

abbrev slot : String → List String → ContextSlot
slot value depends_on = record {
  value = value;
  source_message_id = "m1";
  source_kind = "explicit";
  depends_on = depends_on;
  valid = true;
  invalidated_by_message_id = none;
  invalidation_reason = none;
  updated_at = 1;
}

abbrev etch : ActiveConversationContext
etch = record {
  topic = some "investigation";
  slots =
      insert "product" (slot "N7" ("recipe_id" ∷ []))
        (insert "chamber" (slot "A" ("tool_id" ∷ [])) (insert "tool_id" (slot "etch-1" []) []));
  evidence_refs = [];
  trace_id = none;
  updated_at = 1;
}

-- The user names another tool.
abbrev other_tool : Answer
other_tool = record {
  route_decision = "execute";
  constraints = ("tool_id", "etch-2") ∷ [];
  slot_operations = [];
  evidence_ledger = [];
  trace_id = none;
  intent = none;
}

abbrev found : String → String
found value = "m5"

-- The chamber of the tool before is no longer valid.
chamber-stale :
    lookup "chamber" (update_active_context 9 "m5" found other_tool etch).slots
    ≡ some (record (slot "A" ("tool_id" ∷ [])) {
      valid = false;
      invalidated_by_message_id = some "m5";
      invalidation_reason = some "dependency_changed";
      updated_at = 9;
    })
unfolding update_active_context changed_names invalidate_dependents clear_slots fill_slots lookup
    insert
chamber-stale = refl

product-kept :
    lookup "product" (update_active_context 9 "m5" found other_tool etch).slots
    ≡ some (slot "N7" ("recipe_id" ∷ []))
unfolding update_active_context changed_names invalidate_dependents clear_slots fill_slots lookup
    insert
product-kept = refl

product-unnamed : constraint (constraints_of other_tool) "product" ≡ none
unfolding lookup
product-unnamed = refl

update_active_context-kept_example :
    (lookup "product" etch.slots ≡ some (slot "N7" ("recipe_id" ∷ [])))
    × All (Untouched other_tool etch.slots) ("recipe_id" ∷ [])
    × (is_cleared [] "product" ≡ false)
update_active_context-kept_example =
    update_active_context-kept 9 "m5" found other_tool etch "product" product-unnamed product-kept
      refl

tool_id-named : constraint (constraints_of other_tool) "tool_id" ≡ some "etch-2"
unfolding lookup
tool_id-named = refl

update_active_context-Filled_example :
    Filled 9 "m5" found [] "tool_id" "etch-2"
      (update_active_context 9 "m5" found other_tool etch).slots
update_active_context-Filled_example =
    update_active_context-Filled 9 "m5" found other_tool etch "tool_id" "etch-2"
      (there (there here)) tool_id-named

abbrev message : String → Option ℕ → ChatMessage
message id turn = record {
  message_id = id;
  request_id = none;
  turn_seq = turn;
  role = "user";
  content = id;
}

-- Two messages of one turn, and one without a turn.
abbrev mixed : List ChatMessage
mixed =
    message "m1" (some 2) ∷ message "m2" (some 2) ∷ message "m3" none ∷ message "m4" (some 1) ∷ []

normalized_messages_lem_example :
    Growing 0 (normalized_messages mixed)
    × (xs : List (ℕ × ChatMessage)) × (map (λ (x : ℕ × ChatMessage). x.1) xs ≡ mixed)
    × KeepsOwn [] xs
    × Perm (normalized_messages mixed) xs
normalized_messages_lem_example = normalized_messages_lem mixed
