-- ===== src/Agent/Relation/Grounded.antt =====
-- A clarification is left only on grounds that the message or the server gives.
use semiconductor_agent_know.Base.{
  String, true, false, ◌||◌, ◌≡◌, ◌≢◌, ◌↔◌, refl, arith, ◌⊎◌, inl, inr, Bool-cases,
}
use semiconductor_agent_know.Agent.Kinds.{ClarificationTurnRelation}
use semiconductor_agent_know.Agent.Model.{ConversationUnderstanding}
use semiconductor_agent_know.Agent.Frames.{ClarificationFrame}
use semiconductor_agent_know.Agent.Relation.{
  decide_turn_relation, proposed_relation, is_over, cancels, is_distinct_new_task,
  looks_like_standalone_task,
}

-- What the model proposes never cancels.
proposed_relation-cancel :
    (m : String) (u : ConversationUnderstanding)
    → (proposed_relation m u).relation ≢ ClarificationTurnRelation.cancel_current
unfolding proposed_relation
proposed_relation-cancel m u h = ground arith

distinct-standalone :
    (f : ClarificationFrame) (m : String) (u : ConversationUnderstanding)
    → is_distinct_new_task f m u ≡ true
    → looks_like_standalone_task m u ≡ true
unfolding is_distinct_new_task
distinct-standalone f m u h = ground arith

proposed_relation-replace :
    (m : String) (u : ConversationUnderstanding)
    → (proposed_relation m u).relation ≡ ClarificationTurnRelation.replace_with_new_request
    → looks_like_standalone_task m u ≡ true
unfolding proposed_relation
proposed_relation-replace m u h = ground arith

decide_turn_relation-cancel :
    (f : ClarificationFrame) (m : String) (u : ConversationUnderstanding)
    → ((decide_turn_relation f m u).relation ≡ ClarificationTurnRelation.cancel_current)
      ↔ ((is_over f.status ≡ false) × (cancels u.cancel_scope ≡ true))
unfolding decide_turn_relation
decide_turn_relation-cancel f m u = ground (arith, proposed_relation-cancel m u)

decide_turn_relation-replace :
    (f : ClarificationFrame) (m : String) (u : ConversationUnderstanding)
    → (decide_turn_relation f m u).relation ≡ ClarificationTurnRelation.replace_with_new_request
    → (is_over f.status || looks_like_standalone_task m u) ≡ true
unfolding decide_turn_relation
decide_turn_relation-replace f m u h =
    ground (arith, proposed_relation-replace m u, distinct-standalone f m u)

-- A turn cancels the clarification exactly if the frame is not over and the understanding carries
-- the scope of a cancellation. It gives way to a new request only if the frame is over, or the
-- message looks like a task of its own. A relation that the model proposed is no ground for either.
pub decide_turn_relation-grounds :
    (f : ClarificationFrame) (m : String) (u : ConversationUnderstanding)
    → (((decide_turn_relation f m u).relation ≡ ClarificationTurnRelation.cancel_current)
        ↔ ((is_over f.status ≡ false) × (cancels u.cancel_scope ≡ true)))
      × (((decide_turn_relation f m u).relation
            ≢ ClarificationTurnRelation.replace_with_new_request)
          ⊎ ((is_over f.status || looks_like_standalone_task m u) ≡ true))
decide_turn_relation-grounds f m u = (
  decide_turn_relation-cancel f m u,
  elim (Bool-cases (is_over f.status || looks_like_standalone_task m u)) [
    | inl e ↦ inr e
    | inr e ↦ inl (λ h. cc (e, decide_turn_relation-replace f m u h))
  ],
)

-- A frame that is over is never continued.
pub decide_turn_relation-over :
    (f : ClarificationFrame) (m : String) (u : ConversationUnderstanding)
    → is_over f.status ≡ true
    → (decide_turn_relation f m u).relation ≡ ClarificationTurnRelation.replace_with_new_request
unfolding decide_turn_relation
decide_turn_relation-over f m u h = rw h refl
