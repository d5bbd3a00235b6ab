-- ===== src/Agent/Turn/Outcome.antt =====
-- What a turn leaves behind.
use semiconductor_agent_know.Base.{
  String, true, false, Option, none, some, List, [], ◌∷◌, ◌==◌, contains, is_empty, ◌≡◌, ◌≢◌, refl,
  sym, ◌∙◌, inl, inr, Bool-cases, string_eq,
}
use semiconductor_agent_know.Context.{ActiveConversationContext}
use semiconductor_agent_know.Documents.Model.{ActorScope}
use semiconductor_agent_know.Agent.Text.{codes}
use semiconductor_agent_know.Agent.Kinds.{
  AgentRoute, ClarificationKind, ClarificationFrameStatus, ClarificationTurnRelation,
  agent_route_eq, agent_route_iff, clarification_kind_eq, clarification_turn_relation_eq,
}
use semiconductor_agent_know.Agent.Model.{ConversationUnderstanding, RoutePlan}
use semiconductor_agent_know.Agent.Routing.{decide}
use semiconductor_agent_know.Agent.Frames.{ClarificationFrame, pending_keys, SignaturePayload}
use semiconductor_agent_know.Agent.Relation.{decide_turn_relation, is_over}
use semiconductor_agent_know.Agent.Relation.Grounded.{decide_turn_relation-over}
use semiconductor_agent_know.Agent.Clarification.{
  merge_continuation_understanding, update_frame_after_answer, terminal_transition, status_after,
  status_for,
}
use semiconductor_agent_know.Agent.Turn.{
  Turn, pending_after_answer, continued, left_frame, resolve_turn,
}

is_empty-nil {ℓ} : {A : Type ℓ} (xs : List A) → is_empty xs ≡ true → xs ≡ []
is_empty-nil [] h = refl
is_empty-nil (x ∷ xs) h = absurd (cc)

-- Nothing is left to ask only if the plan goes ahead.
pending_after_answer-empty :
    (f : ClarificationFrame) (plan : RoutePlan)
    → is_empty (pending_keys f) ≡ false
    → is_empty (pending_after_answer f plan) ≡ true
    → (plan.route ≢ AgentRoute.clarify) × (plan.missing_slots ≡ [])
unfolding pending_after_answer
pending_after_answer-empty f plan n h = elim (Bool-cases (plan.route == AgentRoute.clarify)) [
  | inr r ↦
      let none_missing : is_empty plan.missing_slots ≡ true = rw r at h in
      (
        λ e. cc (r, (agent_route_iff plan.route AgentRoute.clarify).1 e),
        is_empty-nil plan.missing_slots none_missing,
      )
  | inl r ↦ elim (Bool-cases (is_empty plan.missing_slots)) [
    | inr m ↦ absurd (cc (rw (r, m) at h, m))
    | inl m ↦ elim (Bool-cases (f.kind == ClarificationKind.intent_disambiguation)) [
      | inl k ↦ absurd (cc (rw (r, m, k) at h))
      | inr k ↦ absurd (cc (rw (r, m, k) at h, n))
    ]
  ]
]

status_for-resolved :
    (keys : List String)
    → status_for keys ≡ ClarificationFrameStatus.resolved
    → is_empty keys ≡ true
status_for-resolved [] h = refl
status_for-resolved (k ∷ ks) h = absurd (cc)

left-status :
    (r : ClarificationTurnRelation) (s : ClarificationFrameStatus)
    → (r == ClarificationTurnRelation.continue_current) ≡ false
    → status_after r s ≢ ClarificationFrameStatus.resolved
left-status ClarificationTurnRelation.continue_current s n h = cc
left-status ClarificationTurnRelation.cancel_current s n h = cc
left-status ClarificationTurnRelation.replace_with_new_request s n h = cc
left-status ClarificationTurnRelation.side_conversation s n h = cc
left-status ClarificationTurnRelation.ambiguous s n h = cc

module _ (digest : SignaturePayload → String) (actor : ActorScope)
    (context : Option ActiveConversationContext) (f : ClarificationFrame) (response : String)
    (u : ConversationUnderstanding) (source : Option String) (run_id : String) where
  abbrev turn : Turn
  turn = resolve_turn digest actor context f response u source run_id

  -- The plan of the request that the answer completes.
  abbrev completed_plan : RoutePlan
  completed_plan =
      decide (merge_continuation_understanding f response u) actor context
        (codes f.original_request)

  continued-status :
      (classifier : String)
      → (continued digest actor context f response u source classifier).frame.status
        ≡ status_for (pending_after_answer f completed_plan)
  unfolding continued update_frame_after_answer
  continued-status classifier = refl

  continued-plan :
      (classifier : String)
      → (continued digest actor context f response u source classifier).plan ≡ some completed_plan
  unfolding continued update_frame_after_answer
  continued-plan classifier = refl

  left_frame-status :
      (r : ClarificationTurnRelation) (classifier : String) (warnings : List String)
      → (left_frame f r classifier warnings source run_id).frame.status ≡ status_after r f.status
  unfolding left_frame terminal_transition
  left_frame-status r classifier warnings = refl

  -- A turn resolves a frame that asks for something only by an answer with which the completed
  -- request is planned: the plan does not ask back, misses nothing, and is the one handed on.
  pub resolve_turn-resolved :
      is_empty (pending_keys f) ≡ false
      → turn.frame.status ≡ ClarificationFrameStatus.resolved
      → (turn.plan ≡ some completed_plan)
        × (completed_plan.route ≢ AgentRoute.clarify)
        × (completed_plan.missing_slots ≡ [])
  unfolding resolve_turn
  resolve_turn-resolved n h =
      let d = decide_turn_relation f response u in
      elim (Bool-cases (d.relation == ClarificationTurnRelation.continue_current)) [
        | inr c ↦
            let left : (left_frame f d.relation d.classifier_source d.warning_codes source
                  run_id).frame.status
                ≡ ClarificationFrameStatus.resolved =
              rw c at h in
            absurd (
              left-status d.relation f.status c
                (sym (left_frame-status d.relation d.classifier_source d.warning_codes) ∙ left))
        | inl c ↦ elim (Bool-cases (contains d.warning_codes "explicit_resume_without_answer")) [
          | inl w ↦ absurd (cc (rw (c, w) at h))
          | inr w ↦
              let done : (continued digest actor context f response u source
                    d.classifier_source).frame.status
                  ≡ ClarificationFrameStatus.resolved =
                rw (c, w) at h in
              let (goes, misses) = pending_after_answer-empty f completed_plan n (
                status_for-resolved (pending_after_answer f completed_plan)
                  (sym (continued-status d.classifier_source) ∙ done)) in
              (rw (c, w) (continued-plan d.classifier_source), goes, misses)
        ]
      ]

  -- A frame that is over is superseded by whatever is said, and asks for no plan.
  pub resolve_turn-over :
      is_over f.status ≡ true
      → (turn.frame.status ≡ ClarificationFrameStatus.superseded)
        × (turn.frame.superseded_by_request_id ≡ some run_id)
        × (turn.plan ≡ none)
  unfolding resolve_turn left_frame terminal_transition
  resolve_turn-over h = rw (decide_turn_relation-over f response u h) (refl, refl, refl)

  abbrev Told : Turn → Type 0
  Told t =
      (t.audit.frame_id ≡ t.frame.frame_id)
      × (t.audit.previous_status ≡ f.status)
      × (t.audit.next_status ≡ t.frame.status)
      × (t.audit.pending_before ≡ pending_keys f)
      × (t.audit.relation ≡ t.relation)

  continued-Told :
      (classifier : String) → Told (continued digest actor context f response u source classifier)
  unfolding continued update_frame_after_answer
  continued-Told classifier = (refl, refl, refl, refl, refl)

  left_frame-Told :
      (r : ClarificationTurnRelation) (classifier : String) (warnings : List String)
      → Told (left_frame f r classifier warnings source run_id)
  unfolding left_frame terminal_transition
  left_frame-Told r classifier warnings = (refl, refl, refl, refl, refl)

  -- The audit of a turn tells what the turn did: the frame, its statuses before and after, the keys
  -- that were asked for before, and the relation that the turn is routed by.
  pub resolve_turn-audit : Told turn
  unfolding resolve_turn
  resolve_turn-audit =
      let d = decide_turn_relation f response u in
      elim (Bool-cases (d.relation == ClarificationTurnRelation.continue_current)) [
        | inr c ↦ rw c (left_frame-Told d.relation d.classifier_source d.warning_codes)
        | inl c ↦ elim (Bool-cases (contains d.warning_codes "explicit_resume_without_answer")) [
          | inl w ↦ rw (c, w) (refl, refl, refl, refl, refl)
          | inr w ↦ rw (c, w) (continued-Told d.classifier_source)
        ]
      ]
