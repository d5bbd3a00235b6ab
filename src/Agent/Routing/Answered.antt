-- ===== src/Agent/Routing/Answered.antt =====
-- A plan answers each task once.
use semiconductor_agent_know.Base.{
  String, Option, List, [], ◌∷◌, map, is_empty, ◌≡◌, refl, ◌∙◌, arith, Bool-cases, inl, inr, ltb,
}
use semiconductor_agent_know.Context.{ActiveConversationContext}
use semiconductor_agent_know.Documents.Model.{ActorScope}
use semiconductor_agent_know.Agent.Text.{Codes}
use semiconductor_agent_know.Agent.Kinds.{AgentRoute}
use semiconductor_agent_know.Agent.Model.{
  IntentTaskItem, ConversationUnderstanding, RouteTaskDecision,
}
use semiconductor_agent_know.Agent.Missing.{required_missing}
use semiconductor_agent_know.Agent.Combination.{
  routes_of, primary_route, non_direct, adjusted, enforce_predefined_combination,
}
use semiconductor_agent_know.Agent.Routing.{
  all_refused, combined_slots, clarified, plan_for, decide, route_threshold,
}
use semiconductor_agent_know.Agent.Routing.Permitted.{decide_one, decide_one-task_id}

abbrev task_ids : List RouteTaskDecision → List String
task_ids ds = map (λ (d : RouteTaskDecision). d.task_id) ds

task_ids-adjusted :
    (p : AgentRoute) (ds : List RouteTaskDecision) → task_ids (adjusted p ds) ≡ task_ids ds
unfolding adjusted
task_ids-adjusted p [] = refl
task_ids-adjusted p (d ∷ ds) = ground (arith, task_ids-adjusted p ds)

task_ids-enforced :
    (ds : List RouteTaskDecision) → task_ids (enforce_predefined_combination ds).0 ≡ task_ids ds
unfolding enforce_predefined_combination
task_ids-enforced ds =
    ground (arith, task_ids-adjusted (primary_route (non_direct (routes_of ds))) ds)

task_ids-clarified :
    (reason : String) (ds : List RouteTaskDecision)
    → task_ids (map (clarified reason) ds) ≡ task_ids ds
task_ids-clarified reason [] = refl
task_ids-clarified reason (d ∷ ds) = ground (arith, task_ids-clarified reason ds)

task_ids-plan_for :
    (u : ConversationUnderstanding) (context : Option ActiveConversationContext)
    (ds : List RouteTaskDecision) (route : AgentRoute)
    → task_ids (plan_for u context ds route).task_decisions ≡ task_ids ds
unfolding plan_for
task_ids-plan_for u context ds route = elim (Bool-cases (all_refused ds)) [
  | inl a ↦ rw a refl
  | inr a ↦ elim (Bool-cases (is_empty (required_missing u (combined_slots u) route))) [
    | inr b ↦ rw (a, b) (task_ids-clarified "required_slots_missing" ds)
    | inl b ↦ elim (Bool-cases (ltb u.confidence (route_threshold route))) [
      | inl c ↦ rw (a, b, c) (task_ids-clarified "semantic_confidence_too_low" ds)
      | inr c ↦ rw (a, b, c) refl
    ]
  ]
]

module _ (u : ConversationUnderstanding) (actor : ActorScope)
    (context : Option ActiveConversationContext) (request : Codes) where
  task_ids-decided :
      (ts : List IntentTaskItem)
      → task_ids (map (decide_one u actor context request) ts)
        ≡ map (λ (t : IntentTaskItem). t.task_id) ts
  task_ids-decided [] = refl
  task_ids-decided (t ∷ ts) =
      ground (arith, decide_one-task_id u actor context request t, task_ids-decided ts)

  -- A plan decides the tasks of the request, each once and in their order.
  pub decide-task_ids :
      map (λ (d : RouteTaskDecision). d.task_id) (decide u actor context request).task_decisions
      ≡ map (λ (t : IntentTaskItem). t.task_id) u.task_items
  unfolding decide
  decide-task_ids =
      let ds = map (decide_one u actor context request) u.task_items in
      task_ids-plan_for u context (enforce_predefined_combination ds).0 _
      ∙ task_ids-enforced ds
      ∙ task_ids-decided u.task_items
