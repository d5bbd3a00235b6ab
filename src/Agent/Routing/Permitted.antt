-- ===== src/Agent/Routing/Permitted.antt =====
-- Which tasks a plan lets run, and when it lets any run.
use mathlib.Core.Path.{subst}
use semiconductor_agent_know.Base.{
  ltb, String, true, false, Option, none, some, List, [], ◌∷◌, In, here, there, map, is_empty, ◌≡◌,
  ap, sym, ◌∙◌, arith, inl, inr, Bool-cases, In-cons, In-map,
}
use semiconductor_agent_know.Context.{ActiveConversationContext}
use semiconductor_agent_know.Documents.Model.{ActorScope}
use semiconductor_agent_know.Agent.Text.{Codes}
use semiconductor_agent_know.Agent.Kinds.{
  AgentRoute, TaskExecutionDecision, task_execution_decision_eq,
}
use semiconductor_agent_know.Agent.Model.{
  IntentTaskItem, ConversationUnderstanding, RouteTaskDecision,
}
use semiconductor_agent_know.Agent.TaskRoute.{task_route}
use semiconductor_agent_know.Agent.Missing.{required_missing}
use semiconductor_agent_know.Agent.Combination.{
  is_allowed, adjust, is_execute, routes_of, primary_route, non_direct, adjusted,
  enforce_predefined_combination,
}
use semiconductor_agent_know.Agent.Routing.{
  all_refused, combined_slots, scope_error, is_forbidden_mutation, is_report_generation,
  decide_task, clarified, plan_for, decide, route_threshold,
}

-- The task that a decision is about, and what it has passed.
abbrev pub Cleared :
    ConversationUnderstanding
    → ActorScope
    → Option ActiveConversationContext
    → Codes
    → RouteTaskDecision
    → IntentTaskItem
    → Type 0
Cleared u actor context request d t =
    (t.task_id ≡ d.task_id)
    × (is_forbidden_mutation t ≡ false)
    × (is_report_generation t ≡ false)
    × (t.execution_policy ≡ TaskExecutionDecision.execute)
    × (scope_error (combined_slots u) actor ≡ none)
    × (d.route ≡ some (task_route t u context request))

module _ (u : ConversationUnderstanding) (actor : ActorScope)
    (context : Option ActiveConversationContext) (request : Codes) where
  abbrev pub decide_one : IntentTaskItem → RouteTaskDecision
  decide_one = decide_task (scope_error (combined_slots u) actor) u context request

  pub decide_one-Cleared :
      (t : IntentTaskItem)
      → is_execute (decide_one t) ≡ true
      → Cleared u actor context request (decide_one t) t
  unfolding decide_task is_execute
  decide_one-Cleared t e = ground arith

  pub decide_one-task_id : (t : IntentTaskItem) → (decide_one t).task_id ≡ t.task_id
  unfolding decide_task
  decide_one-task_id t = ground arith

adjust-executed :
    (p : AgentRoute) (d : RouteTaskDecision) → is_execute (adjust p d) ≡ true → adjust p d ≡ d
unfolding is_execute
adjust-executed p d e = ground arith

adjusted-executed :
    (p : AgentRoute) {d : RouteTaskDecision} (ds : List RouteTaskDecision)
    → In d (adjusted p ds)
    → is_execute d ≡ true
    → In d ds
unfolding adjusted
adjusted-executed p [] m e = elim m [ ]
adjusted-executed p {d} (x ∷ ds) m e = elim (In-cons m) [
  | inl q ↦ let same : d ≡ x = q ∙ adjust-executed p x (sym (ap is_execute q) ∙ e) in rw same here
  | inr n ↦ there (adjusted-executed p ds n e)
]

pub enforced-executed :
    {d : RouteTaskDecision} (ds : List RouteTaskDecision)
    → In d (enforce_predefined_combination ds).0
    → is_execute d ≡ true
    → In d ds
unfolding enforce_predefined_combination
enforced-executed {d} ds m e =
    let primary = primary_route (non_direct (routes_of ds)) in
    elim (Bool-cases (is_allowed (non_direct (routes_of ds)))) [
      | inl a ↦ rw a at m
      | inr a ↦ adjusted-executed primary ds (rw a at m) e
    ]

pub clarified-is_execute :
    (reason : String) (d : RouteTaskDecision) → is_execute (clarified reason d) ≡ false
unfolding is_execute
clarified-is_execute reason d = ground arith

clarified-executed :
    (reason : String) {d : RouteTaskDecision} (ds : List RouteTaskDecision)
    → In d (map (clarified reason) ds)
    → is_execute d ≡ true
    → In d ds
clarified-executed reason ds m e =
    let (x, n, q) = In-map (clarified reason) ds m in
    absurd (cc (clarified-is_execute reason x, ap is_execute q))

pub plan_for-executed :
    (u : ConversationUnderstanding) (context : Option ActiveConversationContext)
    {d : RouteTaskDecision} (ds : List RouteTaskDecision) (route : AgentRoute)
    → In d (plan_for u context ds route).task_decisions
    → is_execute d ≡ true
    → In d ds
unfolding plan_for
plan_for-executed u context {d} ds route m e = elim (Bool-cases (all_refused ds)) [
  | inl a ↦ rw a at m
  | inr a ↦ elim (Bool-cases (is_empty (required_missing u (combined_slots u) route))) [
    | inr b ↦ clarified-executed "required_slots_missing" ds (rw (a, b) at m) e
    | inl b ↦ elim (Bool-cases (ltb u.confidence (route_threshold route))) [
      | inl c ↦ clarified-executed "semantic_confidence_too_low" ds (rw (a, b, c) at m) e
      | inr c ↦ rw (a, b, c) at m
    ]
  ]
]

-- Every task that a plan executes is a task of the request that its own policy lets run: no write
-- of a recipe, no report, with product and tool inside the scope of the actor. It runs on the route
-- that the policy gives the task.
pub decide-permitted :
    (u : ConversationUnderstanding) (actor : ActorScope)
    (context : Option ActiveConversationContext) (request : Codes) {d : RouteTaskDecision}
    → In d (decide u actor context request).task_decisions
    → is_execute d ≡ true
    → (t : IntentTaskItem) × In t u.task_items × Cleared u actor context request d t
unfolding decide
decide-permitted u actor context request {d} m e =
    let one = decide_one u actor context request in
    let ds = map one u.task_items in
    let n =
      enforced-executed ds (plan_for-executed u context (enforce_predefined_combination ds).0 _ m e)
        e in
    let (t, k, q) = In-map one u.task_items n in
    let c : Cleared u actor context request (one t) t =
      decide_one-Cleared u actor context request t (sym (ap is_execute q) ∙ e) in
    (t, k, subst (λ x. Cleared u actor context request x t) (sym q) c)
