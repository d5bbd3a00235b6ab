-- ===== src/Agent/Routing/Executes.antt =====
-- What a plan that executes a task is like, and which tasks it answers.
use semiconductor_agent_know.Base.{
  String, Bool, true, false, not, ◌||◌, Option, none, some, List, [], ◌∷◌, any, map, is_empty,
  if◌then◌else◌, ◌≡◌, ◌≢◌, refl, ap, sym, ◌∙◌, arith, inl, inr, Bool-cases, ◌≤◌, ltb, In-map,
  all_intro, all-filter, all,
}
use semiconductor_agent_know.Context.{ActiveConversationContext}
use semiconductor_agent_know.Documents.Model.{ActorScope}
use semiconductor_agent_know.Agent.Text.{Codes}
use semiconductor_agent_know.Agent.Kinds.{AgentRoute, agent_route_eq}
use semiconductor_agent_know.Agent.Model.{
  IntentTaskItem, ConversationUnderstanding, RouteTaskDecision,
}
use semiconductor_agent_know.Agent.TaskRoute.{task_route}
use semiconductor_agent_know.Agent.Missing.{required_missing}
use semiconductor_agent_know.Agent.Combination.{
  first_or, is_execute, is_direct, routes_of, non_direct, enforce_predefined_combination,
  combine_routes,
}
use semiconductor_agent_know.Agent.Routing.{
  all_refused, combined_slots, clarified, suggestion, plan_for, decide, route_threshold,
}
use semiconductor_agent_know.Agent.Routing.Permitted.{
  decide_one, decide_one-Cleared, enforced-executed, clarified-is_execute,
}

-- Neither asks back nor refuses.
is_answering : AgentRoute → Bool
is_answering AgentRoute.clarify = false
is_answering AgentRoute.refuse = false
is_answering _ = true

is_answering-if :
    (b : Bool) (x y : AgentRoute)
    → is_answering (if b then x else y) ≡ (if b then is_answering x else is_answering y)
is_answering-if true x y = refl
is_answering-if false x y = refl

if_true : (b : Bool) → (if b then true else true) ≡ true
if_true true = refl
if_true false = refl

answering_chat : is_answering AgentRoute.chat_direct ≡ true
unfolding is_answering
answering_chat = refl

answering_reuse : is_answering AgentRoute.reuse_evidence ≡ true
unfolding is_answering
answering_reuse = refl

answering_internal : is_answering AgentRoute.internal_rag ≡ true
unfolding is_answering
answering_internal = refl

answering_tool : is_answering AgentRoute.tool_only ≡ true
unfolding is_answering
answering_tool = refl

answering_both : is_answering AgentRoute.rag_and_tool ≡ true
unfolding is_answering
answering_both = refl

answering_web : is_answering AgentRoute.rag_and_web ≡ true
unfolding is_answering
answering_web = refl

ruleset answering = (
  is_answering-if, if_true, answering_chat, answering_reuse, answering_internal, answering_tool,
  answering_both, answering_web,
)

task_route-is_answering :
    (t : IntentTaskItem) (u : ConversationUnderstanding)
    (context : Option ActiveConversationContext) (request : Codes)
    → is_answering (task_route t u context request) ≡ true
unfolding task_route
task_route-is_answering t u context request = simp answering

first_or-is_answering :
    (r : AgentRoute) (rs : List AgentRoute)
    → is_answering r ≡ true
    → all is_answering rs ≡ true
    → is_answering (first_or r rs) ≡ true
first_or-is_answering r [] h k = h
first_or-is_answering r (s ∷ rs) h k = ground arith

combine_routes-is_answering :
    (r : AgentRoute) (rs : List AgentRoute) (suggested : AgentRoute)
    → all is_answering (r ∷ rs) ≡ true
    → is_answering (combine_routes (r ∷ rs) suggested) ≡ true
unfolding combine_routes
combine_routes-is_answering r rs suggested h =
    let others = λ (s : AgentRoute). not (is_direct s) in
    let first : is_answering (first_or r (non_direct (r ∷ rs))) ≡ true =
      first_or-is_answering r (non_direct (r ∷ rs)) (ground arith)
        (all-filter is_answering others (r ∷ rs) h) in
    simp (answering, first)

-- A task that is executed has a route, so the routes are not empty.
has_route : RouteTaskDecision → Bool
has_route d = not (is_execute d) || elim d.route [ none ↦ false | some r ↦ is_answering r ]

routes_of-nonempty :
    (ds : List RouteTaskDecision)
    → all has_route ds ≡ true
    → any is_execute ds ≡ true
    → is_empty (routes_of ds) ≡ false
unfolding has_route
routes_of-nonempty [] h e = absurd (cc)
routes_of-nonempty (d ∷ ds) h e = ground (arith, routes_of-nonempty ds)

routes_of-is_answering :
    (ds : List RouteTaskDecision) → all has_route ds ≡ true → all is_answering (routes_of ds) ≡ true
unfolding has_route
routes_of-is_answering [] h = refl
routes_of-is_answering (d ∷ ds) h = ground (arith, routes_of-is_answering ds)

enforced-routes :
    (ds : List RouteTaskDecision)
    → (enforce_predefined_combination ds).1 ≡ routes_of (enforce_predefined_combination ds).0
unfolding enforce_predefined_combination
enforced-routes ds = ground arith

clarified-any :
    (reason : String) (ds : List RouteTaskDecision)
    → any is_execute (map (clarified reason) ds) ≡ false
clarified-any reason [] = refl
clarified-any reason (d ∷ ds) =
    ground (arith, clarified-is_execute reason d, clarified-any reason ds)

all_refused-executes :
    (ds : List RouteTaskDecision) → all_refused ds ≡ true → any is_execute ds ≡ false
all_refused-executes ds h = ground arith

empty_nil {ℓ} : {A : Type ℓ} (xs : List A) → is_empty xs ≡ true → xs ≡ []
empty_nil [] h = refl
empty_nil (x ∷ xs) h = absurd (cc)

-- A plan that executes something has been routed, with nothing missing and enough confidence.
plan_for-routed :
    (u : ConversationUnderstanding) (context : Option ActiveConversationContext)
    (ds : List RouteTaskDecision) (route : AgentRoute)
    → any is_execute (plan_for u context ds route).task_decisions ≡ true
    → ((plan_for u context ds route).route ≡ route)
      × (route_threshold route ≤ u.confidence)
      × (required_missing u (combined_slots u) route ≡ [])
      × (any is_execute ds ≡ true)
unfolding plan_for
plan_for-routed u context ds route e = elim (Bool-cases (all_refused ds)) [
  | inl a ↦ absurd (cc (rw a at e, all_refused-executes ds a))
  | inr a ↦ elim (Bool-cases (is_empty (required_missing u (combined_slots u) route))) [
    | inr b ↦ absurd (cc (rw (a, b) at e, clarified-any "required_slots_missing" ds))
    | inl b ↦ elim (Bool-cases (ltb u.confidence (route_threshold route))) [
      | inl c ↦ absurd (cc (rw (a, b, c) at e, clarified-any "semantic_confidence_too_low" ds))
      | inr c ↦ (
        rw (a, b, c) refl,
        ground arith,
        empty_nil (required_missing u (combined_slots u) route) b,
        rw (a, b, c) at e,
      )
    ]
  ]
]

has_route-executed :
    (d : RouteTaskDecision) (r : AgentRoute)
    → d.route ≡ some r
    → is_answering r ≡ true
    → has_route d ≡ true
unfolding has_route
has_route-executed d r e h = rw e (ground arith)

has_route-idle : (d : RouteTaskDecision) → is_execute d ≡ false → has_route d ≡ true
unfolding has_route
has_route-idle d h = rw h refl

combined-is_answering :
    (rs : List AgentRoute) (suggested : AgentRoute)
    → is_empty rs ≡ false
    → all is_answering rs ≡ true
    → is_answering (combine_routes rs suggested) ≡ true
combined-is_answering [] suggested n h = absurd (cc)
combined-is_answering (r ∷ rs) suggested n h = combine_routes-is_answering r rs suggested h

is_answering-ne :
    (r : AgentRoute) → is_answering r ≡ true → (r ≢ AgentRoute.clarify) × (r ≢ AgentRoute.refuse)
unfolding is_answering
is_answering-ne r h = (λ e. cc (h, ap is_answering e), λ e. cc (h, ap is_answering e))

module _ (u : ConversationUnderstanding) (actor : ActorScope)
    (context : Option ActiveConversationContext) (request : Codes) where
  abbrev decided_tasks : List RouteTaskDecision
  decided_tasks = map (decide_one u actor context request) u.task_items

  abbrev combined_tasks : List RouteTaskDecision
  combined_tasks = (enforce_predefined_combination decided_tasks).0

  combined_tasks-has_route : all has_route combined_tasks ≡ true
  combined_tasks-has_route = all_intro has_route combined_tasks λ d m.
      elim (Bool-cases (is_execute d)) [
        | inr n ↦ has_route-idle d n
        | inl e ↦
            let one = decide_one u actor context request in
            let (t, k, q) = In-map one u.task_items (enforced-executed decided_tasks m e) in
            let c = decide_one-Cleared u actor context request t (sym (ap is_execute q) ∙ e) in
            has_route-executed d (task_route t u context request)
              (ap (λ (x : RouteTaskDecision). x.route) q ∙ c.5)
              (task_route-is_answering t u context request)
      ]

  -- A plan that executes some task neither asks back nor refuses, misses no slot that its route
  -- requires, and has at least the confidence that its route asks for.
  pub decide-executing :
      any is_execute (decide u actor context request).task_decisions ≡ true
      → ((decide u actor context request).route ≢ AgentRoute.clarify)
        × ((decide u actor context request).route ≢ AgentRoute.refuse)
        × (route_threshold (decide u actor context request).route ≤ u.confidence)
        × (required_missing u (combined_slots u) (decide u actor context request).route ≡ [])
  unfolding decide
  decide-executing e =
      let routes = (enforce_predefined_combination decided_tasks).1 in
      let route = combine_routes routes (suggestion u.suggested_route) in
      let (same, sure, none_missing, some_executed) =
        plan_for-routed u context combined_tasks route e in
      let answering : is_answering route ≡ true =
        combined-is_answering routes (suggestion u.suggested_route)
          (rw (enforced-routes decided_tasks)
            (routes_of-nonempty combined_tasks combined_tasks-has_route some_executed))
          (rw (enforced-routes decided_tasks)
            (routes_of-is_answering combined_tasks combined_tasks-has_route)) in
      let (c, r) = is_answering-ne route answering in rw same (c, r, sure, none_missing)
