-- ===== src/Agent/Combination.antt =====
-- Which tasks of a request run together: `_enforce_predefined_combination` and `_combine_routes`
-- of semikb/agent_runtime/routing.py.
pub mod Allowed
use semiconductor_agent_know.Base.{
  Bool, true, false, not, ◌&&◌, ◌||◌, Option, none, some, List, [], ◌∷◌, ◌==◌, any, all, map,
  filter, contains, is_empty, is_some, if◌then◌else◌, option_eq,
}
use semiconductor_agent_know.Agent.Kinds.{
  AgentRoute, TaskExecutionDecision, agent_route_eq, task_execution_decision_eq,
}
use semiconductor_agent_know.Agent.Model.{RouteTaskDecision}

unfoldable pub is_execute : RouteTaskDecision → Bool
is_execute d = d.decision == TaskExecutionDecision.execute

-- `item.decision is EXECUTE and item.route is not None`
abbrev pub is_executable : RouteTaskDecision → Bool
is_executable d = is_execute d && is_some d.route

-- `[item.route for item in executable]`
abbrev pub routes_of : List RouteTaskDecision → List AgentRoute
routes_of [] = []
routes_of (d ∷ ds) =
    let rest = routes_of ds in
    if is_execute d then elim d.route [ none ↦ rest | some r ↦ r ∷ rest ] else rest

unfoldable pub is_direct : AgentRoute → Bool
is_direct r = r == AgentRoute.chat_direct

abbrev pub non_direct : List AgentRoute → List AgentRoute
non_direct routes = filter (λ r. not (is_direct r)) routes

abbrev pub manufacturing : List AgentRoute
manufacturing = AgentRoute.internal_rag ∷ AgentRoute.tool_only ∷ AgentRoute.rag_and_tool ∷ []

abbrev pub web : List AgentRoute
web = AgentRoute.internal_rag ∷ AgentRoute.rag_and_web ∷ []

abbrev pub all_in : List AgentRoute → List AgentRoute → Bool
all_in routes group = all (contains group) routes

-- `len(set(routes)) <= 1`
abbrev pub at_most_one : List AgentRoute → Bool
at_most_one [] = true
at_most_one (r ∷ rs) = all (λ s. s == r) rs

unfoldable pub is_allowed : List AgentRoute → Bool
is_allowed routes = at_most_one routes || all_in routes manufacturing || all_in routes web

unfoldable pub is_compatible : AgentRoute → Option AgentRoute → Bool
is_compatible primary none = true
is_compatible primary (some r) =
    is_direct r
    || (r == primary)
    || (contains manufacturing primary && contains manufacturing r)
    || (contains web primary && contains web r)

-- `non_direct[0].route if non_direct else CHAT_DIRECT`
abbrev pub primary_route : List AgentRoute → AgentRoute
primary_route [] = AgentRoute.chat_direct
primary_route (r ∷ _) = r

abbrev pub defer_task : RouteTaskDecision → RouteTaskDecision
defer_task d = record d {
  decision = TaskExecutionDecision.defer;
  route = none;
  reason_code = "unsupported_route_combination_deferred";
}

abbrev pub adjust : AgentRoute → RouteTaskDecision → RouteTaskDecision
adjust primary d = if is_execute d && not (is_compatible primary d.route) then defer_task d else d

unfoldable pub adjusted : AgentRoute → List RouteTaskDecision → List RouteTaskDecision
adjusted primary [] = []
adjusted primary (d ∷ ds) = adjust primary d ∷ adjusted primary ds

unfoldable pub enforce_predefined_combination :
    List RouteTaskDecision → List RouteTaskDecision × List AgentRoute
enforce_predefined_combination decisions =
    let routes = non_direct (routes_of decisions) in
    let ds = adjusted (primary_route routes) decisions in
    if is_allowed routes then (decisions, routes_of decisions) else (ds, routes_of ds)

-- `non_direct[0] if non_direct else routes[0]`
abbrev pub first_or : AgentRoute → List AgentRoute → AgentRoute
first_or r [] = r
first_or r (s ∷ _) = s

unfoldable pub combine_routes : List AgentRoute → AgentRoute → AgentRoute
combine_routes [] suggested = suggested
combine_routes (r ∷ rs) suggested =
    if contains (r ∷ rs) AgentRoute.rag_and_tool
      || (contains (r ∷ rs) AgentRoute.internal_rag && contains (r ∷ rs) AgentRoute.tool_only)
    then AgentRoute.rag_and_tool
    else if contains (r ∷ rs) AgentRoute.rag_and_web
    then AgentRoute.rag_and_web
    else first_or r (non_direct (r ∷ rs))
