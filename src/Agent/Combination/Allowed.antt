-- ===== src/Agent/Combination/Allowed.antt =====
-- Which combinations of routes are left to run together.
use semiconductor_agent_know.Base.{
  Bool, true, false, not, ◌&&◌, ◌||◌, none, some, List, [], ◌∷◌, ◌==◌, all, filter, contains, ◌≡◌,
  ◌≢◌, refl, sym, ◌∙◌, arith, Bool-cases, inl, inr, ==_refl, all-kept, all-contains, all_same-tail,
  all-without, contains-filter, refuted,
}
use semiconductor_agent_know.Agent.Kinds.{AgentRoute, agent_route_eq, agent_route_iff}
use semiconductor_agent_know.Agent.Model.{RouteTaskDecision}
use semiconductor_agent_know.Agent.Combination.{
  is_execute, routes_of, is_direct, non_direct, manufacturing, web, all_in, at_most_one, is_allowed,
  is_compatible, primary_route, defer_task, adjusted, enforce_predefined_combination,
}

abbrev keeps : AgentRoute → AgentRoute → Bool
keeps primary r = is_compatible primary (some r)

defer_task-is_execute : (d : RouteTaskDecision) → is_execute (defer_task d) ≡ false
unfolding is_execute
defer_task-is_execute d = refl

is_compatible-none : (primary : AgentRoute) → is_compatible primary none ≡ true
unfolding is_compatible
is_compatible-none primary = refl

-- The routes that the adjusted tasks run on are those that go with the primary one.
routes_of-adjusted :
    (primary : AgentRoute) (ds : List RouteTaskDecision)
    → routes_of (adjusted primary ds) ≡ filter (keeps primary) (routes_of ds)
unfolding adjusted
routes_of-adjusted primary [] = refl
routes_of-adjusted primary (d ∷ ds) =
    ground
      (arith, routes_of-adjusted primary ds, defer_task-is_execute d, is_compatible-none primary)

-- What goes with each primary route.
abbrev goes_with : AgentRoute → AgentRoute → Bool
goes_with AgentRoute.tool_only r = contains manufacturing r
goes_with AgentRoute.rag_and_tool r = contains manufacturing r
goes_with AgentRoute.rag_and_web r = contains web r
goes_with AgentRoute.internal_rag r = contains manufacturing r || contains web r
goes_with p r = r == p

keeps→goes_with : (p r : AgentRoute) → keeps p r ≡ true → is_direct r ≡ false → goes_with p r ≡ true
unfolding is_compatible is_direct
keeps→goes_with AgentRoute.history_direct r k n = ground arith
keeps→goes_with p r k n = ground arith

at_most_one-same :
    (p : AgentRoute) (rs : List AgentRoute) → all (λ r. r == p) rs ≡ true → at_most_one rs ≡ true
at_most_one-same p [] h = refl
at_most_one-same p (r ∷ rs) h = all_same-tail p r rs h

-- What is left of the routes.
abbrev pub left : List RouteTaskDecision → List AgentRoute
left ds = non_direct (routes_of ds)

left-adjusted :
    (p : AgentRoute) (ds : List RouteTaskDecision) → all (goes_with p) (left (adjusted p ds)) ≡ true
left-adjusted p ds =
    rw (routes_of-adjusted p ds)
      (all-kept (keeps p) is_direct (goes_with p) (keeps→goes_with p) (routes_of ds))

adjusted-is_allowed :
    (p : AgentRoute) (rs : List AgentRoute)
    → (p == AgentRoute.internal_rag) ≡ false
    → all (goes_with p) rs ≡ true
    → is_allowed rs ≡ true
unfolding is_allowed
adjusted-is_allowed AgentRoute.tool_only rs n h = ground arith
adjusted-is_allowed AgentRoute.rag_and_tool rs n h = ground arith
adjusted-is_allowed AgentRoute.rag_and_web rs n h = ground arith
adjusted-is_allowed AgentRoute.internal_rag rs n h = absurd (cc)
adjusted-is_allowed AgentRoute.history_direct rs n h =
    rw (at_most_one-same AgentRoute.history_direct rs h)
adjusted-is_allowed AgentRoute.chat_direct rs n h =
    rw (at_most_one-same AgentRoute.chat_direct rs h)
adjusted-is_allowed AgentRoute.reuse_evidence rs n h =
    rw (at_most_one-same AgentRoute.reuse_evidence rs h)
adjusted-is_allowed AgentRoute.clarify rs n h = rw (at_most_one-same AgentRoute.clarify rs h)
adjusted-is_allowed AgentRoute.refuse rs n h = rw (at_most_one-same AgentRoute.refuse rs h)

-- A web search beside a call of a manufacturing tool.
abbrev pub is_mixed : List AgentRoute → Bool
is_mixed rs =
    contains rs AgentRoute.rag_and_web
    && (contains rs AgentRoute.tool_only || contains rs AgentRoute.rag_and_tool)

at_most_one-all :
    (rs : List AgentRoute) (a b : AgentRoute)
    → at_most_one rs ≡ true
    → contains rs a ≡ true
    → contains rs b ≡ true
    → a ≡ b
at_most_one-all [] a b h m n = absurd (cc)
at_most_one-all (r ∷ rs) a b h m n =
    let same = λ (x : AgentRoute). x == r in
    let full : all same (r ∷ rs) ≡ true = rw (==_refl r) h in
    let p : a ≡ r = (agent_route_iff a r).0 (all-contains same (r ∷ rs) a full m) in
    let q : b ≡ r = (agent_route_iff b r).0 (all-contains same (r ∷ rs) b full n) in p ∙ sym q

-- A web search and a route that is no web search do not run together, the internal one apart.
apart-is_allowed :
    (rs : List AgentRoute) (r : AgentRoute)
    → contains web r ≡ false
    → r ≢ AgentRoute.rag_and_web
    → contains rs AgentRoute.rag_and_web ≡ true
    → contains rs r ≡ true
    → is_allowed rs ≡ false
unfolding is_allowed
apart-is_allowed rs r n d m k =
    let one : at_most_one rs ≡ false =
      refuted (at_most_one rs) (λ h. d (at_most_one-all rs r AgentRoute.rag_and_web h k m)) in
    let tools : all_in rs manufacturing ≡ false =
      refuted (all_in rs manufacturing) (λ h.
        let e = all-contains (contains manufacturing) rs AgentRoute.rag_and_web h m in cc e) in
    let webs : all_in rs web ≡ false =
      refuted (all_in rs web) (λ h. let e = all-contains (contains web) rs r h k in cc (e, n)) in
    rw (one, tools, webs) refl

mixed-is_allowed : (rs : List AgentRoute) → is_mixed rs ≡ true → is_allowed rs ≡ false
mixed-is_allowed rs h =
    let m : contains rs AgentRoute.rag_and_web ≡ true = ground arith in
    elim (Bool-cases (contains rs AgentRoute.tool_only)) [
      | inl t ↦ apart-is_allowed rs AgentRoute.tool_only refl (cc) m t
      | inr t ↦ apart-is_allowed rs AgentRoute.rag_and_tool refl (cc) m (ground arith)
    ]

unmixed_manufacturing :
    (r : AgentRoute)
    → goes_with AgentRoute.internal_rag r ≡ true
    → (r == AgentRoute.rag_and_web) ≡ false
    → contains manufacturing r ≡ true
unmixed_manufacturing r h n = ground arith

unmixed_web :
    (r : AgentRoute)
    → (goes_with AgentRoute.internal_rag r && not (r == AgentRoute.tool_only)) ≡ true
    → (r == AgentRoute.rag_and_tool) ≡ false
    → contains web r ≡ true
unmixed_web r h n = ground arith

without_tool :
    (r : AgentRoute)
    → goes_with AgentRoute.internal_rag r ≡ true
    → (r == AgentRoute.tool_only) ≡ false
    → (goes_with AgentRoute.internal_rag r && not (r == AgentRoute.tool_only)) ≡ true
without_tool r h n = ground arith

unmixed-is_allowed :
    (rs : List AgentRoute)
    → all (goes_with AgentRoute.internal_rag) rs ≡ true
    → is_mixed rs ≡ false
    → is_allowed rs ≡ true
unfolding is_allowed
unmixed-is_allowed rs h n = elim (Bool-cases (contains rs AgentRoute.rag_and_web)) [
  | inr w ↦
      let t : all_in rs manufacturing ≡ true =
        all-without AgentRoute.rag_and_web (goes_with AgentRoute.internal_rag)
          (contains manufacturing) unmixed_manufacturing rs h w in
      ground arith
  | inl w ↦
      let a : contains rs AgentRoute.tool_only ≡ false = ground arith in
      let b : contains rs AgentRoute.rag_and_tool ≡ false = ground arith in
      let rest = λ (r : AgentRoute).
        goes_with AgentRoute.internal_rag r && not (r == AgentRoute.tool_only) in
      let t : all_in rs web ≡ true =
        all-without AgentRoute.rag_and_tool rest (contains web) unmixed_web rs
          (all-without AgentRoute.tool_only (goes_with AgentRoute.internal_rag) rest without_tool rs
            h a)
          b in
      ground arith
]

contains-left :
    (p a : AgentRoute) (ds : List RouteTaskDecision)
    → keeps p a ≡ true
    → is_direct a ≡ false
    → contains (left (adjusted p ds)) a ≡ contains (left ds) a
contains-left p a ds k n =
    let other = λ (r : AgentRoute). not (is_direct r) in
    let o : other a ≡ true = rw n refl in
    rw (routes_of-adjusted p ds) (
      contains-filter other (filter (keeps p) (routes_of ds)) a o
      ∙ contains-filter (keeps p) (routes_of ds) a k
      ∙ sym (contains-filter other (routes_of ds) a o))

is_mixed-adjusted :
    (ds : List RouteTaskDecision)
    → is_mixed (left (adjusted AgentRoute.internal_rag ds)) ≡ is_mixed (left ds)
unfolding is_compatible is_direct
is_mixed-adjusted ds =
    let p = AgentRoute.internal_rag in
    rw
      (
        contains-left p AgentRoute.rag_and_web ds refl refl,
        contains-left p AgentRoute.tool_only ds refl refl,
        contains-left p AgentRoute.rag_and_tool ds refl refl,
      )
      refl

adjusted_exactly :
    (p : AgentRoute) (ds : List RouteTaskDecision)
    → is_allowed (left (adjusted p ds)) ≡ not ((p == AgentRoute.internal_rag) && is_mixed (left ds))
adjusted_exactly p ds = elim (Bool-cases (p == AgentRoute.internal_rag)) [
  | inr n ↦ rw n (adjusted-is_allowed p (left (adjusted p ds)) n (left-adjusted p ds))
  | inl i ↦
      let e : p ≡ AgentRoute.internal_rag = (agent_route_iff p AgentRoute.internal_rag).0 i in
      elim (Bool-cases (is_mixed (left ds))) [
        | inl m ↦
            rw (e, m)
              (mixed-is_allowed (left (adjusted AgentRoute.internal_rag ds))
                (is_mixed-adjusted ds ∙ m))
        | inr m ↦
            let rs = left (adjusted AgentRoute.internal_rag ds) in
            rw (e, m)
              (unmixed-is_allowed rs (left-adjusted AgentRoute.internal_rag ds)
                (is_mixed-adjusted ds ∙ m))
      ]
]

-- The routes that run together form an allowed combination, except exactly where the first route
-- that is not a direct one is the internal search and a web search stands beside a call of a
-- manufacturing tool: that mixture is left as it is.
pub enforce-is_allowed :
    (ds : List RouteTaskDecision)
    → is_allowed (non_direct (enforce_predefined_combination ds).1)
      ≡ not ((primary_route (left ds) == AgentRoute.internal_rag) && is_mixed (left ds))
unfolding enforce_predefined_combination
enforce-is_allowed ds =
    let primary = primary_route (left ds) in
    elim (Bool-cases (is_allowed (left ds))) [
      | inl a ↦
          let n : is_mixed (left ds) ≡ false =
            refuted (is_mixed (left ds)) (λ h. cc (a, mixed-is_allowed (left ds) h)) in
          ground arith
      | inr a ↦ rw a (adjusted_exactly primary ds)
    ]
