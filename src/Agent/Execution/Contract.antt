-- ===== src/Agent/Execution/Contract.antt =====
-- The evidence that the contract of a route asks for.
use semiconductor_agent_know.Base.{
  String, true, not, List, [], is_empty, ◌≢◌, ◌⊎◌, ◌≡◌, refl, ap, arith, inl, inr, Bool-cases,
}
use semiconductor_agent_know.Agent.Kinds.{AgentRoute}
use semiconductor_agent_know.Agent.Execution.{meets_contract}

-- The evidence that a route asks for: for a direct answer and the routes that run nothing, none.
abbrev pub Required : AgentRoute → List String → List String → List String → Type 0
Required AgentRoute.reuse_evidence internal tool external = internal ≢ []
Required AgentRoute.internal_rag internal tool external = internal ≢ []
Required AgentRoute.tool_only internal tool external = tool ≢ []
Required AgentRoute.rag_and_tool internal tool external = (internal ≢ []) × (tool ≢ [])
Required AgentRoute.rag_and_web internal tool external = (internal ≢ []) ⊎ (external ≢ [])
Required _ internal tool external = Unit {0}

given-nonempty : (ids : List String) → not (is_empty ids) ≡ true → ids ≢ []
given-nonempty ids h e = cc (h, ap is_empty e)

pub meets_contract-Required :
    (route : AgentRoute) (internal tool external : List String)
    → meets_contract route internal tool external ≡ true
    → Required route internal tool external
unfolding meets_contract
meets_contract-Required AgentRoute.history_direct i t e h = tt
meets_contract-Required AgentRoute.chat_direct i t e h = tt
meets_contract-Required AgentRoute.clarify i t e h = tt
meets_contract-Required AgentRoute.refuse i t e h = tt
meets_contract-Required AgentRoute.reuse_evidence i t e h = given-nonempty i h
meets_contract-Required AgentRoute.internal_rag i t e h = given-nonempty i h
meets_contract-Required AgentRoute.tool_only i t e h = given-nonempty t h
meets_contract-Required AgentRoute.rag_and_tool i t e h =
    (given-nonempty i (ground arith), given-nonempty t (ground arith))
meets_contract-Required AgentRoute.rag_and_web i t e h = elim (Bool-cases (is_empty i)) [
  | inr n ↦ inl (given-nonempty i (rw n refl))
  | inl n ↦ inr (given-nonempty e (ground arith))
]
