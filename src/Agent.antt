-- ===== src/Agent.antt =====
-- The decisions of the agent that need no model call (semikb/agent_runtime).
pub mod Text
pub mod Kinds
pub mod Semantics
pub mod Model
pub mod Terms
pub mod Eligibility
pub mod Evidence
pub mod Assessing
pub mod TaskRoute
pub mod Missing
pub mod Combination
pub mod Routing
pub mod Frames
pub mod Relation
pub mod Clarification
pub mod Turn
pub mod Labels
pub mod Execution
