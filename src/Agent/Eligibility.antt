-- ===== src/Agent/Eligibility.antt =====
-- Which pieces of retrieved evidence may carry an answer (`_answer_eligible_evidence` of
-- semikb/agent_runtime/evidence_sufficiency.py). A score, and a bound for one, is a `float` that
-- is not negative; a coverage, and a bound for one, is a number of ten-thousandths. `str.casefold` is a parameter.
pub mod Candidates
pub mod Eligible
use semiconductor_agent_know.Base.{
  ℕ, ◌*◌, ◌+◌, max, String, Bool, true, false, not, ◌&&◌, ◌||◌, Option, none, some, List, [], ◌∷◌,
  ◌++◌, ◌==◌, any, map, filter, contains, is_empty, length, take, leb, ltb, is_some, if◌then◌else◌,
  string_eq,
}
use semiconductor_agent_know.Doubles.{quotient}
use semiconductor_agent_know.Documents.Model.{Chunk}
use semiconductor_agent_know.Retrieval.{RetrievalCandidate, RetrievalTrace}
use semiconductor_agent_know.Agent.Text.{Codes}
use semiconductor_agent_know.Agent.Kinds.{
  AgentRoute, IntentTarget, agent_route_eq, intent_target_eq,
}
use semiconductor_agent_know.Agent.Semantics.{
  ExpectedOutput, KnowledgeScope, EvidenceSufficiencyStatus, SemanticFrame, expected_output_eq,
  knowledge_scope_eq, evidence_sufficiency_status_eq,
}
use semiconductor_agent_know.Agent.Model.{IntentTaskItem, ConversationUnderstanding}
use semiconductor_agent_know.Agent.Terms.{term_coverage}

pub record Settings : Type 0 where
  pub retrieval_public_answer_min_score : ℕ
  pub retrieval_rerank_min_score : ℕ
  pub retrieval_answer_relative_floor : ℕ
  pub retrieval_answer_min_term_coverage : ℕ
  pub retrieval_answer_sufficient_coverage : ℕ
  pub retrieval_min_evidence : ℕ
  pub evidence_judge_borderline_enabled : Bool
  pub evidence_web_fallback_enabled : Bool
  pub evidence_sufficiency_enabled : Bool
  pub demo_mode : Bool

-- `_knowledge_scope`
unfoldable pub knowledge_scope : ConversationUnderstanding → KnowledgeScope
knowledge_scope u =
    if any
      (λ (t : IntentTaskItem). contains (IntentTarget.sop ∷ IntentTarget.recipe ∷ []) t.target_type)
      u.task_items
    then KnowledgeScope.internal_controlled
    else if u.semantic_frame.knowledge_scope == KnowledgeScope.unspecified
    then KnowledgeScope.public_general
    else u.semantic_frame.knowledge_scope

-- `{item.chunk_id: item for item in candidates}.get(chunk_id)`: the last one.
unfoldable pub candidate_named : String → List RetrievalCandidate → Option RetrievalCandidate
candidate_named id [] = none
candidate_named id (k ∷ ks) = elim (candidate_named id ks) [
  | some j ↦ some j
  | none ↦ if k.chunk_id == id then some k else none
]

-- The changes of that candidate in place.
unfoldable pub update_candidate :
    String → RetrievalCandidate → List RetrievalCandidate → List RetrievalCandidate
update_candidate id j [] = []
update_candidate id j (k ∷ ks) =
    let rest = update_candidate id j ks in
    if is_some (candidate_named id ks)
    then k ∷ rest
    else if k.chunk_id == id
    then j ∷ ks
    else k ∷ ks

abbrev pub reset_candidate : RetrievalCandidate → RetrievalCandidate
reset_candidate k = record k {
  answer_eligible = false;
  answer_eligibility_reasons = if k.selected then [] else "not_retrieval_selected" ∷ [];
  answer_term_coverage = 0;
}

-- `max(scores, default=None)`
unfoldable pub max_score : List ℕ → Option ℕ
max_score [] = none
max_score (s ∷ ss) = elim (max_score ss) [ none ↦ some s | some m ↦ some (max s m) ]

abbrev pub scores_of : List RetrievalCandidate → List ℕ
scores_of ks = map (λ (k : RetrievalCandidate). k.rerank_score) ks

-- `max(scores of the selected, default=0.0)`
unfoldable pub top_selected : List RetrievalCandidate → ℕ
top_selected ks =
    elim (max_score (scores_of (filter (λ (k : RetrievalCandidate). k.selected) ks))) [
      | none ↦ 0
      | some s ↦ s
    ]

abbrev pub reason_if : Bool → String → List String
reason_if b reason = if b then reason ∷ [] else []

module _ (settings : Settings) (scope : KnowledgeScope) where
  -- Why a selected candidate is no evidence for an answer.
  unfoldable pub gate_reasons : ℕ → ℕ → RetrievalCandidate → List String
  gate_reasons top coverage k =
      if (scope == KnowledgeScope.public_general) && not k.protected_evidence
      then reason_if (ltb k.rerank_score settings.retrieval_public_answer_min_score)
          "below_public_answer_score"
        ++ reason_if
            (ltb 0 top
              && ltb (quotient k.rerank_score top) settings.retrieval_answer_relative_floor)
            "below_relative_answer_floor"
        ++ reason_if (ltb coverage settings.retrieval_answer_min_term_coverage)
            "insufficient_query_term_coverage"
      else []

  unfoldable pub marked : ℕ → ℕ → RetrievalCandidate → RetrievalCandidate
  marked top coverage k =
      let reasons = gate_reasons top coverage k in
      if is_empty reasons
      then record k {
        answer_term_coverage = coverage;
        answer_eligible = true;
        answer_eligibility_reasons =
            (if k.protected_evidence
              then "protected_evidence"
              else if scope == KnowledgeScope.public_general
              then "public_answer_gate_passed"
              else "controlled_scope_selected")
            ∷ [];
      }
      else record k { answer_term_coverage = coverage; answer_eligibility_reasons = reasons }

module _ (settings : Settings) (casefold : Codes → Codes) (query : String)
    (scope : KnowledgeScope) where
  -- What the gate makes of a chunk whose candidate was looked up.
  unfoldable pub gate_found :
      ℕ
      → Chunk
      → List RetrievalCandidate
      → Option RetrievalCandidate
      → Bool × List RetrievalCandidate
  gate_found top c ks none = (false, ks)
  gate_found top c ks (some k) =
      let coverage = term_coverage casefold query (c.chunk_text ∷ []) in
      if k.selected
      then (
        is_empty (gate_reasons settings scope top coverage k),
        update_candidate c.chunk_id (marked settings scope top coverage k) ks,
      )
      else (false, ks)

  -- One round of the loop over the evidence: is the chunk eligible, and the candidates afterwards.
  unfoldable pub gate_chunk : ℕ → Chunk → List RetrievalCandidate → Bool × List RetrievalCandidate
  gate_chunk top c ks = gate_found top c ks (candidate_named c.chunk_id ks)

  unfoldable pub eligible_from :
      ℕ → List Chunk → List RetrievalCandidate → List Chunk × List String × List RetrievalCandidate
  eligible_from top [] ks = ([], [], ks)
  eligible_from top (c ∷ cs) ks =
      let (fits, marked_candidates) = gate_chunk top c ks in
      let (eligible, rejected, candidates) = eligible_from top cs marked_candidates in
      if fits
      then (c ∷ eligible, rejected, candidates)
      else (eligible, c.chunk_id ∷ rejected, candidates)

  -- `_answer_eligible_evidence`, with the candidates of the trace as it leaves them.
  unfoldable pub answer_eligible_evidence :
      List Chunk → Option RetrievalTrace → List Chunk × List String × Option RetrievalTrace
  answer_eligible_evidence evidence none = (evidence, [], none)
  answer_eligible_evidence evidence (some trace) =
      let (eligible, rejected, candidates) =
        eligible_from (top_selected trace.candidates) evidence
          (map reset_candidate trace.candidates) in
      (eligible, rejected, some (record trace { candidates = candidates }))
