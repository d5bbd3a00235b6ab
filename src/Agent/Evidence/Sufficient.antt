-- ===== src/Agent/Evidence/Sufficient.antt =====
-- What an assessment promises: no sufficient evidence without evidence, and a search of the web only
-- for public knowledge.
use semiconductor_agent_know.Base.{
  ℕ, ◌≤◌, String, Bool, true, false, Option, List, [], ◌∷◌, ◌==◌, any, filter, map, contains,
  is_empty, length, leb, ◌≡◌, ◌≢◌, ◌⊎◌, ◌↔◌, inl, inr, refl, arith, Bool-cases,
}
use semiconductor_agent_know.Documents.Model.{Chunk}
use semiconductor_agent_know.Retrieval.{RetrievalCandidate, RetrievalTrace}
use semiconductor_agent_know.Agent.Text.{Codes}
use semiconductor_agent_know.Agent.Kinds.{
  AgentRoute, IntentTarget, agent_route_eq, agent_route_iff, intent_target_eq,
}
use semiconductor_agent_know.Agent.Semantics.{
  KnowledgeScope, EvidenceSufficiencyStatus, SemanticFrame, knowledge_scope_eq, knowledge_scope_iff,
  evidence_sufficiency_status_eq,
}
use semiconductor_agent_know.Agent.Model.{IntentTaskItem, ConversationUnderstanding}
use semiconductor_agent_know.Agent.Eligibility.{
  Settings, knowledge_scope, max_score, scores_of, answer_eligible_evidence,
}
use semiconductor_agent_know.Agent.Evidence.{
  Judgment, EvidenceSufficiencyAssessment, first_status, deterministic_assessment, is_judged,
  web_allowed, assess, too_narrow, candidates_of,
}
use semiconductor_agent_know.Agent.Terms.{term_coverage}

-- The task is about a procedure or a recipe.
abbrev pub is_controlled : ConversationUnderstanding → Bool
is_controlled u =
    any
      (λ (t : IntentTaskItem). contains (IntentTarget.sop ∷ IntentTarget.recipe ∷ []) t.target_type)
      u.task_items

knowledge_scope-public :
    (u : ConversationUnderstanding)
    → knowledge_scope u ≡ KnowledgeScope.public_general
    → (is_controlled u ≡ false)
      × ((u.semantic_frame.knowledge_scope ≡ KnowledgeScope.unspecified)
          ⊎ (u.semantic_frame.knowledge_scope ≡ KnowledgeScope.public_general))
unfolding knowledge_scope
knowledge_scope-public u h =
    let k = u.semantic_frame.knowledge_scope in
    elim (Bool-cases (is_controlled u)) [
      | inl c ↦ absurd (ground (arith, c))
      | inr c ↦ elim (Bool-cases (k == KnowledgeScope.unspecified)) [
        | inl s ↦ (c, inl ((knowledge_scope_iff k KnowledgeScope.unspecified).0 s))
        | inr s ↦ (c, inr (ground (arith, c, s)))
      ]
    ]

public-knowledge_scope :
    (u : ConversationUnderstanding)
    → is_controlled u ≡ false
    → ((u.semantic_frame.knowledge_scope ≡ KnowledgeScope.unspecified)
        ⊎ (u.semantic_frame.knowledge_scope ≡ KnowledgeScope.public_general))
    → knowledge_scope u ≡ KnowledgeScope.public_general
unfolding knowledge_scope
public-knowledge_scope u c (inl e) = rw (c, e) refl
public-knowledge_scope u c (inr e) = rw (c, e) refl

length-nonempty {ℓ} : {A : Type ℓ} (xs : List A) → 1 ≤ length xs → is_empty xs ≡ false
length-nonempty [] h = absurd (omega arith)
length-nonempty (x ∷ xs) h = refl

unsure_status :
    (s : EvidenceSufficiencyStatus)
    → (contains (EvidenceSufficiencyStatus.partial ∷ EvidenceSufficiencyStatus.insufficient ∷ []) s
        ≡ true)
      ↔ (s ≢ EvidenceSufficiencyStatus.sufficient)
unsure_status EvidenceSufficiencyStatus.sufficient = (λ h e. cc h, λ n. absurd (n refl))
unsure_status EvidenceSufficiencyStatus.partial = (λ h. ground arith, λ n. refl)
unsure_status EvidenceSufficiencyStatus.insufficient = (λ h. ground arith, λ n. refl)

module _ (settings : Settings) (casefold : Codes → Codes) where
  web_allowed_iff :
      (scope : KnowledgeScope) (route : AgentRoute) (status : EvidenceSufficiencyStatus)
      → (web_allowed settings scope route status ≡ true) ↔ (
          (settings.evidence_web_fallback_enabled ≡ true)
          × (scope ≡ KnowledgeScope.public_general)
          × ((route ≡ AgentRoute.rag_and_web) ⊎ (status ≢ EvidenceSufficiencyStatus.sufficient)))
  unfolding web_allowed
  web_allowed_iff scope route status =
      let s = knowledge_scope_iff scope KnowledgeScope.public_general in
      let r = agent_route_iff route AgentRoute.rag_and_web in
      let t = unsure_status status in ground (arith, s, r, t)

  first_status-sufficient :
      (scope : KnowledgeScope) (count coverage : ℕ) (top : Option ℕ)
      → (first_status settings scope count coverage top).0 ≡ EvidenceSufficiencyStatus.sufficient
      → 1 ≤ count
  unfolding first_status
  first_status-sufficient scope count coverage top h = elim (Bool-cases (leb count 0)) [
    | inl e ↦ absurd (ground (arith, e))
    | inr e ↦ ground arith
  ]

  deterministic-sufficient :
      (query : String) (scope : KnowledgeScope) (u : ConversationUnderstanding)
      (evidence : List Chunk) (trace : Option RetrievalTrace)
      → (deterministic_assessment settings casefold query scope u evidence trace).status
        ≡ EvidenceSufficiencyStatus.sufficient
      → is_empty evidence ≡ false
  unfolding deterministic_assessment
  deterministic-sufficient query scope u evidence trace h =
      let coverage = term_coverage casefold query (map (λ (c : Chunk). c.chunk_text) evidence) in
      let top = max_score (
        scores_of (filter (λ (k : RetrievalCandidate). k.answer_eligible) (candidates_of trace))) in
      let status = (first_status settings scope (length evidence) coverage top).0 in
      elim (Bool-cases
        (too_narrow scope status u.semantic_frame.expected_output (length evidence))) [
          | inl n ↦ absurd (ground (arith, n))
          | inr n ↦
              let same : status ≡ EvidenceSufficiencyStatus.sufficient = ground (arith, n) in
              length-nonempty evidence
                (first_status-sufficient scope (length evidence) coverage top same)
        ]

  module _ (judge : String → SemanticFrame → List Chunk → Option Judgment) (query : String)
      (u : ConversationUnderstanding) (evidence : List Chunk) (trace : Option RetrievalTrace)
      (initial_route : AgentRoute) where
    abbrev pub eligible_evidence : List Chunk
    eligible_evidence =
        (answer_eligible_evidence settings casefold query (knowledge_scope u) evidence trace).0

    abbrev pub assessment : EvidenceSufficiencyAssessment
    assessment = (assess settings casefold judge query u evidence trace initial_route).0

    -- Evidence is called sufficient only if some of it may carry an answer, whatever the model
    -- that judges borderline cases says.
    pub assess-sufficient :
        assessment.status ≡ EvidenceSufficiencyStatus.sufficient
        → is_empty eligible_evidence ≡ false
    unfolding assess is_judged
    assess-sufficient h =
        let first =
          deterministic_assessment settings casefold query (knowledge_scope u) u eligible_evidence
            (answer_eligible_evidence settings casefold query (knowledge_scope u) evidence
              trace).2 in
        elim (Bool-cases (is_judged settings first eligible_evidence)) [
          | inl j ↦ ground (arith, j)
          | inr j ↦
              deterministic-sufficient query (knowledge_scope u) u eligible_evidence
                (answer_eligible_evidence settings casefold query (knowledge_scope u) evidence
                  trace).2
                (ground (arith, j))
        ]

    -- The web may be searched exactly if the settings allow it, no task is about a procedure or a
    -- recipe, the question is one of public knowledge or leaves that open, and either the route asks
    -- for the web or the evidence is not sufficient.
    pub assess-web_iff : (assessment.web_fallback_allowed ≡ true) ↔ (
        (settings.evidence_web_fallback_enabled ≡ true)
        × (is_controlled u ≡ false)
        × ((u.semantic_frame.knowledge_scope ≡ KnowledgeScope.unspecified)
            ⊎ (u.semantic_frame.knowledge_scope ≡ KnowledgeScope.public_general))
        × ((initial_route ≡ AgentRoute.rag_and_web)
            ⊎ (assessment.status ≢ EvidenceSufficiencyStatus.sufficient)))
    unfolding assess
    assess-web_iff =
        let (to, from) = web_allowed_iff (knowledge_scope u) initial_route assessment.status in
        (
          λ h.
              let (enabled, public, why) = to h in
              let (free, asked) = knowledge_scope-public u public in (enabled, free, asked, why),
          λ (enabled, free, asked, why). from (enabled, public-knowledge_scope u free asked, why),
        )
