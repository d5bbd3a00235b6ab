-- ===== src/Agent/Evidence.antt =====
-- Whether retrieved evidence can answer a task (`assess` of
-- semikb/agent_runtime/evidence_sufficiency.py). The model that judges a borderline case is a
-- parameter.
pub mod Sufficient
use semiconductor_agent_know.Base.{
  ℕ, ◌*◌, ◌+◌, max, String, Bool, true, false, not, ◌&&◌, ◌||◌, Option, none, some, List, [], ◌∷◌,
  ◌++◌, ◌==◌, any, map, filter, contains, is_empty, length, take, leb, ltb, is_some, if◌then◌else◌,
  string_eq,
}
use semiconductor_agent_know.Documents.Model.{Chunk}
use semiconductor_agent_know.Retrieval.{RetrievalCandidate, RetrievalTrace}
use semiconductor_agent_know.Agent.Text.{Codes}
use semiconductor_agent_know.Agent.Kinds.{
  AgentRoute, IntentTarget, agent_route_eq, intent_target_eq,
}
use semiconductor_agent_know.Agent.Semantics.{
  ExpectedOutput, KnowledgeScope, EvidenceSufficiencyStatus, SemanticFrame, expected_output_eq,
  knowledge_scope_eq, evidence_sufficiency_status_eq,
}
use semiconductor_agent_know.Agent.Model.{IntentTaskItem, ConversationUnderstanding}
use semiconductor_agent_know.Agent.Eligibility.{
  Settings, knowledge_scope, scores_of, max_score, reason_if, answer_eligible_evidence,
}
use semiconductor_agent_know.Agent.Terms.{term_coverage}

pub record EvidenceSufficiencyAssessment : Type 0 where
  pub status : EvidenceSufficiencyStatus
  pub reason_codes : List String
  pub selected_count : ℕ
  pub high_score_count : ℕ
  pub query_term_coverage : ℕ
  pub top_rerank_score : Option ℕ
  pub supported_aspects : List String
  pub missing_aspects : List String
  pub knowledge_scope : KnowledgeScope
  pub web_fallback_allowed : Bool
  pub judge_source : String
  pub provider : Option String
  pub model : Option String
  pub warning_codes : List String
  pub answer_eligible_ids : List String
  pub answer_rejected_ids : List String
  pub answer_score_threshold : Option ℕ

-- What the model answered, where the call went through and the answer is of the schema.
pub record Judgment : Type 0 where
  pub status : EvidenceSufficiencyStatus
  pub reason_code : String
  pub supported_aspects : List String
  pub missing_aspects : List String
  pub provider : String
  pub model : String

abbrev pub below : Option ℕ → ℕ → Bool
below none bound = false
below (some top) bound = ltb top bound

module _ (settings : Settings) (scope : KnowledgeScope) where
  unfoldable pub score_threshold : ℕ
  score_threshold =
      if scope == KnowledgeScope.public_general
      then settings.retrieval_public_answer_min_score
      else settings.retrieval_rerank_min_score

  -- The status and its reason by the chain of the tests.
  unfoldable pub first_status : ℕ → ℕ → Option ℕ → EvidenceSufficiencyStatus × String
  first_status count coverage top =
      if leb count 0
      then (EvidenceSufficiencyStatus.insufficient, "no_answer_eligible_evidence")
      else if scope == KnowledgeScope.internal_controlled
      then (EvidenceSufficiencyStatus.sufficient, "controlled_evidence_available")
      else if below top score_threshold
      then (EvidenceSufficiencyStatus.insufficient, "all_evidence_below_rerank_threshold")
      else if leb settings.retrieval_answer_sufficient_coverage coverage
          && leb settings.retrieval_min_evidence count
      then (EvidenceSufficiencyStatus.sufficient, "query_aspects_covered")
      else (EvidenceSufficiencyStatus.partial, "query_coverage_incomplete")

-- An enumeration or a ranking needs two pieces of evidence.
abbrev pub too_narrow : KnowledgeScope → EvidenceSufficiencyStatus → ExpectedOutput → ℕ → Bool
too_narrow scope status output count =
    (status == EvidenceSufficiencyStatus.sufficient)
    && contains (ExpectedOutput.enumeration ∷ ExpectedOutput.ranking ∷ []) output
    && ltb count 2
    && not (scope == KnowledgeScope.internal_controlled)

abbrev pub candidates_of : Option RetrievalTrace → List RetrievalCandidate
candidates_of none = []
candidates_of (some t) = t.candidates

module _ (settings : Settings) (casefold : Codes → Codes) (query : String)
    (scope : KnowledgeScope) where
  -- `_deterministic_assessment`
  unfoldable pub deterministic_assessment :
      ConversationUnderstanding → List Chunk → Option RetrievalTrace → EvidenceSufficiencyAssessment
  deterministic_assessment u evidence trace =
      let candidates = candidates_of trace in
      let scores = scores_of (filter (λ (k : RetrievalCandidate). k.answer_eligible) candidates) in
      let coverage = term_coverage casefold query (map (λ (c : Chunk). c.chunk_text) evidence) in
      let count = length evidence in
      let (status, reason) = first_status settings scope count coverage (max_score scores) in
      let narrow = too_narrow scope status u.semantic_frame.expected_output count in
      record {
        status = if narrow then EvidenceSufficiencyStatus.partial else status;
        reason_codes = reason ∷ reason_if narrow "enumeration_coverage_too_narrow";
        selected_count = count;
        high_score_count = length (filter (leb (score_threshold settings scope)) scores);
        query_term_coverage = coverage;
        top_rerank_score = max_score scores;
        supported_aspects = [];
        missing_aspects = [];
        knowledge_scope = scope;
        web_fallback_allowed = false;
        judge_source = "deterministic";
        provider = none;
        model = none;
        warning_codes = [];
        answer_eligible_ids = [];
        answer_rejected_ids = [];
        answer_score_threshold = none;
      }

-- `_judge_borderline`: no judgment stands for a call that failed or an answer out of the schema.
unfoldable pub judge_borderline :
    Option Judgment → EvidenceSufficiencyAssessment → EvidenceSufficiencyAssessment
judge_borderline none a = record a {
  warning_codes = a.warning_codes ++ "borderline_judge_unavailable" ∷ [];
}
judge_borderline (some j) a = record a {
  status = j.status;
  reason_codes = j.reason_code ∷ [];
  supported_aspects = j.supported_aspects;
  missing_aspects = j.missing_aspects;
  judge_source = "llm_borderline";
  provider = some j.provider;
  model = some j.model;
}

module _ (settings : Settings) where
  unfoldable pub is_judged : EvidenceSufficiencyAssessment → List Chunk → Bool
  is_judged a evidence =
      settings.evidence_judge_borderline_enabled
      && not settings.demo_mode
      && (a.status == EvidenceSufficiencyStatus.partial)
      && not (is_empty evidence)

  unfoldable pub web_allowed : KnowledgeScope → AgentRoute → EvidenceSufficiencyStatus → Bool
  web_allowed scope initial_route status =
      settings.evidence_web_fallback_enabled
      && (scope == KnowledgeScope.public_general)
      && ((initial_route == AgentRoute.rag_and_web)
          || contains
              (EvidenceSufficiencyStatus.partial ∷ EvidenceSufficiencyStatus.insufficient ∷ [])
              status)

module _ (settings : Settings) (casefold : Codes → Codes)
    (judge : String → SemanticFrame → List Chunk → Option Judgment) where
  -- `assess`, with the trace as it leaves it.
  unfoldable pub assess :
      String
      → ConversationUnderstanding
      → List Chunk
      → Option RetrievalTrace
      → AgentRoute
      → EvidenceSufficiencyAssessment × Option RetrievalTrace
  assess query u evidence trace initial_route =
      let scope = knowledge_scope u in
      let (eligible, rejected, left) =
        answer_eligible_evidence settings casefold query scope evidence trace in
      let first = deterministic_assessment settings casefold query scope u eligible left in
      let judged =
        if is_judged settings first eligible
        then judge_borderline (judge query u.semantic_frame (take 5 eligible)) first
        else first in
      (
        record judged {
          web_fallback_allowed = web_allowed settings scope initial_route judged.status;
          answer_eligible_ids = map (λ (c : Chunk). c.chunk_id) eligible;
          answer_rejected_ids = rejected;
          answer_score_threshold = some (score_threshold settings scope);
        },
        left,
      )
