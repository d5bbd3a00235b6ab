-- ===== src/Agent/Assessing.antt =====
-- The node that assesses the evidence of a question (`_assess_evidence` of
-- semikb/agent_runtime/graph.py). The text of the assessment that is stored with the trace is left
-- out.
pub mod Recorded
use Prim.Native.String.{◌++◌ as concat}
use semiconductor_agent_know.Base.{
  String, Bool, true, false, not, ◌||◌, Option, none, some, List, [], ◌∷◌, ◌++◌, ◌==◌, map, filter,
  contains, is_empty, length, if◌then◌else◌, truthy, string_eq,
}
use semiconductor_agent_know.Base.Dict.{Dict, insert}
use semiconductor_agent_know.Documents.Model.{ActorScope, Chunk}
use semiconductor_agent_know.Retrieval.{RetrievalTrace, get_trace}
use semiconductor_agent_know.Agent.Text.{Codes}
use semiconductor_agent_know.Agent.Kinds.{AgentRoute, agent_route_eq}
use semiconductor_agent_know.Agent.Semantics.{
  KnowledgeScope, EvidenceSufficiencyStatus, SemanticFrame, knowledge_scope_eq,
}
use semiconductor_agent_know.Agent.Model.{ConversationUnderstanding}
use semiconductor_agent_know.Agent.Missing.{distinct_from}
use semiconductor_agent_know.Agent.Eligibility.{Settings}
use semiconductor_agent_know.Agent.Evidence.{Judgment, EvidenceSufficiencyAssessment, assess}

pub data AnswerMode : Type 0 where
  natural_knowledge structured_investigation : AnswerMode

pub record Assessed : Type 0 where
  pub evidence_sufficiency : EvidenceSufficiencyAssessment
  pub reranked_evidence : List Chunk
  pub image_evidence : List String
  pub answer_mode : AnswerMode
  pub traces : Dict String RetrievalTrace

-- The assessment where the gate is switched off or the route retrieves nothing.
unfoldable pub disabled_assessment : AgentRoute → List Chunk → EvidenceSufficiencyAssessment
disabled_assessment route evidence = record {
  status =
      if not (is_empty evidence) || (route == AgentRoute.tool_only)
      then EvidenceSufficiencyStatus.sufficient
      else EvidenceSufficiencyStatus.insufficient;
  reason_codes = "evidence_sufficiency_gate_disabled" ∷ [];
  selected_count = length evidence;
  high_score_count = 0;
  query_term_coverage = 0;
  top_rerank_score = none;
  supported_aspects = [];
  missing_aspects = [];
  knowledge_scope = KnowledgeScope.unspecified;
  web_fallback_allowed = false;
  judge_source = "disabled";
  provider = none;
  model = none;
  warning_codes = [];
  answer_eligible_ids = map (λ (c : Chunk). c.chunk_id) evidence;
  answer_rejected_ids = [];
  answer_score_threshold = none;
}

-- `[image_id for item in evidence for image_id in item.image_ids]`
unfoldable pub image_ids_of : List Chunk → List String
image_ids_of [] = []
image_ids_of (c ∷ cs) = c.image_ids ++ image_ids_of cs

abbrev with_route : String → List String → List String
with_route route routes = if contains routes route then routes else routes ++ route ∷ []

-- What is recorded on the trace.
unfoldable pub recorded_trace :
    EvidenceSufficiencyAssessment → List Chunk → RetrievalTrace → RetrievalTrace
recorded_trace a answer_evidence t = record t {
  final_evidence_ids = map (λ (c : Chunk). c.chunk_id) answer_evidence;
  image_asset_ids = distinct_from [] (image_ids_of answer_evidence);
  cutoff_reason =
      if is_empty a.answer_rejected_ids
      then t.cutoff_reason
      else if is_empty answer_evidence
      then "answer_usability_gate"
      else concat t.cutoff_reason "+answer_usability_gate";
  routes = with_route "evidence_sufficiency" (with_route "answer_usability_gate" t.routes);
}

-- The trace that the run names, if it names one that the actor may see.
abbrev pub found_trace :
    Dict String RetrievalTrace → Option String → ActorScope → Option RetrievalTrace
found_trace traces none actor = none
found_trace traces (some id) actor = if truthy id then get_trace traces id actor else none

-- The trace is the one object under its id, and saved under the id that it carries.
unfoldable pub saved_traces :
    EvidenceSufficiencyAssessment
    → List Chunk
    → Option String
    → Option RetrievalTrace
    → Dict String RetrievalTrace
    → Dict String RetrievalTrace
saved_traces a answer_evidence (some id) (some t) traces =
    let r = recorded_trace a answer_evidence t in insert t.trace_id r (insert id r traces)
saved_traces a answer_evidence id trace traces = traces

abbrev pub image_evidence_of :
    EvidenceSufficiencyAssessment → List Chunk → Option RetrievalTrace → List String → List String
image_evidence_of a answer_evidence none before = before
image_evidence_of a answer_evidence (some t) before =
    (recorded_trace a answer_evidence t).image_asset_ids

module _ (settings : Settings) (casefold : Codes → Codes)
    (judge : String → SemanticFrame → List Chunk → Option Judgment) where
  -- The assessment, and the trace with the marks on its candidates.
  unfoldable pub assessment_of :
      AgentRoute
      → AgentRoute
      → String
      → ConversationUnderstanding
      → List Chunk
      → Option RetrievalTrace
      → EvidenceSufficiencyAssessment × Option RetrievalTrace
  assessment_of route initial_route query u evidence trace =
      if not settings.evidence_sufficiency_enabled || (route == AgentRoute.tool_only)
      then (disabled_assessment route evidence, trace)
      else assess settings casefold judge query u evidence trace initial_route

  -- The rest of the node, once the trace is looked up.
  unfoldable pub assess_found :
      AgentRoute
      → AgentRoute
      → String
      → ConversationUnderstanding
      → List Chunk
      → List String
      → Option String
      → Dict String RetrievalTrace
      → Option RetrievalTrace
      → Assessed
  assess_found route initial_route query u evidence images trace_id traces found =
      let (a, trace) = assessment_of route initial_route query u evidence found in
      let answer_evidence =
        filter (λ (c : Chunk). contains a.answer_eligible_ids c.chunk_id) evidence in
      record {
        evidence_sufficiency = a;
        reranked_evidence = answer_evidence;
        image_evidence = image_evidence_of a answer_evidence trace images;
        answer_mode =
            if a.knowledge_scope == KnowledgeScope.public_general
            then AnswerMode.natural_knowledge
            else AnswerMode.structured_investigation;
        traces = saved_traces a answer_evidence trace_id trace traces;
      }

  unfoldable pub assess_evidence :
      AgentRoute
      → AgentRoute
      → String
      → ConversationUnderstanding
      → List Chunk
      → List String
      → Option String
      → ActorScope
      → Dict String RetrievalTrace
      → Assessed
  assess_evidence route initial_route query u evidence images trace_id actor traces =
      assess_found route initial_route query u evidence images trace_id traces
        (found_trace traces trace_id actor)

-- `_route_after_evidence_assessment`
abbrev pub searches_web : Assessed → Bool
searches_web n = n.evidence_sufficiency.web_fallback_allowed
