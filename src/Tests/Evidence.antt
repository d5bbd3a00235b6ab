-- ===== src/Tests/Evidence.antt =====
-- A question of public knowledge, one chunk that answers it and one that does not.
use semiconductor_agent_know.Doubles.{nearest, literal, quotient, rounded, one}
use semiconductor_agent_know.Base.{
  ℕ, String, true, false, none, some, Option, List, [], ◌∷◌, all, contains, In, here, length,
  is_empty, ◌+◌, ◌*◌, ◌≤◌, ◌≡◌, ◌≢◌, ◌↔◌, ◌⊎◌, refl, string_eq,
}
use semiconductor_agent_know.Base.Dict.{Dict, lookup, insert}
use semiconductor_agent_know.Documents.Kinds.{DocumentLifecycle}
use semiconductor_agent_know.Documents.Model.{Chunk}
use semiconductor_agent_know.Documents.Store.{is_accessible, list_published_chunks}
use semiconductor_agent_know.Retrieval.{
  RetrievalCandidate, RetrievalTrace, get_trace, by_id, evidence_chunks, reuse_trace_evidence,
}
use semiconductor_agent_know.Agent.Text.{lower, rest_after}
use semiconductor_agent_know.Agent.Kinds.{AgentRoute, PrimaryIntent, InteractionMode}
use semiconductor_agent_know.Agent.Semantics.{
  ExpectedOutput, KnowledgeScope, EvidenceSufficiencyStatus, SemanticFrame,
}
use semiconductor_agent_know.Agent.Model.{ConversationUnderstanding}
use semiconductor_agent_know.Agent.Missing.{distinct_from}
use semiconductor_agent_know.Agent.Terms.{
  term_coverage, terms_of, latin_terms, from_latin, runs, split_runs, normalized_run, without,
  without_all, bigrams, concat_map, set_of, joined, rounded_share,
}
use semiconductor_agent_know.Agent.Terms.Rounded.{query_terms, covered_terms, term_coverage_bounds}
use semiconductor_agent_know.Agent.Eligibility.{
  Settings, knowledge_scope, candidate_named, update_candidate, max_score, top_selected,
  gate_reasons, marked, gate_found, gate_chunk, eligible_from, answer_eligible_evidence,
}
use semiconductor_agent_know.Agent.Eligibility.Eligible.{
  Answers, chunk_ids, answer_eligible_evidence_iff,
}
use semiconductor_agent_know.Agent.Evidence.{
  Judgment, score_threshold, first_status, deterministic_assessment, judge_borderline, is_judged,
  web_allowed, assess,
}
use semiconductor_agent_know.Agent.Evidence.Sufficient.{
  is_controlled, assess-sufficient, assess-web_iff,
}
use semiconductor_agent_know.Agent.Assessing.{
  found_trace, assessment_of, recorded_trace, saved_traces, image_ids_of, assess_found,
  assess_evidence,
}
use semiconductor_agent_know.Agent.Assessing.Recorded.{assess_evidence-reused}
use semiconductor_agent_know.Tests.Data.{tool_actor, step_text, shelf}

abbrev settings : Settings
settings = record {
  retrieval_public_answer_min_score = literal 50 100;
  retrieval_rerank_min_score = literal 40 100;
  retrieval_answer_relative_floor = literal 80 100;
  retrieval_answer_min_term_coverage = 1500;
  retrieval_answer_sufficient_coverage = 4000;
  retrieval_min_evidence = 1;
  evidence_judge_borderline_enabled = true;
  evidence_web_fallback_enabled = true;
  evidence_sufficiency_enabled = true;
  demo_mode = false;
}

abbrev no_judge : String → SemanticFrame → List Chunk → Option Judgment
no_judge query frame evidence = none

abbrev vent : Chunk
vent = step_text DocumentLifecycle.published

abbrev off_topic : Chunk
off_topic = record vent { chunk_id = "c2"; chunk_text = "Order spare parts." }

abbrev question : String
question = "How to vent the chamber"

abbrev asked : ConversationUnderstanding
asked = record {
  classifier_source = "llm";
  interaction_mode = InteractionMode.task;
  primary_intent = PrimaryIntent.knowledge_query;
  task_items = [];
  slot_operations = [];
  explicit_slots = [];
  inherited_slots = [];
  missing_slots = [];
  context_message_ids = [];
  semantic_frame = record {
    expected_output = ExpectedOutput.explanation;
    knowledge_scope = KnowledgeScope.unspecified;
  };
  standalone_query = question;
  cancel_scope = none;
  clarification_relation = none;
  suggested_route = AgentRoute.internal_rag;
  confidence = 900000;
}

abbrev candidate : String → ℕ → RetrievalCandidate
candidate id score = record {
  chunk_id = id;
  rerank_score = score;
  selected = true;
  protected_evidence = false;
  answer_eligible = false;
  answer_eligibility_reasons = [];
  answer_term_coverage = 0;
}

abbrev ranked : RetrievalTrace
ranked = record {
  trace_id = "t1";
  actor_user_id = "engineer";
  routes = "dense" ∷ [];
  candidates = candidate "c1" (literal 90 100) ∷ candidate "c2" (literal 30 100) ∷ [];
  cutoff_reason = "top_k";
  final_evidence_ids = "c1" ∷ "c2" ∷ [];
  image_asset_ids = [];
}

abbrev retrieved : List Chunk
retrieved = vent ∷ off_topic ∷ []

-- Two of the five terms of the question stand in the chunk, "vent" and "the": the full stop belongs
-- to the last word of the chunk, which is therefore not "chamber".
covers_vent : term_coverage lower question (vent.chunk_text ∷ []) ≡ 4000
unfolding term_coverage terms_of latin_terms from_latin runs split_runs normalized_run without
    without_all bigrams concat_map set_of joined rounded_share nearest literal quotient rounded one
    lower rest_after
covers_vent = refl

term_coverage_bounds_example :
    (term_coverage lower question (vent.chunk_text ∷ []) ≤ 10000)
    × (2
          * (term_coverage lower question (vent.chunk_text ∷ [])
              * length (query_terms lower question))
        ≤ 2 * (10000 * length (covered_terms lower question (vent.chunk_text ∷ [])))
          + length (query_terms lower question))
    × (2 * (10000 * length (covered_terms lower question (vent.chunk_text ∷ [])))
        ≤ 2
            * (term_coverage lower question (vent.chunk_text ∷ [])
                * length (query_terms lower question))
          + length (query_terms lower question))
term_coverage_bounds_example = term_coverage_bounds lower question (vent.chunk_text ∷ [])

answer_eligible_evidence_iff_example :
    (In vent
        (answer_eligible_evidence settings lower question KnowledgeScope.public_general retrieved
          (some ranked)).0
      ↔ Answers settings lower question KnowledgeScope.public_general ranked vent)
    × (In vent
          (answer_eligible_evidence settings lower question KnowledgeScope.public_general retrieved
            (some ranked)).0
        ⊎ In "c1"
            (answer_eligible_evidence settings lower question KnowledgeScope.public_general
              retrieved
              (some ranked)).1)
answer_eligible_evidence_iff_example =
    answer_eligible_evidence_iff settings lower question KnowledgeScope.public_general retrieved
      ranked vent here

sufficient :
    (assess settings lower no_judge question asked retrieved
      (some ranked)
      AgentRoute.internal_rag).0.status
    ≡ EvidenceSufficiencyStatus.sufficient
unfolding assess answer_eligible_evidence eligible_from gate_chunk gate_found gate_reasons marked
    candidate_named update_candidate max_score top_selected knowledge_scope deterministic_assessment
    first_status score_threshold is_judged judge_borderline web_allowed term_coverage terms_of
    latin_terms from_latin runs split_runs normalized_run without without_all bigrams concat_map
    set_of joined rounded_share nearest literal quotient rounded one lower rest_after
sufficient = refl

assess-sufficient_example :
    is_empty
      (answer_eligible_evidence settings lower question
        (knowledge_scope asked)
        retrieved
        (some ranked)).0
    ≡ false
assess-sufficient_example =
    assess-sufficient settings lower no_judge question asked retrieved (some ranked)
      AgentRoute.internal_rag sufficient

assess-web_iff_example :
    ((assess settings lower no_judge question asked retrieved
        (some ranked)
        AgentRoute.rag_and_web).0.web_fallback_allowed
      ≡ true)
    ↔ ((true ≡ true)
        × (is_controlled asked ≡ false)
        × ((KnowledgeScope.unspecified ≡ KnowledgeScope.unspecified)
            ⊎ (KnowledgeScope.unspecified ≡ KnowledgeScope.public_general))
        × ((AgentRoute.rag_and_web ≡ AgentRoute.rag_and_web)
            ⊎ ((assess settings lower no_judge question asked retrieved
                  (some ranked)
                  AgentRoute.rag_and_web).0.status
                ≢ EvidenceSufficiencyStatus.sufficient)))
assess-web_iff_example =
    assess-web_iff settings lower no_judge question asked retrieved (some ranked)
      AgentRoute.rag_and_web

abbrev traces : Dict String RetrievalTrace
traces = ("t1", ranked) ∷ []

abbrev recorded_traces : Dict String RetrievalTrace
recorded_traces =
    (assess_evidence settings lower no_judge AgentRoute.internal_rag AgentRoute.internal_rag
      question asked retrieved [] (some "t1") tool_actor traces).traces

abbrev kept_trace : RetrievalTrace
kept_trace = record {
  trace_id = "t1";
  actor_user_id = "engineer";
  routes = "dense" ∷ "answer_usability_gate" ∷ "evidence_sufficiency" ∷ [];
  candidates =
      record (candidate "c1" (literal 90 100)) {
        answer_eligible = true;
        answer_eligibility_reasons = "public_answer_gate_passed" ∷ [];
        answer_term_coverage = 4000;
      }
      ∷ record (candidate "c2" (literal 30 100)) {
        answer_eligibility_reasons =
            "below_public_answer_score" ∷ "below_relative_answer_floor"
            ∷ "insufficient_query_term_coverage" ∷ [];
      }
      ∷ [];
  cutoff_reason = "top_k+answer_usability_gate";
  final_evidence_ids = "c1" ∷ [];
  image_asset_ids = "i1" ∷ [];
}

found : found_trace traces (some "t1") tool_actor ≡ some ranked
unfolding get_trace lookup
found = refl

reused :
    reuse_trace_evidence (shelf DocumentLifecycle.published) recorded_traces "t1" tool_actor none 20
    ≡ some (vent ∷ [], kept_trace)
unfolding assess answer_eligible_evidence eligible_from gate_chunk gate_found gate_reasons marked
    candidate_named update_candidate max_score top_selected knowledge_scope deterministic_assessment
    first_status score_threshold is_judged judge_borderline web_allowed term_coverage terms_of
    latin_terms from_latin runs split_runs normalized_run without without_all bigrams concat_map
    set_of joined rounded_share nearest literal quotient rounded one lower rest_after
    assess_evidence assess_found assessment_of recorded_trace saved_traces image_ids_of
    distinct_from lookup insert get_trace reuse_trace_evidence by_id list_published_chunks
    is_accessible evidence_chunks
reused = refl

assess_evidence-reused_example :
    (chunk_ids (vent ∷ [])
      ≡ chunk_ids
          (assess_evidence settings lower no_judge AgentRoute.internal_rag AgentRoute.internal_rag
            question asked retrieved []
            (some "t1")
            tool_actor
            traces).reranked_evidence)
    × (all
          (contains
            (assess_evidence settings lower no_judge AgentRoute.internal_rag AgentRoute.internal_rag
              question asked retrieved []
              (some "t1")
              tool_actor
              traces).evidence_sufficiency.answer_eligible_ids)
          (chunk_ids (vent ∷ []))
        ≡ true)
assess_evidence-reused_example =
    assess_evidence-reused settings lower no_judge AgentRoute.internal_rag AgentRoute.internal_rag
      question asked retrieved [] "t1" tool_actor traces found (shelf DocumentLifecycle.published)
      tool_actor none 20 reused

-- 0.6 / 0.75 is a hair less than 0.8 as `float`s.
below_floor :
    gate_reasons settings KnowledgeScope.public_general
      (literal 75 100)
      2000
      (candidate "c3" (literal 60 100))
    ≡ "below_relative_answer_floor" ∷ []
unfolding gate_reasons literal quotient rounded one nearest
below_floor = refl
