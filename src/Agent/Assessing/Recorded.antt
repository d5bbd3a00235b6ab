-- ===== src/Agent/Assessing/Recorded.antt =====
-- The assessment of evidence and its later reuse: what a trace records is what the answer used.
use mathlib.Core.Path.{subst}
use semiconductor_agent_know.Base.{
  ℕ, String, true, not, ◌||◌, Option, some, List, [], ◌∷◌, ◌==◌, all, filter, contains, ◌≡◌, refl,
  ap, sym, ◌∙◌, arith, inl, inr, Bool-cases, Option-cases, is_some, string_eq,
}
use semiconductor_agent_know.Base.Dict.{Dict, lookup, insert, lookup-insert, lookup-insert_self}
use semiconductor_agent_know.Documents.Model.{ActorScope, Chunk}
use semiconductor_agent_know.Documents.Store.{Store}
use semiconductor_agent_know.Retrieval.{RetrievalConstraints, RetrievalTrace, reuse_trace_evidence}
use semiconductor_agent_know.Retrieval.Reuse.{reuse_trace_evidence_lem}
use semiconductor_agent_know.Agent.Text.{Codes}
use semiconductor_agent_know.Agent.Kinds.{AgentRoute, agent_route_eq}
use semiconductor_agent_know.Agent.Semantics.{SemanticFrame}
use semiconductor_agent_know.Agent.Model.{ConversationUnderstanding}
use semiconductor_agent_know.Agent.Eligibility.{Settings, answer_eligible_evidence}
use semiconductor_agent_know.Agent.Eligibility.Eligible.{chunk_ids}
use semiconductor_agent_know.Agent.Evidence.{Judgment, EvidenceSufficiencyAssessment, assess}
use semiconductor_agent_know.Agent.Assessing.{
  Assessed, found_trace, assessment_of, recorded_trace, saved_traces, assess_found, assess_evidence,
}

kept_ids-listed :
    (ids : List String) (cs : List Chunk)
    → all (contains ids) (chunk_ids (filter (λ (c : Chunk). contains ids c.chunk_id) cs)) ≡ true
kept_ids-listed ids [] = refl
kept_ids-listed ids (c ∷ cs) = ground (arith, kept_ids-listed ids cs)

some_inj {ℓ} : {A : Type ℓ} {a b : A} → some a ≡ some b → a ≡ b
some_inj h = ground arith

saved_traces-found :
    (a : EvidenceSufficiencyAssessment) (evidence : List Chunk) (id : String) (t : RetrievalTrace)
    (traces : Dict String RetrievalTrace)
    → lookup id (saved_traces a evidence (some id) (some t) traces)
      ≡ some (recorded_trace a evidence t)
unfolding saved_traces
saved_traces-found a evidence id t traces =
    let r = recorded_trace a evidence t in
    let first = lookup-insert_self id r traces in
    let both = lookup-insert t.trace_id id r (insert id r traces) in ground (arith, first, both)

reused-recorded_trace :
    (s : Store) (a : EvidenceSufficiencyAssessment) (evidence : List Chunk) (id : String)
    (m : RetrievalTrace) (traces : Dict String RetrievalTrace) (later : ActorScope)
    (constraints : Option RetrievalConstraints) (now : ℕ) {cs : List Chunk} {r : RetrievalTrace}
    → reuse_trace_evidence s
        (saved_traces a evidence (some id) (some m) traces)
        id
        later
        constraints
        now
      ≡ some (cs, r)
    → chunk_ids cs ≡ chunk_ids evidence
unfolding recorded_trace
reused-recorded_trace s a evidence id m traces later constraints now {cs} {r} h =
    let after = saved_traces a evidence (some id) (some m) traces in
    let (found, _, names, _) = reuse_trace_evidence_lem s after id later constraints now h in
    let same : some (recorded_trace a evidence m) ≡ some r =
      sym (saved_traces-found a evidence id m traces) ∙ found in
    names ∙ ap (λ (t : RetrievalTrace). t.final_evidence_ids) (sym (some_inj same))

module _ (settings : Settings) (casefold : Codes → Codes)
    (judge : String → SemanticFrame → List Chunk → Option Judgment) where
  assessment_of-keeps :
      (route initial_route : AgentRoute) (query : String) (u : ConversationUnderstanding)
      (evidence : List Chunk) (t : RetrievalTrace)
      → is_some
          (assessment_of settings casefold judge route initial_route query u evidence (some t)).1
        ≡ true
  unfolding assessment_of assess answer_eligible_evidence
  assessment_of-keeps route initial_route query u evidence t =
      elim (Bool-cases
        (not settings.evidence_sufficiency_enabled || (route == AgentRoute.tool_only))) [
          | inl e ↦ rw e refl
          | inr e ↦ rw e refl
        ]

  assessment_of-trace :
      (route initial_route : AgentRoute) (query : String) (u : ConversationUnderstanding)
      (evidence : List Chunk) (t : RetrievalTrace)
      → (r : RetrievalTrace) × ((assessment_of settings casefold judge route initial_route query u
            evidence
            (some t)).1
          ≡ some r)
  assessment_of-trace route initial_route query u evidence t =
      elim (Option-cases
        (assessment_of settings casefold judge route initial_route query u evidence (some t)).1) [
          | inr found ↦ found
          | inl n ↦
              let kept = assessment_of-keeps route initial_route query u evidence t in
              absurd (cc (kept, ap is_some n))
        ]

  abbrev after :
      AgentRoute
      → AgentRoute
      → String
      → ConversationUnderstanding
      → List Chunk
      → List String
      → String
      → Dict String RetrievalTrace
      → Option RetrievalTrace
      → Assessed
  after route initial_route query u evidence images id traces o =
      assess_found settings casefold judge route initial_route query u evidence images (some id)
        traces o

  Reuses : Store → ActorScope → Option RetrievalConstraints → ℕ → String → Assessed → Type 0
  Reuses s later constraints now id n =
      (cs : List Chunk) (r : RetrievalTrace)
      → reuse_trace_evidence s n.traces id later constraints now ≡ some (cs, r)
      → (chunk_ids cs ≡ chunk_ids n.reranked_evidence)
        × (all (contains n.evidence_sufficiency.answer_eligible_ids) (chunk_ids cs) ≡ true)

  assess_found-reused :
      (route initial_route : AgentRoute) (query : String) (u : ConversationUnderstanding)
      (evidence : List Chunk) (images : List String) (id : String)
      (traces : Dict String RetrievalTrace) (t : RetrievalTrace) (s : Store) (later : ActorScope)
      (constraints : Option RetrievalConstraints) (now : ℕ)
      → Reuses s later constraints now id
          (after route initial_route query u evidence images id traces (some t))
  unfolding assess_found Reuses
  assess_found-reused route initial_route query u evidence images id traces t s later constraints
        now cs r h =
      let (m, e) = assessment_of-trace route initial_route query u evidence t in
      let a =
        (assessment_of settings casefold judge route initial_route query u evidence (some t)).0 in
      let answers = filter (λ (c : Chunk). contains a.answer_eligible_ids c.chunk_id) evidence in
      let same = reused-recorded_trace s a answers id m traces later constraints now (rw e at h) in
      (same, rw same (kept_ids-listed a.answer_eligible_ids evidence))

  -- What a later question reuses of the trace of an answer is exactly the evidence that the answer
  -- was written from, and the assessment found each of it eligible for an answer.
  pub assess_evidence-reused :
      (route initial_route : AgentRoute) (query : String) (u : ConversationUnderstanding)
      (evidence : List Chunk) (images : List String) (id : String) (actor : ActorScope)
      (traces : Dict String RetrievalTrace) {t : RetrievalTrace}
      → found_trace traces (some id) actor ≡ some t
      → (s : Store) (later : ActorScope) (constraints : Option RetrievalConstraints) (now : ℕ)
        {cs : List Chunk} {r : RetrievalTrace}
      → reuse_trace_evidence s
          (assess_evidence settings casefold judge route initial_route query u evidence images
            (some id)
            actor
            traces).traces
          id
          later
          constraints
          now
        ≡ some (cs, r)
      → (chunk_ids cs
          ≡ chunk_ids
              (assess_evidence settings casefold judge route initial_route query u evidence images
                (some id)
                actor
                traces).reranked_evidence)
        × (all
              (contains
                (assess_evidence settings casefold judge route initial_route query u evidence images
                  (some id)
                  actor
                  traces).evidence_sufficiency.answer_eligible_ids)
              (chunk_ids cs)
            ≡ true)
  unfolding assess_evidence Reuses
  assess_evidence-reused route initial_route query u evidence images id actor traces {t} f s later
        constraints now {cs} {r} h =
      subst
        (λ o.
          Reuses s later constraints now id
            (after route initial_route query u evidence images id traces o))
        (sym f)
        (assess_found-reused route initial_route query u evidence images id traces t s later
          constraints now)
        cs r h
