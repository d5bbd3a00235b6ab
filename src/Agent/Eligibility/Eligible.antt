-- ===== src/Agent/Eligibility/Eligible.antt =====
-- The gate marks the candidates while it goes through the evidence; what it lets through is what a
-- test on the candidates before the marks lets through.
use semiconductor_agent_know.Base.{
  ℕ, ◌≤◌, String, Bool, true, false, not, ◌&&◌, Option, none, some, List, [], ◌∷◌, ◌==◌, map,
  filter, is_empty, In, In-filter, In-filter_intro, ◌≡◌, ◌≢◌, ◌↔◌, ◌⊎◌, inl, inr, refl, ap, sym,
  ◌∙◌, arith, Bool-cases, Option-cases, string_eq, if◌then◌else◌, ltb, refuted, In-map_intro,
}
use semiconductor_agent_know.Doubles.{quotient}
use semiconductor_agent_know.Documents.Model.{Chunk}
use semiconductor_agent_know.Retrieval.{RetrievalCandidate, RetrievalTrace}
use semiconductor_agent_know.Agent.Text.{Codes}
use semiconductor_agent_know.Agent.Semantics.{
  KnowledgeScope, knowledge_scope_eq, knowledge_scope_iff,
}
use semiconductor_agent_know.Agent.Terms.{term_coverage}
use semiconductor_agent_know.Agent.Eligibility.{
  Settings, candidate_named, update_candidate, reset_candidate, top_selected, marked, gate_reasons,
  gate_found, gate_chunk, eligible_from, answer_eligible_evidence,
}
use semiconductor_agent_know.Agent.Eligibility.Candidates.{
  bare, bare_found, candidate_named-bare, bare-reset, bare-update, bare-marked,
}

abbrev gated :
    Bool → Bool → List RetrievalCandidate → List RetrievalCandidate → Bool × List RetrievalCandidate
gated b x ys zs = if b then (x, ys) else (false, zs)

gated-marks :
    (b x : Bool) (ys zs : List RetrievalCandidate)
    → map bare ys ≡ map bare zs
    → ((gated b x ys zs).0 ≡ (b && x)) × (map bare (gated b x ys zs).1 ≡ map bare zs)
gated-marks true x ys zs h = (refl, h)
gated-marks false x ys zs h = (refl, refl)

abbrev pub chunk_ids : List Chunk → List String
chunk_ids cs = map (λ (c : Chunk). c.chunk_id) cs

module _ (settings : Settings) (casefold : Codes → Codes) (query : String)
    (scope : KnowledgeScope) where
  abbrev pub coverage_of : Chunk → ℕ
  coverage_of c = term_coverage casefold query (c.chunk_text ∷ [])

  -- The test of a chunk against one candidate.
  abbrev pub grades : ℕ → Chunk → Option RetrievalCandidate → Bool
  grades top c none = false
  grades top c (some k) = k.selected && is_empty (gate_reasons settings scope top (coverage_of c) k)

  grades-bare :
      (top : ℕ) (c : Chunk) (o : Option RetrievalCandidate)
      → grades top c (bare_found o) ≡ grades top c o
  unfolding gate_reasons
  grades-bare top c none = refl
  grades-bare top c (some k) = refl

  abbrev pub is_graded : ℕ → List RetrievalCandidate → Chunk → Bool
  is_graded top ks c = grades top c (candidate_named c.chunk_id (map bare ks))

  gate_found-graded :
      (top : ℕ) (c : Chunk) (ks : List RetrievalCandidate) (o : Option RetrievalCandidate)
      → candidate_named c.chunk_id ks ≡ o
      → ((gate_found settings casefold query scope top c ks o).0 ≡ grades top c o)
        × (map bare (gate_found settings casefold query scope top c ks o).1 ≡ map bare ks)
  unfolding gate_found
  gate_found-graded top c ks none e = (refl, refl)
  gate_found-graded top c ks (some k) e =
      let m = marked settings scope top (coverage_of c) k in
      gated-marks k.selected _ (update_candidate c.chunk_id m ks) ks
        (bare-update c.chunk_id m ks e (bare-marked settings scope top (coverage_of c) k))

  gate_chunk-graded :
      (top : ℕ) (c : Chunk) (ks : List RetrievalCandidate)
      → ((gate_chunk settings casefold query scope top c ks).0 ≡ is_graded top ks c)
        × (map bare (gate_chunk settings casefold query scope top c ks).1 ≡ map bare ks)
  unfolding gate_chunk
  gate_chunk-graded top c ks =
      let o = candidate_named c.chunk_id ks in
      let (fits, same) = gate_found-graded top c ks o refl in
      (
        fits ∙ sym (ap (grades top c) (candidate_named-bare c.chunk_id ks) ∙ grades-bare top c o),
        same,
      )

  eligible_from-filter :
      (top : ℕ) (cs : List Chunk) (ks os : List RetrievalCandidate)
      → map bare ks ≡ map bare os
      → ((eligible_from settings casefold query scope top cs ks).0 ≡ filter (is_graded top os) cs)
        × ((eligible_from settings casefold query scope top cs ks).1
            ≡ chunk_ids (filter (λ c. not (is_graded top os c)) cs))
  unfolding eligible_from
  eligible_from-filter top [] ks os h = (refl, refl)
  eligible_from-filter top (c ∷ cs) ks os h =
      let (fits, kept) = gate_chunk-graded top c ks in
      let next = (gate_chunk settings casefold query scope top c ks).1 in
      let (e, r) = eligible_from-filter top cs next os (kept ∙ h) in
      let test : (gate_chunk settings casefold query scope top c ks).0 ≡ is_graded top os c =
        fits ∙ ap (λ bs. grades top c (candidate_named c.chunk_id bs)) h in
      elim (Bool-cases (is_graded top os c)) [
        | inl g ↦ rw (test, g) (ap (λ rest. c ∷ rest) e, r)
        | inr g ↦ rw (test, g) (e, ap (λ rest. c.chunk_id ∷ rest) r)
      ]

  -- A candidate that is selected, and, for an answer from public knowledge, is protected or has the
  -- score, the share of the best score and the coverage that are asked for.
  abbrev pub Passes : ℕ → Chunk → RetrievalCandidate → Type 0
  Passes top c k =
      (scope ≢ KnowledgeScope.public_general)
      ⊎ ((k.protected_evidence ≡ true)
          ⊎ ((settings.retrieval_public_answer_min_score ≤ k.rerank_score)
              × ((top ≡ 0)
                  ⊎ (settings.retrieval_answer_relative_floor ≤ quotient k.rerank_score top))
              × (settings.retrieval_answer_min_term_coverage ≤ coverage_of c)))

  abbrev pub Answers : RetrievalTrace → Chunk → Type 0
  Answers t c =
      (k : RetrievalCandidate) × (candidate_named c.chunk_id t.candidates ≡ some k)
      × (k.selected ≡ true)
      × Passes (top_selected t.candidates) c k

  gate_reasons-Passes :
      (top : ℕ) (c : Chunk) (k : RetrievalCandidate)
      → is_empty (gate_reasons settings scope top (coverage_of c) k) ≡ true
      → Passes top c k
  unfolding gate_reasons
  gate_reasons-Passes top c k h = elim (Bool-cases (scope == KnowledgeScope.public_general)) [
    | inr s ↦ inl (λ e. cc (s, (knowledge_scope_iff scope KnowledgeScope.public_general).1 e))
    | inl s ↦ elim (Bool-cases k.protected_evidence) [
      | inl p ↦ inr (inl p)
      | inr p ↦ elim (Bool-cases (ltb 0 top)) [
        | inl z ↦ inr (inr (ground arith, inr (ground arith), ground arith))
        | inr z ↦ inr (inr (ground arith, inl (ground arith), ground arith))
      ]
    ]
  ]

  Passes-gate_reasons :
      (top : ℕ) (c : Chunk) (k : RetrievalCandidate)
      → Passes top c k
      → is_empty (gate_reasons settings scope top (coverage_of c) k) ≡ true
  unfolding gate_reasons
  Passes-gate_reasons top c k (inl n) =
      let s =
        refuted (scope == KnowledgeScope.public_general)
          (λ e. n ((knowledge_scope_iff scope KnowledgeScope.public_general).0 e)) in
      rw s refl
  Passes-gate_reasons top c k (inr (inl p)) = ground arith
  Passes-gate_reasons top c k (inr (inr (a, inl z, d))) = ground arith
  Passes-gate_reasons top c k (inr (inr (a, inr b, d))) = ground arith

  is_graded-Answers :
      (t : RetrievalTrace) (c : Chunk)
      → (is_graded (top_selected t.candidates) t.candidates c ≡ true) ↔ Answers t c
  is_graded-Answers t c =
      let top = top_selected t.candidates in
      let o = candidate_named c.chunk_id t.candidates in
      let plain : is_graded top t.candidates c ≡ grades top c o =
        ap (grades top c) (candidate_named-bare c.chunk_id t.candidates) ∙ grades-bare top c o in
      (
        λ h. elim (Option-cases o) [
          | inl e ↦ absurd (cc (h, plain, ap (grades top c) e))
          | inr (k, e) ↦
              let g : grades top c (some k) ≡ true = sym (plain ∙ ap (grades top c) e) ∙ h in
              (k, e, ground arith, gate_reasons-Passes top c k (ground arith))
        ],
        λ (k, e, s, p).
            plain ∙ ap (grades top c) e ∙ ground (arith, s, Passes-gate_reasons top c k p),
      )

  -- With a trace, the evidence that is eligible is exactly the evidence whose candidate was selected
  -- and, for an answer from public knowledge, is protected or reaches the score, the share of the
  -- best selected score and the coverage of the query that the settings ask for. The share is the
  -- quotient of the two `float`s, rounded, and is not asked for where the best score is 0. The ids of all
  -- other evidence are rejected, so that none is lost.
  pub answer_eligible_evidence_iff :
      (evidence : List Chunk) (t : RetrievalTrace) (c : Chunk)
      → In c evidence
      → (In c (answer_eligible_evidence settings casefold query scope evidence (some t)).0
          ↔ Answers t c)
        × (In c (answer_eligible_evidence settings casefold query scope evidence (some t)).0
            ⊎ In c.chunk_id
                (answer_eligible_evidence settings casefold query scope evidence (some t)).1)
  unfolding answer_eligible_evidence
  answer_eligible_evidence_iff evidence t c m =
      let ks = t.candidates in
      let test = is_graded (top_selected ks) ks in
      let (e, r) =
        eligible_from-filter (top_selected ks) evidence (map reset_candidate ks) ks
          (bare-reset ks) in
      rw (e, r)
        (
          (
            λ n. (is_graded-Answers t c).0 (In-filter test evidence n).1,
            λ a. In-filter_intro test evidence m ((is_graded-Answers t c).1 a),
          ),
          elim (Bool-cases (test c)) [
            | inl g ↦ inl (In-filter_intro test evidence m g)
            | inr g ↦ inr (
                In-map_intro (λ (d : Chunk). d.chunk_id) (filter (λ d. not (test d)) evidence)
                  (In-filter_intro (λ d. not (test d)) evidence m (rw g refl)))
          ],
        )
