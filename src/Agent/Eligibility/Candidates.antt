-- ===== src/Agent/Eligibility/Candidates.antt =====
-- What the marks leave of the candidates: all but the three fields that hold the marks.
use semiconductor_agent_know.Base.{
  ℕ, String, false, Option, none, some, List, [], ◌∷◌, ◌==◌, map, is_empty, ◌≡◌, refl, ap, sym, ◌∙◌,
  arith, inl, inr, Bool-cases, Option-cases, string_eq,
}
use semiconductor_agent_know.Retrieval.{RetrievalCandidate}
use semiconductor_agent_know.Agent.Semantics.{KnowledgeScope}
use semiconductor_agent_know.Agent.Eligibility.{
  Settings, candidate_named, update_candidate, reset_candidate, marked, gate_reasons,
}

-- A candidate without its marks.
abbrev pub bare : RetrievalCandidate → RetrievalCandidate
bare k = record k {
  answer_eligible = false;
  answer_eligibility_reasons = [];
  answer_term_coverage = 0;
}

abbrev pub bare_found : Option RetrievalCandidate → Option RetrievalCandidate
bare_found none = none
bare_found (some k) = some (bare k)

pub candidate_named-bare :
    (id : String) (ks : List RetrievalCandidate)
    → candidate_named id (map bare ks) ≡ bare_found (candidate_named id ks)
unfolding candidate_named
candidate_named-bare id [] = refl
candidate_named-bare id (k ∷ ks) = elim (Option-cases (candidate_named id ks)) [
  | inl e ↦ ground (arith, e, candidate_named-bare id ks)
  | inr (j, e) ↦ ground (arith, e, candidate_named-bare id ks)
]

pub bare-reset : (ks : List RetrievalCandidate) → map bare (map reset_candidate ks) ≡ map bare ks
bare-reset [] = refl
bare-reset (k ∷ ks) = ap (λ r. bare k ∷ r) (bare-reset ks)

-- A mark of the candidate that is found changes none of the other fields.
pub bare-update :
    (id : String) (j : RetrievalCandidate) {k : RetrievalCandidate} (ks : List RetrievalCandidate)
    → candidate_named id ks ≡ some k
    → bare j ≡ bare k
    → map bare (update_candidate id j ks) ≡ map bare ks
unfolding candidate_named update_candidate
bare-update id j [] h e = refl
bare-update id j {k} (x ∷ ks) h e = elim (Option-cases (candidate_named id ks)) [
  | inl n ↦ elim (Bool-cases (x.chunk_id == id)) [
    | inl same ↦
        let found : x ≡ k = ground (arith, n, same) in
        rw (n, same) (ap (λ r. r ∷ map bare ks) (e ∙ ap bare (sym found)))
    | inr other ↦ rw (n, other) refl
  ]
  | inr (y, n) ↦
      let found : y ≡ k = ground (arith, n) in
      rw n (ap (λ r. bare x ∷ r) (bare-update id j ks (n ∙ ap some found) e))
]

pub bare-marked :
    (settings : Settings) (scope : KnowledgeScope) (top coverage : ℕ) (k : RetrievalCandidate)
    → bare (marked settings scope top coverage k) ≡ bare k
unfolding marked
bare-marked settings scope top coverage k =
    elim (Bool-cases (is_empty (gate_reasons settings scope top coverage k))) [
      | inl e ↦ rw e refl
      | inr e ↦ rw e refl
    ]
