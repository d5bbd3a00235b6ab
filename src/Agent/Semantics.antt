-- ===== src/Agent/Semantics.antt =====
-- What an understanding says of the wanted answer, and the status of evidence (contracts/models.py).
use semiconductor_agent_know.Base.{ℕ, true, ◌≡◌, ◌↔◌, arith, Key, eqb}

pub data ExpectedOutput : Type 0 where
  unspecified explanation enumeration records ranking trend diagnosis action transformation
        conversation :
      ExpectedOutput

abbrev expected_output_place : ExpectedOutput → ℕ
expected_output_place ExpectedOutput.unspecified = 0
expected_output_place ExpectedOutput.explanation = 1
expected_output_place ExpectedOutput.enumeration = 2
expected_output_place ExpectedOutput.records = 3
expected_output_place ExpectedOutput.ranking = 4
expected_output_place ExpectedOutput.trend = 5
expected_output_place ExpectedOutput.diagnosis = 6
expected_output_place ExpectedOutput.action = 7
expected_output_place ExpectedOutput.transformation = 8
expected_output_place ExpectedOutput.conversation = 9

pub expected_output_iff :
    (a b : ExpectedOutput)
    → (eqb (expected_output_place a) (expected_output_place b) ≡ true) ↔ (a ≡ b)
expected_output_iff a b = ground arith

instance abbrev pub expected_output_eq : Key ExpectedOutput
expected_output_eq = record {
  is_same = λ a b. eqb (expected_output_place a) (expected_output_place b);
  is_same_iff = expected_output_iff;
}

pub data KnowledgeScope : Type 0 where
  unspecified public_general internal_controlled mixed not_applicable : KnowledgeScope

abbrev knowledge_scope_place : KnowledgeScope → ℕ
knowledge_scope_place KnowledgeScope.unspecified = 0
knowledge_scope_place KnowledgeScope.public_general = 1
knowledge_scope_place KnowledgeScope.internal_controlled = 2
knowledge_scope_place KnowledgeScope.mixed = 3
knowledge_scope_place KnowledgeScope.not_applicable = 4

pub knowledge_scope_iff :
    (a b : KnowledgeScope)
    → (eqb (knowledge_scope_place a) (knowledge_scope_place b) ≡ true) ↔ (a ≡ b)
knowledge_scope_iff a b = ground arith

instance abbrev pub knowledge_scope_eq : Key KnowledgeScope
knowledge_scope_eq = record {
  is_same = λ a b. eqb (knowledge_scope_place a) (knowledge_scope_place b);
  is_same_iff = knowledge_scope_iff;
}

pub data EvidenceSufficiencyStatus : Type 0 where
  sufficient partial insufficient : EvidenceSufficiencyStatus

abbrev evidence_sufficiency_status_place : EvidenceSufficiencyStatus → ℕ
evidence_sufficiency_status_place EvidenceSufficiencyStatus.sufficient = 0
evidence_sufficiency_status_place EvidenceSufficiencyStatus.partial = 1
evidence_sufficiency_status_place EvidenceSufficiencyStatus.insufficient = 2

pub evidence_sufficiency_status_iff :
    (a b : EvidenceSufficiencyStatus)
    → (eqb (evidence_sufficiency_status_place a) (evidence_sufficiency_status_place b) ≡ true)
      ↔ (a ≡ b)
evidence_sufficiency_status_iff a b = ground arith

instance abbrev pub evidence_sufficiency_status_eq : Key EvidenceSufficiencyStatus
evidence_sufficiency_status_eq = record {
  is_same = λ a b. eqb (evidence_sufficiency_status_place a) (evidence_sufficiency_status_place b);
  is_same_iff = evidence_sufficiency_status_iff;
}

pub record SemanticFrame : Type 0 where
  pub expected_output : ExpectedOutput
  pub knowledge_scope : KnowledgeScope
