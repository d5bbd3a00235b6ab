-- ===== src/Documents/Kinds.antt =====
-- The enumerations of contracts/models.py that govern a document, with their identity tests.
use semiconductor_agent_know.Base.{ℕ, true, ◌≡◌, ◌↔◌, arith, Key, eqb}

pub data ApprovalStatus : Type 0 where
  draft approved rejected : ApprovalStatus

pub data DocumentLifecycle : Type 0 where
  staged published superseded expired quarantined withdrawn : DocumentLifecycle

pub data SourceManifestStatus : Type 0 where
  draft approved retired : SourceManifestStatus

pub data SourceLicenseStatus : Type 0 where
  verified declared unclear restricted : SourceLicenseStatus

pub data RedistributionPolicy : Type 0 where
  allowed restricted prohibited unknown : RedistributionPolicy

pub data SourceIndexArtifact : Type 0 where
  document_chunks data_dictionary dataset_profile analysis_report image_text : SourceIndexArtifact

pub data ChunkType : Type 0 where
  text table image_text : ChunkType

pub data DocumentLifecycleAction : Type 0 where
  withdraw restore : DocumentLifecycleAction

pub data DocumentLifecycleOperationStatus : Type 0 where
  requested blocking vector_cleanup withdrawn restore_validating restore_indexing restored
        compensation_required failed :
      DocumentLifecycleOperationStatus

pub data CompensationStatus : Type 0 where
  not_required pending running completed failed : CompensationStatus

-- `a is b` on the members of one enumeration is the equality of their places in it.
abbrev approval_place : ApprovalStatus → ℕ
approval_place ApprovalStatus.draft = 0
approval_place ApprovalStatus.approved = 1
approval_place ApprovalStatus.rejected = 2

pub approval_iff :
    (a b : ApprovalStatus) → (eqb (approval_place a) (approval_place b) ≡ true) ↔ (a ≡ b)
approval_iff a b = ground arith

instance abbrev pub approval_eq : Key ApprovalStatus
approval_eq = record {
  is_same = λ a b. eqb (approval_place a) (approval_place b);
  is_same_iff = approval_iff;
}

abbrev lifecycle_place : DocumentLifecycle → ℕ
lifecycle_place DocumentLifecycle.staged = 0
lifecycle_place DocumentLifecycle.published = 1
lifecycle_place DocumentLifecycle.superseded = 2
lifecycle_place DocumentLifecycle.expired = 3
lifecycle_place DocumentLifecycle.quarantined = 4
lifecycle_place DocumentLifecycle.withdrawn = 5

pub lifecycle_iff :
    (a b : DocumentLifecycle) → (eqb (lifecycle_place a) (lifecycle_place b) ≡ true) ↔ (a ≡ b)
lifecycle_iff a b = ground arith

instance abbrev pub lifecycle_eq : Key DocumentLifecycle
lifecycle_eq = record {
  is_same = λ a b. eqb (lifecycle_place a) (lifecycle_place b);
  is_same_iff = lifecycle_iff;
}

abbrev license_place : SourceLicenseStatus → ℕ
license_place SourceLicenseStatus.verified = 0
license_place SourceLicenseStatus.declared = 1
license_place SourceLicenseStatus.unclear = 2
license_place SourceLicenseStatus.restricted = 3

pub license_iff :
    (a b : SourceLicenseStatus) → (eqb (license_place a) (license_place b) ≡ true) ↔ (a ≡ b)
license_iff a b = ground arith

instance abbrev pub license_eq : Key SourceLicenseStatus
license_eq = record {
  is_same = λ a b. eqb (license_place a) (license_place b);
  is_same_iff = license_iff;
}

abbrev redistribution_place : RedistributionPolicy → ℕ
redistribution_place RedistributionPolicy.allowed = 0
redistribution_place RedistributionPolicy.restricted = 1
redistribution_place RedistributionPolicy.prohibited = 2
redistribution_place RedistributionPolicy.unknown = 3

pub redistribution_iff :
    (a b : RedistributionPolicy)
    → (eqb (redistribution_place a) (redistribution_place b) ≡ true) ↔ (a ≡ b)
redistribution_iff a b = ground arith

instance abbrev pub redistribution_eq : Key RedistributionPolicy
redistribution_eq = record {
  is_same = λ a b. eqb (redistribution_place a) (redistribution_place b);
  is_same_iff = redistribution_iff;
}

abbrev artifact_place : SourceIndexArtifact → ℕ
artifact_place SourceIndexArtifact.document_chunks = 0
artifact_place SourceIndexArtifact.data_dictionary = 1
artifact_place SourceIndexArtifact.dataset_profile = 2
artifact_place SourceIndexArtifact.analysis_report = 3
artifact_place SourceIndexArtifact.image_text = 4

pub artifact_iff :
    (a b : SourceIndexArtifact) → (eqb (artifact_place a) (artifact_place b) ≡ true) ↔ (a ≡ b)
artifact_iff a b = ground arith

instance abbrev pub artifact_eq : Key SourceIndexArtifact
artifact_eq = record {
  is_same = λ a b. eqb (artifact_place a) (artifact_place b);
  is_same_iff = artifact_iff;
}

abbrev action_place : DocumentLifecycleAction → ℕ
action_place DocumentLifecycleAction.withdraw = 0
action_place DocumentLifecycleAction.restore = 1

pub action_iff :
    (a b : DocumentLifecycleAction) → (eqb (action_place a) (action_place b) ≡ true) ↔ (a ≡ b)
action_iff a b = ground arith

instance abbrev pub action_eq : Key DocumentLifecycleAction
action_eq = record {
  is_same = λ a b. eqb (action_place a) (action_place b);
  is_same_iff = action_iff;
}
