-- ===== src/Documents/Codes.antt =====
-- The warning codes of a lifecycle operation. The source spells each as its name, in small letters
-- where it is raised and in capitals where `_warning_code` records it; `raised` is the code of an
-- exception that a collaborator raised.
use semiconductor_agent_know.Base.{ℕ, String, Bool, ◌==◌, eqb, ◌&&◌, string_eq}

pub data Code : Type 0 where
  revision_not_approved access_scope_missing source_manifest_link_missing source_manifest_missing
        source_manifest_not_approved source_manifest_link_mismatch source_manifest_scope_mismatch
        source_manifest_dataset_mismatch source_manifest_license_mismatch
        source_manifest_license_status_mismatch source_manifest_redistribution_mismatch
        source_license_requires_review source_redistribution_requires_review
        source_object_hash_mismatch source_manifest_snapshot_hash_mismatch
        source_ingestion_policy_mismatch source_ingestion_policy_empty
        raw_table_rows_cannot_be_vectorized :
      Code
  revision_not_withdrawn revision_not_yet_effective revision_expired revision_has_no_chunks
        target_index_version_inactive source_hash_mismatch retained_object_missing
        retained_object_hash_mismatch :
      Code
  mongodb_blocking_failed task_queue_unavailable revision_not_found revision_not_blocked : Code
  raised : String → Code

-- `a == b` on codes, as one place for each constant and the text of a raised one.
abbrev code_place : Code → ℕ × String
code_place Code.revision_not_approved = (0, "")
code_place Code.access_scope_missing = (1, "")
code_place Code.source_manifest_link_missing = (2, "")
code_place Code.source_manifest_missing = (3, "")
code_place Code.source_manifest_not_approved = (4, "")
code_place Code.source_manifest_link_mismatch = (5, "")
code_place Code.source_manifest_scope_mismatch = (6, "")
code_place Code.source_manifest_dataset_mismatch = (7, "")
code_place Code.source_manifest_license_mismatch = (8, "")
code_place Code.source_manifest_license_status_mismatch = (9, "")
code_place Code.source_manifest_redistribution_mismatch = (10, "")
code_place Code.source_license_requires_review = (11, "")
code_place Code.source_redistribution_requires_review = (12, "")
code_place Code.source_object_hash_mismatch = (13, "")
code_place Code.source_manifest_snapshot_hash_mismatch = (14, "")
code_place Code.source_ingestion_policy_mismatch = (15, "")
code_place Code.source_ingestion_policy_empty = (16, "")
code_place Code.raw_table_rows_cannot_be_vectorized = (17, "")
code_place Code.revision_not_withdrawn = (18, "")
code_place Code.revision_not_yet_effective = (19, "")
code_place Code.revision_expired = (20, "")
code_place Code.revision_has_no_chunks = (21, "")
code_place Code.target_index_version_inactive = (22, "")
code_place Code.source_hash_mismatch = (23, "")
code_place Code.retained_object_missing = (24, "")
code_place Code.retained_object_hash_mismatch = (25, "")
code_place Code.mongodb_blocking_failed = (26, "")
code_place Code.task_queue_unavailable = (27, "")
code_place Code.revision_not_found = (28, "")
code_place Code.revision_not_blocked = (29, "")
code_place (Code.raised w) = (30, w)

abbrev pub same_code : Code → Code → Bool
same_code a b = let (i, s) = code_place a in let (j, t) = code_place b in eqb i j && s == t

-- What a modelled method raises. `external` is an exception of a collaborator, by the warning code
-- that `_warning_code` makes of it.
pub data Failure : Type 0 where
  key_error permission_error state_conflict revision_conflict request_conflict row_count
        inactive_target :
      Failure
  validation : Code → Failure
  external : String → Failure

-- `_warning_code`: a text in small letters is its own code, any other exception the name of its type.
pub warning_code : Failure → Code
warning_code Failure.key_error = Code.raised "KEYERROR"
warning_code Failure.permission_error = Code.raised "PERMISSIONERROR"
warning_code Failure.state_conflict = Code.raised "LIFECYCLESTATECONFLICTERROR"
warning_code Failure.revision_conflict = Code.raised "REVISIONLIFECYCLECONFLICTERROR"
warning_code Failure.request_conflict = Code.raised "LIFECYCLEOPERATIONREQUESTCONFLICTERROR"
warning_code Failure.row_count = Code.raised "RUNTIMEERROR"
warning_code Failure.inactive_target = Code.raised "LIFECYCLEVALIDATIONERROR"
warning_code (Failure.validation c) = c
warning_code (Failure.external w) = Code.raised w
