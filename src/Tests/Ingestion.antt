-- ===== src/Tests/Ingestion.antt =====
-- One ingestion job that is sent twice, fails and is retried, and the publication of the manual.
use semiconductor_agent_know.Base.{
  Bool, ◌≡◌, refl, none, arith, List, [], ◌∷◌, ◌++◌, string_eq, pair_eq, ◌==◌,
}
use semiconductor_agent_know.Base.Dict.{lookup, insert, lookup-insert_self}
use semiconductor_agent_know.Base.Result.{ok}
use semiconductor_agent_know.Documents.Kinds.{DocumentLifecycle}
use semiconductor_agent_know.Documents.Model.{SourceManifest}
use semiconductor_agent_know.Documents.Repository.Consistency.{Consistent}
use semiconductor_agent_know.Documents.Publication.{
  Shelf, publish_document, finalize_inactive_document,
}
use semiconductor_agent_know.Documents.Publication.Outcome.{publish_document-Consistent}
use semiconductor_agent_know.Ingestion.{
  IngestionStatus, IngestionEvent, IngestionJob, Ledger, accepted, create_or_get_job,
  prepare_job_retry, update_job,
}
use semiconductor_agent_know.Ingestion.Jobs.{JobCall, run_calls, Sound, run_calls-Sound}
use semiconductor_agent_know.Ingestion.Resent.{retry_after_failure}
use semiconductor_agent_know.Tests.Data.{shelf, manual}
use semiconductor_agent_know.Tests.Lifecycle.{shelf-Consistent}

abbrev job : IngestionJob
job = record {
  job_id = "ing1";
  document_id = "manual";
  revision = "r1";
  source_ref = none;
  parsed_ref = none;
  status = IngestionStatus.queued;
  current_stage = IngestionStatus.queued;
  progress = 0;
  attempt = 1;
  idempotency_key = "manual:r1";
  parse = record {
    parse_contract_version = "v1";
    parser_name = "pdf";
    parser_version = "1";
    provider_name = none;
    provider_version = none;
    upstream_project = none;
    upstream_commit = none;
    chunker_version = "v1";
    parse_warning_codes = [];
    parse_metrics = [];
  };
  provider_attempts = [];
  chunks_count = 0;
  images_count = 0;
  tables_count = 0;
  error_code = none;
  safe_error_summary = none;
  failed_stage = none;
  started_at = none;
  finished_at = none;
  events = [];
}

abbrev no_jobs : Ledger
no_jobs = record { jobs = []; job_keys = [] }

abbrev one_job : Ledger
one_job = record { jobs = insert "ing1" (accepted job) []; job_keys = insert "manual:r1" "ing1" [] }

job-created : create_or_get_job job no_jobs ≡ (ok (accepted job), one_job)
unfolding create_or_get_job lookup
job-created = refl

retry_after_failure_example :
    (k : IngestionJob) × ((prepare_job_retry "ing1"
        (update_job 9 "ing1" IngestionStatus.failed "No text." 40 none one_job).1).0
      ≡ ok k)
    × (k.status ≡ IngestionStatus.queued)
    × (k.attempt ≡ 2)
    × (k.error_code ≡ none)
    × (k.failed_stage ≡ none)
    × (a : IngestionEvent) × (b : IngestionEvent) × (k.events
        ≡ ((accepted job).events ++ a ∷ []) ++ b ∷ [])
retry_after_failure_example =
    retry_after_failure 9 "ing1" "No text." 40 none one_job
      (lookup-insert_self "ing1" (accepted job) []) (omega arith) (omega arith)

abbrev calls : List JobCall
calls =
    JobCall.create job (refl, refl, refl)
    ∷ JobCall.update 3 "ing1" IngestionStatus.parsing "Parsing." 20 none
    ∷ JobCall.update 9 "ing1" IngestionStatus.failed "No text." 101 none
    ∷ JobCall.retry "ing1"
    ∷ []

run_calls-Sound_example : Sound (run_calls calls no_jobs)
run_calls-Sound_example = run_calls-Sound calls

abbrev staged_shelf : Shelf
staged_shelf = record { store = shelf DocumentLifecycle.staged; index_releases = [] }

abbrev same_hash : SourceManifest → SourceManifest → Bool
same_hash a b = a.source_hash == b.source_hash

publish_document-Consistent_example :
    Consistent (publish_document (manual DocumentLifecycle.staged) staged_shelf).1.store
    × Consistent
        (finalize_inactive_document "manual" "r1" DocumentLifecycle.superseded staged_shelf).1.store
publish_document-Consistent_example =
    publish_document-Consistent (manual DocumentLifecycle.staged) "manual" "r1"
      DocumentLifecycle.superseded staged_shelf (shelf-Consistent DocumentLifecycle.staged)
