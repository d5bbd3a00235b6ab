-- ===== src/Ingestion.antt =====
-- The ledger of ingestion jobs in `DemoStore` (semikb/storage/memory.py).
pub mod Jobs
pub mod Resent
use semiconductor_agent_know.Base.{
  ℕ, ◌+◌, String, Bool, true, false, not, ◌&&◌, ◌||◌, Option, none, some, List, [], ◌∷◌, ◌++◌, ◌≡◌,
  ◌↔◌, arith, Key, ◌==◌, eqb, truthy, leb, if◌then◌else◌, string_eq,
}
use semiconductor_agent_know.Base.Dict.{Dict, lookup, insert}
use semiconductor_agent_know.Base.Result.{Result, ok, err, Exec}
use semiconductor_agent_know.Documents.Model.{ObjectRef}
use semiconductor_agent_know.Resilience.{ProviderAttemptAudit}

pub data IngestionStatus : Type 0 where
  queued validating parsing quality_check embedding staged published failed : IngestionStatus

abbrev stage_place : IngestionStatus → ℕ
stage_place IngestionStatus.queued = 0
stage_place IngestionStatus.validating = 1
stage_place IngestionStatus.parsing = 2
stage_place IngestionStatus.quality_check = 3
stage_place IngestionStatus.embedding = 4
stage_place IngestionStatus.staged = 5
stage_place IngestionStatus.published = 6
stage_place IngestionStatus.failed = 7

pub stage_iff : (a b : IngestionStatus) → (eqb (stage_place a) (stage_place b) ≡ true) ↔ (a ≡ b)
stage_iff a b = ground arith

instance abbrev pub stage_eq : Key IngestionStatus
stage_eq = record { is_same = λ a b. eqb (stage_place a) (stage_place b); is_same_iff = stage_iff }

pub record IngestionEvent : Type 0 where
  pub job_id : String
  pub stage : IngestionStatus
  pub message : String
  pub attempt : ℕ
  pub progress : ℕ
  pub provider_attempts : List ProviderAttemptAudit

-- The parser's audit of a job, which one method writes.
pub record ParseAudit : Type 0 where
  pub parse_contract_version : String
  pub parser_name : String
  pub parser_version : String
  pub provider_name : Option String
  pub provider_version : Option String
  pub upstream_project : Option String
  pub upstream_commit : Option String
  pub chunker_version : String
  pub parse_warning_codes : List String
  pub parse_metrics : Dict String String

pub record IngestionJob : Type 0 where
  pub job_id : String
  pub document_id : String
  pub revision : String
  pub source_ref : Option ObjectRef
  pub parsed_ref : Option ObjectRef
  pub status : IngestionStatus
  pub current_stage : IngestionStatus
  pub progress : ℕ
  pub attempt : ℕ
  pub idempotency_key : String
  pub parse : ParseAudit
  pub provider_attempts : List ProviderAttemptAudit
  pub chunks_count : ℕ
  pub images_count : ℕ
  pub tables_count : ℕ
  pub error_code : Option String
  pub safe_error_summary : Option String
  pub failed_stage : Option IngestionStatus
  pub started_at : Option ℕ
  pub finished_at : Option ℕ
  pub events : List IngestionEvent

pub record Ledger : Type 0 where
  pub jobs : Dict String IngestionJob
  pub job_keys : Dict String String

-- A job that is not there raises `KeyError`, an event that is out of bounds `ValidationError`.
pub data JobError : Type 0 where
  key_error validation_error : JobError

abbrev pub Action : Type 0
Action = Exec JobError Ledger IngestionJob

abbrev pub event : IngestionJob → IngestionStatus → String → ℕ → IngestionEvent
event job stage message progress = record {
  job_id = job.job_id;
  stage = stage;
  message = message;
  attempt = job.attempt;
  progress = progress;
  provider_attempts = [];
}

-- The bounds on the fields of `IngestionEvent`; the progress is never below 0 here.
abbrev pub event_fits : IngestionEvent → Bool
event_fits e = leb 1 e.attempt && leb e.progress 100

abbrev pub logged : IngestionEvent → IngestionJob → IngestionJob
logged e job = record job { events = job.events ++ e ∷ [] }

-- A method that changes one job.
unfoldable pub change_job : String → (IngestionJob → IngestionJob) → Action
change_job job_id f s = elim (lookup job_id s.jobs) [
  | none ↦ (err JobError.key_error, s)
  | some job ↦ (ok (f job), record s { jobs = insert job_id (f job) s.jobs })
]

-- A method that writes to a job, then builds an event, appends it and finishes. The job is shared,
-- so that what was written before an event that is out of bounds stays.
unfoldable pub tell_job :
    String
    → (IngestionJob → IngestionJob)
    → (IngestionJob → IngestionEvent)
    → (IngestionJob → IngestionJob → IngestionJob)
    → Action
tell_job job_id write told finish s = elim (lookup job_id s.jobs) [
  | none ↦ (err JobError.key_error, s)
  | some job ↦
      let e = told (write job) in
      let done = finish job (logged e (write job)) in
      if event_fits e
      then (ok done, record s { jobs = insert job_id done s.jobs })
      else (err JobError.validation_error, record s { jobs = insert job_id (write job) s.jobs })
]

abbrev pub accepted : IngestionJob → IngestionJob
accepted job = logged (event job IngestionStatus.queued "Ingestion job accepted." 0) job

-- The ledger with a job under its id and its key.
abbrev pub added : IngestionJob → IngestionJob → Ledger → Ledger
added job saved s = record s {
  jobs = insert job.job_id saved s.jobs;
  job_keys = insert job.idempotency_key job.job_id s.job_keys;
}

abbrev pub create_new : IngestionJob → Action
create_new job s =
    if event_fits (event job IngestionStatus.queued "Ingestion job accepted." 0)
    then (ok (accepted job), added job (accepted job) s)
    else (err JobError.validation_error, added job job s)

unfoldable pub create_or_get_job : IngestionJob → Action
create_or_get_job job s = elim (lookup job.idempotency_key s.job_keys) [
  | none ↦ create_new job s
  | some id ↦
      let found : Result JobError IngestionJob × Ledger = elim (lookup id s.jobs) [
        | none ↦ (err JobError.key_error, s)
        | some existing ↦ (ok existing, s)
      ] in
      if truthy id then found else create_new job s
]

-- The writes of a retry, and its event.
abbrev pub again : IngestionJob → IngestionJob
again job = record job {
  attempt = job.attempt + 1;
  status = IngestionStatus.queued;
  current_stage = IngestionStatus.queued;
  progress = 0;
  error_code = none;
  safe_error_summary = none;
  failed_stage = none;
  finished_at = none;
}

abbrev pub retry_event : IngestionJob → IngestionEvent
retry_event job = event job IngestionStatus.queued "Ingestion retry accepted." 0

unfoldable pub prepare_job_retry : String → Action
unfolding tell_job
prepare_job_retry job_id s = elim (lookup job_id s.jobs) [
  | none ↦ (err JobError.key_error, s)
  | some job ↦
      let retried = tell_job job_id again retry_event (λ _ told. told) s in
      if job.status == IngestionStatus.failed then retried else (ok job, s)
]

-- `error_code or "INGESTION_FAILED"`
abbrev pub code_or_default : Option String → String
code_or_default none = "INGESTION_FAILED"
code_or_default (some c) = if truthy c then c else "INGESTION_FAILED"

abbrev pub first_time : ℕ → Option ℕ → Option ℕ
first_time now none = some now
first_time now (some t) = some t

-- The writes before the event, and those after it on a job that was at `previous` before.
abbrev pub moved : IngestionStatus → ℕ → IngestionJob → IngestionJob
moved stage progress job = record job { status = stage; current_stage = stage; progress = progress }

abbrev pub finished :
    ℕ → IngestionStatus → String → ℕ → Option String → IngestionJob → IngestionJob → IngestionJob
finished now stage message progress error_code previous told =
    let begun =
      if stage == IngestionStatus.validating
      then record told { started_at = first_time now told.started_at }
      else told in
    if stage == IngestionStatus.failed
    then record begun {
      error_code = some (code_or_default error_code);
      safe_error_summary = some message;
      failed_stage = some previous.current_stage;
      finished_at = some now;
    }
    else if ((stage == IngestionStatus.staged) || (stage == IngestionStatus.published))
        && eqb progress 100
    then record begun { finished_at = some now }
    else begun

unfoldable pub update_job : ℕ → String → IngestionStatus → String → ℕ → Option String → Action
unfolding tell_job
update_job now job_id stage message progress error_code =
    tell_job job_id (moved stage progress) (λ job. event job stage message progress)
      (finished now stage message progress error_code)

abbrev pub or_old : Option ObjectRef → Option ObjectRef → Option ObjectRef
or_old none old = old
or_old (some new) old = some new

unfoldable pub set_job_artifacts : String → Option ObjectRef → Option ObjectRef → Action
unfolding change_job
set_job_artifacts job_id source parsed = change_job job_id (λ job. record job {
  source_ref = or_old source job.source_ref;
  parsed_ref = or_old parsed job.parsed_ref;
})

unfoldable pub set_job_counts : String → ℕ → ℕ → ℕ → Action
unfolding change_job
set_job_counts job_id chunks images tables =
    change_job job_id
      (λ job. record job { chunks_count = chunks; images_count = images; tables_count = tables })

unfoldable pub set_job_parse_audit : String → ParseAudit → Action
unfolding change_job
set_job_parse_audit job_id audit = change_job job_id (λ job. record job { parse = audit })

abbrev pub with_attempts : List ProviderAttemptAudit → IngestionJob → IngestionJob
with_attempts attempts job = record job { provider_attempts = job.provider_attempts ++ attempts }

abbrev pub attempts_event : List ProviderAttemptAudit → String → IngestionJob → IngestionEvent
attempts_event attempts message job = record (event job job.current_stage message job.progress) {
  provider_attempts = attempts;
}

unfoldable pub record_provider_attempts : String → List ProviderAttemptAudit → String → Action
unfolding tell_job
record_provider_attempts job_id attempts message =
    tell_job job_id (with_attempts attempts) (attempts_event attempts message) (λ _ told. told)
