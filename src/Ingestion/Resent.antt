-- ===== src/Ingestion/Resent.antt =====
-- What retrying a job and sending it again do.
use semiconductor_agent_know.Base.{
  ℕ, ◌+◌, ◌≤◌, String, true, ◌≡◌, refl, Option, none, some, [], ◌∷◌, ◌++◌, arith, truthy, string_eq,
}
use semiconductor_agent_know.Base.Dict.{lookup, insert, lookup-insert_self}
use semiconductor_agent_know.Base.Result.{ok, err}
use semiconductor_agent_know.Ingestion.{
  IngestionStatus, IngestionEvent, IngestionJob, JobError, Ledger, stage_eq, accepted, event,
  event_fits, logged, again, retry_event, finished, tell_job, create_or_get_job, prepare_job_retry,
  moved, update_job,
}

-- A job that fails and is retried is queued again as its next attempt, with no error left, and its
-- log has two events more, if the progress of the failure is at most 100 and the job was not at an
-- attempt 0.
pub retry_after_failure :
    (now : ℕ) (id message : String) (progress : ℕ) (code : Option String) (s : Ledger)
    {j : IngestionJob}
    → lookup id s.jobs ≡ some j
    → progress ≤ 100
    → 1 ≤ j.attempt
    → (k : IngestionJob) × ((prepare_job_retry id
          (update_job now id IngestionStatus.failed message progress code s).1).0
        ≡ ok k)
      × (k.status ≡ IngestionStatus.queued)
      × (k.attempt ≡ j.attempt + 1)
      × (k.error_code ≡ none)
      × (k.failed_stage ≡ none)
      × (a : IngestionEvent) × (b : IngestionEvent) × (k.events ≡ (j.events ++ a ∷ []) ++ b ∷ [])
unfolding prepare_job_retry update_job tell_job
retry_after_failure now id message progress code s {j} f p q =
    let told =
      event (moved IngestionStatus.failed progress j) IngestionStatus.failed message progress in
    let fits : event_fits told ≡ true = ground (arith, p, q) in
    let failing =
      finished now IngestionStatus.failed message progress code j
        (logged told (moved IngestionStatus.failed progress j)) in
    (
      logged (retry_event (again failing)) (again failing),
      ground (arith, f, fits, lookup-insert_self id failing s.jobs),
      refl,
      refl,
      refl,
      refl,
      _,
      _,
      refl,
    )

-- A failure whose progress is above 100 is refused, but the job is at the failed stage then, with
-- that progress and with no event more.
half_written :
    (now : ℕ) (id message : String) (progress : ℕ) (code : Option String) (s : Ledger)
    {j : IngestionJob}
    → lookup id s.jobs ≡ some j
    → 101 ≤ progress
    → update_job now id IngestionStatus.failed message progress code s ≡ (
      err JobError.validation_error,
      record s { jobs = insert id (moved IngestionStatus.failed progress j) s.jobs },
    )
unfolding update_job tell_job
half_written now id message progress code s f p = ground (arith, f, p)

module _ (j : IngestionJob) (s : Ledger) where
  created_found :
      {x : IngestionJob} {t : Ledger}
      → lookup j.idempotency_key s.job_keys ≡ none
      → create_or_get_job j s ≡ (ok x, t)
      → (lookup j.idempotency_key t.job_keys ≡ some j.job_id) × (lookup j.job_id t.jobs ≡ some x)
  unfolding create_or_get_job
  created_found {x} {t} new h = (
    ground (arith, lookup-insert_self j.idempotency_key j.job_id s.job_keys),
    ground (arith, lookup-insert_self j.job_id (accepted j) s.jobs),
  )

-- A job that is sent again under its idempotency key, with whatever other fields, is answered by the
-- job that was accepted first, and nothing changes. The id of that job is not empty.
pub create_or_get_job_twice :
    (j again : IngestionJob) (s : Ledger) {x : IngestionJob} {t : Ledger}
    → lookup j.idempotency_key s.job_keys ≡ none
    → truthy j.job_id ≡ true
    → again.idempotency_key ≡ j.idempotency_key
    → create_or_get_job j s ≡ (ok x, t)
    → create_or_get_job again t ≡ (ok x, t)
unfolding create_or_get_job
create_or_get_job_twice j again s {x} {t} new id same h =
    let (k, f) = created_found j s new h in ground (arith, same, id, k, f)
