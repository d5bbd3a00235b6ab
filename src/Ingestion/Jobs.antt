-- ===== src/Ingestion/Jobs.antt =====
-- What the event log of an ingestion job says.
use semiconductor_agent_know.Base.{
  ℕ, ◌≤◌, String, false, ◌≡◌, refl, ap, sym, ◌∙◌, ◌⊎◌, inl, inr, Option, none, some, List, [], ◌∷◌,
  ◌++◌, arith, Bool-cases, Option-cases, ◌==◌, string_eq, truthy,
}
use semiconductor_agent_know.Base.Dict.{Dict, lookup, insert, lookup-empty, insert-found}
use semiconductor_agent_know.Documents.Model.{ObjectRef}
use semiconductor_agent_know.Resilience.{ProviderAttemptAudit}
use semiconductor_agent_know.Ingestion.{
  IngestionStatus, IngestionEvent, IngestionJob, ParseAudit, Ledger, stage_eq, event, logged,
  event_fits, create_new, accepted, change_job, tell_job, create_or_get_job, again, retry_event,
  prepare_job_retry, moved, finished, update_job, set_job_artifacts, set_job_counts,
  set_job_parse_audit, with_attempts, attempts_event, record_provider_attempts,
}

abbrev pub last : List IngestionEvent → Option IngestionEvent
last [] = none
last (e ∷ []) = some e
last (_ ∷ e ∷ es) = last (e ∷ es)

last-append : (es : List IngestionEvent) (e : IngestionEvent) → last (es ++ e ∷ []) ≡ some e
last-append [] e = refl
last-append (x ∷ []) e = refl
last-append (x ∷ y ∷ es) e = last-append (y ∷ es) e

-- The last event of the log tells the stage, the attempt and the progress of the job.
pub record Told (j : IngestionJob) : Type 0 where
  pub newest : IngestionEvent
  pub at_end : last j.events ≡ some newest
  pub stage : newest.stage ≡ j.current_stage
  pub attempt : newest.attempt ≡ j.attempt
  pub progress : newest.progress ≡ j.progress
  pub status : j.status ≡ j.current_stage

-- A job as it is sent: queued, and not begun.
abbrev pub IsNew : IngestionJob → Type 0
IsNew j =
    (j.status ≡ IngestionStatus.queued)
    × (j.current_stage ≡ IngestionStatus.queued)
    × (j.progress ≡ 0)

-- The job has a progress or an attempt that no event can tell.
abbrev pub Untold : IngestionJob → Type 0
Untold j = (101 ≤ j.progress) ⊎ (j.attempt ≡ 0)

unfit : (e : IngestionEvent) → event_fits e ≡ false → (101 ≤ e.progress) ⊎ (e.attempt ≡ 0)
unfit e h = ground arith

accepted-Told : (j : IngestionJob) → IsNew j → Told (accepted j)
accepted-Told j (s, c, p) = record {
  newest = _;
  at_end = last-append j.events _;
  stage = sym c;
  attempt = refl;
  progress = sym p;
  status = s ∙ sym c;
}

-- The job after the writes of a retry is told by the event of the retry.
retried-Told : (j : IngestionJob) → Told (logged (retry_event (again j)) (again j))
retried-Told j = record {
  newest = _;
  at_end = last-append j.events _;
  stage = refl;
  attempt = refl;
  progress = refl;
  status = refl;
}

module _ (now : ℕ) (stage : IngestionStatus) (message : String) (progress : ℕ)
    (code : Option String) (j : IngestionJob) where
  abbrev written : IngestionJob
  written = moved stage progress j

  abbrev after : IngestionJob
  after =
      finished now stage message progress code j
        (logged (event written stage message progress) written)

  finished_events : after.events ≡ j.events ++ event written stage message progress ∷ []
  finished_events = ground arith

  finished-Told : Told after
  finished-Told = record {
    newest = event written stage message progress;
    at_end = ap last finished_events ∙ last-append j.events _;
    stage = ground arith;
    attempt = ground arith;
    progress = ground arith;
    status = ground arith;
  }

with_attempts-Told :
    (attempts : List ProviderAttemptAudit) (message : String) (j : IngestionJob)
    → j.status ≡ j.current_stage
    → Told (
        logged
          (attempts_event attempts message (with_attempts attempts j))
          (with_attempts attempts j))
with_attempts-Told attempts message j same = record {
  newest = _;
  at_end = last-append j.events _;
  stage = refl;
  attempt = refl;
  progress = refl;
  status = same;
}

-- The status of a job is its stage, and its log tells it unless no event can.
abbrev pub Honest : IngestionJob → Type 0
Honest j = (j.status ≡ j.current_stage) × (Told j ⊎ Untold j)

Told-Honest : (j : IngestionJob) → Told j → Honest j
Told-Honest j t = (t.status, inl t)

-- Every job of the ledger is honest.
abbrev pub Sound : Ledger → Type 0
Sound s = (id : String) (j : IngestionJob) → lookup id s.jobs ≡ some j → Honest j

insert-Sound :
    (id : String) (j : IngestionJob) (s : Ledger) (keys : Dict String String)
    → Honest j
    → Sound s
    → Sound (record { jobs = insert id j s.jobs; job_keys = keys })
insert-Sound id j s keys t h k w f = elim (insert-found id k s.jobs f) [
  | inl (_, e) ↦ rw (sym e) t
  | inr (_, g) ↦ h k w g
]

change_job-Sound :
    (id : String) (f : IngestionJob → IngestionJob) (s : Ledger)
    → ((j : IngestionJob) → Honest j → Honest (f j))
    → Sound s
    → Sound (change_job id f s).1
unfolding change_job
change_job-Sound id f s keeps h = elim (Option-cases (lookup id s.jobs)) [
  | inl missing ↦ rw (change_job, missing) h
  | inr (j, found) ↦
      rw (change_job, found) (insert-Sound id (f j) s s.job_keys (keeps j (h id j found)) h)
]

-- A method that tells what it writes keeps the ledger sound, if its event is out of bounds too.
tell_job-Sound :
    (id : String) (write : IngestionJob → IngestionJob) (told : IngestionJob → IngestionEvent)
    (finish : IngestionJob → IngestionJob → IngestionJob) (s : Ledger)
    → ((j : IngestionJob) → Honest j → event_fits (told (write j)) ≡ false → Honest (write j))
    → ((j : IngestionJob) → Honest j → Honest (finish j (logged (told (write j)) (write j))))
    → Sound s
    → Sound (tell_job id write told finish s).1
unfolding tell_job
tell_job-Sound id write told finish s half whole h = elim (Option-cases (lookup id s.jobs)) [
  | inl missing ↦ rw (tell_job, missing) h
  | inr (j, found) ↦ elim (Bool-cases (event_fits (told (write j)))) [
    | inl fits ↦
        rw (tell_job, found, fits) (insert-Sound id _ s s.job_keys (whole j (h id j found)) h)
    | inr fails ↦
        rw (tell_job, found, fails)
          (insert-Sound id (write j) s s.job_keys (half j (h id j found) fails) h)
  ]
]

create_new-Sound : (j : IngestionJob) (s : Ledger) → IsNew j → Sound s → Sound (create_new j s).1
create_new-Sound j s n h =
    let (a, c, _) = n in
    let first = event j IngestionStatus.queued "Ingestion job accepted." 0 in
    let keys = insert j.idempotency_key j.job_id s.job_keys in
    elim (Bool-cases (event_fits first)) [
      | inl fits ↦
          rw fits (insert-Sound j.job_id (accepted j) s keys (Told-Honest _ (accepted-Told j n)) h)
      | inr fails ↦
          rw fails (insert-Sound j.job_id j s keys (a ∙ sym c, inr (inr (ground (arith, fails)))) h)
    ]

create_or_get_job_cases :
    (j : IngestionJob) (s : Ledger)
    → ((create_or_get_job j s).1 ≡ s) ⊎ ((create_or_get_job j s).1 ≡ (create_new j s).1)
unfolding create_or_get_job
create_or_get_job_cases j s = elim (Option-cases (lookup j.idempotency_key s.job_keys)) [
  | inl new ↦ rw (create_or_get_job, new) (inr refl)
  | inr (id, known) ↦ elim (Bool-cases (truthy id)) [
    | inr empty ↦ rw (create_or_get_job, known, empty) (inr refl)
    | inl named ↦ elim (Option-cases (lookup id s.jobs)) [
      | inl lost ↦ rw (create_or_get_job, known, named, lost) (inl refl)
      | inr (x, found) ↦ rw (create_or_get_job, known, named, found) (inl refl)
    ]
  ]
]

create_or_get_job-Sound :
    (j : IngestionJob) (s : Ledger) → IsNew j → Sound s → Sound (create_or_get_job j s).1
create_or_get_job-Sound j s n h = elim (create_or_get_job_cases j s) [
  | inl same ↦ rw same h
  | inr new ↦ rw new (create_new-Sound j s n h)
]

prepare_job_retry_cases :
    (id : String) (s : Ledger)
    → ((prepare_job_retry id s).1 ≡ s)
      ⊎ ((prepare_job_retry id s).1 ≡ (tell_job id again retry_event (λ _ told. told) s).1)
unfolding prepare_job_retry
prepare_job_retry_cases id s = elim (Option-cases (lookup id s.jobs)) [
  | inl missing ↦ rw (prepare_job_retry, missing) (inl refl)
  | inr (j, found) ↦ elim (Bool-cases (j.status == IngestionStatus.failed)) [
    | inl over ↦ rw (prepare_job_retry, found, over) (inr refl)
    | inr other ↦ rw (prepare_job_retry, found, other) (inl refl)
  ]
]

prepare_job_retry-Sound : (id : String) (s : Ledger) → Sound s → Sound (prepare_job_retry id s).1
prepare_job_retry-Sound id s h = elim (prepare_job_retry_cases id s) [
  | inl same ↦ rw same h
  | inr retried ↦ rw retried (
      tell_job-Sound id again retry_event (λ _ told. told) s (λ j _ e. (refl, inr (ground arith)))
        (λ j _. Told-Honest _ (retried-Told j)) h)
]

-- A call of the ledger.
pub data JobCall : Type 0 where
  create : (j : IngestionJob) → IsNew j → JobCall
  retry : String → JobCall
  update : ℕ → String → IngestionStatus → String → ℕ → Option String → JobCall
  artifacts : String → Option ObjectRef → Option ObjectRef → JobCall
  set_counts : String → ℕ → ℕ → ℕ → JobCall
  parse_audit : String → ParseAudit → JobCall
  attempts : String → List ProviderAttemptAudit → String → JobCall

abbrev pub run_call : JobCall → Ledger → Ledger
run_call (JobCall.create j _) s = (create_or_get_job j s).1
run_call (JobCall.retry id) s = (prepare_job_retry id s).1
run_call (JobCall.update now id stage message progress code) s =
    (update_job now id stage message progress code s).1
run_call (JobCall.artifacts id a b) s = (set_job_artifacts id a b s).1
run_call (JobCall.set_counts id a b c) s = (set_job_counts id a b c s).1
run_call (JobCall.parse_audit id a) s = (set_job_parse_audit id a s).1
run_call (JobCall.attempts id a message) s = (record_provider_attempts id a message s).1

-- The calls in their order.
abbrev pub run_calls : List JobCall → Ledger → Ledger
run_calls [] s = s
run_calls (c ∷ cs) s = run_calls cs (run_call c s)

-- A write to what the log does not tell.
same_log :
    (j : IngestionJob) {k : IngestionJob}
    → Honest j
    → (k.events ≡ j.events)
      × (k.current_stage ≡ j.current_stage)
      × (k.attempt ≡ j.attempt)
      × (k.progress ≡ j.progress)
      × (k.status ≡ j.status)
    → Honest k
same_log j (same, inl t) (e, c, a, p, u) = (
  u ∙ same ∙ sym c,
  inl (record {
    newest = t.newest;
    at_end = ap last e ∙ t.at_end;
    stage = t.stage ∙ sym c;
    attempt = t.attempt ∙ sym a;
    progress = t.progress ∙ sym p;
    status = u ∙ t.status ∙ sym c;
  }),
)
same_log j (same, inr over) (e, c, a, p, u) = (u ∙ same ∙ sym c, inr (ground arith))

update_job-Sound :
    (now : ℕ) (id : String) (stage : IngestionStatus) (message : String) (progress : ℕ)
    (code : Option String) (s : Ledger)
    → Sound s
    → Sound (update_job now id stage message progress code s).1
unfolding update_job
update_job-Sound now id stage message progress code s h =
    tell_job-Sound id (moved stage progress) (λ j. event j stage message progress)
      (finished now stage message progress code) s
      (λ j _ e. (refl, inr (unfit (event (moved stage progress j) stage message progress) e)))
      (λ j _. Told-Honest _ (finished-Told now stage message progress code j)) h

record_provider_attempts-Sound :
    (id : String) (audits : List ProviderAttemptAudit) (message : String) (s : Ledger)
    → Sound s
    → Sound (record_provider_attempts id audits message s).1
unfolding record_provider_attempts
record_provider_attempts-Sound id audits message s h =
    tell_job-Sound id (with_attempts audits) (attempts_event audits message) (λ _ told. told) s
      (λ j (same, _) e.
        (same, inr (unfit (attempts_event audits message (with_attempts audits j)) e)))
      (λ j (same, _). Told-Honest _ (with_attempts-Told audits message j same)) h

run_call-Sound : (c : JobCall) (s : Ledger) → Sound s → Sound (run_call c s)
unfolding set_job_artifacts set_job_counts set_job_parse_audit
run_call-Sound (JobCall.create j n) s h = create_or_get_job-Sound j s n h
run_call-Sound (JobCall.retry id) s h = prepare_job_retry-Sound id s h
run_call-Sound (JobCall.update now id stage message progress code) s h =
    update_job-Sound now id stage message progress code s h
run_call-Sound (JobCall.artifacts id a b) s h =
    change_job-Sound id _ s (λ j t. same_log j t (refl, refl, refl, refl, refl)) h
run_call-Sound (JobCall.set_counts id a b c) s h =
    change_job-Sound id _ s (λ j t. same_log j t (refl, refl, refl, refl, refl)) h
run_call-Sound (JobCall.parse_audit id a) s h =
    change_job-Sound id _ s (λ j t. same_log j t (refl, refl, refl, refl, refl)) h
run_call-Sound (JobCall.attempts id a message) s h = record_provider_attempts-Sound id a message s h

all_Sound : (cs : List JobCall) (s : Ledger) → Sound s → Sound (run_calls cs s)
all_Sound [] s h = h
all_Sound (c ∷ cs) s h = all_Sound cs (run_call c s) (run_call-Sound c s h)

-- Whatever calls come in whatever order, refused ones included, on a ledger that is empty at first:
-- the status of every job is its stage, and the last event in its log tells its stage, its attempt
-- and its progress, unless its progress is above 100 or its attempt is 0.
pub run_calls-Sound :
    (cs : List JobCall) → Sound (run_calls cs (record { jobs = []; job_keys = [] }))
run_calls-Sound cs =
    all_Sound cs _ (λ id j f. ground (arith, lookup-empty {V = IngestionJob} id, f))
