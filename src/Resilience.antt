-- ===== src/Resilience.antt =====
-- Retries of calls to external providers (semikb_provider_resilience/__init__.py). A duration is a
-- number of ticks. The call, the sleeper and the clock act on a world `W` that is a parameter.
pub mod Attempt
pub mod Journal
pub mod Backoff
use semiconductor_agent_know.Base.{
  ℕ, zero, suc, ◌+◌, ◌-◌, ◌≤◌, String, Bool, true, false, ◌&&◌, ◌≡◌, Option, none, some, List, [],
  ◌∷◌, ◌++◌, ltb, leb, eqb, is_some, min, length, if◌then◌else◌,
}
use semiconductor_agent_know.Agent.Text.{codes}
use semiconductor_agent_know.Base.Result.{Result, ok, err}

pub data ProviderFailureKind : Type 0 where
  timeout rate_limited upstream_5xx transport invalid_response rejected configuration
        stream_interrupted :
      ProviderFailureKind

pub data Outcome : Type 0 where
  succeeded retrying failed : Outcome

pub record ProviderAttemptAudit : Type 0 where
  pub provider : String
  pub operation : String
  pub attempt : ℕ
  pub max_attempts : ℕ
  pub outcome : Outcome
  pub failure_kind : Option ProviderFailureKind
  pub status_code : Option ℕ
  pub retryable : Bool
  pub retry_after_seconds : Option ℕ
  pub latency_ms : ℕ

-- The bounds on the fields of `ProviderAttemptAudit`; `minute` is 60 seconds. The latency is never
-- below 0 here.
abbrev pub within : ℕ → ℕ → ℕ → Bool
within least most n = leb least n && leb n most

abbrev pub text_fits : ℕ → String → Bool
text_fits most text = within 1 most (length (codes text))

abbrev pub none_or : (ℕ → Bool) → Option ℕ → Bool
none_or test none = true
none_or test (some n) = test n

abbrev pub status_fits : Option ℕ → Bool
status_fits status_code = none_or (within 100 599) status_code

abbrev pub audit_fits : ℕ → ProviderAttemptAudit → Bool
audit_fits minute a =
    text_fits 64 a.provider
    && text_fits 96 a.operation
    && within 1 10 a.attempt
    && within 1 10 a.max_attempts
    && status_fits a.status_code
    && none_or (λ n. leb n minute) a.retry_after_seconds

-- A policy that passed the checks of `__post_init__`; durations are not negative.
pub record ProviderRetryPolicy : Type 0 where
  pub max_attempts : ℕ
  pub backoff_base_seconds : ℕ
  pub backoff_max_seconds : ℕ
  pub at_least_one : 1 ≤ max_attempts
  pub at_most_ten : max_attempts ≤ 10

-- `base * 2 ** n`
abbrev pub doubled : ℕ → ℕ → ℕ
doubled base zero = base
doubled base (suc n) = doubled base n + doubled base n

-- The delay that was asked for, or the exponential one.
abbrev pub requested : Option ℕ → ℕ → ℕ
requested none exponential = exponential
requested (some seconds) _ = seconds

unfoldable pub delay : ProviderRetryPolicy → ℕ → Option ℕ → ℕ
delay p attempt retry_after_seconds =
    min (requested retry_after_seconds (doubled p.backoff_base_seconds (attempt - 1)))
      p.backoff_max_seconds

pub record ProviderCallFailure : Type 0 where
  pub failure_kind : ProviderFailureKind
  pub safe_message : String
  pub status_code : Option ℕ
  pub retryable : Bool
  pub retry_after_seconds : Option ℕ

-- What a call raises: a failure of this library, a timeout, an error of the HTTP client, or another
-- exception.
pub data Raised : Type 0 where
  call_failure : ProviderCallFailure → Raised
  timeout_error http_error other_error : Raised

abbrev pub plain_failure : ProviderFailureKind → String → Bool → ProviderCallFailure
plain_failure kind message retryable = record {
  failure_kind = kind;
  safe_message = message;
  status_code = none;
  retryable = retryable;
  retry_after_seconds = none;
}

abbrev pub failure_from_exception : Raised → String → ProviderCallFailure
failure_from_exception (Raised.call_failure f) message = f
failure_from_exception Raised.timeout_error message =
    plain_failure ProviderFailureKind.timeout message true
failure_from_exception Raised.http_error message =
    plain_failure ProviderFailureKind.transport message true
failure_from_exception Raised.other_error message =
    plain_failure ProviderFailureKind.transport message true

abbrev pub invalid_response_failure : String → ProviderCallFailure
invalid_response_failure message = plain_failure ProviderFailureKind.invalid_response message false

-- A parsed `retry-after` header: a number of seconds from now, or a number below zero.
pub data Seconds : Type 0 where
  ahead : ℕ → Seconds
  below_zero : Seconds

-- `min(max(float(raw), 0.0), 60.0)`
abbrev pub clamped : Seconds → ℕ → ℕ
clamped (Seconds.ahead n) longest = min n longest
clamped Seconds.below_zero longest = 0

-- A header that is missing, blank or no number asks for no delay.
abbrev pub retry_after : Option Seconds → ℕ → Option ℕ
retry_after none longest = none
retry_after (some n) longest = some (clamped n longest)

-- The parts of a response that the classification reads; `longest` is a minute.
unfoldable pub failure_from_response : ℕ → Option Seconds → String → ℕ → ProviderCallFailure
failure_from_response status header message longest =
    if eqb status 429
    then record {
      failure_kind = ProviderFailureKind.rate_limited;
      safe_message = message;
      status_code = some status;
      retryable = true;
      retry_after_seconds = retry_after header longest;
    }
    else if leb 500 status
    then record {
      failure_kind = ProviderFailureKind.upstream_5xx;
      safe_message = message;
      status_code = some status;
      retryable = true;
      retry_after_seconds = retry_after header longest;
    }
    else record {
      failure_kind = ProviderFailureKind.rejected;
      safe_message = message;
      status_code = some status;
      retryable = false;
      retry_after_seconds = none;
    }

pub record ProviderCallResult (T : Type 0) : Type 0 where
  pub value : T
  pub attempts : List ProviderAttemptAudit

-- `ProviderRetriesExhausted`, the `ValidationError` of an audit that is out of bounds, or the
-- assertion after the loop.
pub data RetryError : Type 0 where
  exhausted : ProviderCallFailure → List ProviderAttemptAudit → RetryError
  validation_error assertion_error : RetryError

-- The call, `time.perf_counter` and the sleeper.
pub record World (W : Type 0) (T : Type 0) : Type 0 where
  pub call : W → Result Raised T × W
  pub perf_counter : W → ℕ
  pub sleeper : ℕ → W → W

module _ {W T : Type 0} (env : World W T) (minute : ℕ) (provider operation : String)
    (policy : ProviderRetryPolicy) where
  -- The audit of an attempt that returned, and that of one that raised.
  abbrev pub success : ℕ → ℕ → ProviderAttemptAudit
  success attempt latency = record {
    provider = provider;
    operation = operation;
    attempt = attempt;
    max_attempts = policy.max_attempts;
    outcome = Outcome.succeeded;
    failure_kind = none;
    status_code = none;
    retryable = false;
    retry_after_seconds = none;
    latency_ms = latency;
  }

  abbrev pub failure : ℕ → ℕ → Outcome → ProviderCallFailure → Option ℕ → ProviderAttemptAudit
  failure attempt latency outcome f wait = record {
    provider = provider;
    operation = operation;
    attempt = attempt;
    max_attempts = policy.max_attempts;
    outcome = outcome;
    failure_kind = some f.failure_kind;
    status_code = f.status_code;
    retryable = f.retryable;
    retry_after_seconds = wait;
    latency_ms = latency;
  }

  -- The loop from an attempt on, with the audits so far. The fuel is the number of attempts that
  -- are left in the range.
  unfoldable pub retry_from :
      ℕ → ℕ → List ProviderAttemptAudit → W → Result RetryError (ProviderCallResult T) × W
  unfolding delay
  retry_from zero attempt attempts w = (err RetryError.assertion_error, w)
  retry_from (suc fuel) attempt attempts w =
      let (r, v) = env.call w in
      let latency = env.perf_counter v - env.perf_counter w in
      elim r [
        | ok value ↦
            let a = success attempt latency in
            if audit_fits minute a
            then (ok (record { value = value; attempts = attempts ++ a ∷ [] }), v)
            else (err RetryError.validation_error, v)
        | err e ↦
            let f = failure_from_exception e "The provider request failed." in
            let wait = delay policy attempt f.retry_after_seconds in
            let retried = failure attempt latency Outcome.retrying f (some wait) in
            let last = failure attempt latency Outcome.failed f none in
            let rest =
              retry_from fuel (suc attempt) (attempts ++ retried ∷ []) (env.sleeper wait v) in
            if f.retryable && ltb attempt policy.max_attempts
            then (if audit_fits minute retried then rest else (err RetryError.validation_error, v))
            else if audit_fits minute last
            then (err (RetryError.exhausted f (attempts ++ last ∷ [])), v)
            else (err RetryError.validation_error, v)
      ]

  unfoldable pub run_with_retry : W → Result RetryError (ProviderCallResult T) × W
  unfolding retry_from
  run_with_retry w = retry_from policy.max_attempts 1 [] w
