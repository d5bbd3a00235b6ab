-- ===== src/Resilience/Attempt.antt =====
-- One attempt of `run_with_retry`, and why its audit may be out of bounds.
use semiconductor_agent_know.Base.{
  ℕ, suc, ◌-◌, ◌≤◌, ◌<◌, String, Bool, true, false, ◌&&◌, ◌≡◌, refl, ◌⊎◌, inl, inr, none, some,
  List, [], ◌∷◌, ◌++◌, arith, Bool-cases, ltb, leb,
}
use semiconductor_agent_know.Base.Result.{Result, ok, err}
use semiconductor_agent_know.Resilience.{
  ProviderAttemptAudit, ProviderRetryPolicy, ProviderCallFailure, ProviderCallResult, Outcome,
  Raised, RetryError, World, text_fits, within, none_or, status_fits, audit_fits, success, failure,
  delay, failure_from_exception, retry_from,
}

in_range : (n : ℕ) → 1 ≤ n → n ≤ 10 → within 1 10 n ≡ true
in_range n one ten = ground arith

-- The fields that may take an audit out of bounds.
abbrev Faulty : ℕ → ProviderAttemptAudit → Type 0
Faulty minute a =
    (text_fits 64 a.provider ≡ false)
    ⊎ (text_fits 96 a.operation ≡ false)
    ⊎ (status_fits a.status_code ≡ false)
    ⊎ (none_or (λ n. leb n minute) a.retry_after_seconds ≡ false)

audit_fits-Faulty :
    (minute : ℕ) (a : ProviderAttemptAudit)
    → within 1 10 a.attempt ≡ true
    → within 1 10 a.max_attempts ≡ true
    → audit_fits minute a ≡ false
    → Faulty minute a
audit_fits-Faulty minute a k m h = elim (Bool-cases (text_fits 64 a.provider)) [
  | inr bad ↦ inl bad
  | inl provider ↦ elim (Bool-cases (text_fits 96 a.operation)) [
    | inr bad ↦ inr (inl bad)
    | inl operation ↦ elim (Bool-cases (status_fits a.status_code)) [
      | inr bad ↦ inr (inr (inl bad))
      | inl status ↦ inr (inr (inr (rw (provider, operation, k, m, status) at h)))
    ]
  ]
]

module _ {W T : Type 0} (env : World W T) (minute : ℕ) (provider operation : String)
    (p : ProviderRetryPolicy) where
  abbrev pub classified : Raised → ProviderCallFailure
  classified x = failure_from_exception x "The provider request failed."

  -- Why the audit of the attempt `k` that is made in the world `w` is out of bounds: a name is
  -- empty or too long, or the call raised with a status that is out of bounds, or with a failure
  -- that is worth a retry after more than a minute.
  abbrev pub OutOfBounds : ℕ → W → Type 0
  OutOfBounds k w =
      (text_fits 64 provider ≡ false)
      ⊎ (text_fits 96 operation ≡ false)
      ⊎ ((x : Raised) × ((env.call w).0 ≡ err x)
          × ((status_fits (classified x).status_code ≡ false)
              ⊎ (((classified x).retryable ≡ true)
                  × (minute < delay p k (classified x).retry_after_seconds))))

  module _ (fuel k : ℕ) (before : List ProviderAttemptAudit) (w : W) where
    abbrev pub after_call : W
    after_call = (env.call w).1

    abbrev pub latency : ℕ
    latency = env.perf_counter after_call - env.perf_counter w

    -- The wait after a failure that is retried.
    abbrev pub wait : Raised → ℕ
    wait x = delay p k (classified x).retry_after_seconds

    -- The audits that the attempt may write.
    abbrev pub good : ProviderAttemptAudit
    good = success env minute provider operation p k latency

    abbrev pub again : Raised → ProviderAttemptAudit
    again x =
        failure env minute provider operation p k latency Outcome.retrying (classified x)
          (some (wait x))

    abbrev pub last : Raised → ProviderAttemptAudit
    last x = failure env minute provider operation p k latency Outcome.failed (classified x) none

    abbrev pub more : Raised → Bool
    more x = (classified x).retryable && ltb k p.max_attempts

    abbrev pub run : Result RetryError (ProviderCallResult T) × W
    run = retry_from env minute provider operation p (suc fuel) k before w

    pub retry_from-value :
        (v : T)
        → (env.call w).0 ≡ ok v
        → audit_fits minute good ≡ true
        → run ≡ (ok (record { value = v; attempts = before ++ good ∷ [] }), after_call)
    unfolding retry_from
    retry_from-value v e fits = rw (retry_from, e, fits) refl

    pub retry_from-failed :
        (x : Raised)
        → (env.call w).0 ≡ err x
        → more x ≡ false
        → audit_fits minute (last x) ≡ true
        → run ≡ (err (RetryError.exhausted (classified x) (before ++ last x ∷ [])), after_call)
    unfolding retry_from
    retry_from-failed x e over fits = rw (retry_from, e, over, fits) refl

    pub retry_from-retried :
        (x : Raised)
        → (env.call w).0 ≡ err x
        → more x ≡ true
        → audit_fits minute (again x) ≡ true
        → run
          ≡ retry_from env minute provider operation p fuel
              (suc k)
              (before ++ again x ∷ [])
              (env.sleeper (wait x) after_call)
    unfolding retry_from
    retry_from-retried x e on fits = rw (retry_from, e, on, fits) refl

    -- The run with the audit of the attempt out of bounds.
    pub retry_from-refused :
        ((v : T) × ((env.call w).0 ≡ ok v) × (audit_fits minute good ≡ false))
          ⊎ ((x : Raised) × ((env.call w).0 ≡ err x)
              × (((more x ≡ false) × (audit_fits minute (last x) ≡ false))
                  ⊎ ((more x ≡ true) × (audit_fits minute (again x) ≡ false))))
        → run ≡ (err RetryError.validation_error, after_call)
    unfolding retry_from
    retry_from-refused (inl (v, e, fails)) = rw (retry_from, e, fails) refl
    retry_from-refused (inr (x, e, inl (over, fails))) = rw (retry_from, e, over, fails) refl
    retry_from-refused (inr (x, e, inr (on, fails))) = rw (retry_from, e, on, fails) refl

    pub good-OutOfBounds :
        1 ≤ k → k ≤ p.max_attempts → audit_fits minute good ≡ false → OutOfBounds k w
    good-OutOfBounds one l h =
        elim (audit_fits-Faulty minute good (in_range k one (omega (arith, l, p.at_most_ten)))
          (in_range p.max_attempts p.at_least_one p.at_most_ten) h) [
            | inl bad ↦ inl bad
            | inr (inl bad) ↦ inr (inl bad)
            | inr (inr (inl bad)) ↦ absurd (cc (bad))
            | inr (inr (inr bad)) ↦ absurd (cc (bad))
          ]

    pub last-OutOfBounds :
        (x : Raised)
        → (env.call w).0 ≡ err x
        → 1 ≤ k
        → k ≤ p.max_attempts
        → audit_fits minute (last x) ≡ false
        → OutOfBounds k w
    last-OutOfBounds x e one l h =
        elim (audit_fits-Faulty minute (last x) (in_range k one (omega (arith, l, p.at_most_ten)))
          (in_range p.max_attempts p.at_least_one p.at_most_ten) h) [
            | inl bad ↦ inl bad
            | inr (inl bad) ↦ inr (inl bad)
            | inr (inr (inl bad)) ↦ inr (inr (x, e, inl bad))
            | inr (inr (inr bad)) ↦ absurd (cc (bad))
          ]

    pub again-OutOfBounds :
        (x : Raised)
        → (env.call w).0 ≡ err x
        → more x ≡ true
        → 1 ≤ k
        → k ≤ p.max_attempts
        → audit_fits minute (again x) ≡ false
        → OutOfBounds k w
    again-OutOfBounds x e on one l h =
        elim (audit_fits-Faulty minute (again x) (in_range k one (omega (arith, l, p.at_most_ten)))
          (in_range p.max_attempts p.at_least_one p.at_most_ten) h) [
            | inl bad ↦ inl bad
            | inr (inl bad) ↦ inr (inl bad)
            | inr (inr (inl bad)) ↦ inr (inr (x, e, inl bad))
            | inr (inr (inr bad)) ↦ inr (inr (x, e, inr (ground (arith, on), ground (arith, bad))))
          ]
