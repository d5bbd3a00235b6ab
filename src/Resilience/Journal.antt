-- ===== src/Resilience/Journal.antt =====
-- How `run_with_retry` ends, and what its audits say.
use mathlib.Core.Path.{subst}
use semiconductor_agent_know.Base.{
  ℕ, zero, suc, ◌+◌, ◌≤◌, String, true, false, ◌≡◌, refl, ap, ◌∙◌, ◌⊎◌, inl, inr, some, List, [],
  ◌∷◌, ◌++◌, length, arith, Bool-cases,
}
use semiconductor_agent_know.Base.Result.{Result, ok, err, Result-cases}
use semiconductor_agent_know.Resilience.{
  ProviderAttemptAudit, ProviderRetryPolicy, ProviderCallFailure, ProviderCallResult, Outcome,
  Raised, RetryError, World, audit_fits, retry_from, run_with_retry,
}
use semiconductor_agent_know.Resilience.Backoff.{delay_bounds}
use semiconductor_agent_know.Resilience.Attempt.{
  OutOfBounds, classified, wait, good, again, last, more, run, retry_from-value, retry_from-failed,
  retry_from-retried, retry_from-refused, good-OutOfBounds, last-OutOfBounds, again-OutOfBounds,
}

-- How a run ends: a value, the exhaustion, or the refusal of an audit.
pub data Finish : Type 0 where
  value exhausted refused : Finish

-- The audits from an attempt on: numbered in order and in bounds, each but the last a retryable
-- failure with a delay that the policy allows, the last a success, or a failure that is not
-- retryable or took the last attempt. Where an audit is refused, only those before it are here.
pub data Journal (minute : ℕ) (p : ProviderRetryPolicy)
    : ℕ → Finish → List ProviderAttemptAudit → Type 0 where
  returned :
      {k : ℕ} (a : ProviderAttemptAudit)
      → audit_fits minute a ≡ true
      → a.attempt ≡ k
      → a.outcome ≡ Outcome.succeeded
      → Journal minute p k Finish.value (a ∷ [])
  gave_up :
      {k : ℕ} (a : ProviderAttemptAudit)
      → audit_fits minute a ≡ true
      → a.attempt ≡ k
      → a.outcome ≡ Outcome.failed
      → (a.retryable ≡ false) ⊎ (k ≡ p.max_attempts)
      → Journal minute p k Finish.exhausted (a ∷ [])
  broken : {k : ℕ} → Journal minute p k Finish.refused []
  retried :
      {k : ℕ} {end : Finish} {js : List ProviderAttemptAudit} (a : ProviderAttemptAudit) (wait : ℕ)
      → audit_fits minute a ≡ true
      → a.attempt ≡ k
      → a.outcome ≡ Outcome.retrying
      → a.retryable ≡ true
      → a.retry_after_seconds ≡ some wait
      → wait ≤ p.backoff_max_seconds
      → Journal minute p (suc k) end js
      → Journal minute p k end (a ∷ js)

module _ {W T : Type 0} (env : World W T) (minute : ℕ) (provider operation : String)
    (p : ProviderRetryPolicy) where
  module _ (count : W → ℕ) (counts : (w : W) → count (env.call w).1 ≡ suc (count w))
      (sleeps : (n : ℕ) (w : W) → count (env.sleeper n w) ≡ count w) where
    -- The end of a run from the attempt `k` on, after `calls` calls: the value of the call, the
    -- exhaustion, or the refusal of the audit of the last call, made in the world `u`. The audits
    -- of this run come after those that were there.
    pub data Ends (k calls : ℕ) (before : List ProviderAttemptAudit)
        : Result RetryError (ProviderCallResult T) × W → Type 0 where
      value :
          (v : T) (js : List ProviderAttemptAudit) (w : W)
          → Journal minute p k Finish.value js
          → length js + k ≤ suc p.max_attempts
          → count w ≡ calls + length js
          → Ends k calls before (ok (record { value = v; attempts = before ++ js }), w)
      exhaustion :
          (f : ProviderCallFailure) (js : List ProviderAttemptAudit) (w : W)
          → Journal minute p k Finish.exhausted js
          → length js + k ≤ suc p.max_attempts
          → count w ≡ calls + length js
          → Ends k calls before (err (RetryError.exhausted f (before ++ js)), w)
      refusal :
          (js : List ProviderAttemptAudit) (u : W)
          → Journal minute p k Finish.refused js
          → length js + k ≤ p.max_attempts
          → OutOfBounds env minute provider operation p (length js + k) u
          → count (env.call u).1 ≡ calls + suc (length js)
          → Ends k calls before (err RetryError.validation_error, (env.call u).1)

    assoc :
        (xs : List ProviderAttemptAudit) (a : ProviderAttemptAudit) (ys : List ProviderAttemptAudit)
        → (xs ++ a ∷ []) ++ ys ≡ xs ++ a ∷ ys
    assoc [] a ys = refl
    assoc (x ∷ xs) a ys = ap (λ zs. x ∷ zs) (assoc xs a ys)

    -- An attempt that is retried comes before the rest of the run.
    Ends-retried :
        {k calls wait : ℕ} {before : List ProviderAttemptAudit} (a : ProviderAttemptAudit)
        {r : Result RetryError (ProviderCallResult T) × W}
        → audit_fits minute a ≡ true
        → a.attempt ≡ k
        → a.outcome ≡ Outcome.retrying
        → a.retryable ≡ true
        → a.retry_after_seconds ≡ some wait
        → wait ≤ p.backoff_max_seconds
        → Ends (suc k) (suc calls) (before ++ a ∷ []) r
        → Ends k calls before r
    Ends-retried {before = before} a b e f g h i (Ends.value v js w j l c) =
        rw (assoc before a js) (
          Ends.value v (a ∷ js) w (Journal.retried a _ b e f g h i j) (omega arith)
            (omega (arith, c)))
    Ends-retried {before = before} a b e f g h i (Ends.exhaustion x js w j l c) =
        rw (assoc before a js) (
          Ends.exhaustion x (a ∷ js) w (Journal.retried a _ b e f g h i j) (omega arith)
            (omega (arith, c)))
    Ends-retried {k} a b e f g h i (Ends.refusal js u j l o c) =
        let n : length js + suc k ≡ suc (length js) + k = omega arith in
        Ends.refusal (a ∷ js) u (Journal.retried a _ b e f g h i j) (omega arith)
          (subst (λ m. OutOfBounds env minute provider operation p m u) n o) (omega (arith, c))

    -- The end of a run whose last audit is refused.
    refused_end :
        (fuel k : ℕ) (before : List ProviderAttemptAudit) (w : W)
        → k ≤ p.max_attempts
        → run env minute provider operation p fuel k before w
          ≡ (err RetryError.validation_error, (env.call w).1)
        → OutOfBounds env minute provider operation p k w
        → Ends k (count w) before (run env minute provider operation p fuel k before w)
    refused_end fuel k before w l e o =
        let n : k ≡ 0 + k = omega arith in
        rw e (
          Ends.refusal [] w Journal.broken (omega (arith, l))
            (subst (λ m. OutOfBounds env minute provider operation p m w) n o)
            (omega (arith, counts w)))

    -- An attempt that returned, and one that raised for the last time.
    value_end :
        (fuel k : ℕ) (before : List ProviderAttemptAudit) (w : W) (v : T)
        → 1 ≤ k
        → k ≤ p.max_attempts
        → (env.call w).0 ≡ ok v
        → Ends k (count w) before (run env minute provider operation p fuel k before w)
    value_end fuel k before w v one l e =
        elim (Bool-cases
          (audit_fits minute (good env minute provider operation p fuel k before w))) [
            | inl fits ↦
                rw (retry_from-value env minute provider operation p fuel k before w v e fits) (
                  Ends.value v (good env minute provider operation p fuel k before w ∷ [])
                    (env.call w).1 (Journal.returned _ fits refl refl) (omega arith)
                    (omega (arith, counts w)))
            | inr fails ↦
                refused_end fuel k before w l
                  (retry_from-refused env minute provider operation p fuel k before w
                    (inl (v, e, fails)))
                  (good-OutOfBounds env minute provider operation p fuel k before w one l fails)
          ]

    exhausted_end :
        (fuel k : ℕ) (before : List ProviderAttemptAudit) (w : W) (x : Raised)
        → 1 ≤ k
        → k ≤ p.max_attempts
        → (env.call w).0 ≡ err x
        → more env minute provider operation p fuel k before w x ≡ false
        → Ends k (count w) before (run env minute provider operation p fuel k before w)
    exhausted_end fuel k before w x one l e over =
        elim (Bool-cases
          (audit_fits minute (last env minute provider operation p fuel k before w x))) [
            | inl fits ↦
                rw (retry_from-failed env minute provider operation p fuel k before w x e over fits)
                  (Ends.exhaustion (classified env minute provider operation p x)
                    (last env minute provider operation p fuel k before w x ∷ []) (env.call w).1
                    (Journal.gave_up _ fits refl refl (ground arith)) (omega arith)
                    (omega (arith, counts w)))
            | inr fails ↦
                refused_end fuel k before w l
                  (retry_from-refused env minute provider operation p fuel k before w
                    (inr (x, e, inl (over, fails))))
                  (last-OutOfBounds env minute provider operation p fuel k before w x e one l fails)
          ]

    retry_from-Ends :
        (fuel k : ℕ) (before : List ProviderAttemptAudit) (w : W)
        → fuel + k ≡ suc p.max_attempts
        → 1 ≤ k
        → k ≤ p.max_attempts
        → Ends k (count w) before (retry_from env minute provider operation p fuel k before w)
    retry_from-Ends zero k before w h one l = absurd (omega arith)
    retry_from-Ends (suc fuel) k before w h one l = elim (Result-cases (env.call w).0) [
      | inl (v, e) ↦ value_end fuel k before w v one l e
      | inr (x, e) ↦ elim (Bool-cases (more env minute provider operation p fuel k before w x)) [
        | inr over ↦ exhausted_end fuel k before w x one l e over
        | inl on ↦
            let a = again env minute provider operation p fuel k before w x in
            let n = wait env minute provider operation p fuel k before w x in
            let v = env.sleeper n (env.call w).1 in
            let calls : count v ≡ suc (count w) = sleeps n (env.call w).1 ∙ counts w in
            elim (Bool-cases (audit_fits minute a)) [
              | inr fails ↦
                  refused_end fuel k before w l
                    (retry_from-refused env minute provider operation p fuel k before w
                      (inr (x, e, inr (on, fails))))
                    (again-OutOfBounds env minute provider operation p fuel k before w x e on one l
                      fails)
              | inl fits ↦
                  rw
                    (retry_from-retried env minute provider operation p fuel k before w x e on fits)
                    (Ends-retried a fits refl refl (ground arith) refl
                      (delay_bounds p k
                        (classified env minute provider operation p x).retry_after_seconds).0
                      (rw calls at (
                        retry_from-Ends fuel (suc k) (before ++ a ∷ []) v (omega arith)
                          (omega arith) (ground arith))))
            ]
      ]
    ]

    -- A run returns the value of a call, raises the exhaustion, or raises the validation error of an
    -- audit, never the assertion after the loop. The validation error comes after a call whose audit
    -- is out of bounds: a name is empty or too long, the call raised with a status below 100 or
    -- above 599, or it is to be retried after more than a minute. Otherwise the audits are as many
    -- as the calls, at least one and at most the attempts of the policy, and in bounds; they are
    -- numbered from one, each but the last is of a retryable failure with a delay that the policy
    -- allows, and the last is a success, or a failure that is not retryable or took the last
    -- attempt. The calls are counted by any count that a call raises by one and the sleeper leaves
    -- alone.
    pub run_with_retry_lem :
        (w : W) → Ends 1 (count w) [] (run_with_retry env minute provider operation p w)
    unfolding run_with_retry
    run_with_retry_lem w =
        retry_from-Ends p.max_attempts 1 [] w (omega arith) (omega arith) p.at_least_one
