-- ===== src/Tests/Resilience.antt =====
-- A call that is limited once and then answers.
use semiconductor_agent_know.Base.{ℕ, suc, String, ◌≡◌, refl, some, List, [], ◌∷◌, arith}
use semiconductor_agent_know.Base.Result.{Result, ok, err}
use semiconductor_agent_know.Resilience.{
  ProviderRetryPolicy, Raised, World, Seconds, failure_from_response, run_with_retry,
}
use semiconductor_agent_know.Resilience.Journal.{Ends, run_with_retry_lem}

-- What is left of the script, and the calls so far.
abbrev Script : Type 0
Script = List (Result Raised String) × ℕ

abbrev next_call : Script → Result Raised String × Script
next_call ([], n) = (err Raised.timeout_error, ([], suc n))
next_call (r ∷ rs, n) = (r, (rs, suc n))

abbrev scripted : World Script String
scripted = record { call = next_call; perf_counter = λ w. w.1; sleeper = λ n w. w }

counted : (w : Script) → (next_call w).1.1 ≡ suc w.1
counted ([], n) = refl
counted (r ∷ rs, n) = refl

abbrev policy : ProviderRetryPolicy
policy = record {
  max_attempts = 2;
  backoff_base_seconds = 5;
  backoff_max_seconds = 20;
  at_least_one = omega arith;
  at_most_ten = omega arith;
}

abbrev limited : Raised
limited = Raised.call_failure (failure_from_response 429 (some (Seconds.ahead 70)) "limited" 60)

abbrev script : Script
script = (err limited ∷ ok "answer" ∷ [], 0)

run_with_retry_lem_example :
    Ends scripted 60 "qwen" "chat" policy
      (λ w. w.1)
      counted
      (λ n w. refl)
      1
      0
      []
      (run_with_retry scripted 60 "qwen" "chat" policy script)
run_with_retry_lem_example =
    run_with_retry_lem scripted 60 "qwen" "chat" policy (λ w. w.1) counted (λ n w. refl) script
