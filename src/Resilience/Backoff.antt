-- ===== src/Resilience/Backoff.antt =====
-- The delays between attempts.
use semiconductor_agent_know.Base.{
  ℕ, suc, ◌≤◌, String, true, ◌≡◌, Option, none, some, arith, leb, eqb, if◌then◌else◌,
}
use semiconductor_agent_know.Resilience.{
  ProviderRetryPolicy, Seconds, doubled, delay, failure_from_response,
}

-- No delay is longer than the policy allows, and a delay that the provider asked for is taken as it
-- is if the policy allows it.
pub delay_bounds :
    (p : ProviderRetryPolicy) (attempt : ℕ) (asked : Option ℕ)
    → (delay p attempt asked ≤ p.backoff_max_seconds)
      × ((n : ℕ) → asked ≡ some n → n ≤ p.backoff_max_seconds → delay p attempt asked ≡ n)
unfolding delay
delay_bounds p attempt asked = (ground arith, λ n h k. ground arith)

doubled_grows : (base n : ℕ) → doubled base n ≤ doubled base (suc n)
doubled_grows base n = omega arith

-- Where the provider asks for no delay, each attempt waits at least as long as the one before it.
pub delay_grows :
    (p : ProviderRetryPolicy) (attempt : ℕ)
    → delay p (suc attempt) none ≤ delay p (suc (suc attempt)) none
unfolding delay
delay_grows p attempt = ground (arith, doubled_grows p.backoff_base_seconds attempt)

-- A response is classified as worth a retry exactly if its status is 429 or at least 500, and the
-- delay that it asks for is then at most the longest one; another response asks for none.
pub failure_from_response_lem :
    (status : ℕ) (header : Option Seconds) (message : String) (longest : ℕ)
    → ((failure_from_response status header message longest).retryable
        ≡ (if eqb status 429 then true else leb 500 status))
      × ((n : ℕ)
          → (failure_from_response status header message longest).retry_after_seconds ≡ some n
          → (n ≤ longest)
            × ((failure_from_response status header message longest).retryable ≡ true))
unfolding failure_from_response
failure_from_response_lem status header message longest = (ground arith, λ n h. ground arith)
