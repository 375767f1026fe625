-- ===== src/Resilience/Tests.antt =====
-- Breakers and retried calls, and the theorems at such inputs.
use ai_modrator.Common.{
  ℕ, ◌-◌, ◌≤◌, ◌<◌, ◌≡◌, refl, Bool, true, false, some, [], ◌∷◌, leb, if◌then◌else◌, arith,
}
use ai_modrator.Resilience.Breaker.{
  CircuitBreaker, open_state, new_breaker, can_execute, record_failure, Outcome, returned, raised,
  circuit_open, execute,
}
use ai_modrator.Resilience.Trips.{
  IsSound, ask, success, failure, run, run-IsSound, failures, successes, is_closed, successes_close,
  execute_open,
}
use ai_modrator.Resilience.Retry.{
  Ended, retry, backoff_delay, retry_with_backoff, IsRetryOf, retry_with_backoff-IsRetryOf,
}

abbrev fresh : CircuitBreaker
fresh = new_breaker 3 30 2

run-IsSound_example : IsSound (run (failure 1 ∷ failure 2 ∷ ask 3 ∷ success 4 ∷ []) fresh)
run-IsSound_example =
    run-IsSound (failure 1 ∷ failure 2 ∷ ask 3 ∷ success 4 ∷ []) 3 30 2 (ground arith)
      (ground arith)

abbrev tripped : CircuitBreaker
tripped = failures 3 10 fresh

tripped_open : tripped.state ≡ open_state
unfolding new_breaker record_failure
tripped_open = refl

tripped_over : tripped.open_until ≤ 50
unfolding new_breaker record_failure
tripped_over = ground arith

tripped_attempts : 1 ≤ tripped.half_open_max_attempts
unfolding new_breaker record_failure
tripped_attempts = ground arith

successes_close_example :
    is_closed (successes 2 (can_execute 50 tripped).1) ≡ leb tripped.half_open_max_attempts 2
successes_close_example = successes_close 50 tripped tripped_open tripped_over tripped_attempts 2

abbrev answered : Outcome ℕ Bool
answered = returned 5

abbrev broken : Outcome ℕ Bool
broken = raised true

tripped_still : 20 < tripped.open_until
unfolding new_breaker record_failure
tripped_still = ground arith

open_refuses : execute 20 21 answered tripped ≡ (circuit_open (tripped.open_until - 20), tripped)
open_refuses = execute_open ℕ Bool 20 21 tripped tripped_open answered tripped_still

abbrev never : Bool → Bool
never _ = false

abbrev always : Bool → Bool
always _ = true

-- The third call answers.
abbrev flaky : ℕ → Outcome ℕ Bool
flaky n = if leb 2 n then answered else broken

flaky_answers :
    retry_with_backoff never always 3 500 800 flaky
    ≡ some (record { outcome = answered; calls = 3; delays = 500 ∷ 800 ∷ [] })
unfolding retry_with_backoff retry backoff_delay
flaky_answers = refl

retry_with_backoff-IsRetryOf_example :
    (r : Ended ℕ Bool) × (retry_with_backoff never always 3 500 800 flaky ≡ some r)
    × IsRetryOf never always 3 500 800 flaky 0 r
retry_with_backoff-IsRetryOf_example = retry_with_backoff-IsRetryOf never always 3 500 800 flaky
