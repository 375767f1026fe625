-- ===== src/Resilience/Trips.antt =====
-- When the breaker of app/utils/circuit_breaker.py opens and closes.
use ai_modrator.Common.{
  ℕ, zero, suc, ◌+◌, ◌-◌, ◌≤◌, ◌<◌, ◌≡◌, Bool, true, false, ◌&&◌, List, [], ◌∷◌, leb, ltb,
  if◌then◌else◌, arith, not,
}
use ai_modrator.Resilience.Breaker.{
  closed_state, open_state, half_open_state, CircuitBreaker, new_breaker, is_half_open, is_open,
  can_execute, record_success, record_failure, reset, Outcome, raised, circuit_open, execute,
}

-- A closed breaker has seen fewer failures than the threshold, another one has seen as many; one that
-- is half open still misses a success.
pub record IsSound (b : CircuitBreaker) : Type 0 where
  pub closed_below : b.state ≡ closed_state → b.failure_count < b.failure_threshold
  pub open_above : b.state ≡ open_state → b.failure_threshold ≤ b.failure_count
  pub half_open_above : b.state ≡ half_open_state → b.failure_threshold ≤ b.failure_count
  pub half_open_below :
      b.state ≡ half_open_state → b.consecutive_success_count < b.half_open_max_attempts
  pub has_threshold : 1 ≤ b.failure_threshold
  pub has_attempts : 1 ≤ b.half_open_max_attempts

pub data Event : Type 0 where
  ask success : ℕ → Event
  failure : ℕ → Event
  manual_reset : Event

unfoldable pub step : Event → CircuitBreaker → CircuitBreaker
step (ask now) b = (can_execute now b).1
step (success now) b = record_success b
step (failure now) b = record_failure now b
step manual_reset b = reset b

unfoldable pub run : List Event → CircuitBreaker → CircuitBreaker
run [] b = b
run (e ∷ es) b = run es (step e b)

step-IsSound : (e : Event) (b : CircuitBreaker) → IsSound b → IsSound (step e b)
unfolding step can_execute record_success record_failure reset
step-IsSound e b s = ground (
  arith, s.closed_below, s.open_above, s.half_open_above, s.half_open_below, s.has_threshold,
  s.has_attempts,
)

runs-IsSound : (es : List Event) (b : CircuitBreaker) → IsSound b → IsSound (run es b)
unfolding run
runs-IsSound [] b s = s
runs-IsSound (e ∷ es) b s = runs-IsSound es (step e b) (step-IsSound e b s)

-- After any checks, successes, failures and resets of a new breaker whose threshold and number of
-- attempts are at least 1, a closed breaker has counted fewer failures than the threshold, any
-- other at least as many, and a half-open one fewer successes than it wants.
pub run-IsSound :
    (es : List Event) (threshold timeout attempts : ℕ)
    → 1 ≤ threshold
    → 1 ≤ attempts
    → IsSound (run es (new_breaker threshold timeout attempts))
unfolding new_breaker
run-IsSound es threshold timeout attempts h k =
    runs-IsSound es (new_breaker threshold timeout attempts) (ground arith)

-- The breaker refuses a call exactly if it is open and its time is not over.
pub can_execute_lem :
    (now : ℕ) (b : CircuitBreaker) → (can_execute now b).0 ≡ not (is_open b && ltb now b.open_until)
unfolding can_execute is_open
can_execute_lem now b = ground arith

-- `n` failures in a row, all at one time.
abbrev pub failures : ℕ → ℕ → CircuitBreaker → CircuitBreaker
failures zero now b = b
failures (suc n) now b = record_failure now (failures n now b)

module _ (now threshold timeout attempts : ℕ) (h : 1 ≤ threshold) where
  abbrev failed_times : ℕ → CircuitBreaker
  failed_times n = failures n now (new_breaker threshold timeout attempts)

  failures_values :
      (n : ℕ)
      → ((failed_times n).failure_count ≡ n)
        × ((failed_times n).failure_threshold ≡ threshold)
        × (is_half_open (failed_times n).state ≡ false)
        × (is_open (failed_times n) ≡ leb threshold n)
  unfolding record_failure new_breaker is_open
  failures_values zero = ground arith
  failures_values (suc n) = ground (arith, failures_values n)

  -- With a threshold of at least 1, a new breaker is open after a number of failures in a row
  -- exactly if that number is at least the threshold.
  pub failures_trip : (n : ℕ) → is_open (failed_times n) ≡ leb threshold n
  failures_trip n = ground (arith, failures_values n)

-- `n` successes in a row.
abbrev pub successes : ℕ → CircuitBreaker → CircuitBreaker
successes zero b = b
successes (suc n) b = record_success (successes n b)

abbrev pub is_closed : CircuitBreaker → Bool
is_closed b = elim b.state [ closed_state ↦ true | _ ↦ false ]

module _ (now : ℕ) (b : CircuitBreaker) (h : b.state ≡ open_state) (l : b.open_until ≤ now)
    (k : 1 ≤ b.half_open_max_attempts) where
  abbrev probed : ℕ → CircuitBreaker
  probed n = successes n (can_execute now b).1

  probed_values :
      (n : ℕ)
      → if ltb n b.half_open_max_attempts
        then (is_half_open (probed n).state ≡ true)
          × ((probed n).consecutive_success_count ≡ n)
          × ((probed n).half_open_max_attempts ≡ b.half_open_max_attempts)
        else is_closed (probed n) ≡ true
  unfolding record_success can_execute
  probed_values zero = ground arith
  probed_values (suc n) = ground (arith, probed_values n)

  -- If the time of an open breaker that wants at least 1 success is over, then after a check
  -- and a number of successes in a row it is closed exactly if that number is at least the
  -- number it wants.
  pub successes_close : (n : ℕ) → is_closed (probed n) ≡ leb b.half_open_max_attempts n
  successes_close n = ground (arith, probed_values n)

module _ (A E : Type 0) (now later : ℕ) (b : CircuitBreaker) (h : b.state ≡ open_state) where
  -- An open breaker refuses every call until its time is over, and says how long that is.
  pub execute_open :
      (outcome : Outcome A E)
      → now < b.open_until
      → execute now later outcome b ≡ (circuit_open (b.open_until - now), b)
  unfolding execute can_execute
  execute_open outcome l = ground arith

  abbrev after_failure : E → CircuitBreaker
  after_failure e = let outcome : Outcome A E = raised e in (execute now later outcome b).1

  -- If the time of an open breaker is over and the call that `execute` lets through fails, the
  -- breaker is open again, until its timeout after the failure.
  pub execute_half_open_failure :
      (e : E)
      → b.open_until ≤ now
      → (is_open (after_failure e) ≡ true)
        × ((after_failure e).open_until ≡ later + b.recovery_timeout)
  unfolding execute can_execute record_failure is_open
  execute_half_open_failure e l = ground arith
