-- ===== src/Resilience/Breaker.antt =====
-- `CircuitBreaker` of app/utils/circuit_breaker.py. A time is a number of microseconds.
use ai_modrator.Common.{ℕ, ◌+◌, ◌-◌, Bool, true, false, ◌||◌, leb, if◌then◌else◌}

pub data CircuitState : Type 0 where
  closed_state open_state half_open_state : CircuitState

pub record CircuitBreaker : Type 0 where
  pub failure_threshold : ℕ
  pub recovery_timeout : ℕ
  pub half_open_max_attempts : ℕ
  pub state : CircuitState
  pub failure_count : ℕ
  pub consecutive_success_count : ℕ
  pub open_until : ℕ

unfoldable pub new_breaker : ℕ → ℕ → ℕ → CircuitBreaker
new_breaker failure_threshold recovery_timeout half_open_max_attempts = record {
  failure_threshold = failure_threshold;
  recovery_timeout = recovery_timeout;
  half_open_max_attempts = half_open_max_attempts;
  state = closed_state;
  failure_count = 0;
  consecutive_success_count = 0;
  open_until = 0;
}

abbrev pub is_half_open : CircuitState → Bool
is_half_open half_open_state = true
is_half_open _ = false

unfoldable pub is_open : CircuitBreaker → Bool
is_open b = elim b.state [ open_state ↦ true | _ ↦ false ]

unfoldable pub can_execute : ℕ → CircuitBreaker → Bool × CircuitBreaker
can_execute now b = elim b.state [
  | open_state ↦
      if leb b.open_until now
      then (true, record b { state = half_open_state; consecutive_success_count = 0 })
      else (false, b)
  | _ ↦ (true, b)
]

unfoldable pub record_success : CircuitBreaker → CircuitBreaker
record_success b = elim b.state [
  | half_open_state ↦
      let n = b.consecutive_success_count + 1 in
      if leb b.half_open_max_attempts n
      then record b { state = closed_state; failure_count = 0; consecutive_success_count = 0 }
      else record b { consecutive_success_count = n }
  | closed_state ↦ record b { failure_count = 0 }
  | open_state ↦ b
]

unfoldable pub record_failure : ℕ → CircuitBreaker → CircuitBreaker
record_failure now b =
    let n = b.failure_count + 1 in
    if is_half_open b.state || leb b.failure_threshold n
    then record b { failure_count = n; state = open_state; open_until = now + b.recovery_timeout }
    else record b { failure_count = n }

unfoldable pub reset : CircuitBreaker → CircuitBreaker
reset b = record b {
  state = closed_state;
  failure_count = 0;
  consecutive_success_count = 0;
  open_until = 0;
}

-- How a call ends: it returns, or it raises.
pub data Outcome (A E : Type 0) : Type 0 where
  returned : A → Outcome A E
  raised : E → Outcome A E

-- What `execute` does: the call is refused with the time that is left, or its outcome is passed on.
pub data Executed (A E : Type 0) : Type 0 where
  circuit_open : ℕ → Executed A E
  finished : Outcome A E → Executed A E

module _ {A E : Type 0} where
  -- The call starts at `now` and ends at `later`.
  unfoldable pub execute : ℕ → ℕ → Outcome A E → CircuitBreaker → Executed A E × CircuitBreaker
  execute now later outcome b =
      let (allowed, b') = can_execute now b in
      if allowed
      then (
        finished outcome,
        elim outcome [ returned _ ↦ record_success b' | raised _ ↦ record_failure later b' ],
      )
      else (circuit_open (b'.open_until - now), b')
