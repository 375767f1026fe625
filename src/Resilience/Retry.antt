-- ===== src/Resilience/Retry.antt =====
-- `retry_with_backoff` of app/utils/retry.py. The delays are those before the jitter, in microseconds.
use ai_modrator.Common.{
  ℕ, zero, suc, ◌+◌, ◌-◌, ◌*◌, ◌^◌, ◌≤◌, ◌<◌, ◌≡◌, refl, Bool, true, false, ◌||◌, not, Option, none,
  some, List, [], ◌∷◌, length, min, ltb, if◌then◌else◌, arith, All, ◌⊎◌, inl, inr, sym, Bool-cases,
}
use ai_modrator.Resilience.Breaker.{Outcome, returned, raised}

Outcome-cases :
    {A E : Type 0} (o : Outcome A E) → ((a : A) × (o ≡ returned a)) ⊎ ((e : E) × (o ≡ raised e))
Outcome-cases (returned a) = inl (a, refl)
Outcome-cases (raised e) = inr (e, refl)

-- How the loop ended, how many calls it made, and how long it slept between them.
pub record Ended (A E : Type 0) : Type 0 where
  pub outcome : Outcome A E
  pub calls : ℕ
  pub delays : List ℕ

module _ {A E : Type 0} where
  -- The calls that the loop makes after the one that has just failed.
  abbrev pub after_sleep : ℕ → Ended A E → Ended A E
  after_sleep delay rest = record rest { delays = delay ∷ rest.delays }

  abbrev pub ended : Outcome A E → ℕ → Ended A E
  ended outcome calls = record { outcome = outcome; calls = calls; delays = [] }

unfoldable pub backoff_delay : ℕ → ℕ → ℕ → ℕ
backoff_delay base_delay max_delay attempt = min max_delay (base_delay * 2 ^ (attempt - 1))

module _ {A E : Type 0} (is_fatal is_retryable : E → Bool) (max_retries base_delay max_delay : ℕ)
    (call : ℕ → Outcome A E) where
  abbrev pub sleeping : ℕ → Option (Ended A E) → Option (Ended A E)
  sleeping delay none = none
  sleeping delay (some rest) = some (after_sleep delay rest)

  -- `call n` is the outcome of the call made when `attempt` is `n`; the fuel bounds the calls.
  unfoldable pub retry : ℕ → ℕ → Option (Ended A E)
  retry zero attempt = none
  retry (suc fuel) attempt =
      let rest = retry fuel (attempt + 1) in
      elim (call attempt) [
        | returned a ↦ some (ended (returned a) (attempt + 1))
        | raised e ↦
            if is_fatal e || not (is_retryable e) || ltb max_retries (attempt + 1)
            then some (ended (raised e) (attempt + 1))
            else sleeping (backoff_delay base_delay max_delay (attempt + 1)) rest
      ]

  unfoldable pub retry_with_backoff : Option (Ended A E)
  retry_with_backoff = retry (max_retries + 1) 0

  -- Whether the loop goes on after this outcome of a call before the last.
  abbrev pub goes_on : Outcome A E → Bool
  goes_on (returned a) = false
  goes_on (raised e) = not (is_fatal e || not (is_retryable e))

  -- The loop that is at `attempt` ended with the outcome of its last call.
  pub record IsRetryOf (attempt : ℕ) (r : Ended A E) : Type 0 where
    pub last : ℕ
    pub counted : r.calls ≡ last + 1
    pub reached : attempt ≤ last
    pub bounded : last ≤ max_retries
    pub final : r.outcome ≡ call last
    pub went_on : (i : ℕ) → attempt ≤ i → i < last → goes_on (call i) ≡ true
    pub stopped : last < max_retries → goes_on (call last) ≡ false
    pub slept : length r.delays + attempt ≡ last
    pub short : All (λ d. d ≤ max_delay) r.delays

  stops :
      (attempt : ℕ) (o : Outcome A E)
      → call attempt ≡ o
      → attempt ≤ max_retries
      → (attempt < max_retries → goes_on o ≡ false)
      → IsRetryOf attempt (ended o (attempt + 1))
  stops attempt o e h k = record {
    last = attempt;
    counted = refl;
    reached = ground arith;
    bounded = h;
    final = sym e;
    went_on = λ i a b. ground arith;
    stopped = λ l. rw e (k l);
    slept = ground arith;
    short = tt;
  }

  continues :
      (attempt delay : ℕ) (r : Ended A E)
      → goes_on (call attempt) ≡ true
      → attempt < max_retries
      → delay ≤ max_delay
      → IsRetryOf (attempt + 1) r
      → IsRetryOf attempt (after_sleep delay r)
  continues attempt delay r g l d s = record {
    last = s.last;
    counted = s.counted;
    reached = ground (arith, s.reached);
    bounded = s.bounded;
    final = s.final;
    went_on = λ i a b. grind (arith, s.went_on i);
    stopped = s.stopped;
    slept = ground (arith, s.slept);
    short = (d, s.short);
  }

  delay_bound : (attempt : ℕ) → backoff_delay base_delay max_delay attempt ≤ max_delay
  unfolding backoff_delay
  delay_bound attempt = ground arith

  abbrev stopping : E → ℕ → Bool
  stopping e attempt = is_fatal e || not (is_retryable e) || ltb max_retries (attempt + 1)

  retry-IsRetryOf :
      (fuel attempt : ℕ)
      → attempt ≤ max_retries
      → max_retries < fuel + attempt
      → (r : Ended A E) × (retry fuel attempt ≡ some r) × IsRetryOf attempt r
  unfolding retry
  retry-IsRetryOf zero attempt h k = ground arith
  retry-IsRetryOf (suc fuel) attempt h k = elim (Outcome-cases (call attempt)) [
    | inl (a, e) ↦ (
      ended (returned a) (attempt + 1),
      rw (e, retry),
      stops attempt (returned a) e h (λ _. refl),
    )
    | inr (x, e) ↦ elim (Bool-cases (stopping x attempt)) [
      | inl b ↦ (
        ended (raised x) (attempt + 1),
        rw (e, b, retry),
        stops attempt (raised x) e h (λ l. ground (arith, b)),
      )
      | inr b ↦
          let (r, found, s) =
            retry-IsRetryOf fuel (attempt + 1) (ground (arith, b)) (ground arith) in
          (
            after_sleep (backoff_delay base_delay max_delay (attempt + 1)) r,
            rw (e, b, found, retry),
            continues attempt (backoff_delay base_delay max_delay (attempt + 1)) r
                (ground (arith, e, b)) (ground (arith, b)) (delay_bound (attempt + 1)) s,
          )
    ]
  ]

  -- `retry_with_backoff` ends with the outcome of its last call after at most one call more
  -- than `max_retries`; every earlier call raised an error that may be retried, the last did
  -- not unless no retries were left, and it slept once between any two calls, never longer than
  -- `max_delay` before the jitter.
  pub retry_with_backoff-IsRetryOf : (r : Ended A E) × (retry_with_backoff ≡ some r) × IsRetryOf 0 r
  unfolding retry_with_backoff
  retry_with_backoff-IsRetryOf = retry-IsRetryOf (max_retries + 1) 0 (ground arith) (ground arith)
