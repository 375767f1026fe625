-- ===== src/Cache/Windows.antt =====
-- A window of app/cache/rate_limiter.py lets as many requests through as it is to.
use ai_modrator.Common.{
  ℕ, suc, ◌+◌, ◌*◌, ◌/◌, ◌≤◌, ◌<◌, String, ◌≡◌, refl, Bool, Option, none, some, List, [], ◌∷◌,
  length, min, All, arith,
}
use ai_modrator.Common.Int.{ℤ, pos}
use ai_modrator.Common.Text.{decimal, ◌⊕◌}
use ai_modrator.Cache.Redis.{Redis, seconds, value_at}
use ai_modrator.Cache.RateLimiter.{
  rate_key, hit, is_allowed, checks, allowed_count, Counts, first_hit, next_hit,
}

div_bounds : (t s w : ℕ) → 1 ≤ s → t / s ≡ w → (w * s ≤ t) × (t < w * s + s)
div_bounds t s w h e = grind arith

-- Two times of one window are less than its length apart.
same_window : (t u s w : ℕ) → 1 ≤ s → t / s ≡ w → u / s ≡ w → u < t + s
same_window t u s w h a b = ground (arith, div_bounds t s w h a, div_bounds u s w h b)

module _ (to_int : String → Option ℤ) (reads : (n : ℕ) → to_int (decimal (pos n)) ≡ some (pos n))
    (key_prefix identifier : String) (max_requests window_seconds window : ℕ)
    (positive : 1 ≤ window_seconds) where
  abbrev IsIn : ℕ → Type 0
  IsIn t = t / seconds window_seconds ≡ window

  abbrev window_key : String
  window_key = key_prefix ⊕ identifier ⊕ decimal (pos window)

  rate_key-IsIn :
      (t : ℕ) → IsIn t → rate_key to_int key_prefix identifier window_seconds t ≡ window_key
  unfolding rate_key
  rate_key-IsIn t h = rw h refl

  abbrev answers : List ℕ → Redis → List (Option Bool)
  answers = checks to_int key_prefix identifier (pos max_requests) window_seconds

  later_answers :
      (ts : List ℕ) (n e : ℕ) (r : Redis)
      → Counts to_int key_prefix reads window_key max_requests window_seconds (suc n) e r
      → All (λ t. IsIn t × (t ≤ e)) ts
      → allowed_count to_int key_prefix (answers ts r) + min max_requests (suc n)
        ≡ min max_requests (suc n + length ts)
  unfolding checks allowed_count is_allowed
  later_answers [] n e r c h = ground arith
  later_answers (t ∷ ts) n e r c h =
      let step =
        next_hit to_int key_prefix reads window_key max_requests window_seconds t n e r h.0.1 c in
      let rest =
        later_answers ts (suc n) e
          (hit to_int key_prefix window_key (pos max_requests) window_seconds t r).1
          (ground (arith, step)) h.1 in
      rw (rate_key-IsIn t h.0.0, checks, is_allowed) (ground (arith, step, rest))

  fits :
      (t : ℕ) (ts : List ℕ)
      → IsIn t
      → All IsIn ts
      → All (λ u. IsIn u × (u ≤ t + seconds (window_seconds + 5))) ts
  fits t [] h all = tt
  fits t (u ∷ ts) h all = (
    (all.0, ground (arith, same_window t u (seconds window_seconds) window (ground arith) h all.0)),
    fits t ts h all.1,
  )

  -- If Python's `int` reads the numbers that `str` prints, and the window's key is not in
  -- Redis, then of the checks made in a window of positive length exactly `max_requests` are
  -- allowed, or all if they are fewer.
  pub allowed_count-checks :
      (t : ℕ) (ts : List ℕ) (r : Redis)
      → All IsIn (t ∷ ts)
      → value_at window_key t r ≡ none
      → allowed_count to_int key_prefix (answers (t ∷ ts) r) ≡ min max_requests (length (t ∷ ts))
  unfolding checks allowed_count is_allowed
  allowed_count-checks t ts r h fresh =
      let step =
        first_hit to_int key_prefix reads window_key max_requests window_seconds t r fresh in
      let rest =
        later_answers ts 0 (t + seconds (window_seconds + 5))
          (hit to_int key_prefix window_key (pos max_requests) window_seconds t r).1
          (ground (arith, step)) (fits t ts h.0 h.1) in
      rw (rate_key-IsIn t h.0, checks, is_allowed) (ground (arith, step, rest))
