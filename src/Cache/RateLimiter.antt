-- ===== src/Cache/RateLimiter.antt =====
-- `RateLimiter` of app/cache/rate_limiter.py. A window has a positive number of seconds.
use ai_modrator.Common.{
  ℕ, suc, ◌+◌, ◌/◌, ◌≤◌, String, ◌≡◌, Bool, true, Option, none, some, List, [], ◌∷◌, eq_iff, leb,
  if◌then◌else◌, arith,
}
use ai_modrator.Common.Dict.{lookup, remove, lookup-insert, lookup-remove}
use ai_modrator.Common.Int.{ℤ, pos, ◌+ℤ◌, ◌-ℤ◌, leb_ℤ, ltb_ℤ, eqb_ℤ}
use ai_modrator.Common.Text.{decimal, ◌⊕◌}
use ai_modrator.Cache.Redis.{
  Redis, cleanup_expired, get, seconds, count_in, incrby, expire, value_at,
}

module _ (to_int : String → Option ℤ) (key_prefix : String) where
  unfoldable pub rate_key : String → ℕ → ℕ → String
  rate_key identifier window_seconds now =
      key_prefix ⊕ identifier ⊕ decimal (pos (now / seconds window_seconds))

  -- What `is_allowed` does with its key; `none` is the error of a counter that is no number.
  unfoldable pub hit : String → ℤ → ℕ → ℕ → Redis → Option Bool × Redis
  hit key max_requests window_seconds now r =
      let (current, r1) = incrby to_int key (pos 1) now r in
      elim current [
        | none ↦ (none, r1)
        | some n ↦ (
          some (leb_ℤ n max_requests),
          if eqb_ℤ n (pos 1) then (expire key (window_seconds + 5) now r1).1 else r1,
        )
      ]

  unfoldable pub is_allowed : String → ℤ → ℕ → ℕ → Redis → Option Bool × Redis
  is_allowed identifier max_requests window_seconds now r =
      hit (rate_key identifier window_seconds now) max_requests window_seconds now r

  unfoldable pub get_remaining : String → ℤ → ℕ → ℕ → Redis → Option ℤ × Redis
  get_remaining identifier max_requests window_seconds now r =
      let (val, r1) = get (rate_key identifier window_seconds now) now r in
      (
        elim (count_in to_int val) [
          | none ↦ none
          | some used ↦
              let left = max_requests -ℤ used in some (if ltb_ℤ (pos 0) left then left else pos 0)
        ],
        r1,
      )

  -- The answers of checks made at these times, one after the other.
  unfoldable pub checks : String → ℤ → ℕ → List ℕ → Redis → List (Option Bool)
  checks identifier max_requests window_seconds [] r = []
  checks identifier max_requests window_seconds (t ∷ ts) r =
      let (answer, r') = is_allowed identifier max_requests window_seconds t r in
      answer ∷ checks identifier max_requests window_seconds ts r'

  abbrev pub is_yes : Option Bool → ℕ
  is_yes (some true) = 1
  is_yes _ = 0

  unfoldable pub allowed_count : List (Option Bool) → ℕ
  allowed_count [] = 0
  allowed_count (a ∷ as') = is_yes a + allowed_count as'

  module _ (reads : (n : ℕ) → to_int (decimal (pos n)) ≡ some (pos n)) (key : String)
      (max_requests window_seconds : ℕ) where
    -- The counter stands at `n`, and lasts until `e`.
    abbrev pub Counts : ℕ → ℕ → Redis → Type 0
    Counts n e r =
        (lookup key r.store ≡ some (decimal (pos n))) × (lookup key r.expirations ≡ some e)

    pub first_hit :
        (t : ℕ) (r : Redis)
        → value_at key t r ≡ none
        → ((hit key (pos max_requests) window_seconds t r).0 ≡ some (leb 1 max_requests))
          × Counts 1
              (t + seconds (window_seconds + 5))
              (hit key (pos max_requests) window_seconds t r).1
    unfolding hit incrby cleanup_expired value_at expire ◌+ℤ◌
    first_hit t r fresh = ground (
      arith,
      eq_iff key key,
      lookup-remove key key r.store,
      lookup-insert key key (decimal (pos 1)) r.store,
      lookup-insert key key (decimal (pos 1)) (remove key r.store),
      lookup-insert key key (t + seconds (window_seconds + 5)) r.expirations,
      lookup-insert key key (t + seconds (window_seconds + 5)) (remove key r.expirations),
    )

    pub next_hit :
        (t n e : ℕ) (r : Redis)
        → t ≤ e
        → Counts (suc n) e r
        → ((hit key (pos max_requests) window_seconds t r).0 ≡ some (leb (suc n + 1) max_requests))
          × Counts (suc n + 1) e (hit key (pos max_requests) window_seconds t r).1
    unfolding hit incrby cleanup_expired ◌+ℤ◌
    next_hit t n e r h c = ground (
      arith,
      c,
      eq_iff key key,
      reads (suc n),
      lookup-insert key key (decimal (pos (suc n + 1))) r.store,
    )
