-- ===== src/KeyPool/Choice.antt =====
-- Which key `get_available_key` of app/youtube/key_pool.py hands out.
use ai_modrator.Common.{
  ℕ, String, ◌≡◌, true, Option, none, some, List, [], ◌∷◌, All, eq_iff, arith, refl, ◌⊎◌, inl, inr,
  Option-cases,
}
use ai_modrator.Common.Dict.{Dict, lookup, lookup-insert}
use ai_modrator.Common.Int.{◌≤ℤ◌, int_laws}
use ai_modrator.KeyPool.Pool.{
  KeyMetadata, KeyStatus, exhausted, is_available, refresh_key, refresh, available_keys, least_used,
  modify, picked, one_more_request, get_available_key,
}

-- `m` is no more used than `other`, if that may be handed out.
abbrev pub IsNoMoreUsed : KeyMetadata → KeyMetadata → Type 0
IsNoMoreUsed m other = m.estimated_usage ≤ℤ other.estimated_usage

abbrev pub IsAmong : KeyMetadata → List KeyMetadata → Type 0
IsAmong m [] = ⊥
IsAmong m (x ∷ xs) = (x ≡ m) ⊎ IsAmong m xs

All-IsNoMoreUsed :
    (m b : KeyMetadata) (ms : List KeyMetadata)
    → IsNoMoreUsed m b
    → All (IsNoMoreUsed b) ms
    → All (IsNoMoreUsed m) ms
All-IsNoMoreUsed m b [] h all = tt
All-IsNoMoreUsed m b (x ∷ ms) h all = ground (arith, All-IsNoMoreUsed m b ms h)

least_used-none : (ms : List KeyMetadata) → least_used ms ≡ none → ms ≡ []
unfolding least_used
least_used-none [] h = refl
least_used-none (x ∷ ms) h = ground arith

pub least_used_lem :
    (ms : List KeyMetadata) (m : KeyMetadata)
    → least_used ms ≡ some m
    → IsAmong m ms × All (IsNoMoreUsed m) ms
unfolding least_used
least_used_lem [] m h = ground arith
least_used_lem (x ∷ ms) m h = elim (Option-cases (least_used ms)) [
  | inl e ↦ ground (arith, e, least_used-none ms e)
  | inr (b, e) ↦ grind (int_laws, e, least_used_lem ms b e, All-IsNoMoreUsed x b ms)
]

-- Whichever keys are available, one that is not is not among them.
available_keys-are_available :
    (d : Dict KeyMetadata) (m : KeyMetadata) → IsAmong m (available_keys d) → is_available m ≡ true
unfolding available_keys
available_keys-are_available [] m h = ground arith
available_keys-are_available ((k, x) ∷ d) m h = ground (arith, available_keys-are_available d m)

-- A key that `get_available_key` hands out is one of those that are available once expired
-- cooldowns have ended, and none of these is estimated to be used less.
pub get_available_key_picked :
    (now : ℕ) (pool : Dict KeyMetadata) (k : String)
    → (get_available_key now pool).0 ≡ picked k
    → (m : KeyMetadata) × (m.key ≡ k)
      × (is_available m ≡ true)
      × IsAmong m (available_keys (refresh now pool))
      × All (IsNoMoreUsed m) (available_keys (refresh now pool))
unfolding get_available_key
get_available_key_picked now pool k h =
    elim (Option-cases (least_used (available_keys (refresh now pool)))) [
      | inl e ↦ ground (arith, e)
      | inr (m, e) ↦
          let l = least_used_lem (available_keys (refresh now pool)) m e in
          (m, ground (arith, e), available_keys-are_available (refresh now pool) m l.0, l.0, l.1)
    ]

refresh-lookup :
    (now : ℕ) (j : String) (d : Dict KeyMetadata)
    → lookup j (refresh now d)
      ≡ (elim (lookup j d) [ none ↦ none | some m ↦ some (refresh_key now m) ])
unfolding lookup refresh
refresh-lookup now j [] = refl
refresh-lookup now j ((k, m) ∷ d) = ground (arith, refresh-lookup now j d)

abbrev pub status_of : String → Dict KeyMetadata → Option KeyStatus
status_of k pool = elim (lookup k pool) [ none ↦ none | some m ↦ some m.status ]

refresh-status_of :
    (now : ℕ) (k : String) (pool : Dict KeyMetadata)
    → status_of k pool ≡ some exhausted
    → status_of k (refresh now pool) ≡ some exhausted
unfolding refresh_key
refresh-status_of now k pool h = ground (arith, refresh-lookup now k pool)

one_more_request-status_of :
    (j k : String) (d : Dict KeyMetadata)
    → status_of k (modify j one_more_request d) ≡ status_of k d
unfolding modify
one_more_request-status_of j k d = elim (Option-cases (lookup j d)) [
  | inl e ↦ ground (arith, e)
  | inr (m, e) ↦ ground (arith, e, lookup-insert j k (one_more_request m) d, eq_iff j k)
]

-- If a key is EXHAUSTED, `get_available_key` leaves it EXHAUSTED, whatever the time is.
pub get_available_key-exhausted :
    (now : ℕ) (pool : Dict KeyMetadata) (k : String)
    → status_of k pool ≡ some exhausted
    → status_of k (get_available_key now pool).1 ≡ some exhausted
unfolding get_available_key
get_available_key-exhausted now pool k h =
    elim (Option-cases (least_used (available_keys (refresh now pool)))) [
      | inl e ↦ ground (arith, e, refresh-status_of now k pool h)
      | inr (b, e) ↦ ground (
        arith,
        e,
        refresh-status_of now k pool h,
        one_more_request-status_of b.key k (refresh now pool),
      )
    ]
