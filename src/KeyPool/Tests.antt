-- ===== src/KeyPool/Tests.antt =====
-- A pool of three keys, and the theorems at such inputs.
use ai_modrator.Common.{ℕ, String, ◌≡◌, refl, true, none, some, [], ◌∷◌}
use ai_modrator.Common.Dict.{Dict, lookup}
use ai_modrator.Common.Int.{pos}
use ai_modrator.Common.Search.{contains, starts_with}
use ai_modrator.KeyPool.Pool.{
  KeyMetadata, KeyStatus, available, cooldown, exhausted, is_cooling, refresh_key, refresh,
  available_keys, least_used, picked, get_available_key, failed, is_project_mismatch,
  classify_error,
}
use ai_modrator.KeyPool.Choice.{status_of, get_available_key-exhausted}

abbrev key_with : String → KeyStatus → ℕ → ℕ → KeyMetadata
key_with k status usage until = record {
  slot = "key";
  key = k;
  status = status;
  total_requests = 0;
  successful_requests = 0;
  estimated_usage = pos usage;
  consecutive_errors = 0;
  failures_401 = 0;
  failures_403 = 0;
  failures_429 = 0;
  failures_5xx = 0;
  last_error = none;
  last_error_code = none;
  last_success = none;
  last_failure = none;
  cooldown_until = until;
}

abbrev pool : Dict KeyMetadata
pool =
    ("a", key_with "a" available 9 0)
    ∷ ("b", key_with "b" cooldown 2 50)
    ∷ ("c", key_with "c" exhausted 0 60)
    ∷ []

-- At time 70 the cooldown of "b" is over; "c" stays out, although its time is over as well.
b_picked : (get_available_key 70 pool).0 ≡ picked "b"
unfolding get_available_key refresh refresh_key available_keys least_used
b_picked = refl

c_exhausted : status_of "c" pool ≡ some exhausted
unfolding lookup
c_exhausted = refl

get_available_key-exhausted_example : status_of "c" (get_available_key 70 pool).1 ≡ some exhausted
get_available_key-exhausted_example = get_available_key-exhausted 70 pool "c" c_exhausted

abbrev same : String → String
same s = s

abbrev limited : KeyMetadata
limited = failed same 429 "slow" 5 (key_with "a" available 9 0)

limited_cools : is_cooling limited ≡ true
unfolding failed classify_error is_project_mismatch contains starts_with
limited_cools = refl
