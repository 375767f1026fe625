-- ===== src/KeyPool/Cooldowns.antt =====
-- How long an error keeps a key out (app/youtube/key_pool.py).
use ai_modrator.Common.{ℕ, zero, suc, ◌+◌, ◌-◌, ◌*◌, ◌^◌, ◌≤◌, ◌<◌, String, ◌≡◌, true, arith}
use ai_modrator.KeyPool.Pool.{
  KeyMetadata, is_available, is_cooling, refresh_key, backoff, classify_error, unauthorized,
  forbidden, failed,
}

two_pow_pos : (n : ℕ) → 1 ≤ 2 ^ n
two_pow_pos zero = ground arith
two_pow_pos (suc n) = ground (arith, two_pow_pos n)

mul_pos : (a b : ℕ) → 1 ≤ a → 1 ≤ b → 1 ≤ a * b
mul_pos (suc a) (suc b) h k = ground arith
mul_pos zero b h k = ground arith
mul_pos (suc a) zero h k = ground arith

backoff_bounds :
    (base errors : ℕ) → 1 ≤ base → (1 ≤ backoff base errors) × (backoff base errors ≤ 300)
unfolding backoff
backoff_bounds base errors h =
    ground (arith, mul_pos base (2 ^ (errors - 1)) h (two_pow_pos (errors - 1)))

-- If an error puts an available key into cooldown, the cooldown ends after the time of the error,
-- and at most 300 seconds after it.
pub failed_cooldown :
    (lower : String → String) (code : ℕ) (message : String) (now : ℕ) (m : KeyMetadata)
    → is_available m ≡ true
    → is_cooling (failed lower code message now m) ≡ true
    → (now < (failed lower code message now m).cooldown_until)
      × ((failed lower code message now m).cooldown_until ≤ now + 300000000)
unfolding failed classify_error unauthorized forbidden
failed_cooldown lower code message now m h e = ground (
  arith,
  backoff_bounds 30 (m.consecutive_errors + 1),
  backoff_bounds 15 (m.consecutive_errors + 1),
)

-- If an error puts an available key into cooldown, the refresh at any time from 300 seconds after
-- the error on makes it available.
pub failed_recovers :
    (lower : String → String) (code : ℕ) (message : String) (now later : ℕ) (m : KeyMetadata)
    → is_available m ≡ true
    → is_cooling (failed lower code message now m) ≡ true
    → now + 300000000 ≤ later
    → is_available (refresh_key later (failed lower code message now m)) ≡ true
unfolding refresh_key
failed_recovers lower code message now later m h e l =
    ground (arith, failed_cooldown lower code message now m h e)
