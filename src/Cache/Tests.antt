-- ===== src/Cache/Tests.antt =====
-- A small Redis, and the theorems at such inputs.
use ai_modrator.Common.{
  if◌then◌else◌, ℕ, String, ◌≡◌, refl, Bool, true, false, Option, none, some, List, [], ◌∷◌, length,
  min, arith, eq_iff, str_eq,
}
use ai_modrator.Common.Dict.{lookup, insert, remove}
use ai_modrator.Common.Int.{pos}
use ai_modrator.Common.Numerals.{read_digits, read_digits-decimal}
use ai_modrator.Cache.Redis.{empty_redis, set, get, cleanup_expired, set_expiry, value_at}
use ai_modrator.Cache.RateLimiter.{checks, allowed_count}
use ai_modrator.Cache.Windows.{allowed_count-checks}
use ai_modrator.Cache.Locks.{
  DistributedLock, new_lock, try_acquire, Step, tries, releases, run, lock_exclusive,
}
use ai_modrator.Cache.Dedupe
use ai_modrator.Cache.Dedupe.{
  Check, message, notification, check, is_duplicate_message, seen_or_record, chat_key, message_once,
}
use ai_modrator.Cache.Values.{Value, text, json, deserialized, serialized}

-- The key is seen until its 30 seconds are over.
set_and_wait :
    let r = (set "k" "v" (some 30) none false 5 empty_redis).1 in
    ((get "k" 30000005 r).0 ≡ some "v") × ((get "k" 30000006 r).0 ≡ none)
unfolding set get cleanup_expired set_expiry lookup insert remove
set_and_wait = (refl, refl)

allowed_count-checks_example :
    allowed_count read_digits "rl"
      (checks read_digits "rl" "ann" (pos 2) 60 (61000000 ∷ 62000000 ∷ 119000000 ∷ []) empty_redis)
    ≡ min 2 (length {A = ℕ} (61000000 ∷ 62000000 ∷ 119000000 ∷ []))
unfolding value_at lookup
allowed_count-checks_example =
    allowed_count-checks read_digits read_digits-decimal "rl" "ann" 2 60 1 (ground arith) 61000000
      (62000000 ∷ 119000000 ∷ []) empty_redis (ground arith) refl

abbrev mine : DistributedLock
mine = new_lock "job" 30 10 "a"

abbrev yours : DistributedLock
yours = new_lock "job" 30 10 "b"

mine_won : (try_acquire mine 5 empty_redis).0 ≡ true
unfolding try_acquire set cleanup_expired lookup new_lock
mine_won = refl

abbrev other_steps : List Step
other_steps = tries yours 9 ∷ releases yours 12 ∷ []

lock_exclusive_example :
    ((try_acquire yours 20 (run other_steps (try_acquire mine 5 empty_redis).1)).0 ≡ false)
    × (value_at mine.lock_name 20 (run other_steps (try_acquire mine 5 empty_redis).1)
        ≡ some mine.token)
unfolding new_lock
lock_exclusive_example =
    lock_exclusive mine 5 empty_redis mine_won other_steps yours 20 (ground (arith, eq_iff "b" "a"))
      refl (ground arith)

first_new : (check 1800 86400 (message "m1" 5) empty_redis).0 ≡ false
unfolding check is_duplicate_message seen_or_record set cleanup_expired lookup
first_new = refl

abbrev traffic : List Check
traffic = message "m2" 6 ∷ notification "m1" 7 ∷ []

message_once_example :
    (check 1800 86400
      (message "m1" 1000)
      (Dedupe.run 1800 86400 traffic (check 1800 86400 (message "m1" 5) empty_redis).1)).0
    ≡ true
message_once_example =
    message_once 1800 86400 "m1" 5 1000 traffic empty_redis refl first_new (ground arith)
      (ground arith)

-- A reader that takes no text for JSON but the one that `dumps` prints for `true`.
abbrev dumps : Bool → String
dumps _ = "true"

abbrev loads : String → Option (Option (Value Bool))
loads s = if str_eq s "true" then some (some (json true)) else none

hello_back :
    deserialized dumps loads "c" (serialized dumps loads "c" (text "hello")) ≡ some (text "hello")
unfolding deserialized serialized
hello_back = refl
