-- ===== src/Cache/Locks.antt =====
-- `DistributedLock` of app/cache/locks.py over the Redis of `Cache.Redis`.
use ai_modrator.Common.{
  ℕ, ◌+◌, ◌≤◌, String, ◌≡◌, Bool, true, false, ◌&&◌, not, Option, none, some, List, [], ◌∷◌, All,
  str_eq, eq_iff, ltb, if◌then◌else◌, arith,
}
use ai_modrator.Common.Text.{◌⊕◌}
use ai_modrator.Cache.Redis.{Redis, get, seconds, set, delete, value_at}
use ai_modrator.Cache.View.{
  get_lem, value_at-get, set_lem, value_at-set, value_at-delete_key, value_at-earlier,
  value_at-set_nx,
}

pub record DistributedLock : Type 0 where
  pub lock_name : String
  pub ttl_seconds : ℕ
  pub acquire_timeout : ℕ
  pub token : String
  pub acquired : Bool

unfoldable pub new_lock : String → ℕ → ℕ → String → DistributedLock
new_lock lock_name ttl_seconds acquire_timeout token = record {
  lock_name = "lock" ⊕ lock_name;
  ttl_seconds = ttl_seconds;
  acquire_timeout = acquire_timeout;
  token = token;
  acquired = false;
}

-- One round of the loop of `acquire`.
unfoldable pub try_acquire : DistributedLock → ℕ → Redis → Bool × Redis
try_acquire l now r = set l.lock_name l.token (some l.ttl_seconds) none true now r

-- The rounds: each has the time since the start and the time of day. The list ends with the wait.
unfoldable pub acquire_loop :
    List (ℕ × ℕ) → DistributedLock → Redis → Bool × DistributedLock × Redis
acquire_loop [] l r = (false, l, r)
acquire_loop ((elapsed, now) ∷ rounds) l r =
    let (ok, r') = try_acquire l now r in
    let rest = acquire_loop rounds l r' in
    if ltb elapsed l.acquire_timeout
    then if ok then (true, record l { acquired = true }, r') else rest
    else (false, l, r)

unfoldable pub acquire :
    Bool → Bool → List (ℕ × ℕ) → DistributedLock → Redis → Bool × DistributedLock × Redis
acquire is_unified_service is_fallback rounds l r =
    if not is_unified_service && is_fallback then (false, l, r) else acquire_loop rounds l r

abbrev pub is_text : String → Option String → Bool
is_text s none = false
is_text s (some t) = str_eq t s

-- The code waits for the read and then for the deletion. The in-memory Redis does not give up
-- control in either, so that they are one step at one time.
unfoldable pub release : DistributedLock → ℕ → Redis → Bool × DistributedLock × Redis
release l now r =
    if not l.acquired
    then (false, l, r)
    else let (current, r1) = get l.lock_name now r in
      if is_text l.token current
      then (true, record l { acquired = false }, (delete (l.lock_name ∷ []) r1).1)
      else (false, l, r1)

-- What a client does at a time: a round of `acquire`, or a `release`.
pub data Step : Type 0 where
  tries : DistributedLock → ℕ → Step
  releases : DistributedLock → ℕ → Step

unfoldable pub step : Step → Redis → Redis
step (tries l now) r = (try_acquire l now r).1
step (releases l now) r = (release l now r).2

unfoldable pub run : List Step → Redis → Redis
run [] r = r
run (s ∷ ss) r = run ss (step s r)

-- A step of a client with another token, not after `later`.
abbrev pub IsOthers : String → ℕ → Step → Type 0
IsOthers token later (tries l now) = (str_eq l.token token ≡ false) × (now ≤ later)
IsOthers token later (releases l now) = (str_eq l.token token ≡ false) × (now ≤ later)

module _ (name token : String) (later : ℕ) where
  release-kept :
      (l : DistributedLock) (now : ℕ) (r : Redis)
      → str_eq l.token token ≡ false
      → now ≤ later
      → value_at name later r ≡ some token
      → value_at name later (release l now r).2 ≡ some token
  unfolding release delete
  release-kept l now r other h e = ground (
    arith,
    eq_iff l.lock_name name,
    eq_iff token l.token,
    eq_iff l.token token,
    get_lem l.lock_name now r,
    value_at-get l.lock_name name now later r h,
    value_at-earlier name token now later r h e,
    value_at-delete_key l.lock_name name later (get l.lock_name now r).1,
  )

  run-kept :
      (ss : List Step) (r : Redis)
      → All (IsOthers token later) ss
      → value_at name later r ≡ some token
      → value_at name later (run ss r) ≡ some token
  unfolding run step try_acquire
  run-kept [] r all e = e
  run-kept (tries l now ∷ ss) r all e = run-kept ss (try_acquire l now r).1 all.1 (
      value_at-set_nx l.lock_name l.token name token (some l.ttl_seconds) none now later r all.0.1
        e)
  run-kept (releases l now ∷ ss) r all e =
      run-kept ss (release l now r).2 all.1 (release-kept l now r all.0.0 all.0.1 e)

module _ (l : DistributedLock) (now : ℕ) (r : Redis) (won : (try_acquire l now r).0 ≡ true) where
  acquired-kept :
      value_at l.lock_name (now + seconds l.ttl_seconds) (try_acquire l now r).1 ≡ some l.token
  unfolding try_acquire
  acquired-kept = ground (
    arith,
    eq_iff l.lock_name l.lock_name,
    set_lem l.lock_name l.token (some l.ttl_seconds) none true now r,
    value_at-set l.lock_name l.token l.lock_name (some l.ttl_seconds) none true now
        (now + seconds l.ttl_seconds) r,
  )

  -- Once a client has won a lock, then as long as its time to live is not over, whatever rounds
  -- of `acquire` and `release` clients with other tokens make, the lock keeps the winner's
  -- token and no other attempt at the lock succeeds.
  pub lock_exclusive :
      (ss : List Step) (other : DistributedLock) (later : ℕ)
      → All (IsOthers l.token (now + seconds l.ttl_seconds)) ss
      → other.lock_name ≡ l.lock_name
      → later ≤ now + seconds l.ttl_seconds
      → ((try_acquire other later (run ss (try_acquire l now r).1)).0 ≡ false)
        × (value_at l.lock_name later (run ss (try_acquire l now r).1) ≡ some l.token)
  unfolding try_acquire
  lock_exclusive ss other later all same h =
      let r' = run ss (try_acquire l now r).1 in
      let kept = value_at-earlier l.lock_name l.token later (now + seconds l.ttl_seconds) r' h (
        run-kept l.lock_name l.token (now + seconds l.ttl_seconds) ss (try_acquire l now r).1 all
          acquired-kept) in
      (
        ground (
          arith,
          kept,
          set_lem other.lock_name other.token (some other.ttl_seconds) none true later r',
        ),
        kept,
      )

-- The holder's release makes room for the next.
pub release_lem :
    (l : DistributedLock) (now later : ℕ) (r : Redis)
    → l.acquired ≡ true
    → now ≤ later
    → value_at l.lock_name now r ≡ some l.token
    → ((release l now r).0 ≡ true) × (value_at l.lock_name later (release l now r).2 ≡ none)
unfolding release delete
release_lem l now later r a h e = ground (
  arith,
  eq_iff l.token l.token,
  eq_iff l.lock_name l.lock_name,
  get_lem l.lock_name now r,
  value_at-delete_key l.lock_name l.lock_name later (get l.lock_name now r).1,
)
