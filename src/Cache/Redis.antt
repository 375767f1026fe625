-- ===== src/Cache/Redis.antt =====
-- `InMemoryRedisFallback` of app/cache/redis.py. A time is a number of microseconds, a time to live a
-- number of seconds. `to_int` is Python's `int` on a text, with `none` where it raises.
use ai_modrator.Common.{
  ℕ, ◌+◌, ◌-◌, ◌*◌, ◌/◌, String, Bool, true, false, ◌&&◌, Option, none, some, List, [], ◌∷◌, ltb,
  ◌==◌, if◌then◌else◌,
}
use ai_modrator.Common.Dict.{Dict, lookup, insert, remove}
use ai_modrator.Common.Int.{ℤ, pos, negsuc, ◌+ℤ◌, ◌-ℤ◌}
use ai_modrator.Common.Text.{decimal}

pub record Redis : Type 0 where
  pub store : Dict String
  pub expirations : Dict ℕ

abbrev pub empty_redis : Redis
empty_redis = record { store = []; expirations = [] }

abbrev pub is_past : ℕ → Option ℕ → Bool
is_past now none = false
is_past now (some e) = ltb e now

abbrev pub has : {A : Type 0} → Option A → Bool
has none = false
has (some a) = true

abbrev pub drop_key : String → Redis → Redis
drop_key key r = record { store = remove key r.store; expirations = remove key r.expirations }

unfoldable pub cleanup_expired : String → ℕ → Redis → Redis
cleanup_expired key now r = if is_past now (lookup key r.expirations) then drop_key key r else r

unfoldable pub get : String → ℕ → Redis → Option String × Redis
get key now r = let r' = cleanup_expired key now r in (lookup key r'.store, r')

abbrev pub seconds : ℕ → ℕ
seconds n = n * 1000000

-- `if expiry: … else: …`, where neither `None` nor 0 sets an expiry.
unfoldable pub set_expiry : String → Option ℕ → ℕ → Dict ℕ → Dict ℕ
set_expiry key none now d = remove key d
set_expiry key (some s) now d = if s == 0 then remove key d else insert key (now + seconds s) d

abbrev pub first_of : {A : Type 0} → Option A → Option A → Option A
first_of none b = b
first_of (some a) b = some a

unfoldable pub set : String → String → Option ℕ → Option ℕ → Bool → ℕ → Redis → Bool × Redis
set key value ex ttl nx now r =
    let r' = cleanup_expired key now r in
    if nx && has (lookup key r'.store) then (false, r') else (
      true,
      record {
        store = insert key value r'.store;
        expirations = set_expiry key (first_of ex ttl) now r'.expirations;
      },
    )

-- The counter that a stored text is, 0 for none.
abbrev pub count_in : (String → Option ℤ) → Option String → Option ℤ
count_in to_int none = some (pos 0)
count_in to_int (some v) = to_int v

unfoldable pub incrby : (String → Option ℤ) → String → ℤ → ℕ → Redis → Option ℤ × Redis
incrby to_int key amount now r =
    let r' = cleanup_expired key now r in
    elim (count_in to_int (lookup key r'.store)) [
      | none ↦ (none, r')
      | some n ↦
          (some (n +ℤ amount), record r' { store = insert key (decimal (n +ℤ amount)) r'.store })
    ]

unfoldable pub incr : (String → Option ℤ) → String → ℕ → Redis → Option ℤ × Redis
incr to_int key = incrby to_int key (pos 1)

unfoldable pub decrby : (String → Option ℤ) → String → ℤ → ℕ → Redis → Option ℤ × Redis
decrby to_int key amount = incrby to_int key (pos 0 -ℤ amount)

unfoldable pub decr : (String → Option ℤ) → String → ℕ → Redis → Option ℤ × Redis
decr to_int key = decrby to_int key (pos 1)

unfoldable pub delete_key : String → Redis → ℕ × Redis
delete_key key r = if has (lookup key r.store) then (1, drop_key key r) else (0, r)

unfoldable pub delete : List String → Redis → ℕ × Redis
delete [] r = (0, r)
delete (k ∷ ks) r = let (n, r1) = delete_key k r in let (m, r2) = delete ks r1 in (n + m, r2)

unfoldable pub expire : String → ℕ → ℕ → Redis → Bool × Redis
expire key s now r =
    if has (lookup key r.store)
    then (true, record r { expirations = insert key (now + seconds s) r.expirations })
    else (false, r)

-- -2 for no key, -1 for no expiry.
unfoldable pub ttl : String → ℕ → Redis → ℤ × Redis
ttl key now r =
    let r' = cleanup_expired key now r in
    (
      if has (lookup key r'.store)
          then elim (lookup key r'.expirations) [
            | none ↦ negsuc 0
            | some e ↦ pos ((e - now) / 1000000)
          ]
          else negsuc 1,
      r',
    )

unfoldable pub close : Redis → Redis
close r = empty_redis

-- What a client sees under a key at a time.
unfoldable pub value_at : String → ℕ → Redis → Option String
value_at key now r = if is_past now (lookup key r.expirations) then none else lookup key r.store
