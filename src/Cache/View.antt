-- ===== src/Cache/View.antt =====
-- What the operations of app/cache/redis.py do to the values that a client can see.
use ai_modrator.Common.{
  ℕ, ◌+◌, ◌≤◌, String, ◌≡◌, Bool, true, ◌&&◌, not, Option, none, some, str_eq, eq_iff, ltb, ◌==◌,
  if◌then◌else◌, arith,
}
use ai_modrator.Common.Dict.{Dict, lookup, insert, lookup-insert, lookup-remove}
use ai_modrator.Common.Int.{ℤ, ◌+ℤ◌}
use ai_modrator.Cache.Redis.{
  Redis, has, cleanup_expired, get, seconds, set_expiry, first_of, set, count_in, incrby,
  delete_key, value_at,
}

-- What has expired once is not seen later either, so a clean-up is not seen.
pub value_at-cleanup_expired :
    (k j : String) (now later : ℕ) (r : Redis)
    → now ≤ later
    → value_at j later (cleanup_expired k now r) ≡ value_at j later r
unfolding value_at cleanup_expired
value_at-cleanup_expired k j now later r h =
    ground (arith, eq_iff k j, lookup-remove k j r.store, lookup-remove k j r.expirations)

pub get_lem : (k : String) (now : ℕ) (r : Redis) → (get k now r).0 ≡ value_at k now r
unfolding get cleanup_expired value_at
get_lem k now r = ground (arith, eq_iff k k, lookup-remove k k r.store)

pub value_at-get :
    (k j : String) (now later : ℕ) (r : Redis)
    → now ≤ later
    → value_at j later (get k now r).1 ≡ value_at j later r
unfolding get
value_at-get k j now later r h = value_at-cleanup_expired k j now later r h

-- The seen value of a new text with this expiry.
abbrev pub lasting : Option ℕ → ℕ → ℕ → String → Option String
lasting none now later v = some v
lasting (some s) now later v =
    if s == 0 then some v else if ltb (now + seconds s) later then none else some v

pub set_lem :
    (k v : String) (ex ttl : Option ℕ) (nx : Bool) (now : ℕ) (r : Redis)
    → (set k v ex ttl nx now r).0 ≡ not (nx && has (value_at k now r))
unfolding set cleanup_expired value_at
set_lem k v ex ttl nx now r = ground (arith, eq_iff k k, lookup-remove k k r.store)

abbrev written : String → String → Option ℕ → ℕ → Redis → Redis
written k v expiry now r = record {
  store = insert k v r.store;
  expirations = set_expiry k expiry now r.expirations;
}

lookup-set_expiry :
    (k j : String) (expiry : Option ℕ) (now : ℕ) (d : Dict ℕ)
    → lookup j (set_expiry k expiry now d) ≡ (
        if str_eq k j
        then elim expiry [ none ↦ none | some s ↦ if s == 0 then none else some (now + seconds s) ]
        else lookup j d)
unfolding set_expiry
lookup-set_expiry k j none now d = ground (arith, lookup-remove k j d)
lookup-set_expiry k j (some s) now d =
    ground (arith, lookup-remove k j d, lookup-insert k j (now + seconds s) d)

value_at-written :
    (k v j : String) (expiry : Option ℕ) (now later : ℕ) (r : Redis)
    → value_at j later (written k v expiry now r)
      ≡ (if str_eq k j then lasting expiry now later v else value_at j later r)
unfolding value_at
value_at-written k v j expiry now later r =
    ground (arith, lookup-set_expiry k j expiry now r.expirations, lookup-insert k j v r.store)

pub value_at-set :
    (k v j : String) (ex ttl : Option ℕ) (nx : Bool) (now later : ℕ) (r : Redis)
    → now ≤ later
    → value_at j later (set k v ex ttl nx now r).1 ≡ (
        if str_eq k j && not (nx && has (value_at k now r))
        then lasting (first_of ex ttl) now later v
        else value_at j later r)
unfolding set get
value_at-set k v j ex ttl nx now later r h = ground (
  arith,
  get_lem k now r,
  value_at-cleanup_expired k j now later r h,
  value_at-written k v j (first_of ex ttl) now later (cleanup_expired k now r),
)

pub value_at-delete_key :
    (k j : String) (later : ℕ) (r : Redis)
    → value_at j later (delete_key k r).1 ≡ (if str_eq k j then none else value_at j later r)
unfolding delete_key value_at
value_at-delete_key k j later r =
    ground (arith, eq_iff k j, lookup-remove k j r.store, lookup-remove k j r.expirations)

pub incrby_lem :
    (to_int : String → Option ℤ) (k : String) (n : ℤ) (now : ℕ) (r : Redis)
    → (incrby to_int k n now r).0
      ≡ (elim (count_in to_int (value_at k now r)) [ none ↦ none | some m ↦ some (m +ℤ n) ])
unfolding incrby get
incrby_lem to_int k n now r = ground (arith, get_lem k now r)

-- What will be seen later is seen before.
pub value_at-earlier :
    (k v : String) (now later : ℕ) (r : Redis)
    → now ≤ later
    → value_at k later r ≡ some v
    → value_at k now r ≡ some v
unfolding value_at
value_at-earlier k v now later r h e = ground arith

-- A value that will be seen is not replaced by a `set` with `nx` before.
pub value_at-set_nx :
    (k w j v : String) (ex ttl : Option ℕ) (now later : ℕ) (r : Redis)
    → now ≤ later
    → value_at j later r ≡ some v
    → value_at j later (set k w ex ttl true now r).1 ≡ some v
value_at-set_nx k w j v ex ttl now later r h e = ground (
  arith,
  eq_iff k j,
  value_at-set k w j ex ttl true now later r h,
  value_at-earlier j v now later r h e,
)
