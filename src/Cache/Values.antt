-- ===== src/Cache/Values.antt =====
-- `Cache` of app/cache/cache.py over the Redis of `Cache.Redis`. A cached value is a text or another
-- value of JSON, `J`. `dumps` and `loads` are those of Python's json module: `loads` gives `none`
-- where it raises, and `some none` for JSON's null.
use ai_modrator.Common.{
  ℕ, ◌+◌, ◌≤◌, String, ◌≡◌, Bool, false, Option, none, some, eq_iff, arith, [], ◌∷◌,
}
use ai_modrator.Common.Text.{◌⊕◌}
use ai_modrator.Cache.Redis.{Redis, get, seconds, set, delete}
use ai_modrator.Cache.View.{get_lem, value_at-set}

pub data Value (J : Type 0) : Type 0 where
  text : String → Value J
  json : J → Value J

module _ {J : Type 0} (dumps : J → String) (loads : String → Option (Option (Value J)))
    (prefix : String) where
  unfoldable pub serialized : Value J → String
  serialized (text s) = s
  serialized (json j) = dumps j

  -- A text that is no JSON is returned as it is.
  unfoldable pub deserialized : String → Option (Value J)
  deserialized raw = elim (loads raw) [ none ↦ some (text raw) | some v ↦ v ]

  unfoldable pub cache_get : String → ℕ → Redis → Option (Value J) × Redis
  cache_get key now r =
      let (raw, r') = get (prefix ⊕ key) now r in
      (elim raw [ none ↦ none | some s ↦ deserialized s ], r')

  unfoldable pub cache_set : String → Value J → ℕ → ℕ → Redis → Bool × Redis
  cache_set key value ttl_seconds now r =
      set (prefix ⊕ key) (serialized value) (some ttl_seconds) none false now r

  unfoldable pub cache_delete : String → Redis → ℕ × Redis
  cache_delete key r = delete ((prefix ⊕ key) ∷ []) r

  -- `factory` is the value that a call computes; the number counts the calls of it.
  unfoldable pub remember : String → ℕ → Value J → ℕ → Redis → Value J × ℕ × Redis
  remember key ttl_seconds factory now r =
      let (cached, r1) = cache_get key now r in
      elim cached [
        | some v ↦ (v, 0, r1)
        | none ↦ (factory, 1, (cache_set key factory ttl_seconds now r1).1)
      ]

  -- What is read back: the value that was written, if JSON reads its text back as that value, and
  -- takes no plain text for JSON.
  abbrev pub ReadsBack : Value J → Type 0
  ReadsBack v = deserialized (serialized v) ≡ some v

  -- What `set` caches `get` reads back within the time to live, if the JSON module reads the
  -- value's text back as the value.
  pub cache_get-cache_set :
      (key : String) (v : Value J) (ttl now later : ℕ) (r : Redis)
      → ReadsBack v
      → now ≤ later
      → later ≤ now + seconds ttl
      → (cache_get key later (cache_set key v ttl now r).1).0 ≡ some v
  unfolding cache_get cache_set
  cache_get-cache_set key v ttl now later r back h k =
      let full = prefix ⊕ key in
      ground (
        arith,
        back,
        eq_iff full full,
        get_lem full later (cache_set key v ttl now r).1,
        value_at-set full (serialized v) full (some ttl) none false now later r h,
      )

  pub remember_once :
      (key : String) (ttl : ℕ) (first second : Value J) (now later : ℕ) (r : Redis)
      → ReadsBack first
      → (cache_get key now r).0 ≡ none
      → now ≤ later
      → later ≤ now + seconds ttl
      → let r' = (remember key ttl first now r).2 in
        ((remember key ttl first now r).1 ≡ 1)
        × ((remember key ttl second later r').0 ≡ first)
        × ((remember key ttl second later r').1 ≡ 0)
  unfolding remember
  remember_once key ttl first second now later r back missing h k =
      ground (
        arith,
        missing,
        cache_get-cache_set key first ttl now later (cache_get key now r).1 back h k,
      )
