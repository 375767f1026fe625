-- ===== src/KeyPool/Pool.antt =====
-- `ApiKeyPool` of app/youtube/key_pool.py. A time is a number of microseconds; `lower` is Python's
-- `str.lower`. The fields that only the status page prints (`key_hash`, `masked_key`) are left out.
use ai_modrator.Common.{
  ℕ, ◌+◌, ◌-◌, ◌*◌, ◌^◌, String, Bool, true, false, ◌&&◌, ◌||◌, Option, none, some, List, [], ◌∷◌,
  min, leb, ◌==◌, if◌then◌else◌,
}
use ai_modrator.Common.Dict.{Dict, lookup, insert}
use ai_modrator.Common.Search.{contains}
use ai_modrator.Common.Int.{ℤ, ◌+ℤ◌, leb_ℤ}

pub data KeyStatus : Type 0 where
  available cooldown exhausted invalid : KeyStatus

pub record KeyMetadata : Type 0 where
  pub slot : String
  pub key : String
  pub status : KeyStatus
  pub total_requests : ℕ
  pub successful_requests : ℕ
  pub estimated_usage : ℤ
  pub consecutive_errors : ℕ
  pub failures_401 : ℕ
  pub failures_403 : ℕ
  pub failures_429 : ℕ
  pub failures_5xx : ℕ
  pub last_error : Option String
  pub last_error_code : Option ℕ
  pub last_success : Option ℕ
  pub last_failure : Option ℕ
  pub cooldown_until : ℕ

abbrev pub is_available : KeyMetadata → Bool
is_available m = elim m.status [ available ↦ true | _ ↦ false ]

abbrev pub is_cooling : KeyMetadata → Bool
is_cooling m = elim m.status [ cooldown ↦ true | _ ↦ false ]

-- The loop over the keys whose cooldown has expired.
unfoldable pub refresh_key : ℕ → KeyMetadata → KeyMetadata
refresh_key now m =
    if is_cooling m && leb m.cooldown_until now
    then record m { status = available; consecutive_errors = 0 }
    else m

unfoldable pub refresh : ℕ → Dict KeyMetadata → Dict KeyMetadata
refresh now [] = []
refresh now ((k, m) ∷ d) = (k, refresh_key now m) ∷ refresh now d

unfoldable pub available_keys : Dict KeyMetadata → List KeyMetadata
available_keys [] = []
available_keys ((_, m) ∷ d) =
    let rest = available_keys d in if is_available m then m ∷ rest else rest

-- Python's `min` by the estimated usage: of equal ones the first.
unfoldable pub least_used : List KeyMetadata → Option KeyMetadata
least_used [] = none
least_used (m ∷ ms) = elim (least_used ms) [
  | none ↦ some m
  | some best ↦ if leb_ℤ m.estimated_usage best.estimated_usage then some m else some best
]

-- A change of the metadata that the table keeps under a key.
unfoldable pub modify : String → (KeyMetadata → KeyMetadata) → Dict KeyMetadata → Dict KeyMetadata
modify k f d = elim (lookup k d) [ none ↦ d | some m ↦ insert k (f m) d ]

pub data Picked : Type 0 where
  picked : String → Picked
  pool_exhausted : Picked

abbrev pub one_more_request : KeyMetadata → KeyMetadata
one_more_request m = record m { total_requests = m.total_requests + 1 }

unfoldable pub get_available_key : ℕ → Dict KeyMetadata → Picked × Dict KeyMetadata
get_available_key now pool =
    let fresh = refresh now pool in
    elim (least_used (available_keys fresh)) [
      | none ↦ (pool_exhausted, fresh)
      | some m ↦ (picked m.key, modify m.key one_more_request fresh)
    ]

unfoldable pub record_usage : String → ℤ → Dict KeyMetadata → Dict KeyMetadata
record_usage k units = modify k (λ m. record m { estimated_usage = m.estimated_usage +ℤ units })

unfoldable pub succeeded : ℕ → KeyMetadata → KeyMetadata
succeeded now m = record m {
  consecutive_errors = 0;
  successful_requests = m.successful_requests + 1;
  last_success = some now;
  last_error = if is_available m then none else m.last_error;
}

unfoldable pub record_success : String → ℕ → Dict KeyMetadata → Dict KeyMetadata
record_success k now = modify k (succeeded now)

unfoldable pub is_project_mismatch : String → Bool
is_project_mismatch message =
    contains "different projects" message
    || contains "API Key and the authentication credential" message

unfoldable pub needs_oauth : String → Bool
needs_oauth message =
    contains "API keys are not supported" message
    || contains "CREDENTIALS_MISSING" message
    || contains "Login Required" message
    || contains "OAuth" message

-- `min(300, base * 2 ** (errors - 1))` seconds; the errors were counted, so there is at least one.
unfoldable pub backoff : ℕ → ℕ → ℕ
backoff base errors = min 300 (base * 2 ^ (errors - 1))

abbrev pub cool_down : ℕ → ℕ → KeyMetadata → KeyMetadata
cool_down seconds now m = record m { status = cooldown; cooldown_until = now + seconds * 1000000 }

unfoldable pub unauthorized : String → KeyMetadata → KeyMetadata
unauthorized message m =
    if needs_oauth message
    then m
    else record m { failures_401 = m.failures_401 + 1; status = invalid }

unfoldable pub forbidden : (String → String) → String → ℕ → KeyMetadata → KeyMetadata
forbidden lower message now m =
    if contains "quota" (lower message)
    then record m {
      failures_403 = m.failures_403 + 1;
      status = exhausted;
      cooldown_until = now + 86400000000;
    }
    else cool_down 300 now (record m { failures_403 = m.failures_403 + 1 })

-- What the status code decides, once the error is counted.
unfoldable pub classify_error : (String → String) → ℕ → String → ℕ → KeyMetadata → KeyMetadata
classify_error lower status_code message now m =
    if status_code == 401
    then unauthorized message m
    else if status_code == 403
    then forbidden lower message now m
    else if status_code == 429
    then cool_down (backoff 30 m.consecutive_errors) now
        (record m { failures_429 = m.failures_429 + 1 })
    else cool_down (backoff 15 m.consecutive_errors) now
        (record m { failures_5xx = m.failures_5xx + 1 })

unfoldable pub failed : (String → String) → ℕ → String → ℕ → KeyMetadata → KeyMetadata
failed lower status_code message now m =
    let counted : KeyMetadata = record m {
      consecutive_errors = m.consecutive_errors + 1;
      last_error = some message;
      last_error_code = some status_code;
      last_failure = some now;
    } in
    if is_project_mismatch message
    then counted
    else classify_error lower status_code message now counted

unfoldable pub record_error :
    (String → String) → String → ℕ → String → ℕ → Dict KeyMetadata → Dict KeyMetadata
record_error lower k status_code message now = modify k (failed lower status_code message now)
