-- ===== src/Quota/Manager.antt =====
-- `QuotaManager` of app/youtube/quota.py. The daily counters stand in Redis under the day's date;
-- here they are a function of the day, a counter that was never written being 0.
use ai_modrator.Common.{
  ℕ, ◌+◌, String, Bool, true, false, ◌&&◌, not, Option, none, some, [], ◌∷◌, ◌==◌, if◌then◌else◌,
}
use ai_modrator.Common.Dict.{Dict, lookup, insert, remove}
use ai_modrator.Common.Int.{ℤ, pos, ◌+ℤ◌, ◌-ℤ◌, ltb_ℤ, leb_ℤ}
use ai_modrator.Common.Text.{or_text}
use ai_modrator.Quota.Registry.{Registry, get_cost, record_usage, or_else}

pub record QuotaReservation : Type 0 where
  pub reservation_id : String
  pub units : ℤ
  pub method : String
  pub created_at : ℕ
  pub consumed : Bool
  pub released : Bool

-- `new_id` gives the texts of successive calls of `uuid.uuid4`; `today` is the date.
pub record QuotaManager : Type 0 where
  pub daily_limit : ℤ
  pub reservations : Dict QuotaReservation
  pub counters : ℕ → ℤ
  pub registry : Registry
  pub today : ℕ
  pub new_id : ℕ → String
  pub issued : ℕ

pub data RequestClassification : Type 0 where
  success request_not_sent request_sent_network_failure : RequestClassification
  http_400 http_401 http_403 http_404 http_409 http_429 : RequestClassification
  http_500 http_502 http_503 http_504 : RequestClassification

unfoldable pub get_used : QuotaManager → ℤ
get_used q = q.counters q.today

-- `max(0, self.daily_limit - used)`.
unfoldable pub remaining : QuotaManager → ℤ
remaining q = let left = q.daily_limit -ℤ get_used q in if ltb_ℤ (pos 0) left then left else pos 0

unfoldable pub can_execute : Option ℤ → Option String → QuotaManager → Bool
can_execute units method q =
    leb_ℤ (or_else units (get_cost (or_text method "default") q.registry)) (remaining q)

-- What the reservations hold that are neither consumed nor released.
unfoldable pub active_reserved : Dict QuotaReservation → ℤ
active_reserved [] = pos 0
active_reserved ((_, r) ∷ rest) =
    let others = active_reserved rest in
    if not r.consumed && not r.released then r.units +ℤ others else others

-- `reserve` returns the reservation's id, or raises the error with the two numbers it carries.
pub data Reserved : Type 0 where
  reserved : String → Reserved
  quota_exceeded : ℤ → ℤ → Reserved

unfoldable pub reserve : Option ℤ → String → ℕ → QuotaManager → Reserved × QuotaManager
reserve asked method now q =
    let units = or_else asked (get_cost method q.registry) in
    let held = get_used q +ℤ active_reserved q.reservations in
    if ltb_ℤ q.daily_limit (held +ℤ units)
    then (quota_exceeded held q.daily_limit, q)
    else let i = q.new_id q.issued in
      let r : QuotaReservation = record {
        reservation_id = i;
        units = units;
        method = method;
        created_at = now;
        consumed = false;
        released = false;
      } in
      (reserved i, record q { reservations = insert i r q.reservations; issued = q.issued + 1 })

-- `redis.incrby` on the counter of a day.
unfoldable pub incrby : ℕ → ℤ → (ℕ → ℤ) → ℕ → ℤ
incrby day amount counters d = if d == day then counters d +ℤ amount else counters d

unfoldable pub consume : String → Option String → QuotaManager → ℤ × QuotaManager
consume i method q = elim (lookup i q.reservations) [
  | none ↦ (pos 0, q)
  | some r ↦ if r.consumed then (r.units, q) else (
    get_used q +ℤ r.units,
    record q {
      counters = incrby q.today r.units q.counters;
      registry = record_usage (or_text method r.method) r.units true q.registry;
      reservations = remove i q.reservations;
    },
  )
]

-- The reservation that is popped is marked as released, which nobody sees any more.
unfoldable pub release_if_failed_before_request : String → QuotaManager → QuotaManager
release_if_failed_before_request i q = record q { reservations = remove i q.reservations }

unfoldable pub release_if_not_dispatched : String → QuotaManager → QuotaManager
release_if_not_dispatched = release_if_failed_before_request

unfoldable pub charge_failure : String → Option String → QuotaManager → QuotaManager
charge_failure i method q =
    let q' = (consume i method q).1 in
    record q' { registry = record_usage (or_text method "default") (pos 0) false q'.registry }

unfoldable pub record_failure :
    String → RequestClassification → Option String → QuotaManager → QuotaManager
record_failure i request_not_sent method q = release_if_not_dispatched i q
record_failure i _ method q = charge_failure i method q

unfoldable pub reset_daily_quota : QuotaManager → QuotaManager
reset_daily_quota q = record q {
  counters = λ d. if d == q.today then pos 0 else q.counters d;
  reservations = [];
}

-- A manager starts with the counters that Redis holds.
unfoldable pub new_manager : ℤ → Registry → (ℕ → String) → (ℕ → ℤ) → ℕ → QuotaManager
new_manager daily_limit registry new_id counters today = record {
  daily_limit = daily_limit;
  reservations = [];
  counters = counters;
  registry = registry;
  today = today;
  new_id = new_id;
  issued = 0;
}
