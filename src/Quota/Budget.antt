-- ===== src/Quota/Budget.antt =====
-- The budget of app/youtube/quota.py: what is used and what is held never exceeds the daily limit.
use ai_modrator.Common.{
  ℕ, ◌+◌, ◌<◌, String, ◌≡◌, false, Option, none, some, List, [], ◌∷◌, arith, All,
}
use ai_modrator.Common.Dict.{Dict, lookup, insert, remove}
use ai_modrator.Common.Int.{ℤ, pos, ◌+ℤ◌, ◌≤ℤ◌, int_laws}
use ai_modrator.Quota.Registry.{Registry, get_cost, or_else}
use ai_modrator.Quota.Manager.{
  QuotaReservation, QuotaManager, RequestClassification, get_used, active_reserved, reserve, incrby,
  consume, release_if_failed_before_request, release_if_not_dispatched, charge_failure,
  record_failure, new_manager,
}
use ai_modrator.Quota.Events.{
  Event, reserve_event, consume_event, release_event, failure_event, next_day, step, run,
}

-- A reservation in the table is open, and holds no negative number of units.
abbrev pub IsOpen : String × QuotaReservation → Type 0
IsOpen e = (e.1.consumed ≡ false) × (e.1.released ≡ false) × (pos 0 ≤ℤ e.1.units)

abbrev pub held_by : Option QuotaReservation → ℤ
held_by none = pos 0
held_by (some r) = r.units

All-insert :
    (i : String) (r : QuotaReservation) (d : Dict QuotaReservation)
    → IsOpen (i, r)
    → All IsOpen d
    → All IsOpen (insert i r d)
unfolding insert
All-insert i r [] o all = ground arith
All-insert i r ((j, x) ∷ d) o all = ground (arith, All-insert i r d o)

All-remove : (i : String) (d : Dict QuotaReservation) → All IsOpen d → All IsOpen (remove i d)
unfolding remove
All-remove i [] all = all
All-remove i ((j, x) ∷ d) all = ground (arith, All-remove i d)

pub active_reserved_nonneg : (d : Dict QuotaReservation) → All IsOpen d → pos 0 ≤ℤ active_reserved d
unfolding active_reserved
active_reserved_nonneg [] all = ground arith
active_reserved_nonneg ((j, x) ∷ d) all = grind (int_laws, active_reserved_nonneg d)

pub active_reserved-insert :
    (i : String) (r : QuotaReservation) (d : Dict QuotaReservation)
    → r.consumed ≡ false
    → r.released ≡ false
    → All IsOpen d
    → active_reserved (insert i r d) +ℤ held_by (lookup i d) ≡ active_reserved d +ℤ r.units
unfolding active_reserved insert lookup
active_reserved-insert i r [] e f all = grind int_laws
active_reserved-insert i r ((j, x) ∷ d) e f all = grind (int_laws, active_reserved-insert i r d)

held_by-lookup_nonneg :
    (i : String) (d : Dict QuotaReservation) → All IsOpen d → pos 0 ≤ℤ held_by (lookup i d)
unfolding lookup
held_by-lookup_nonneg i [] all = ground arith
held_by-lookup_nonneg i ((j, x) ∷ d) all = ground (arith, held_by-lookup_nonneg i d)

-- At least what the reservation held becomes free.
pub active_reserved-remove :
    (i : String) (d : Dict QuotaReservation)
    → All IsOpen d
    → active_reserved (remove i d) +ℤ held_by (lookup i d) ≤ℤ active_reserved d
unfolding active_reserved remove lookup
active_reserved-remove i [] all = grind int_laws
active_reserved-remove i ((j, x) ∷ d) all =
    grind (int_laws, active_reserved-remove i d, held_by-lookup_nonneg i d)

-- Nothing is used of the days to come, no day's use is over the limit, and today's use fits in with
-- what is held.
pub record IsBudgeted (q : QuotaManager) : Type 0 where
  pub all_open : All IsOpen q.reservations
  pub unused : (d : ℕ) → q.today < d → q.counters d ≡ pos 0
  pub nonneg : (d : ℕ) → pos 0 ≤ℤ q.counters d
  pub within : (d : ℕ) → q.counters d ≤ℤ q.daily_limit
  pub fits : q.counters q.today +ℤ active_reserved q.reservations ≤ℤ q.daily_limit

-- A reservation asks for no negative number of units.
abbrev pub Asks : Event → QuotaManager → Type 0
Asks (reserve_event asked method now) q = pos 0 ≤ℤ or_else asked (get_cost method q.registry)
Asks _ q = Unit

reserve-IsBudgeted :
    (asked : Option ℤ) (method : String) (now : ℕ) (q : QuotaManager)
    → pos 0 ≤ℤ or_else asked (get_cost method q.registry)
    → IsBudgeted q
    → IsBudgeted (reserve asked method now q).1
unfolding reserve get_used
reserve-IsBudgeted asked method now q h b =
    let r : QuotaReservation = record {
      reservation_id = q.new_id q.issued;
      units = or_else asked (get_cost method q.registry);
      method = method;
      created_at = now;
      consumed = false;
      released = false;
    } in
    grind (
      int_laws,
      b.all_open,
      b.unused,
      b.nonneg,
      b.within,
      b.fits,
      All-insert (q.new_id q.issued) r q.reservations,
      active_reserved-insert (q.new_id q.issued) r q.reservations,
      held_by-lookup_nonneg (q.new_id q.issued) q.reservations,
    )

release-IsBudgeted :
    (i : String) (q : QuotaManager)
    → IsBudgeted q
    → IsBudgeted (release_if_failed_before_request i q)
unfolding release_if_failed_before_request
release-IsBudgeted i q b = grind (
  int_laws,
  b.all_open,
  b.unused,
  b.nonneg,
  b.within,
  b.fits,
  All-remove i q.reservations,
  active_reserved-remove i q.reservations,
  held_by-lookup_nonneg i q.reservations,
)

consume-IsBudgeted :
    (i : String) (method : Option String) (q : QuotaManager)
    → IsBudgeted q
    → IsBudgeted (consume i method q).1
unfolding consume incrby get_used
consume-IsBudgeted i method q b = grind (
  int_laws,
  b.all_open,
  b.unused,
  b.nonneg,
  b.within,
  b.fits,
  All-remove i q.reservations,
  active_reserved-remove i q.reservations,
  held_by-lookup_nonneg i q.reservations,
  active_reserved_nonneg (remove i q.reservations),
)

charge-IsBudgeted :
    (i : String) (method : Option String) (q : QuotaManager)
    → IsBudgeted q
    → IsBudgeted (charge_failure i method q)
unfolding charge_failure
charge-IsBudgeted i method q b =
    let c = consume-IsBudgeted i method q b in
    record {
      all_open = c.all_open;
      unused = c.unused;
      nonneg = c.nonneg;
      within = c.within;
      fits = c.fits;
    }

failure-IsBudgeted :
    (i : String) (classification : RequestClassification) (method : Option String)
    (q : QuotaManager)
    → IsBudgeted q
    → IsBudgeted (record_failure i classification method q)
unfolding record_failure release_if_not_dispatched
failure-IsBudgeted i classification method q b =
    ground (arith, charge-IsBudgeted i method q b, release-IsBudgeted i q b)

next_day-IsBudgeted : (q : QuotaManager) → IsBudgeted q → IsBudgeted (step next_day q)
unfolding step
next_day-IsBudgeted q b = grind (
  int_laws,
  b.all_open,
  b.unused,
  b.nonneg,
  b.within,
  b.fits,
  b.unused (q.today + 1),
  b.nonneg q.today,
)

step-IsBudgeted : (e : Event) (q : QuotaManager) → Asks e q → IsBudgeted q → IsBudgeted (step e q)
unfolding step
step-IsBudgeted (reserve_event asked method now) q h b = reserve-IsBudgeted asked method now q h b
step-IsBudgeted (consume_event i method) q h b = consume-IsBudgeted i method q b
step-IsBudgeted (release_event i) q h b = release-IsBudgeted i q b
step-IsBudgeted (failure_event i classification method) q h b =
    failure-IsBudgeted i classification method q b
step-IsBudgeted next_day q h b = next_day-IsBudgeted q b

-- Each reservation of a run asks for no negative number of units.
abbrev pub AllAsk : List Event → QuotaManager → Type 0
AllAsk [] q = Unit
AllAsk (e ∷ es) q = Asks e q × AllAsk es (step e q)

run-IsBudgeted :
    (es : List Event) (q : QuotaManager) → AllAsk es q → IsBudgeted q → IsBudgeted (run es q)
unfolding run
run-IsBudgeted [] q h b = b
run-IsBudgeted (e ∷ es) q h b = run-IsBudgeted es (step e q) h.1 (step-IsBudgeted e q h.0 b)

-- What Redis may hold when a manager is new: no counter is negative or over the limit, and none
-- of a day to come is used.
abbrev pub AreWithin : ℤ → ℕ → (ℕ → ℤ) → Type 0
AreWithin limit today counters =
    (d : ℕ) → (pos 0 ≤ℤ counters d) × (counters d ≤ℤ limit) × (today < d → counters d ≡ pos 0)

new_manager-IsBudgeted :
    (limit : ℤ) (registry : Registry) (new_id : ℕ → String) (counters : ℕ → ℤ) (today : ℕ)
    → AreWithin limit today counters
    → IsBudgeted (new_manager limit registry new_id counters today)
unfolding new_manager active_reserved
new_manager-IsBudgeted limit registry new_id counters today h = record {
  all_open = tt;
  unused = λ d l. (h d).2 l;
  nonneg = λ d. (h d).0;
  within = λ d. (h d).1;
  fits = grind (int_laws, (h today).1);
}

-- After any reservations, confirmations, releases, failures and changes of day on a new manager,
-- if at the start the counters in Redis are not negative, not over the limit, and zero for the
-- days to come, and each reservation asks for a number of units that is not negative, no day's
-- counter is over the limit, and what is used today and what is reserved are together within it.
pub daily_limit_kept :
    (es : List Event) (limit : ℤ) (registry : Registry) (new_id : ℕ → String) (counters : ℕ → ℤ)
    (today : ℕ)
    → AreWithin limit today counters
    → AllAsk es (new_manager limit registry new_id counters today)
    → let q = run es (new_manager limit registry new_id counters today) in
      ((d : ℕ) → q.counters d ≤ℤ q.daily_limit)
      × (get_used q +ℤ active_reserved q.reservations ≤ℤ q.daily_limit)
unfolding get_used
daily_limit_kept es limit registry new_id counters today h asks =
    let b =
      run-IsBudgeted es (new_manager limit registry new_id counters today) asks
        (new_manager-IsBudgeted limit registry new_id counters today h) in
    (b.within, b.fits)
