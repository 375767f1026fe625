-- ===== src/Quota/Charges.antt =====
-- What single calls of app/youtube/quota.py do to the counter, the reservations and the telemetry.
use ai_modrator.Common.{
  ℕ, String, ◌≡◌, refl, false, Option, none, some, if◌then◌else◌, arith, eq_iff, All, Bool-cases,
  inl, inr,
}
use ai_modrator.Common.Dict.{lookup, insert, lookup-remove}
use ai_modrator.Common.Int.{ℤ, pos, ◌+ℤ◌, leb_ℤ, int_laws}
use ai_modrator.Quota.Registry.{get_cost, or_else, consumed_total, consumed_total-record_usage}
use ai_modrator.Quota.Manager.{
  QuotaReservation, QuotaManager, Reserved, reserved, quota_exceeded, get_used, active_reserved,
  reserve, incrby, consume, release_if_failed_before_request, release_if_not_dispatched,
  charge_failure, record_failure,
}
use ai_modrator.Quota.Budget.{IsOpen, active_reserved-insert}
use ai_modrator.Quota.Events.{
  Event, reserve_event, consume_event, release_event, failure_event, next_day, step,
}

module _ (asked : Option ℤ) (method : String) (now : ℕ) (q : QuotaManager) where
  abbrev asked_units : ℤ
  asked_units = or_else asked (get_cost method q.registry)

  abbrev held_before : ℤ
  held_before = get_used q +ℤ active_reserved q.reservations

  abbrev answer_of : Reserved × QuotaManager
  answer_of = reserve asked method now q

  abbrev new_reservation : QuotaReservation
  new_reservation = record {
    reservation_id = q.new_id q.issued;
    units = asked_units;
    method = method;
    created_at = now;
    consumed = false;
    released = false;
  }

  held_after :
      (u : ℤ)
      → All IsOpen q.reservations
      → lookup (q.new_id q.issued) q.reservations ≡ none
      → u +ℤ active_reserved (insert (q.new_id q.issued) new_reservation q.reservations)
        ≡ u +ℤ active_reserved q.reservations +ℤ asked_units
  held_after u all fresh = grind (
    int_laws,
    fresh,
    active_reserved-insert (q.new_id q.issued) new_reservation q.reservations refl refl all,
  )

  -- If the reservations are open and the next id is not among them, `reserve` is granted
  -- exactly if the units fit in with what is used and reserved, and then they are reserved as
  -- well; otherwise it answers with what is used and reserved, and changes nothing.
  pub reserve_lem :
      All IsOpen q.reservations
      → lookup (q.new_id q.issued) q.reservations ≡ none
      → if leb_ℤ (held_before +ℤ asked_units) q.daily_limit
        then (answer_of.0 ≡ reserved (q.new_id q.issued))
          × (get_used answer_of.1 +ℤ active_reserved answer_of.1.reservations
              ≡ held_before +ℤ asked_units)
        else (answer_of.0 ≡ quota_exceeded held_before q.daily_limit) × (answer_of.1 ≡ q)
  unfolding reserve get_used
  reserve_lem all fresh = elim (Bool-cases (leb_ℤ (held_before +ℤ asked_units) q.daily_limit)) [
    | inl e ↦ rw e (ground (arith, e, held_after (get_used q) all fresh))
    | inr e ↦ rw e (ground (arith, e))
  ]

-- If an id has an open reservation, `consume` adds its units to the day's counter and returns the
-- counter, and a second `consume` of the id returns 0 and changes nothing.
pub consume_once :
    (i : String) (method again : Option String) (q : QuotaManager) (r : QuotaReservation)
    → lookup i q.reservations ≡ some r
    → r.consumed ≡ false
    → let (total, q') = consume i method q in
      (get_used q' ≡ get_used q +ℤ r.units)
      × (total ≡ get_used q')
      × (consume i again q' ≡ (pos 0, q'))
unfolding consume get_used incrby
consume_once i method again q r h e =
    ground (arith, h, e, lookup-remove i i q.reservations, eq_iff i i)

-- Every call on the manager adds to the telemetry's total exactly what it adds to the counter of
-- the day.
pub step_recorded :
    (e : Event) (q : QuotaManager)
    → consumed_total (step e q).registry.stats +ℤ get_used q
      ≡ consumed_total q.registry.stats +ℤ (step e q).counters q.today
unfolding step consume get_used incrby reserve release_if_failed_before_request record_failure
    release_if_not_dispatched charge_failure
step_recorded (reserve_event asked method now) q = grind int_laws
step_recorded (consume_event i method) q = grind (int_laws, consumed_total-record_usage)
step_recorded (release_event i) q = grind int_laws
step_recorded (failure_event i classification method) q =
    grind (int_laws, consumed_total-record_usage)
step_recorded next_day q = grind int_laws
