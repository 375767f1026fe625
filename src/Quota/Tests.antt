-- ===== src/Quota/Tests.antt =====
-- A manager with a limit of 120 units, and the theorems at such inputs.
use ai_modrator.Common.{ℕ, String, ◌≡◌, refl, false, none, some, List, [], ◌∷◌, arith}
use ai_modrator.Common.Dict.{lookup, insert, remove}
use ai_modrator.Common.Int.{ℤ, pos, ◌+ℤ◌, ◌≤ℤ◌}
use ai_modrator.Common.Text.{decimal}
use ai_modrator.Quota.Registry.{Registry, new_registry, load_overrides, get_cost, record_usage}
use ai_modrator.Quota.Manager.{
  QuotaManager, QuotaReservation, get_used, active_reserved, reserve, incrby, consume, new_manager,
}
use ai_modrator.Quota.Events.{Event, reserve_event, consume_event, next_day, step, run}
use ai_modrator.Quota.Budget.{AllAsk, daily_limit_kept}
use ai_modrator.Quota.Charges.{consume_once}

abbrev registry : Registry
registry = new_registry (λ _. none)

abbrev ids : ℕ → String
ids n = decimal (pos n)

abbrev no_counters : ℕ → ℤ
no_counters day = pos 0

abbrev idle : QuotaManager
idle = new_manager (pos 120) registry ids no_counters 3

abbrev search : Event
search = reserve_event none "search.list" 0

abbrev events : List Event
events = search ∷ consume_event "0" none ∷ search ∷ next_day ∷ search ∷ []

-- The second search does not fit in on the first day; the third is made on the next day.
used_after_events :
    ((run events idle).counters 3 ≡ pos 100)
    × ((run events idle).counters 4 ≡ pos 0)
    × (active_reserved (run events idle).reservations ≡ pos 100)
unfolding run step reserve consume incrby get_used active_reserved get_cost new_registry
    load_overrides lookup insert new_manager ◌+ℤ◌ decimal remove record_usage
used_after_events = (refl, refl, refl)

events_ask : AllAsk events idle
unfolding step reserve consume get_cost new_registry load_overrides lookup insert new_manager
    get_used active_reserved ◌+ℤ◌ decimal remove record_usage incrby
events_ask = ground arith

daily_limit_kept_example :
    ((d : ℕ) → (run events idle).counters d ≤ℤ (run events idle).daily_limit)
    × (get_used (run events idle) +ℤ active_reserved (run events idle).reservations
        ≤ℤ (run events idle).daily_limit)
daily_limit_kept_example =
    daily_limit_kept events (pos 120) registry ids no_counters 3
      (λ d. (ground arith, ground arith, λ l. refl)) events_ask

abbrev busy : QuotaManager
busy = step search idle

abbrev held : QuotaReservation
held = record {
  reservation_id = "0";
  units = pos 100;
  method = "search.list";
  created_at = 0;
  consumed = false;
  released = false;
}

held_found : lookup "0" busy.reservations ≡ some held
unfolding step reserve lookup insert get_used active_reserved get_cost new_registry load_overrides
    new_manager ◌+ℤ◌ decimal
held_found = refl

consume_once_example :
    (get_used (consume "0" none busy).1 ≡ get_used busy +ℤ pos 100)
    × ((consume "0" none busy).0 ≡ get_used (consume "0" none busy).1)
    × (consume "0" none (consume "0" none busy).1 ≡ (pos 0, (consume "0" none busy).1))
consume_once_example = consume_once "0" none none busy held held_found refl

idle_fresh : lookup (ids 0) idle.reservations ≡ none
unfolding new_manager lookup
idle_fresh = refl
