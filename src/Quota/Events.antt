-- ===== src/Quota/Events.antt =====
-- The calls that the clients of `QuotaManager` (app/youtube/quota.py) make, one after the other, and
-- the passing of days between them.
use ai_modrator.Common.{ℕ, ◌+◌, String, Option, List, [], ◌∷◌}
use ai_modrator.Common.Int.{ℤ}
use ai_modrator.Quota.Manager.{
  QuotaManager, RequestClassification, reserve, consume, release_if_failed_before_request,
  record_failure,
}

pub data Event : Type 0 where
  reserve_event : Option ℤ → String → ℕ → Event
  consume_event : String → Option String → Event
  release_event : String → Event
  failure_event : String → RequestClassification → Option String → Event
  next_day : Event

unfoldable pub step : Event → QuotaManager → QuotaManager
step (reserve_event units method now) q = (reserve units method now q).1
step (consume_event i method) q = (consume i method q).1
step (release_event i) q = release_if_failed_before_request i q
step (failure_event i classification method) q = record_failure i classification method q
step next_day q = record q { today = q.today + 1 }

unfoldable pub run : List Event → QuotaManager → QuotaManager
run [] q = q
run (e ∷ es) q = run es (step e q)
