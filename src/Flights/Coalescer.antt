-- ===== src/Flights/Coalescer.antt =====
-- `AIRequestCoalescer` of app/ai/coalescer.py. A future is the number of its creation. A call of
-- `execute` is split where it waits: it enters under the lock, a leader settles its future when its
-- action has ended, and leaves under the lock. `leaders` records the calls whose action was begun and
-- that have not left, each with its key and future.
use ai_modrator.Common.{
  ℕ, ◌+◌, String, Bool, true, false, ◌&&◌, Option, none, some, List, [], ◌∷◌, str_eq, ◌==◌,
  if◌then◌else◌,
}
use ai_modrator.Common.Dict.{Dict, lookup, insert, remove}
use ai_modrator.Common.Text.{◌⊕◌}

unfoldable pub make_key : String → String → String → String → String
make_key creator_id stream_session_id message_id task_type =
    "ai" ⊕ creator_id ⊕ stream_session_id ⊕ message_id ⊕ task_type

module _ (A : Type 0) where
  pub record Coalescer : Type 0 where
    pub in_flight : Dict ℕ
    pub total_requests : ℕ
    pub coalesced_requests : ℕ
    pub created : ℕ
    pub outcomes : ℕ → Option A
    pub leaders : List (String × ℕ)

  abbrev pub new_coalescer : Coalescer
  new_coalescer = record {
    in_flight = [];
    total_requests = 0;
    coalesced_requests = 0;
    created = 0;
    outcomes = λ f. none;
    leaders = [];
  }

  -- Whether the call leads, and the future that it sets or waits for.
  unfoldable pub enter : String → Coalescer → (Bool × ℕ) × Coalescer
  enter key s = elim (lookup key s.in_flight) [
    | some future ↦ (
      (false, future),
      record s {
        total_requests = s.total_requests + 1;
        coalesced_requests = s.coalesced_requests + 1;
      },
    )
    | none ↦ (
      (true, s.created),
      record s {
        total_requests = s.total_requests + 1;
        in_flight = insert key s.created s.in_flight;
        created = s.created + 1;
        leaders = (key, s.created) ∷ s.leaders;
      },
    )
  ]

  abbrev pub or_keep : Option A → A → Option A
  or_keep none a = some a
  or_keep (some b) a = some b

  -- `if not future.done(): future.set_result(result)`, and the same with an exception.
  unfoldable pub settle : ℕ → A → Coalescer → Coalescer
  settle future outcome s = record s {
    outcomes = λ f. if f == future then or_keep (s.outcomes f) outcome else s.outcomes f;
  }

  unfoldable pub drop_leader : String → ℕ → List (String × ℕ) → List (String × ℕ)
  drop_leader key future [] = []
  drop_leader key future ((k, f) ∷ ls) =
      let rest = drop_leader key future ls in
      if str_eq k key && f == future then ls else (k, f) ∷ rest

  -- `self._in_flight.pop(key, None)`.
  unfoldable pub leave : String → ℕ → Coalescer → Coalescer
  leave key future s = record s {
    in_flight = remove key s.in_flight;
    leaders = drop_leader key future s.leaders;
  }

  unfoldable pub leads : String → ℕ → List (String × ℕ) → Bool
  leads key future [] = false
  leads key future ((k, f) ∷ ls) =
      let rest = leads key future ls in if str_eq k key && f == future then true else rest
