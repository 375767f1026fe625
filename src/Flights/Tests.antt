-- ===== src/Flights/Tests.antt =====
-- Two calls with one key, and the theorem at this input.
use ai_modrator.Common.{ℕ, ◌≤◌, ◌≡◌, refl, true, false}
use ai_modrator.Common.Dict.{lookup, insert}
use ai_modrator.Flights.Coalescer.{Coalescer, new_coalescer, enter, leads}
use ai_modrator.Flights.Single.{Reachable, start, then_step, enters, under_way, single_flight}

abbrev one : Coalescer ℕ
one = (enter ℕ "k" (new_coalescer ℕ)).1

abbrev two : Coalescer ℕ
two = (enter ℕ "k" one).1

second_waits : (enter ℕ "k" one).0 ≡ (false, 0)
unfolding enter lookup insert
second_waits = refl

reached : Reachable ℕ two
reached = then_step (then_step start (enters "k" (new_coalescer ℕ))) (enters "k" one)

single_flight_example :
    (under_way ℕ "k" two.leaders ≤ 1)
    × ((f : ℕ) → leads ℕ "k" f two.leaders ≡ true → (enter ℕ "k" two).0 ≡ (false, f))
single_flight_example = single_flight ℕ two "k" reached
