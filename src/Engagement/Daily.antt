-- ===== src/Engagement/Daily.antt =====
-- How much XP the guard of app/engagement/xp.py lets a viewer have on one day.
use ai_modrator.Common.{
  ℕ, ◌+◌, ◌≤◌, String, ◌≡◌, Bool, ◌&&◌, Option, none, some, List, [], ◌∷◌, str_eq, eq_iff, ◌==◌,
  if◌then◌else◌, arith,
}
use ai_modrator.Engagement.Farming.{
  AntiFarmingGuard, date_of, check_daily, can_award_xp, record_award,
}
use ai_modrator.Engagement.Messages.{Message}

unfoldable pub is_to : String → String → Message → Bool
is_to c v m = str_eq m.creator_id c && str_eq m.viewer_channel_id v

-- The XP that the awards of one day to a viewer of a creator add up to.
unfoldable pub xp_on : String → String → ℕ → List Message → ℕ
xp_on c v day [] = 0
xp_on c v day (m ∷ log) =
    let rest = xp_on c v day log in
    if is_to c v m && date_of m.record_dated_at == day then m.base_reward + rest else rest

abbrev pub date_in : Option (ℕ × ℕ) → ℕ
date_in none = 0
date_in (some (date, total)) = date

abbrev pub total_in : Option (ℕ × ℕ) → ℕ
total_in none = 0
total_in (some (date, total)) = total

abbrev pub total_on : ℕ → Option (ℕ × ℕ) → ℕ
total_on day none = 0
total_on day (some (date, total)) = if date == day then total else 0

-- The guard's entry of a viewer by the day `today`: it is not of a later day, it is within the
-- limit, and it counts the awards of its own and of all later days.
abbrev pub DailyKept : ℕ → String → String → ℕ → AntiFarmingGuard → List Message → Type 0
DailyKept limit c v today g log =
    let entry = g.daily_totals c v in
    (g.max_daily_xp ≡ limit)
    × (date_in entry ≤ today)
    × (total_in entry ≤ limit)
    × ((day : ℕ) → date_in entry ≤ day → xp_on c v day log ≤ total_on day entry)
    × ((day : ℕ) → xp_on c v day log ≤ limit)

pub date_of_monotone : (s t : ℕ) → s ≤ t → date_of s ≤ date_of t
unfolding date_of
date_of_monotone s t h = grind arith

pub can_award_xp-kept :
    (limit x now dated today : ℕ) (c v d w : String) (g : AntiFarmingGuard) (log : List Message)
    → today ≤ date_of dated
    → DailyKept limit c v today g log
    → DailyKept limit c v (date_of dated) (can_award_xp d w x now dated g).2 log
unfolding can_award_xp check_daily
can_award_xp-kept limit x now dated today c v d w g log h (capped, on, small, counted, bounded) = (
  ground arith,
  ground (arith, eq_iff d c, eq_iff w v),
  ground (arith, eq_iff d c, eq_iff w v),
  λ day. λ later. ground (arith, eq_iff d c, eq_iff w v, counted day),
  bounded,
)

-- The guard after the reward of a message has been recorded.
abbrev pub recorded : Message → AntiFarmingGuard → AntiFarmingGuard
recorded m g =
    record_award m.creator_id m.viewer_channel_id m.base_reward m.recorded_at m.record_dated_at g

pub recorded-kept :
    (limit today : ℕ) (c v : String) (m : Message) (g : AntiFarmingGuard) (log : List Message)
    → today ≤ date_of m.record_dated_at
    → total_in (g.daily_totals m.creator_id m.viewer_channel_id) + m.base_reward ≤ limit
    → DailyKept limit c v today g log
    → DailyKept limit c v (date_of m.record_dated_at) (recorded m g) (m ∷ log)
unfolding record_award xp_on is_to
recorded-kept limit today c v m g log h room (capped, dated, small, counted, bounded) = (
  capped,
  ground (arith, eq_iff m.creator_id c, eq_iff m.viewer_channel_id v),
  ground (arith, eq_iff m.creator_id c, eq_iff m.viewer_channel_id v),
  λ day. λ later. ground (
    arith,
    eq_iff m.creator_id c,
    eq_iff m.viewer_channel_id v,
    counted day,
    counted (date_of m.record_dated_at),
  ),
  λ day. ground (
    arith,
    eq_iff m.creator_id c,
    eq_iff m.viewer_channel_id v,
    bounded day,
    counted (date_of m.record_dated_at),
  ),
)
