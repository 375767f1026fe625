-- ===== src/Engagement/Pace.antt =====
-- How fast the guard of app/engagement/xp.py lets a viewer have awards.
use ai_modrator.Common.{
  ℕ, suc, ◌+◌, ◌≤◌, String, ◌≡◌, refl, ap, true, ◌&&◌, Option, none, some, List, [], ◌∷◌, length,
  eq_iff, ltb, if◌then◌else◌, arith,
}
use ai_modrator.Engagement.Farming.{
  AntiFarmingGuard, micros, or_zero, times_of, within_window, append_time, check_daily,
  can_award_xp, record_award,
}
use ai_modrator.Engagement.Messages.{Message}
use ai_modrator.Engagement.Daily.{is_to, total_in, recorded}

-- When the last award to a viewer of a creator was recorded.
unfoldable pub newest : String → String → List Message → Option ℕ
newest c v [] = none
newest c v (m ∷ log) = let rest = newest c v log in if is_to c v m then some m.recorded_at else rest

-- How many awards to a viewer of a creator are younger than ten minutes.
unfoldable pub in_window : String → String → ℕ → List Message → ℕ
in_window c v now [] = 0
in_window c v now (m ∷ log) =
    let rest = in_window c v now log in
    if is_to c v m && ltb now (m.recorded_at + 600000000) then suc rest else rest

-- The first time at which a viewer may be awarded again.
abbrev pub ready_at : ℕ → Option ℕ → ℕ
ready_at gap none = 0
ready_at gap (some t) = t + gap

-- Every award came at least `gap` after the one before to the same viewer of the same creator, and
-- was the sixth at most within ten minutes.
abbrev pub Paced : ℕ → List Message → Type 0
Paced gap [] = Unit
Paced gap (m ∷ log) =
    (ready_at gap (newest m.creator_id m.viewer_channel_id log) ≤ m.recorded_at)
    × (in_window m.creator_id m.viewer_channel_id m.recorded_at (m ∷ log) ≤ 6)
    × Paced gap log

-- What the guard knows at the time `now` of its last check.
abbrev pub PaceKept : ℕ → String → String → ℕ → AntiFarmingGuard → List Message → Type 0
PaceKept gap c v now g log =
    (micros g.cooldown_seconds ≡ gap)
    × (g.last_award c v ≡ newest c v log)
    × ((later : ℕ)
        → now ≤ later
        → in_window c v later log
          ≤ length (within_window later (times_of (g.award_timestamps c v))))

within_window-within_window :
    (now later : ℕ) (ts : List ℕ)
    → now ≤ later
    → within_window later (within_window now ts) ≡ within_window later ts
unfolding within_window
within_window-within_window now later [] h = refl
within_window-within_window now later (t ∷ ts) h =
    ground (arith, within_window-within_window now later ts h)

pub length-within_window : (now : ℕ) (ts : List ℕ) → length (within_window now ts) ≤ length ts
unfolding within_window
length-within_window now [] = ground arith
length-within_window now (t ∷ ts) = ground (arith, length-within_window now ts)

within_window-append_time :
    (now t : ℕ) (ts : List ℕ)
    → length (within_window now (append_time ts t)) ≡ (
        if ltb now (t + 600000000)
        then suc (length (within_window now ts))
        else length (within_window now ts))
unfolding within_window append_time
within_window-append_time now t [] = ground arith
within_window-append_time now t (s ∷ ts) = ground (arith, within_window-append_time now t ts)

-- What a check leaves of the guard, and what it has found if it allows the award.
pub can_award_xp-paced :
    (gap x now0 now dated : ℕ) (c v d w : String) (g : AntiFarmingGuard) (log : List Message)
    → now0 ≤ now
    → PaceKept gap c v now0 g log
    → PaceKept gap c v now (can_award_xp d w x now dated g).2 log
unfolding can_award_xp check_daily
can_award_xp-paced gap x now0 now dated c v d w g log h (waits, last, counted) = (
  ground arith,
  ground arith,
  λ later. λ l. ground (
    arith,
    eq_iff d c,
    eq_iff w v,
    counted later,
    within_window-within_window now later (times_of (g.award_timestamps c v)) l,
  ),
)

pub can_award_xp-allowed :
    (x now dated : ℕ) (d w : String) (g : AntiFarmingGuard)
    → (can_award_xp d w x now dated g).0 ≡ true
    → (or_zero (g.last_award d w) + micros g.cooldown_seconds ≤ now)
      × (length (times_of ((can_award_xp d w x now dated g).2.award_timestamps d w)) ≤ 5)
      × (total_in ((can_award_xp d w x now dated g).2.daily_totals d w) + x ≤ g.max_daily_xp)
unfolding can_award_xp check_daily
can_award_xp-allowed x now dated d w g h =
    (ground arith, ground (arith, eq_iff d d, eq_iff w w), ground (arith, eq_iff d d, eq_iff w w))

length-append_time : (t : ℕ) (ts : List ℕ) → length (append_time ts t) ≡ suc (length ts)
unfolding append_time
length-append_time t [] = refl
length-append_time t (s ∷ ts) = ap suc (length-append_time t ts)

pub recorded-paced :
    (gap now : ℕ) (c v : String) (m : Message) (g : AntiFarmingGuard) (log : List Message)
    → now ≤ m.recorded_at
    → PaceKept gap c v now g log
    → PaceKept gap c v m.recorded_at (recorded m g) (m ∷ log)
unfolding record_award newest in_window is_to
recorded-paced gap now c v m g log h (waits, last, counted) =
    let ts = times_of (g.award_timestamps c v) in
    (
      waits,
      ground (arith, eq_iff m.creator_id c, eq_iff m.viewer_channel_id v),
      λ later. λ l. ground (
        arith,
        eq_iff m.creator_id c,
        eq_iff m.viewer_channel_id v,
        counted later,
        within_window-append_time later m.recorded_at ts,
      ),
    )

-- An allowed award keeps the pace.
pub allowed-Paced :
    (gap now : ℕ) (m : Message) (g : AntiFarmingGuard) (log : List Message)
    → now ≤ m.recorded_at
    → or_zero (g.last_award m.creator_id m.viewer_channel_id) + gap ≤ now
    → length (times_of (g.award_timestamps m.creator_id m.viewer_channel_id)) ≤ 5
    → PaceKept gap m.creator_id m.viewer_channel_id now g log
    → Paced gap log
    → Paced gap (m ∷ log)
unfolding in_window is_to
allowed-Paced gap now m g log h rested few (waits, last, counted) paced =
    let ts = times_of (g.award_timestamps m.creator_id m.viewer_channel_id) in
    (
      ground arith,
      ground (
        arith,
        eq_iff m.creator_id m.creator_id,
        eq_iff m.viewer_channel_id m.viewer_channel_id,
        counted m.recorded_at,
        length-within_window m.recorded_at ts,
      ),
      paced,
    )
