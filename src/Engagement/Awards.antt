-- ===== src/Engagement/Awards.antt =====
-- What the guard of app/engagement/xp.py lets through, over any messages that are processed one
-- after the other.
use ai_modrator.Common.{
  ℕ, ◌≤◌, String, ◌≡◌, refl, ◌⊎◌, true, false, List, [], ◌∷◌, inl, inr, if◌then◌else◌, Bool-cases,
  arith,
}
use ai_modrator.Engagement.Daily.{
  DailyKept, xp_on, recorded, date_of_monotone, can_award_xp-kept, recorded-kept,
}
use ai_modrator.Engagement.Farming.{
  AntiFarmingGuard, new_guard, micros, date_of, can_award_xp, is_message_meaningful,
}
use ai_modrator.Engagement.Messages.{Message, Manager, process_chat_message, gates, award, run}
use ai_modrator.Engagement.Pace.{
  PaceKept, Paced, newest, in_window, can_award_xp-paced, can_award_xp-allowed, recorded-paced,
  allowed-Paced,
}
use ai_modrator.Engagement.Profiles.{Profile}

-- What the guard keeps from one message to the next, at the time `t`.
abbrev pub Kept : ℕ → ℕ → ℕ → AntiFarmingGuard → List Message → Type 0
Kept limit gap t g log =
    ((c v : String) → DailyKept limit c v (date_of t) g log)
    × ((c v : String) → PaceKept gap c v t g log)
    × Paced gap log

-- The clock does not go back from a check to the record of the award.
abbrev pub IsInOrder : ℕ → Message → Type 0
IsInOrder t m =
    (t ≤ m.checked_at)
    × (m.checked_at ≤ m.dated_at)
    × (m.dated_at ≤ m.recorded_at)
    × (m.recorded_at ≤ m.record_dated_at)

abbrev pub AreInOrder : ℕ → List Message → Type 0
AreInOrder t [] = Unit
AreInOrder t (m ∷ ms) = IsInOrder t m × AreInOrder m.record_dated_at ms

later-Kept :
    (limit gap s t : ℕ) (g : AntiFarmingGuard) (log : List Message)
    → s ≤ t
    → Kept limit gap s g log
    → Kept limit gap t g log
later-Kept limit gap s t g log h (daily, pace, paced) = (
  λ c v.
      let (capped, on, small, counted, bounded) = daily c v in
      (capped, ground (arith, date_of_monotone s t h), small, counted, bounded),
  λ c v.
      let (waits, last, counted) = pace c v in
      (waits, last, λ later. λ l. counted later (ground arith)),
  paced,
)

-- The guard after the check of a message.
abbrev pub checked : Message → AntiFarmingGuard → AntiFarmingGuard
checked m g =
    (can_award_xp m.creator_id m.viewer_channel_id m.base_reward m.checked_at m.dated_at g).2

checked-Kept :
    (limit gap t : ℕ) (m : Message) (g : AntiFarmingGuard) (log : List Message)
    → IsInOrder t m
    → Kept limit gap t g log
    → Kept limit gap m.dated_at (checked m g) log
checked-Kept limit gap t m g log (h0, h1, h2, h3) (daily, pace, paced) =
    let d = m.creator_id in
    let w = m.viewer_channel_id in
    let x = m.base_reward in
    (
      λ c v.
          can_award_xp-kept limit x m.checked_at m.dated_at (date_of t) c v d w g log
            (date_of_monotone t m.dated_at (ground arith)) (daily c v),
      λ c v.
          let (waits, last, counted) =
            can_award_xp-paced gap x t m.checked_at m.dated_at c v d w g log h0 (pace c v) in
          (waits, last, λ later. λ l. counted later (ground arith)),
      paced,
    )

awarded-Kept :
    (limit gap t : ℕ) (m : Message) (g : AntiFarmingGuard) (log : List Message)
    → IsInOrder t m
    → (can_award_xp m.creator_id m.viewer_channel_id m.base_reward m.checked_at m.dated_at g).0
      ≡ true
    → Kept limit gap t g log
    → Kept limit gap m.record_dated_at (recorded m (checked m g)) (m ∷ log)
awarded-Kept limit gap t m g log h e kept =
    let d = m.creator_id in
    let w = m.viewer_channel_id in
    let x = m.base_reward in
    let (h0, h1, h2, h3) = h in
    let (rested, few, room) = can_award_xp-allowed x m.checked_at m.dated_at d w g e in
    let before = kept.1 d w in
    let (daily, pace, paced) = checked-Kept limit gap t m g log h kept in
    let here = pace d w in
    (
      λ c v.
          recorded-kept limit (date_of m.dated_at) c v m (checked m g) log
            (date_of_monotone m.dated_at m.record_dated_at (ground arith))
            (ground (arith, (kept.0 d w).0)) (daily c v),
      λ c v.
          let (waits, last, counted) =
            recorded-paced gap m.dated_at c v m (checked m g) log h2 (pace c v) in
          (waits, last, λ later. λ l. counted later (ground arith)),
      allowed-Paced gap m.dated_at m (checked m g) log h2
          (ground (arith, rested, before.0, before.1, here.1)) few here paced,
    )

module _ (xp_for_next_level : ℕ → ℕ) (lower : String → String) where
  -- Three things can happen to the guard, and only the last is an award.
  process_chat_message-cases :
      (m : Message) (x : Manager)
      → let g = x.anti_farming in
        let r = process_chat_message xp_for_next_level lower m x in
        let can =
          can_award_xp m.creator_id m.viewer_channel_id m.base_reward m.checked_at m.dated_at g in
        ((r.0.awarded ≡ false) × (r.1.anti_farming ≡ g))
        ⊎ (((r.0.awarded ≡ false) × (r.1.anti_farming ≡ checked m g))
            ⊎ ((r.0.awarded ≡ true)
                × (can.0 ≡ true)
                × (r.1.anti_farming ≡ recorded m (checked m g))))
  unfolding process_chat_message gates award
  process_chat_message-cases m x =
      let g = x.anti_farming in
      let can =
        can_award_xp m.creator_id m.viewer_channel_id m.base_reward m.checked_at m.dated_at g in
      elim (Bool-cases (is_message_meaningful lower m.message_text g).0) [
        | inr e ↦ inl (rw e refl, rw e refl)
        | inl e ↦ elim (Bool-cases can.0) [
          | inr f ↦ inr (inl (rw (e, f) refl, rw (e, f) refl))
          | inl f ↦ inr (inr (rw (e, f) refl, f, rw (e, f) refl))
        ]
      ]

  process-Kept :
      (limit gap t : ℕ) (m : Message) (x : Manager) (log : List Message)
      → IsInOrder t m
      → Kept limit gap t x.anti_farming log
      → let (a, x') = process_chat_message xp_for_next_level lower m x in
        Kept limit gap m.record_dated_at x'.anti_farming (if a.awarded then m ∷ log else log)
  process-Kept limit gap t m x log h kept =
      let g = x.anti_farming in
      elim (process_chat_message-cases m x) [
        | inl (not_awarded, same) ↦
            rw (not_awarded, same)
              (later-Kept limit gap t m.record_dated_at g log (ground arith) kept)
        | inr (inl (not_awarded, same)) ↦
            rw (not_awarded, same)
              (later-Kept limit gap m.dated_at m.record_dated_at (checked m g) log (ground arith)
                (checked-Kept limit gap t m g log h kept))
        | inr (inr (is_awarded, can, same)) ↦
            rw (is_awarded, same) (awarded-Kept limit gap t m g log h can kept)
      ]

  run-Kept :
      (limit gap t : ℕ) (ms : List Message) (x : Manager) (log : List Message)
      → AreInOrder t ms
      → Kept limit gap t x.anti_farming log
      → (s : ℕ) × (let (x', log') = run xp_for_next_level lower ms (x, log) in
          Kept limit gap s x'.anti_farming log')
  unfolding run
  run-Kept limit gap t [] x log h kept = (t, kept)
  run-Kept limit gap t (m ∷ ms) x log h kept =
      let r = process_chat_message xp_for_next_level lower m x in
      run-Kept limit gap m.record_dated_at ms r.1 (if r.0.awarded then m ∷ log else log) h.1
        (process-Kept limit gap t m x log h.0 kept)

  abbrev pub fresh : ℕ → ℕ → ℕ → List Profile → Manager
  fresh cooldown_seconds min_message_length max_daily_xp ps = record {
    anti_farming = new_guard cooldown_seconds min_message_length max_daily_xp;
    profiles = ps;
  }

  fresh-Kept :
      (cooldown_seconds min_message_length max_daily_xp : ℕ)
      → Kept max_daily_xp
          (micros cooldown_seconds)
          0
          (new_guard cooldown_seconds min_message_length max_daily_xp)
          []
  unfolding xp_on newest in_window
  fresh-Kept cooldown_seconds min_message_length max_daily_xp = (
    λ c v. (refl, ground arith, ground arith, λ day. λ l. ground arith, λ day. ground arith),
    λ c v. (refl, refl, λ later. λ l. ground arith),
    tt,
  )

  -- The awards of any messages, processed one after the other by a new guard, give a viewer of
  -- a creator at most `max_daily_xp` on any one day, if the clock does not go back.
  pub run_daily :
      (cooldown_seconds min_message_length max_daily_xp : ℕ) (ps : List Profile) (ms : List Message)
      (c v : String) (day : ℕ)
      → AreInOrder 0 ms
      → xp_on c v day
          (run xp_for_next_level lower ms
            (fresh cooldown_seconds min_message_length max_daily_xp ps, [])).1
        ≤ max_daily_xp
  run_daily cooldown_seconds min_message_length max_daily_xp ps ms c v day h =
      let x = fresh cooldown_seconds min_message_length max_daily_xp ps in
      let (s, (daily, pace, paced)) =
        run-Kept max_daily_xp (micros cooldown_seconds) 0 ms x [] h
          (fresh-Kept cooldown_seconds min_message_length max_daily_xp) in
      (daily c v).4 day

  -- In the awards of any messages, processed one after the other by a new guard, each comes at
  -- least the cooldown after the viewer's last one for the creator and is the sixth at most
  -- within ten minutes, if the clock does not go back.
  pub run-Paced :
      (cooldown_seconds min_message_length max_daily_xp : ℕ) (ps : List Profile) (ms : List Message)
      → AreInOrder 0 ms
      → Paced
          (micros cooldown_seconds)
          (run xp_for_next_level lower ms
            (fresh cooldown_seconds min_message_length max_daily_xp ps, [])).1
  run-Paced cooldown_seconds min_message_length max_daily_xp ps ms h =
      let x = fresh cooldown_seconds min_message_length max_daily_xp ps in
      let (s, (daily, pace, paced)) =
        run-Kept max_daily_xp (micros cooldown_seconds) 0 ms x [] h
          (fresh-Kept cooldown_seconds min_message_length max_daily_xp) in
      paced
