-- ===== src/Engagement/Messages.antt =====
-- `XPManager.process_chat_message` of app/engagement/xp.py, and messages processed one after the
-- other. `xp_for_next_level` is as in `Engagement.Levels`, `lower` Python's `str.lower`.
use ai_modrator.Common.{ℕ, ◌+◌, String, Bool, true, false, List, [], ◌∷◌, ltb, if◌then◌else◌}
use ai_modrator.Engagement.Farming.{
  AntiFarmingGuard, Reason, xp_awarded, is_message_meaningful, can_award_xp, record_award,
}
use ai_modrator.Engagement.Levels.{calculate_level_from_xp}
use ai_modrator.Engagement.Profiles.{
  Profile, get_or_create, update_profile, increment_message, award_xp,
}

-- What the method answers: (awarded, reason, total_xp, leveled_up).
pub record Answer : Type 0 where
  pub awarded : Bool
  pub reason : Reason
  pub total_xp : ℕ
  pub leveled_up : Bool

pub record Manager : Type 0 where
  pub anti_farming : AntiFarmingGuard
  pub profiles : List Profile

-- The arguments of one call, the id that a new profile would get, and what the clock shows at the
-- six times that it is read; the two reads in a row of `award_xp` show the same time.
pub record Message : Type 0 where
  pub creator_id : String
  pub viewer_channel_id : String
  pub display_name : String
  pub message_text : String
  pub base_reward : ℕ
  pub new_id : ℕ
  pub counted_at : ℕ
  pub checked_at : ℕ
  pub dated_at : ℕ
  pub awarded_at : ℕ
  pub recorded_at : ℕ
  pub record_dated_at : ℕ

abbrev pub refuse : Reason → Profile → Answer
refuse reason p = record {
  awarded = false;
  reason = reason;
  total_xp = p.total_xp;
  leveled_up = false;
}

module _ (xp_for_next_level : ℕ → ℕ) (lower : String → String) where
  -- Step 4 of the method.
  unfoldable pub award : Message → Profile → AntiFarmingGuard → List Profile → Answer × Manager
  award m p g ps =
      let new_total_xp = p.total_xp + m.base_reward in
      let new_level = calculate_level_from_xp xp_for_next_level new_total_xp in
      (
        record {
          awarded = true;
          reason = xp_awarded;
          total_xp = new_total_xp;
          leveled_up = ltb p.level new_level;
        },
        record {
          anti_farming =
              record_award m.creator_id m.viewer_channel_id m.base_reward m.recorded_at
                m.record_dated_at g;
          profiles =
              update_profile m.creator_id m.viewer_channel_id
                (award_xp m.base_reward new_level m.awarded_at) ps;
        },
      )

  -- Steps 2 to 4, for the profile whose message has been counted.
  unfoldable pub gates : Message → Profile → AntiFarmingGuard → List Profile → Answer × Manager
  gates m p g ps =
      let (meaningful, reason) = is_message_meaningful lower m.message_text g in
      let (can_award, why_not, g') =
        can_award_xp m.creator_id m.viewer_channel_id m.base_reward m.checked_at m.dated_at g in
      if meaningful
      then if can_award
        then award m p g' ps
        else (refuse why_not p, record { anti_farming = g'; profiles = ps })
      else (refuse reason p, record { anti_farming = g; profiles = ps })

  unfoldable pub process_chat_message : Message → Manager → Answer × Manager
  process_chat_message m x =
      let (p, ps) =
        get_or_create m.creator_id m.viewer_channel_id m.display_name m.new_id m.counted_at
          x.profiles in
      gates m (increment_message m.counted_at p) x.anti_farming
        (update_profile m.creator_id m.viewer_channel_id (increment_message m.counted_at) ps)

  -- The manager after some messages, and the messages that were awarded, the last one first.
  unfoldable pub run : List Message → Manager × List Message → Manager × List Message
  run [] x = x
  run (m ∷ ms) (x, log) =
      let (a, x') = process_chat_message m x in run ms (x', if a.awarded then m ∷ log else log)
