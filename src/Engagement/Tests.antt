-- ===== src/Engagement/Tests.antt =====
-- Levels that cost 100 XP for each level reached, messages of one viewer, and the theorems at such
-- inputs.
use ai_modrator.Common.{ℕ, ◌+◌, ◌*◌, ◌≤◌, String, ◌≡◌, refl, List, [], ◌∷◌, map, arith}
use ai_modrator.Common.Split.{split, distinct_chars, has_char, add_char, add_to_first}
use ai_modrator.Common.Strip.{strip}
use ai_modrator.Engagement.Awards.{fresh, run_daily, run-Paced}
use ai_modrator.Engagement.Daily.{xp_on}
use ai_modrator.Engagement.Farming.{
  new_guard, micros, is_message_meaningful, can_award_xp, check_daily, record_award, size,
  all_emotes, is_emote, within_window, date_of, append_time,
}
use ai_modrator.Engagement.Messages.{Message, run, process_chat_message, gates, award}
use ai_modrator.Engagement.Pace.{Paced}
use ai_modrator.Engagement.Profiles.{get_by_viewer, get_or_create, update_profile, is_profile_of}
use ai_modrator.Engagement.Totals.{shown, xp_total, count_of, run-shown}
use ai_modrator.Engagement.Levels.{
  level_loop, calculate_level_from_xp, IsLevelOf, calculate_level_from_xp-IsLevelOf,
}

abbrev hundred_each : ℕ → ℕ
hundred_each level = 100 * level

level_of_350 : calculate_level_from_xp hundred_each 350 ≡ 3
unfolding calculate_level_from_xp level_loop
level_of_350 = ground arith

calculate_level_from_xp-IsLevelOf_example :
    (n : ℕ) × (calculate_level_from_xp hundred_each 350 ≡ n + 1) × IsLevelOf hundred_each 350 n
calculate_level_from_xp-IsLevelOf_example =
    calculate_level_from_xp-IsLevelOf hundred_each 350 (ground arith)

-- Python's `lower`, on texts that have no capitals.
abbrev as_it_is : String → String
as_it_is text = text

abbrev said : ℕ → Message
said now = record {
  creator_id = "c";
  viewer_channel_id = "v";
  display_name = "Ann";
  message_text = "good game";
  base_reward = 15;
  new_id = 1;
  counted_at = now;
  checked_at = now;
  dated_at = now;
  awarded_at = now;
  recorded_at = now;
  record_dated_at = now;
}

-- The second message comes 30 seconds after the first, the third 70 seconds.
abbrev chat : List Message
chat = said 100000000 ∷ said 130000000 ∷ said 170000000 ∷ []

awarded_twice :
    map
      (λ m. m.recorded_at)
      (run hundred_each as_it_is chat (fresh hundred_each as_it_is 60 4 40 [], [])).1
    ≡ 170000000 ∷ 100000000 ∷ []
unfolding run process_chat_message gates award get_or_create get_by_viewer update_profile
    is_profile_of is_message_meaningful can_award_xp check_daily record_award size strip
    distinct_chars has_char split add_char add_to_first all_emotes is_emote within_window date_of
    append_time
awarded_twice = refl

run_daily_example :
    xp_on "c" "v" 0 (run hundred_each as_it_is chat (fresh hundred_each as_it_is 60 4 40 [], [])).1
    ≤ 40
run_daily_example =
    run_daily hundred_each as_it_is 60 4 40 [] chat "c" "v" 0
      (ground arith, (ground arith, (ground arith, tt)))

run-Paced_example :
    Paced
      (micros 60)
      (run hundred_each as_it_is chat (fresh hundred_each as_it_is 60 4 40 [], [])).1
run-Paced_example =
    run-Paced hundred_each as_it_is 60 4 40 [] chat
      (ground arith, (ground arith, (ground arith, tt)))

run-shown_example :
    let (x, log) =
      run hundred_each as_it_is chat
        (record { anti_farming = new_guard 60 4 40; profiles = [] }, []) in
    shown (get_by_viewer "c" "v" x.profiles) ≡ (
      xp_total "c" "v" log,
      calculate_level_from_xp hundred_each (xp_total "c" "v" log),
      count_of "c" "v" chat,
    )
run-shown_example = run-shown hundred_each as_it_is (new_guard 60 4 40) chat "c" "v"
