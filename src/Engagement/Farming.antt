-- ===== src/Engagement/Farming.antt =====
-- `AntiFarmingGuard` of app/engagement/xp.py. A time is a number of microseconds; the code's date
-- texts are the days since the epoch of such times. Python's `str.lower` is a parameter. A method
-- takes one argument for each time that it reads the clock.
use Prim.Native.Char.{Char, code}
use Prim.Native.String.{◌∷◌ as cons, [] as nil}
use ai_modrator.Common.{
  ℕ, ◌+◌, ◌-◌, ◌*◌, ◌/◌, String, Bool, true, false, ◌&&◌, ◌||◌, Option, none, some, List, [], ◌∷◌,
  length, ltb, leb, ◌==◌, if◌then◌else◌,
}
use ai_modrator.Common.Pairs.{PairDict, no_pairs, put_pair}
use ai_modrator.Common.Split.{split, distinct_chars, distinct_words}
use ai_modrator.Common.Strip.{strip, is_space}

-- The reason texts of the guard and of `process_chat_message`; `cooldown_active` carries the
-- seconds that its text prints.
pub data Reason : Type 0 where
  message_too_short repetitive_characters repetitive_word_spam emoji_only valid : Reason
  cooldown_active : ℕ → Reason
  burst_limit_exceeded daily_cap_reached allowed xp_awarded : Reason

pub record AntiFarmingGuard : Type 0 where
  pub cooldown_seconds : ℕ
  pub min_message_length : ℕ
  pub max_daily_xp : ℕ
  pub last_award : PairDict ℕ
  pub award_timestamps : PairDict (List ℕ)
  pub daily_totals : PairDict (ℕ × ℕ)

abbrev pub new_guard : ℕ → ℕ → ℕ → AntiFarmingGuard
new_guard cooldown_seconds min_message_length max_daily_xp = record {
  cooldown_seconds = cooldown_seconds;
  min_message_length = min_message_length;
  max_daily_xp = max_daily_xp;
  last_award = no_pairs;
  award_timestamps = no_pairs;
  daily_totals = no_pairs;
}

abbrev pub micros : ℕ → ℕ
micros s = s * 1000000

-- The day of `strftime("%Y-%m-%d")`.
unfoldable pub date_of : ℕ → ℕ
date_of now = now / 86400000000

unfoldable pub size : String → ℕ
size nil = 0
size (cons c text) = size text + 1

-- The characters of the class in the code's pattern.
unfoldable pub is_emote : Char → Bool
is_emote c =
    let n = code c in
    n == 128514
    || n == 129315
    || n == 128518
    || n == 128517
    || n == 128569
    || n == 128293
    || n == 10084
    || n == 65039
    || n == 128077
    || is_space c

unfoldable pub all_emotes : String → Bool
all_emotes nil = true
all_emotes (cons c text) = is_emote c && all_emotes text

unfoldable pub is_message_meaningful : (String → String) → String → AntiFarmingGuard → Bool × Reason
is_message_meaningful lower text g =
    let cleaned = lower (strip text) in
    let words = split cleaned in
    if ltb (size cleaned) g.min_message_length
    then (false, message_too_short)
    else if leb (distinct_chars cleaned) 2 && ltb 5 (size cleaned)
    then (false, repetitive_characters)
    else if leb 3 (length words) && distinct_words words == 1
    then (false, repetitive_word_spam)
    else if ltb 0 (size cleaned) && all_emotes cleaned
    then (false, emoji_only)
    else (true, valid)

-- `get(key, 0.0)`.
abbrev pub or_zero : Option ℕ → ℕ
or_zero none = 0
or_zero (some t) = t

abbrev pub times_of : Option (List ℕ) → List ℕ
times_of none = []
times_of (some ts) = ts

-- The times `t` with `now - t < 600`.
unfoldable pub within_window : ℕ → List ℕ → List ℕ
within_window now [] = []
within_window now (t ∷ ts) =
    let rest = within_window now ts in if ltb now (t + 600000000) then t ∷ rest else rest

unfoldable pub append_time : List ℕ → ℕ → List ℕ
append_time [] t = t ∷ []
append_time (x ∷ xs) t = x ∷ append_time xs t

-- `get(key, (today_str, 0))`.
abbrev pub daily_of : ℕ → Option (ℕ × ℕ) → ℕ × ℕ
daily_of today none = (today, 0)
daily_of today (some d) = d

-- The check of the daily cap.
unfoldable pub check_daily :
    String → String → ℕ → ℕ → AntiFarmingGuard → Bool × Reason × AntiFarmingGuard
check_daily creator_id viewer_id xp_amount today g =
    let (recorded_date, current) = daily_of today (g.daily_totals creator_id viewer_id) in
    let current_daily = if recorded_date == today then current else 0 in
    let g' =
      if recorded_date == today
      then g
      else record g { daily_totals = put_pair creator_id viewer_id (today, 0) g.daily_totals } in
    if ltb g.max_daily_xp (current_daily + xp_amount)
    then (false, daily_cap_reached, g')
    else (true, allowed, g')

-- `now` is the first reading of the clock and `dated` the second.
unfoldable pub can_award_xp :
    String → String → ℕ → ℕ → ℕ → AntiFarmingGuard → Bool × Reason × AntiFarmingGuard
can_award_xp creator_id viewer_id xp_amount now dated g =
    let ready = or_zero (g.last_award creator_id viewer_id) + micros g.cooldown_seconds in
    let timestamps = within_window now (times_of (g.award_timestamps creator_id viewer_id)) in
    let g' = record g {
      award_timestamps = put_pair creator_id viewer_id timestamps g.award_timestamps;
    } in
    if ltb now ready
    then (false, cooldown_active ((ready - now) / 1000000), g)
    else if leb 6 (length timestamps)
    then (false, burst_limit_exceeded, g')
    else check_daily creator_id viewer_id xp_amount (date_of dated) g'

unfoldable pub record_award : String → String → ℕ → ℕ → ℕ → AntiFarmingGuard → AntiFarmingGuard
record_award creator_id viewer_id xp_amount now dated g =
    let (_, current_daily) = daily_of (date_of dated) (g.daily_totals creator_id viewer_id) in
    record g {
      last_award = put_pair creator_id viewer_id now g.last_award;
      award_timestamps =
          put_pair creator_id viewer_id
            (append_time (times_of (g.award_timestamps creator_id viewer_id)) now)
            g.award_timestamps;
      daily_totals =
          put_pair creator_id viewer_id (date_of dated, current_daily + xp_amount) g.daily_totals;
    }
