-- ===== src/Moderation/Spam.antt =====
-- `BehavioralSpamDetector` of app/moderation/spam.py. A time is a number of microseconds. Python's
-- `str.isalpha`, `str.isupper` and `str.lower` are parameters. The ratio of capitals is compared
-- with 17/20 in whole numbers, which agrees with the comparison of floats.
use Prim.Native.Char.{Char, code}
use Prim.Native.String.{◌∷◌ as cons, [] as nil}
use ai_modrator.Common.{
  ℕ, ◌+◌, ◌*◌, String, Bool, true, false, ◌&&◌, Option, none, some, List, [], ◌∷◌, str_eq, ltb, leb,
  if◌then◌else◌,
}
use ai_modrator.Common.Dict.{Dict, lookup, insert}
use ai_modrator.Common.Strip.{strip}
use ai_modrator.Common.Text.{◌⊕◌}
use ai_modrator.Moderation.Models.{
  ModerationDecision, warn, delete, layer_1_light_warning, layer_2_warning_and_delete,
}

-- A cleaned message and its time.
pub record Entry : Type 0 where
  pub text : String
  pub at : ℕ

unfoldable pub count_chars : (Char → Bool) → String → ℕ
count_chars p nil = 0
count_chars p (cons c s) = let rest = count_chars p s in if p c then rest + 1 else rest

-- The class of characters `[\U00010000-\U0010ffff]`.
unfoldable pub is_emoji : Char → Bool
is_emoji c = leb 65536 (code c)

abbrev pub any_char : Char → Bool
any_char _ = true

-- How many entries are younger than `age`: `now - e[1] < age`.
unfoldable pub count_recent : ℕ → ℕ → List Entry → ℕ
count_recent age now [] = 0
count_recent age now (e ∷ es) =
    let rest = count_recent age now es in if ltb now (e.at + age) then rest + 1 else rest

unfoldable pub prune : ℕ → List Entry → List Entry
prune now [] = []
prune now (e ∷ es) = let rest = prune now es in if ltb now (e.at + 20000000) then e ∷ rest else rest

unfoldable pub count_duplicates : String → List Entry → ℕ
count_duplicates text [] = 0
count_duplicates text (e ∷ es) =
    let rest = count_duplicates text es in if str_eq e.text text then rest + 1 else rest

unfoldable pub append : List Entry → Entry → List Entry
append [] e = e ∷ []
append (x ∷ xs) e = x ∷ append xs e

abbrev pub excessive_caps : ModerationDecision
excessive_caps = record {
  action = warn;
  layer = some layer_1_light_warning;
  confidence_score = 90;
  reason = "Excessive caps lock spam";
  matched_rules = "EXCESSIVE_CAPS" ∷ [];
  requires_human_review = false;
  suggested_timeout_seconds = 0;
  warning_message = some "Please avoid using all-caps in chat.";
}

abbrev pub emoji_flood : ModerationDecision
emoji_flood = record {
  action = warn;
  layer = some layer_1_light_warning;
  confidence_score = 85;
  reason = "Emoji flood spam";
  matched_rules = "EMOJI_FLOOD" ∷ [];
  requires_human_review = false;
  suggested_timeout_seconds = 0;
  warning_message = some "Please avoid emoji spamming.";
}

abbrev pub burst_flood : ModerationDecision
burst_flood = record {
  action = delete;
  layer = some layer_2_warning_and_delete;
  confidence_score = 95;
  reason = "Rapid chat message flooding";
  matched_rules = "BURST_FLOOD" ∷ [];
  requires_human_review = false;
  suggested_timeout_seconds = 0;
  warning_message = some "Slow down! Please do not flood the chat.";
}

abbrev pub duplicate_message_spam : ModerationDecision
duplicate_message_spam = record {
  action = delete;
  layer = some layer_2_warning_and_delete;
  confidence_score = 95;
  reason = "Repeated copy-paste duplicate spam";
  matched_rules = "DUPLICATE_MESSAGE_SPAM" ∷ [];
  requires_human_review = false;
  suggested_timeout_seconds = 0;
  warning_message = some "Please avoid repeating the same message.";
}

abbrev pub entries_of : Option (List Entry) → List Entry
entries_of none = []
entries_of (some es) = es

unfoldable pub cache_key : String → String → String → String
cache_key creator_id stream_session_id user_id =
    "spam" ⊕ "user" ⊕ creator_id ⊕ stream_session_id ⊕ user_id

module _ (is_alpha is_upper : Char → Bool) (lower : String → String) where
  unfoldable pub is_shouting : String → Bool
  is_shouting cleaned =
      let alpha = count_chars is_alpha cleaned in
      let upper = count_chars (λ c. is_alpha c && is_upper c) cleaned in
      ltb 12 alpha && ltb (alpha * 17) (upper * 20)

  unfoldable pub is_emoji_flood : String → Bool
  is_emoji_flood cleaned =
      ltb 12 (count_chars is_emoji cleaned) && ltb (count_chars any_char cleaned) 50

  -- The two checks of the recent messages, this one among them.
  unfoldable pub judge : String → ℕ → List Entry → Option ModerationDecision
  judge cleaned now es =
      if leb 6 (count_recent 5000000 now es)
      then some burst_flood
      else if leb 4 (count_duplicates (lower cleaned) es)
      then some duplicate_message_spam
      else none

  -- `key` is the cache key of the user in the stream.
  unfoldable pub evaluate_spam_signals :
      String → String → ℕ → Dict (List Entry) → Option ModerationDecision × Dict (List Entry)
  evaluate_spam_signals key text now history =
      let cleaned = strip text in
      if is_shouting cleaned
      then (some excessive_caps, history)
      else if is_emoji_flood cleaned
      then (some emoji_flood, history)
      else let es =
          append (prune now (entries_of (lookup key history)))
            (record { text = lower cleaned; at = now }) in
        (judge cleaned now es, insert key es history)
