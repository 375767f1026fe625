-- ===== src/Moderation/Tests.antt =====
-- Decisions on single messages, and the theorems at such inputs.
use Prim.Native.Char.{Char, code}
use ai_modrator.Common.{
  ◌+◌, ◌<◌, ◌≤◌, String, ◌≡◌, refl, Bool, ◌&&◌, none, List, [], All, leb, arith,
}
use ai_modrator.Common.Dict.{Dict, lookup}
use ai_modrator.Common.Strip.{strip}
use ai_modrator.Moderation.Models.{ModerationAiResult, ModerationDecision, timeout, warn}
use ai_modrator.Moderation.Policy.{
  evaluate_2d_policy, map_severity_to_layer, map_layer_to_action, is_benign, review_threshold,
  auto_threshold,
}
use ai_modrator.Moderation.Trust.{apply_trust_modifier}
use ai_modrator.Moderation.Order.{
  rank, scored, evaluate_2d_policy_monotone, apply_trust_modifier_antitone,
}
use ai_modrator.Moderation.Profiles.{ViewerTrustProfile}
use ai_modrator.Moderation.Scores.{positive, violation, act, Deed}
use ai_modrator.Moderation.Spam.{
  Entry, evaluate_spam_signals, entries_of, count_recent, count_duplicates, is_shouting,
  is_emoji_flood, judge, prune, append, count_chars, is_emoji,
}
use ai_modrator.Moderation.Floods.{IsRecent, evaluate_spam_signals_passed}

abbrev same : String → String
same s = s

abbrev abuse : ModerationAiResult
abuse = record {
  category = "hate";
  severity = 60;
  confidence = 92;
  recommended_action = "timeout";
  short_reason = "slur";
}

abuse_timed_out : (evaluate_2d_policy same abuse "BALANCED").action ≡ timeout
unfolding evaluate_2d_policy is_benign review_threshold auto_threshold map_severity_to_layer
    map_layer_to_action
abuse_timed_out = refl

evaluate_2d_policy_monotone_example :
    rank (evaluate_2d_policy same (scored abuse 70 60) "BALANCED").action
    ≤ rank (evaluate_2d_policy same (scored abuse 92 80) "BALANCED").action
evaluate_2d_policy_monotone_example =
    evaluate_2d_policy_monotone same abuse "BALANCED" 70 92 60 80 (ground arith) (ground arith)

abbrev verdict : ModerationDecision
verdict = evaluate_2d_policy same abuse "BALANCED"

apply_trust_modifier_antitone_example :
    rank (apply_trust_modifier verdict 80).action ≤ rank (apply_trust_modifier verdict 20).action
apply_trust_modifier_antitone_example = apply_trust_modifier_antitone verdict 20 80 (ground arith)

abbrev warned : List ViewerTrustProfile
warned = act "c1" "ann" "Ann" 0 5 (violation warn) []

abbrev praise : Deed
praise = record {
  creator_id = "c1";
  viewer_channel_id = "ann";
  display_name = "Ann";
  new_id = 0;
  at = 3;
  done = positive;
}

abbrev is_alpha : Char → Bool
is_alpha c = leb 65 (code c)

abbrev is_upper : Char → Bool
is_upper c = leb 65 (code c) && leb (code c) 90

abbrev quiet : Dict (List Entry)
quiet = []

hello_passed : (evaluate_spam_signals is_alpha is_upper same "k" "hello" 7 quiet).0 ≡ none
unfolding evaluate_spam_signals is_shouting is_emoji_flood judge lookup prune append count_recent
    count_duplicates count_chars is_emoji strip
hello_passed = refl

evaluate_spam_signals_passed_example :
    let kept =
      entries_of
        (lookup "k" (evaluate_spam_signals is_alpha is_upper same "k" "hello" 7 quiet).1) in
    (count_recent 5000000 7 (entries_of (lookup "k" quiet)) < 5)
    × (count_recent 5000000 7 kept ≡ count_recent 5000000 7 (entries_of (lookup "k" quiet)) + 1)
    × (count_duplicates (same (strip "hello")) kept ≤ 3)
    × All (IsRecent 7) kept
evaluate_spam_signals_passed_example =
    evaluate_spam_signals_passed is_alpha is_upper same "k" "hello" 7 quiet hello_passed
