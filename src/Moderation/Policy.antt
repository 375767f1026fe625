-- ===== src/Moderation/Policy.antt =====
-- `ModerationPolicyEngine` of app/moderation/policy.py. `lower` is Python's `str.lower`.
use Prim.Native.String.{◌++◌}
use ai_modrator.Common.{
  ℕ, String, Bool, true, false, ◌&&◌, ◌||◌, none, some, [], ◌∷◌, str_eq, ltb, leb, ◌==◌,
  if◌then◌else◌,
}
use ai_modrator.Common.Int.{pos}
use ai_modrator.Common.Text.{decimal}
use ai_modrator.Moderation.Models.{
  ModerationLayer, layer_1_light_warning, layer_2_warning_and_delete, layer_3_short_timeout,
  layer_4_extended_timeout, layer_5_hide_ban, ModerationAction, allow, flag_for_review, warn,
  delete, timeout, ban, ModerationDecision, ModerationAiResult,
}

unfoldable pub map_severity_to_layer : ℕ → ModerationLayer
map_severity_to_layer severity =
    if leb severity 25
    then layer_1_light_warning
    else if leb severity 50
    then layer_2_warning_and_delete
    else if leb severity 75
    then layer_3_short_timeout
    else if leb severity 88
    then layer_4_extended_timeout
    else layer_5_hide_ban

unfoldable pub map_layer_to_action : ModerationLayer → ModerationAction
map_layer_to_action layer_1_light_warning = warn
map_layer_to_action layer_2_warning_and_delete = delete
map_layer_to_action layer_3_short_timeout = timeout
map_layer_to_action layer_4_extended_timeout = timeout
map_layer_to_action layer_5_hide_ban = ban

unfoldable pub get_warning_text : ModerationLayer → String
get_warning_text layer_1_light_warning =
    "Notice: Please maintain respectful language in the stream chat."
get_warning_text layer_2_warning_and_delete =
    "Notice: Inappropriate message deleted. Please review community guidelines."
get_warning_text layer_3_short_timeout =
    "Notice: You have been placed on a short timeout for community guideline violations."
get_warning_text layer_4_extended_timeout =
    "Notice: Extended timeout applied due to serious chat disruptions."
get_warning_text layer_5_hide_ban = "Notice: User permanently restricted from channel live chat."

unfoldable pub timeout_of : ModerationLayer → ℕ
timeout_of layer_3_short_timeout = 300
timeout_of layer_4_extended_timeout = 1800
timeout_of _ = 0

unfoldable pub review_threshold : String → ℕ
review_threshold strictness =
    if str_eq strictness "RELAXED" then 50 else if str_eq strictness "STRICT" then 30 else 40

unfoldable pub auto_threshold : String → ℕ
auto_threshold strictness =
    if str_eq strictness "RELAXED" then 95 else if str_eq strictness "STRICT" then 85 else 90

module _ (lower : String → String) where
  unfoldable pub is_benign : ModerationAiResult → Bool
  is_benign r =
      let category = lower r.category in
      str_eq category "none"
      || str_eq category ""
      || str_eq category "safe"
      || (r.severity == 0 && str_eq (lower r.recommended_action) "allow")

  abbrev pub allowed : String → ℕ → ModerationDecision
  allowed reason confidence = record {
    action = allow;
    layer = none;
    confidence_score = confidence;
    reason = reason;
    matched_rules = [];
    requires_human_review = false;
    suggested_timeout_seconds = 0;
    warning_message = none;
  }

  abbrev pub flagged : ModerationAiResult → ModerationDecision
  flagged r = record {
    action = flag_for_review;
    layer = some (map_severity_to_layer r.severity);
    confidence_score = r.confidence;
    reason =
        "Ambiguous violation ("
        ++ (r.category
            ++ (", conf:"
                ++ (decimal (pos r.confidence)
                    ++ ("%, sev:" ++ (decimal (pos r.severity) ++ "%); flagged for HITL")))));
    matched_rules = ("AI_AMBIGUOUS:" ++ r.category) ∷ [];
    requires_human_review = true;
    suggested_timeout_seconds = 0;
    warning_message = none;
  }

  abbrev pub enforced : ModerationAiResult → ModerationDecision
  enforced r =
      let layer = map_severity_to_layer r.severity in
      record {
        action = map_layer_to_action layer;
        layer = some layer;
        confidence_score = r.confidence;
        reason = "High-confidence violation (" ++ (r.category ++ (": " ++ (r.short_reason ++ ")")));
        matched_rules = ("AI_VIOLATION:" ++ r.category) ∷ [];
        requires_human_review = false;
        suggested_timeout_seconds = timeout_of layer;
        warning_message = some (get_warning_text layer);
      }

  -- The trust score that the code also takes is not used by it.
  unfoldable pub evaluate_2d_policy : ModerationAiResult → String → ModerationDecision
  evaluate_2d_policy r strictness =
      if is_benign r
      then allowed "Content adheres to community standards" r.confidence
      else if ltb r.confidence (review_threshold strictness)
      then allowed "Low violation confidence; content allowed" r.confidence
      else if ltb r.confidence (auto_threshold strictness)
      then flagged r
      else enforced r
