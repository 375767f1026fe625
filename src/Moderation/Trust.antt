-- ===== src/Moderation/Trust.antt =====
-- `TrustService.apply_trust_modifier` of app/moderation/trust.py.
use Prim.Native.String.{◌++◌}
use mathlib.Core.List.{◌++◌ as append}
use ai_modrator.Common.{ℕ, false, ◌&&◌, ◌||◌, some, [], ◌∷◌, ltb, leb, if◌then◌else◌}
use ai_modrator.Common.Int.{pos}
use ai_modrator.Common.Text.{decimal}
use ai_modrator.Moderation.Models.{
  layer_2_warning_and_delete, layer_3_short_timeout, delete, timeout, ModerationDecision, is_ban,
  is_timeout, is_warn, is_layer_5,
}

-- The decision that high trust softens a timeout to.
unfoldable pub softened : ModerationDecision → ℕ → ModerationDecision
softened decision trust_score = record {
  action = delete;
  layer = some layer_2_warning_and_delete;
  confidence_score = decision.confidence_score;
  reason =
      decision.reason
      ++ (" (Softened due to high community trust: " ++ (decimal (pos trust_score) ++ ")"));
  matched_rules = append decision.matched_rules ("HIGH_TRUST_DOWNGRADE" ∷ []);
  requires_human_review = false;
  suggested_timeout_seconds = 0;
  warning_message = some "Gentle reminder: please keep remarks friendly.";
}

-- The decision that low trust escalates a warning to.
unfoldable pub escalated : ModerationDecision → ℕ → ModerationDecision
escalated decision trust_score = record {
  action = timeout;
  layer = some layer_3_short_timeout;
  confidence_score = decision.confidence_score;
  reason =
      decision.reason
      ++ (" (Escalated due to repeat low trust: " ++ (decimal (pos trust_score) ++ ")"));
  matched_rules = append decision.matched_rules ("LOW_TRUST_ESCALATION" ∷ []);
  requires_human_review = false;
  suggested_timeout_seconds = 60;
  warning_message = some "Repeated disruptions lead to chat timeouts.";
}

unfoldable pub apply_trust_modifier : ModerationDecision → ℕ → ModerationDecision
apply_trust_modifier decision trust_score =
    if is_ban decision.action || is_layer_5 decision.layer
    then decision
    else if leb 75 trust_score && (is_timeout decision.action && ltb decision.confidence_score 95)
    then softened decision trust_score
    else if leb trust_score 30 && (is_warn decision.action && leb 80 decision.confidence_score)
    then escalated decision trust_score
    else decision
