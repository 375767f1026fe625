-- ===== src/Moderation/Models.antt =====
-- The decisions of app/moderation/models.py. A confidence is a number of hundredths.
use ai_modrator.Common.{ℕ, String, Bool, true, false, Option, some, List}

pub data ModerationLayer : Type 0 where
  layer_1_light_warning layer_2_warning_and_delete layer_3_short_timeout : ModerationLayer
  layer_4_extended_timeout layer_5_hide_ban : ModerationLayer

pub data ModerationAction : Type 0 where
  allow flag_for_review warn delete timeout ban : ModerationAction

-- `action.value`.
unfoldable pub value_of : ModerationAction → String
value_of allow = "ALLOW"
value_of flag_for_review = "FLAG_FOR_REVIEW"
value_of warn = "WARN"
value_of delete = "DELETE"
value_of timeout = "TIMEOUT"
value_of ban = "BAN"

pub record ModerationDecision : Type 0 where
  pub action : ModerationAction
  pub layer : Option ModerationLayer
  pub confidence_score : ℕ
  pub reason : String
  pub matched_rules : List String
  pub requires_human_review : Bool
  pub suggested_timeout_seconds : ℕ
  pub warning_message : Option String

-- The fields that `ModerationAIResult` (app/ai/models.py) gives to the policy; it bounds the two
-- scores by 100.
pub record ModerationAiResult : Type 0 where
  pub category : String
  pub severity : ℕ
  pub confidence : ℕ
  pub recommended_action : String
  pub short_reason : String

abbrev pub is_ban : ModerationAction → Bool
is_ban ban = true
is_ban _ = false

abbrev pub is_timeout : ModerationAction → Bool
is_timeout timeout = true
is_timeout _ = false

abbrev pub is_warn : ModerationAction → Bool
is_warn warn = true
is_warn _ = false

abbrev pub is_layer_5 : Option ModerationLayer → Bool
is_layer_5 (some layer_5_hide_ban) = true
is_layer_5 _ = false
