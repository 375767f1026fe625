-- ===== src/Moderation/Order.antt =====
-- The order of the decisions of app/moderation: how hard an action is, and what makes it harder.
use ai_modrator.Common.{ℕ, ◌≤◌, String, ◌≡◌, true, arith, Bool-cases, inl, inr}
use ai_modrator.Moderation.Models.{
  ModerationAction, allow, flag_for_review, warn, delete, timeout, ban, ModerationDecision,
  ModerationAiResult,
}
use ai_modrator.Moderation.Policy.{
  map_severity_to_layer, map_layer_to_action, review_threshold, auto_threshold, is_benign,
  evaluate_2d_policy,
}
use ai_modrator.Moderation.Trust.{apply_trust_modifier, softened, escalated}

abbrev pub rank : ModerationAction → ℕ
rank allow = 0
rank flag_for_review = 1
rank warn = 2
rank delete = 3
rank timeout = 4
rank ban = 5

-- The verdict `r`, with other scores.
abbrev pub scored : ModerationAiResult → ℕ → ℕ → ModerationAiResult
scored r confidence severity = record r { confidence = confidence; severity = severity }

abbrev enforced_rank : ℕ → ℕ
enforced_rank severity = rank (map_layer_to_action (map_severity_to_layer severity))

enforced_monotone : (s s' : ℕ) → s ≤ s' → enforced_rank s ≤ enforced_rank s'
unfolding map_severity_to_layer map_layer_to_action
enforced_monotone s s' h = ground arith

enforced_bounds : (s : ℕ) → 2 ≤ enforced_rank s
unfolding map_severity_to_layer map_layer_to_action
enforced_bounds s = ground arith

module _ (lower : String → String) where
  abbrev policy_rank : ModerationAiResult → String → ℕ
  policy_rank r strictness = rank (evaluate_2d_policy lower r strictness).action

  is_benign_antitone :
      (r : ModerationAiResult) (c c' s s' : ℕ)
      → s ≤ s'
      → is_benign lower (scored r c' s') ≡ true
      → is_benign lower (scored r c s) ≡ true
  unfolding is_benign
  is_benign_antitone r c c' s s' hs e = ground arith

  -- For the same verdict at the same strictness, a higher confidence and a higher severity
  -- never lead to a milder action.
  pub evaluate_2d_policy_monotone :
      (r : ModerationAiResult) (strictness : String) (c c' s s' : ℕ)
      → c ≤ c'
      → s ≤ s'
      → policy_rank (scored r c s) strictness ≤ policy_rank (scored r c' s') strictness
  unfolding evaluate_2d_policy
  evaluate_2d_policy_monotone r strictness c c' s s' hc hs =
      elim (Bool-cases (is_benign lower (scored r c' s'))) [
        | inl e ↦ ground (arith, e, is_benign_antitone r c c' s s' hs e)
        | inr e ↦ ground (arith, e, enforced_monotone s s' hs, enforced_bounds s')
      ]

  -- For the same verdict, "BALANCED" is never milder than "RELAXED", and "STRICT" never milder
  -- than "BALANCED".
  pub evaluate_2d_policy_strictness :
      (r : ModerationAiResult)
      → (policy_rank r "RELAXED" ≤ policy_rank r "BALANCED")
        × (policy_rank r "BALANCED" ≤ policy_rank r "STRICT")
  unfolding evaluate_2d_policy review_threshold auto_threshold
  evaluate_2d_policy_strictness r = ground (arith, enforced_bounds r.severity)

-- For the same decision, a higher trust score never leads to a harder action.
pub apply_trust_modifier_antitone :
    (d : ModerationDecision) (t t' : ℕ)
    → t ≤ t'
    → rank (apply_trust_modifier d t').action ≤ rank (apply_trust_modifier d t).action
unfolding apply_trust_modifier softened escalated
apply_trust_modifier_antitone d t t' h = ground arith

-- The trust modifier leaves a ban as it is and makes no decision a ban.
pub apply_trust_modifier-ban :
    (d : ModerationDecision) (t : ℕ)
    → ((d.action ≡ ban) → apply_trust_modifier d t ≡ d)
      × ((apply_trust_modifier d t).action ≡ ban → d.action ≡ ban)
unfolding apply_trust_modifier softened escalated
apply_trust_modifier-ban d t = ground arith
