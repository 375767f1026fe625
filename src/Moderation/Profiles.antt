-- ===== src/Moderation/Profiles.antt =====
-- The table of app/db/models/viewer_trust.py, `ViewerTrustRepository`
-- (app/db/repositories/trust_repo.py) and the methods of `TrustService` (app/moderation/trust.py)
-- that write it. `max(0, score - penalty)` is the subtraction of ℕ.
use ai_modrator.Common.{
  ℕ, ◌+◌, ◌-◌, String, Bool, ◌&&◌, Option, none, some, List, [], ◌∷◌, min, str_eq, if◌then◌else◌,
}
use ai_modrator.Moderation.Models.{ModerationAction, value_of, timeout, ban}

pub record ViewerTrustProfile : Type 0 where
  pub id : ℕ
  pub creator_id : String
  pub viewer_channel_id : String
  pub display_name : String
  pub trust_score : ℕ
  pub first_seen_at : ℕ
  pub last_seen_at : ℕ
  pub messages_seen : ℕ
  pub positive_interactions : ℕ
  pub warning_count : ℕ
  pub timeout_count : ℕ
  pub hide_count : ℕ
  pub last_greeting_at : Option ℕ

unfoldable pub is_of : String → String → ViewerTrustProfile → Bool
is_of creator_id viewer_channel_id p =
    str_eq p.creator_id creator_id && str_eq p.viewer_channel_id viewer_channel_id

unfoldable pub find_profile : String → String → List ViewerTrustProfile → Option ViewerTrustProfile
find_profile creator_id viewer_channel_id [] = none
find_profile creator_id viewer_channel_id (p ∷ ps) =
    if is_of creator_id viewer_channel_id p
    then some p
    else find_profile creator_id viewer_channel_id ps

unfoldable pub write_profile :
    String
    → String
    → (ViewerTrustProfile → ViewerTrustProfile)
    → List ViewerTrustProfile
    → List ViewerTrustProfile
write_profile creator_id viewer_channel_id f [] = []
write_profile creator_id viewer_channel_id f (p ∷ ps) =
    if is_of creator_id viewer_channel_id p
    then f p ∷ ps
    else p ∷ write_profile creator_id viewer_channel_id f ps

abbrev pub new_trust_profile : String → String → String → ℕ → ℕ → ViewerTrustProfile
new_trust_profile creator_id viewer_channel_id display_name i now = record {
  id = i;
  creator_id = creator_id;
  viewer_channel_id = viewer_channel_id;
  display_name = display_name;
  trust_score = 50;
  first_seen_at = now;
  last_seen_at = now;
  messages_seen = 1;
  positive_interactions = 0;
  warning_count = 0;
  timeout_count = 0;
  hide_count = 0;
  last_greeting_at = none;
}

-- `i` is the id that a new row would get. The row is in the table afterwards.
unfoldable pub get_or_create :
    String
    → String
    → String
    → ℕ
    → ℕ
    → List ViewerTrustProfile
    → ViewerTrustProfile × List ViewerTrustProfile
get_or_create creator_id viewer_channel_id display_name i now ps =
    elim (find_profile creator_id viewer_channel_id ps) [
      | some p ↦ (p, ps)
      | none ↦
          let p : ViewerTrustProfile =
            new_trust_profile creator_id viewer_channel_id display_name i now in
          (p, p ∷ ps)
    ]

unfoldable pub get_trust_score :
    String → String → String → ℕ → ℕ → List ViewerTrustProfile → ℕ × List ViewerTrustProfile
get_trust_score creator_id viewer_channel_id display_name i now ps =
    let (p, ps') = get_or_create creator_id viewer_channel_id display_name i now ps in
    (p.trust_score, ps')

abbrev pub interacted : String → ℕ → ℕ → ViewerTrustProfile → ViewerTrustProfile
interacted display_name positive_delta now p = record p {
  display_name = display_name;
  messages_seen = p.messages_seen + 1;
  positive_interactions = p.positive_interactions + 1;
  last_seen_at = now;
  trust_score = min 100 (p.trust_score + positive_delta);
}

unfoldable pub record_interaction :
    String → String → String → ℕ → ℕ → ℕ → List ViewerTrustProfile → List ViewerTrustProfile
record_interaction creator_id viewer_channel_id display_name positive_delta i now ps =
    write_profile creator_id viewer_channel_id (interacted display_name positive_delta now)
      (get_or_create creator_id viewer_channel_id display_name i now ps).1

unfoldable pub count_violation : String → ViewerTrustProfile → ViewerTrustProfile
count_violation action_type p =
    if str_eq action_type "WARN"
    then record p { warning_count = p.warning_count + 1 }
    else if str_eq action_type "TIMEOUT"
    then record p { timeout_count = p.timeout_count + 1 }
    else if str_eq action_type "HIDE"
    then record p { hide_count = p.hide_count + 1 }
    else p

unfoldable pub violated : String → ℕ → ℕ → ViewerTrustProfile → ViewerTrustProfile
violated action_type penalty now p =
    count_violation action_type
      (record p { last_seen_at = now; trust_score = p.trust_score - penalty })

unfoldable pub repo_record_violation :
    String
    → String
    → String
    → String
    → ℕ
    → ℕ
    → ℕ
    → List ViewerTrustProfile
    → List ViewerTrustProfile
repo_record_violation creator_id viewer_channel_id display_name action_type penalty i now ps =
    write_profile creator_id viewer_channel_id (violated action_type penalty now)
      (get_or_create creator_id viewer_channel_id display_name i now ps).1

unfoldable pub penalty_of : ModerationAction → ℕ
penalty_of timeout = 25
penalty_of ban = 50
penalty_of _ = 10

unfoldable pub record_violation :
    String
    → String
    → String
    → ModerationAction
    → ℕ
    → ℕ
    → List ViewerTrustProfile
    → List ViewerTrustProfile
record_violation creator_id viewer_channel_id display_name action i now ps =
    repo_record_violation creator_id viewer_channel_id display_name (value_of action)
      (penalty_of action) i now ps

unfoldable pub record_positive_interaction :
    String → String → String → ℕ → ℕ → List ViewerTrustProfile → List ViewerTrustProfile
record_positive_interaction creator_id viewer_channel_id display_name i now ps =
    record_interaction creator_id viewer_channel_id display_name 1 i now ps

unfoldable pub update_last_greeting :
    String → String → ℕ → List ViewerTrustProfile → List ViewerTrustProfile
update_last_greeting creator_id viewer_channel_id now =
    write_profile creator_id viewer_channel_id (λ p. record p { last_greeting_at = some now })
