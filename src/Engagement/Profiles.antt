-- ===== src/Engagement/Profiles.antt =====
-- The table of app/db/models/viewer_engagement.py and `EngagementRepository`
-- (app/db/repositories/engagement_repo.py). A method that changes a profile is a function of the
-- row; `update_profile` writes it back. A time is a number of microseconds.
use mathlib.Core.Option
use ai_modrator.Common.{
  ℕ, ◌+◌, String, ◌≡◌, Bool, ◌&&◌, not, Option, none, some, List, [], ◌∷◌, max, str_eq, eq_iff,
  arith, if◌then◌else◌,
}

pub record Profile : Type 0 where
  pub id : ℕ
  pub creator_id : String
  pub viewer_channel_id : String
  pub display_name : String
  pub total_xp : ℕ
  pub level : ℕ
  pub messages_count : ℕ
  pub games_played : ℕ
  pub games_won : ℕ
  pub store_purchases : ℕ
  pub last_xp_awarded_at : Option ℕ
  pub last_active_at : ℕ

unfoldable pub is_profile_of : String → String → Profile → Bool
is_profile_of creator_id viewer_channel_id p =
    str_eq p.creator_id creator_id && str_eq p.viewer_channel_id viewer_channel_id

unfoldable pub get_by_viewer : String → String → List Profile → Option Profile
get_by_viewer creator_id viewer_channel_id [] = none
get_by_viewer creator_id viewer_channel_id (p ∷ ps) =
    if is_profile_of creator_id viewer_channel_id p
    then some p
    else get_by_viewer creator_id viewer_channel_id ps

unfoldable pub update_profile : String → String → (Profile → Profile) → List Profile → List Profile
update_profile creator_id viewer_channel_id f [] = []
update_profile creator_id viewer_channel_id f (p ∷ ps) =
    if is_profile_of creator_id viewer_channel_id p
    then f p ∷ ps
    else p ∷ update_profile creator_id viewer_channel_id f ps

abbrev pub new_profile : String → String → String → ℕ → ℕ → Profile
new_profile creator_id viewer_channel_id display_name i now = record {
  id = i;
  creator_id = creator_id;
  viewer_channel_id = viewer_channel_id;
  display_name = display_name;
  total_xp = 0;
  level = 1;
  messages_count = 0;
  games_played = 0;
  games_won = 0;
  store_purchases = 0;
  last_xp_awarded_at = none;
  last_active_at = now;
}

-- `if display_name and profile.display_name != display_name`, which is to take a new name over.
abbrev pub rename : String → Profile → Profile
rename display_name p =
    if not (str_eq display_name "") && not (str_eq p.display_name display_name)
    then record p { display_name = display_name }
    else p

-- `i` is the id that a new row would get.
unfoldable pub get_or_create :
    String → String → String → ℕ → ℕ → List Profile → Profile × List Profile
get_or_create creator_id viewer_channel_id display_name i now ps =
    elim (get_by_viewer creator_id viewer_channel_id ps) [
      | none ↦
          let p : Profile = new_profile creator_id viewer_channel_id display_name i now in
          (p, p ∷ ps)
      | some p ↦ (
        rename display_name p,
        update_profile creator_id viewer_channel_id (rename display_name) ps,
      )
    ]

abbrev pub award_xp : ℕ → ℕ → ℕ → Profile → Profile
award_xp xp_gain new_level now p = record p {
  total_xp = p.total_xp + xp_gain;
  level = max p.level new_level;
  last_xp_awarded_at = some now;
  last_active_at = now;
}

abbrev pub increment_message : ℕ → Profile → Profile
increment_message now p = record p { messages_count = p.messages_count + 1; last_active_at = now }

abbrev pub record_game : Bool → ℕ → Profile → Profile
record_game won now p = record p {
  games_played = p.games_played + 1;
  games_won = if won then p.games_won + 1 else p.games_won;
  last_active_at = now;
}

abbrev pub record_purchase : ℕ → Profile → Profile
record_purchase now p = record p { store_purchases = p.store_purchases + 1; last_active_at = now }

-- The two texts by which a row is found.
abbrev pub KeepsKey : (Profile → Profile) → Type 0
KeepsKey f =
    (p : Profile)
    → ((f p).creator_id ≡ p.creator_id) × ((f p).viewer_channel_id ≡ p.viewer_channel_id)

-- After a write the row is the written one, and the rows of other viewers are as before.
pub get_by_viewer-update_profile :
    (c w d v : String) (f : Profile → Profile) (ps : List Profile)
    → KeepsKey f
    → get_by_viewer d v (update_profile c w f ps) ≡ (
        if str_eq c d && str_eq w v
        then Option.map f (get_by_viewer d v ps)
        else get_by_viewer d v ps)
unfolding get_by_viewer update_profile is_profile_of
get_by_viewer-update_profile c w d v f [] k = ground arith
get_by_viewer-update_profile c w d v f (p ∷ ps) k = ground (
  arith,
  k p,
  eq_iff c d,
  eq_iff w v,
  eq_iff p.creator_id c,
  eq_iff p.viewer_channel_id w,
  eq_iff p.creator_id d,
  eq_iff p.viewer_channel_id v,
  get_by_viewer-update_profile c w d v f ps k,
)
