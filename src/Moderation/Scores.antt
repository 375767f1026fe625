-- ===== src/Moderation/Scores.antt =====
-- The trust scores of app/db/repositories/trust_repo.py stay within their scale.
use mathlib.Core.Option
use ai_modrator.Common.{
  ℕ, ◌+◌, ◌-◌, ◌≤◌, String, ◌≡◌, ◌&&◌, none, some, List, [], ◌∷◌, min, str_eq, eq_iff, arith, refl,
  if◌then◌else◌,
}
use ai_modrator.Moderation.Models.{
  ModerationAction, value_of, allow, flag_for_review, warn, delete, timeout, ban,
}
use ai_modrator.Moderation.Profiles.{
  ViewerTrustProfile, is_of, find_profile, write_profile, get_or_create, interacted,
  record_interaction, count_violation, violated, repo_record_violation, penalty_of,
  record_violation, record_positive_interaction,
}

-- What the service does to the trust of a viewer.
pub data Act : Type 0 where
  positive : Act
  violation : ModerationAction → Act

unfoldable pub act :
    String → String → String → ℕ → ℕ → Act → List ViewerTrustProfile → List ViewerTrustProfile
act c w name i now positive ps = record_positive_interaction c w name i now ps
act c w name i now (violation action) ps = record_violation c w name action i now ps

-- The score that an act leaves, from the score before.
abbrev pub score_after : Act → ℕ → ℕ
score_after positive score = min 100 (score + 1)
score_after (violation action) score = score - penalty_of action

-- The score of a viewer, 50 for one who was not seen yet.
abbrev pub score_of : String → String → List ViewerTrustProfile → ℕ
score_of c w ps = elim (find_profile c w ps) [ none ↦ 50 | some p ↦ p.trust_score ]

abbrev pub hides_of : String → String → List ViewerTrustProfile → ℕ
hides_of c w ps = elim (find_profile c w ps) [ none ↦ 0 | some p ↦ p.hide_count ]

find_profile-write_profile :
    (c w d v : String) (f : ViewerTrustProfile → ViewerTrustProfile) (ps : List ViewerTrustProfile)
    → ((p : ViewerTrustProfile)
        → ((f p).creator_id ≡ p.creator_id) × ((f p).viewer_channel_id ≡ p.viewer_channel_id))
    → find_profile d v (write_profile c w f ps) ≡ (
        if str_eq c d && str_eq w v
        then Option.map f (find_profile d v ps)
        else find_profile d v ps)
unfolding find_profile write_profile is_of
find_profile-write_profile c w d v f [] k = ground arith
find_profile-write_profile c w d v f (p ∷ ps) k = ground (
  arith,
  k p,
  eq_iff c d,
  eq_iff w v,
  eq_iff p.creator_id c,
  eq_iff p.viewer_channel_id w,
  eq_iff p.creator_id d,
  eq_iff p.viewer_channel_id v,
  find_profile-write_profile c w d v f ps k,
)

find_profile-get_or_create :
    (c w name d v : String) (i now : ℕ) (ps : List ViewerTrustProfile)
    → find_profile d v (get_or_create c w name i now ps).1 ≡ (
        if str_eq c d && str_eq w v
        then some (get_or_create c w name i now ps).0
        else find_profile d v ps)
unfolding find_profile get_or_create is_of
find_profile-get_or_create c w name d v i now ps = ground (arith, eq_iff c d, eq_iff w v)

violated-keeps_key :
    (t : String) (n now : ℕ) (p : ViewerTrustProfile)
    → ((violated t n now p).creator_id ≡ p.creator_id)
      × ((violated t n now p).viewer_channel_id ≡ p.viewer_channel_id)
unfolding violated count_violation
violated-keeps_key t n now p = ground arith

violated_score :
    (t : String) (n now : ℕ) (p : ViewerTrustProfile)
    → (violated t n now p).trust_score ≡ p.trust_score - n
unfolding violated count_violation
violated_score t n now p = ground arith

violated_hides :
    (a : ModerationAction) (n now : ℕ) (p : ViewerTrustProfile)
    → (violated (value_of a) n now p).hide_count ≡ p.hide_count
unfolding violated count_violation value_of
violated_hides allow n now p = refl
violated_hides flag_for_review n now p = refl
violated_hides warn n now p = refl
violated_hides delete n now p = refl
violated_hides timeout n now p = refl
violated_hides ban n now p = refl

get_or_create_values :
    (c w name : String) (i now : ℕ) (ps : List ViewerTrustProfile)
    → ((get_or_create c w name i now ps).0.trust_score ≡ score_of c w ps)
      × ((get_or_create c w name i now ps).0.hide_count ≡ hides_of c w ps)
unfolding get_or_create
get_or_create_values c w name i now ps = ground arith

-- The viewer's row is made if it is missing, and rewritten; the other rows stay.
rewritten :
    (c w name d v : String) (i now : ℕ) (f : ViewerTrustProfile → ViewerTrustProfile)
    (ps : List ViewerTrustProfile)
    → ((p : ViewerTrustProfile)
        → ((f p).creator_id ≡ p.creator_id) × ((f p).viewer_channel_id ≡ p.viewer_channel_id))
    → find_profile d v (write_profile c w f (get_or_create c w name i now ps).1) ≡ (
        if str_eq c d && str_eq w v
        then some (f (get_or_create c w name i now ps).0)
        else find_profile d v ps)
rewritten c w name d v i now f ps k = ground (
  arith,
  find_profile-write_profile c w d v f (get_or_create c w name i now ps).1 k,
  find_profile-get_or_create c w name d v i now ps,
)

-- An interaction raises the viewer's trust score by 1, up to 100, and a violation lowers it by
-- the action's penalty, down to 0, both from 50 for a new viewer; other scores stay.
pub score_of-act :
    (c w name d v : String) (i now : ℕ) (a : Act) (ps : List ViewerTrustProfile)
    → score_of d v (act c w name i now a ps)
      ≡ (if str_eq c d && str_eq w v then score_after a (score_of c w ps) else score_of d v ps)
unfolding act record_positive_interaction record_interaction record_violation repo_record_violation
score_of-act c w name d v i now positive ps = ground (
  arith,
  rewritten c w name d v i now (interacted name 1 now) ps (λ p. (refl, refl)),
  get_or_create_values c w name i now ps,
)
score_of-act c w name d v i now (violation action) ps = ground (
  arith,
  rewritten c w name d v i now (violated (value_of action) (penalty_of action) now) ps
      (violated-keeps_key (value_of action) (penalty_of action) now),
  get_or_create_values c w name i now ps,
  violated_score (value_of action) (penalty_of action) now (get_or_create c w name i now ps).0,
)

-- No interaction and no violation changes any viewer's hide count.
pub act-hides_of :
    (c w name d v : String) (i now : ℕ) (a : Act) (ps : List ViewerTrustProfile)
    → hides_of d v (act c w name i now a ps) ≡ hides_of d v ps
unfolding act record_positive_interaction record_interaction record_violation repo_record_violation
act-hides_of c w name d v i now positive ps = ground (
  arith,
  rewritten c w name d v i now (interacted name 1 now) ps (λ p. (refl, refl)),
  get_or_create_values c w name i now ps,
  eq_iff c d,
  eq_iff w v,
)
act-hides_of c w name d v i now (violation action) ps = ground (
  arith,
  rewritten c w name d v i now (violated (value_of action) (penalty_of action) now) ps
      (violated-keeps_key (value_of action) (penalty_of action) now),
  get_or_create_values c w name i now ps,
  violated_hides action (penalty_of action) now (get_or_create c w name i now ps).0,
  eq_iff c d,
  eq_iff w v,
)

-- One act after the other, each with its viewer and its time.
pub record Deed : Type 0 where
  pub creator_id : String
  pub viewer_channel_id : String
  pub display_name : String
  pub new_id : ℕ
  pub at : ℕ
  pub done : Act

unfoldable pub run : List Deed → List ViewerTrustProfile → List ViewerTrustProfile
run [] ps = ps
run (x ∷ xs) ps =
    run xs (act x.creator_id x.viewer_channel_id x.display_name x.new_id x.at x.done ps)

score_after_bound : (a : Act) (n : ℕ) → n ≤ 100 → score_after a n ≤ 100
unfolding penalty_of
score_after_bound a n h = ground arith

scores_bounded :
    (xs : List Deed) (ps : List ViewerTrustProfile)
    → ((d v : String) → score_of d v ps ≤ 100)
    → (d v : String) → score_of d v (run xs ps) ≤ 100
unfolding run
scores_bounded [] ps h d v = h d v
scores_bounded (x ∷ xs) ps h d v =
    scores_bounded xs (act x.creator_id x.viewer_channel_id x.display_name x.new_id x.at x.done ps)
      (λ d v. ground (
        arith,
        score_of-act x.creator_id x.viewer_channel_id x.display_name d v x.new_id x.at x.done ps,
        score_after_bound x.done (score_of x.creator_id x.viewer_channel_id ps)
            (h x.creator_id x.viewer_channel_id),
        h d v,
      ))
      d v

-- After any interactions and violations recorded from an empty table, no trust score is over 100.
pub score_of-run_bound : (xs : List Deed) (d v : String) → score_of d v (run xs []) ≤ 100
unfolding find_profile
score_of-run_bound xs = scores_bounded xs [] (λ d v. ground arith)
