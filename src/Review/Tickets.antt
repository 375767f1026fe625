-- ===== src/Review/Tickets.antt =====
-- The table of app/db/models/moderation_review.py and `ReviewRepository`
-- (app/db/repositories/review_repo.py). A time is a number of microseconds.
use ai_modrator.Common.{
  ℕ, ◌+◌, String, Bool, true, false, ◌&&◌, Option, none, some, List, [], ◌∷◌, str_eq, leb, ltb,
  if◌then◌else◌,
}
use ai_modrator.Common.Text.{or_text}

pub data ReviewStatus : Type 0 where
  pending approved denied expired : ReviewStatus

pub record ModerationReview : Type 0 where
  pub id : String
  pub creator_id : String
  pub stream_session_id : String
  pub message_id : String
  pub author_channel_id : String
  pub author_display_name : String
  pub message_text : String
  pub status : ReviewStatus
  pub risk_score : ℕ
  pub confidence : ℕ
  pub severity : ℕ
  pub recommended_action : String
  pub final_action : Option String
  pub reason_code : String
  pub reason : String
  pub language : String
  pub expires_at : ℕ
  pub resolved_at : Option ℕ
  pub resolved_by : Option String

abbrev pub is_pending : ModerationReview → Bool
is_pending r = elim r.status [ pending ↦ true | _ ↦ false ]

unfoldable pub is_expired : ℕ → ModerationReview → Bool
is_expired now r = ltb r.expires_at now

unfoldable pub get_review : String → List ModerationReview → Option ModerationReview
get_review i [] = none
get_review i (r ∷ rs) = if str_eq r.id i then some r else get_review i rs

unfoldable pub resolved_as :
    ReviewStatus → Option String → Option String → ℕ → ModerationReview → ModerationReview
resolved_as status final_action resolved_by now r =
    if is_pending r
    then record r {
      status = status;
      final_action = some (or_text final_action r.recommended_action);
      resolved_at = some now;
      resolved_by = resolved_by;
    }
    else r

unfoldable pub resolve_review :
    String
    → ReviewStatus
    → Option String
    → Option String
    → ℕ
    → List ModerationReview
    → List ModerationReview
resolve_review i status final_action resolved_by now [] = []
resolve_review i status final_action resolved_by now (r ∷ rs) =
    if str_eq r.id i
    then resolved_as status final_action resolved_by now r ∷ rs
    else r ∷ resolve_review i status final_action resolved_by now rs

-- A pending row whose time has come.
unfoldable pub expire_row : ℕ → ModerationReview → ModerationReview
expire_row now r =
    if is_pending r && leb r.expires_at now
    then record r {
      status = expired;
      resolved_at = some now;
      resolved_by = some "SYSTEM_TTL_EXPIRATION";
    }
    else r

unfoldable pub expire_rows : ℕ → List ModerationReview → List ModerationReview
expire_rows now [] = []
expire_rows now (r ∷ rs) = expire_row now r ∷ expire_rows now rs

unfoldable pub count_stale : ℕ → List ModerationReview → ℕ
count_stale now [] = 0
count_stale now (r ∷ rs) =
    let rest = count_stale now rs in if is_pending r && leb r.expires_at now then rest + 1 else rest

unfoldable pub expire_stale_reviews : ℕ → List ModerationReview → ℕ × List ModerationReview
expire_stale_reviews now rs = (count_stale now rs, expire_rows now rs)

unfoldable pub add_row : ModerationReview → List ModerationReview → List ModerationReview
add_row r [] = r ∷ []
add_row r (x ∷ xs) = x ∷ add_row r xs
