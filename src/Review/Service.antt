-- ===== src/Review/Service.antt =====
-- `HumanReviewService` of app/moderation/hitl/service.py. `lower` and `upper` are Python's
-- `str.lower` and `str.upper`; a query of all rows reads them in the order of the table.
use Prim.Native.String.{◌++◌}
use ai_modrator.Common.{
  ℕ, zero, suc, ◌+◌, ◌*◌, ◌/◌, String, false, not, Option, none, some, List, [], ◌∷◌, str_eq, ◌==◌,
  if◌then◌else◌,
}
use ai_modrator.Common.Search.{starts_with}
use ai_modrator.Common.Strip.{strip}
use ai_modrator.Common.Text.{or_text}
use ai_modrator.Moderation.Models.{
  ModerationAction, allow, flag_for_review, warn, delete, timeout, ban, ModerationDecision,
}
use ai_modrator.Moderation.Spam.{count_chars, any_char}
use ai_modrator.Review.Actions.{Actions, execute_decision}
use ai_modrator.Review.Tickets.{
  ReviewStatus, pending, approved, denied, expired, ModerationReview, is_pending, is_expired,
  get_review, resolve_review, add_row,
}

pub record Feedback : Type 0 where
  pub review_id : String
  pub creator_id : String
  pub moderator_id : String
  pub decision : String
  pub action_taken : String
  pub notes : Option String

-- The tables, the actions that were taken, and the texts of the next calls of `uuid.uuid4`.
pub record Desk : Type 0 where
  pub reviews : List ModerationReview
  pub feedback : List Feedback
  pub actions : Actions
  pub new_id : ℕ → String
  pub issued : ℕ

pub data Answer : Type 0 where
  review_not_found review_expired_no_action denied_allow : Answer
  review_already_resolved : ReviewStatus → Answer
  approved_as : String → Answer

-- What a new ticket is about.
pub record Subject : Type 0 where
  pub creator_id : String
  pub stream_session_id : String
  pub message_id : String
  pub author_channel_id : String
  pub author_display_name : String
  pub message_text : String
  pub confidence : ℕ
  pub severity : ℕ
  pub recommended_action : String
  pub reason_code : String
  pub reason : String
  pub language : String

-- `ttl` is the time to live in seconds: the argument, or the default of the settings.
unfoldable pub create_review : Subject → ℕ → ℕ → Desk → ModerationReview × Desk
create_review s ttl now desk =
    let review : ModerationReview = record {
      id = desk.new_id desk.issued;
      creator_id = s.creator_id;
      stream_session_id = s.stream_session_id;
      message_id = s.message_id;
      author_channel_id = s.author_channel_id;
      author_display_name = s.author_display_name;
      message_text = s.message_text;
      status = pending;
      risk_score = (s.confidence + s.severity) / 2;
      confidence = s.confidence;
      severity = s.severity;
      recommended_action = s.recommended_action;
      final_action = none;
      reason_code = s.reason_code;
      reason = s.reason;
      language = s.language;
      expires_at = now + ttl * 1000000;
      resolved_at = none;
      resolved_by = none;
    } in
    (review, record desk { reviews = add_row review desk.reviews; issued = desk.issued + 1 })

-- `getattr(ModerationAction, name, ModerationAction.WARN)`.
unfoldable pub action_named : String → ModerationAction
action_named name =
    if str_eq name "ALLOW"
    then allow
    else if str_eq name "FLAG_FOR_REVIEW"
    then flag_for_review
    else if str_eq name "DELETE"
    then delete
    else if str_eq name "TIMEOUT"
    then timeout
    else if str_eq name "BAN"
    then ban
    else warn

unfoldable pub human_decision : ModerationAction → String → ModerationDecision
human_decision action reason = record {
  action = action;
  layer = none;
  confidence_score = 100;
  reason = "Human moderator approved (" ++ (reason ++ ")");
  matched_rules = [];
  requires_human_review = false;
  suggested_timeout_seconds = 0;
  warning_message = none;
}

module _ (lower upper : String → String) where
  -- The first of at most `n` rows whose id starts with the prefix.
  unfoldable pub first_with_prefix : String → ℕ → List ModerationReview → Option ModerationReview
  first_with_prefix prefix n [] = none
  first_with_prefix prefix zero (r ∷ rs) = none
  first_with_prefix prefix (suc n) (r ∷ rs) =
      if starts_with prefix (lower r.id) then some r else first_with_prefix prefix n rs

  unfoldable pub find_review_by_prefix : String → List ModerationReview → Option ModerationReview
  find_review_by_prefix prefix rs =
      let clean = lower (strip prefix) in
      if count_chars any_char clean == 36
      then get_review clean rs
      else first_with_prefix clean 100 rs

  -- What `approve_review` does once the ticket is found to be pending and in time.
  unfoldable pub approve :
      ModerationReview → String → Option String → Option String → ℕ → Desk → Answer × Desk
  approve review moderator_id override_action notes now desk =
      let final_action = or_text override_action review.recommended_action in
      (
        approved_as final_action,
        record desk {
          reviews =
              resolve_review review.id approved (some final_action) (some moderator_id) now
                desk.reviews;
          feedback =
              record {
                review_id = review.id;
                creator_id = review.creator_id;
                moderator_id = moderator_id;
                decision = "YES";
                action_taken = final_action;
                notes = notes;
              }
              ∷ desk.feedback;
          actions =
              (execute_decision review.stream_session_id review.message_id review.author_channel_id
                (human_decision (action_named (upper final_action)) review.reason) now
                desk.actions).1;
        },
      )

  unfoldable pub approve_review :
      String → String → Option String → Option String → ℕ → Desk → Answer × Desk
  approve_review prefix moderator_id override_action notes now desk =
      elim (find_review_by_prefix prefix desk.reviews) [
        | none ↦ (review_not_found, desk)
        | some review ↦
            if not (is_pending review)
            then (review_already_resolved review.status, desk)
            else if is_expired now review
            then (
              review_expired_no_action,
              record desk {
                reviews =
                    resolve_review review.id expired none (some "SYSTEM_TTL_EXPIRATION") now
                      desk.reviews;
              },
            )
            else approve review moderator_id override_action notes now desk
      ]

  unfoldable pub deny_review : String → String → Option String → ℕ → Desk → Answer × Desk
  deny_review prefix moderator_id notes now desk =
      elim (find_review_by_prefix prefix desk.reviews) [
        | none ↦ (review_not_found, desk)
        | some review ↦
            if not (is_pending review) then (review_already_resolved review.status, desk) else (
              denied_allow,
              record desk {
                reviews =
                    resolve_review review.id denied (some "ALLOW") (some moderator_id) now
                      desk.reviews;
                feedback =
                    record {
                      review_id = review.id;
                      creator_id = review.creator_id;
                      moderator_id = moderator_id;
                      decision = "NO";
                      action_taken = "ALLOW";
                      notes = notes;
                    }
                    ∷ desk.feedback;
              },
            )
      ]
