-- ===== src/Review/Tests.antt =====
-- A desk with one ticket, and the theorems at such inputs.
use ai_modrator.Common.{◌≤◌, String, ◌≡◌, refl, true, false, none, some, [], ◌∷◌}
use ai_modrator.Common.Int.{pos}
use ai_modrator.Common.Search.{starts_with}
use ai_modrator.Common.Strip.{strip}
use ai_modrator.Common.Text.{decimal}
use ai_modrator.Moderation.Models.{ModerationDecision, timeout}
use ai_modrator.Moderation.Spam.{count_chars}
use ai_modrator.Review.Actions.{execute_decision, execute_decision_repeated, is_cached, is_marked}
use ai_modrator.Common.Dict.{lookup}
use ai_modrator.Review.Tickets.{
  ModerationReview, is_pending, is_expired, get_review, resolve_review, resolved_as, add_row,
}
use ai_modrator.Review.Service.{
  Desk, Subject, create_review, human_decision, first_with_prefix, find_review_by_prefix, approve,
  approve_review, deny_review,
}
use ai_modrator.Review.Resolution.{
  approval, expiry, run, is_approval, run-get_review, approve_review_in_time,
}

abbrev same : String → String
same s = s

abbrev empty_desk : Desk
empty_desk = record {
  reviews = [];
  feedback = [];
  actions = record { local_cache = []; markers = []; effects = [] };
  new_id = λ n. decimal (pos n);
  issued = 0;
}

abbrev insult : Subject
insult = record {
  creator_id = "c1";
  stream_session_id = "s1";
  message_id = "m1";
  author_channel_id = "ann";
  author_display_name = "Ann";
  message_text = "...";
  confidence = 70;
  severity = 60;
  recommended_action = "TIMEOUT";
  reason_code = "ABUSE";
  reason = "insult";
  language = "en";
}

abbrev desk : Desk
desk = (create_review insult 60 5 empty_desk).1

abbrev approved_desk : Desk
approved_desk = (approve_review same same "0" "mod" none none 9 desk).1

approved_in_time : is_approval (approve_review same same "0" "mod" none none 9 desk).0 ≡ true
unfolding approve_review approve find_review_by_prefix first_with_prefix create_review add_row
    is_expired strip starts_with count_chars decimal
approved_in_time = refl

approve_review_in_time_example :
    (r : ModerationReview) × (find_review_by_prefix same same "0" desk.reviews ≡ some r)
    × (is_pending r ≡ true)
    × (9 ≤ r.expires_at)
approve_review_in_time_example =
    approve_review_in_time same same "0" "mod" none none 9 desk approved_in_time

too_late : is_approval (approve_review same same "0" "mod" none none 70000000 desk).0 ≡ false
unfolding approve_review find_review_by_prefix first_with_prefix create_review add_row is_expired
    strip starts_with count_chars decimal
too_late = refl

abbrev denied_row : ModerationReview
denied_row =
    resolved_as ai_modrator.Review.Tickets.denied (some "ALLOW") (some "mod") 9
      (create_review insult 60 5 empty_desk).0

denied_found :
    get_review "0" (deny_review same same "0" "mod" none 9 desk).1.reviews ≡ some denied_row
unfolding deny_review find_review_by_prefix first_with_prefix create_review add_row strip
    starts_with count_chars decimal get_review resolve_review resolved_as
denied_found = refl

denied_done : is_pending denied_row ≡ false
unfolding resolved_as create_review
denied_done = refl

run-get_review_example :
    get_review "0"
      (run same same
        (approval "0" "mod" none none 12 ∷ expiry 99 ∷ [])
        (deny_review same same "0" "mod" none 9 desk).1).reviews
    ≡ some denied_row
run-get_review_example =
    run-get_review same same (approval "0" "mod" none none 12 ∷ expiry 99 ∷ [])
      (deny_review same same "0" "mod" none 9 desk).1 "0" denied_row denied_done denied_found

abbrev mute : ModerationDecision
mute = human_decision timeout "insult"

mute_executed : (execute_decision "s1" "m1" "ann" mute 9 empty_desk.actions).0 ≡ true
unfolding execute_decision is_cached is_marked lookup human_decision
mute_executed = refl

mute_action : mute.action ≡ timeout
unfolding human_decision
mute_action = refl

execute_decision_repeated_example :
    let after = (execute_decision "s1" "m1" "ann" mute 9 empty_desk.actions).1 in
    execute_decision "s1" "m1" "bob" mute 12 after ≡ (false, after)
unfolding human_decision
execute_decision_repeated_example =
    execute_decision_repeated "s1" "m1" "ann" "bob" mute mute 9 12 empty_desk.actions refl refl
      mute_executed
