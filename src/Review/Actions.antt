-- ===== src/Review/Actions.antt =====
-- `YouTubeModerationActionService` of app/moderation/actions.py. The markers in Redis are a table of
-- their times of expiry. The calls of YouTube catch their own errors, so no action is taken back.
use ai_modrator.Common.{
  ℕ, ◌+◌, String, ◌≡◌, Bool, true, false, ◌||◌, none, some, List, [], ◌∷◌, str_eq, eq_iff, leb,
  ◌==◌, if◌then◌else◌, arith,
}
use ai_modrator.Common.Dict.{Dict, lookup, insert}
use ai_modrator.Common.Text.{◌⊕◌}
use ai_modrator.Moderation.Models.{
  ModerationAction, allow, flag_for_review, warn, delete, timeout, ban, value_of,
  ModerationDecision,
}

-- What an executed decision does, in order.
pub data Effect : Type 0 where
  delete_message : String → Effect
  timeout_user : String → ℕ → Effect
  ban_user : String → Effect
  warn_user : String → Effect

pub record Actions : Type 0 where
  pub local_cache : List String
  pub markers : Dict ℕ
  pub effects : List Effect

unfoldable pub make_idempotency_key : String → String → ModerationAction → String
make_idempotency_key stream_session_id message_id action =
    "moderation" ⊕ stream_session_id ⊕ message_id ⊕ value_of action

unfoldable pub is_cached : String → List String → Bool
is_cached key [] = false
is_cached key (k ∷ ks) = let rest = is_cached key ks in if str_eq k key then true else rest

-- `redis_client.get(key)`: there until the time is past its expiry.
unfoldable pub is_marked : String → ℕ → Dict ℕ → Bool
is_marked key now markers = elim (lookup key markers) [ none ↦ false | some t ↦ leb now t ]

-- The `or 300` of the code.
abbrev pub or_300 : ℕ → ℕ
or_300 n = if n == 0 then 300 else n

unfoldable pub effects_of : String → String → ModerationDecision → List Effect
effects_of message_id author decision = elim decision.action [
  | delete ↦ delete_message message_id ∷ []
  | timeout ↦
      timeout_user author (or_300 decision.suggested_timeout_seconds)
      ∷ delete_message message_id
      ∷ []
  | ban ↦ ban_user author ∷ delete_message message_id ∷ []
  | warn ↦ warn_user author ∷ []
  | _ ↦ []
]

abbrev pub is_harmless : ModerationAction → Bool
is_harmless allow = true
is_harmless flag_for_review = true
is_harmless _ = false

abbrev pub add_effects : List Effect → List Effect → List Effect
add_effects [] es = es
add_effects (x ∷ xs) es = x ∷ add_effects xs es

unfoldable pub execute_decision :
    String → String → String → ModerationDecision → ℕ → Actions → Bool × Actions
execute_decision stream_session_id message_id author decision now actions =
    if is_harmless decision.action
    then (true, actions)
    else let key = make_idempotency_key stream_session_id message_id decision.action in
      if is_cached key actions.local_cache || is_marked key now actions.markers
      then (false, actions)
      else (
        true,
        record {
          local_cache = key ∷ actions.local_cache;
          markers = insert key (now + 86400000000) actions.markers;
          effects = add_effects actions.effects (effects_of message_id author decision);
        },
      )

-- Once a decision that is not harmless has been executed, a decision with the same action on the
-- same message of the stream is skipped at any later time and changes nothing.
pub execute_decision_repeated :
    (session message author author' : String) (d d' : ModerationDecision) (now later : ℕ)
    (actions : Actions)
    → d'.action ≡ d.action
    → is_harmless d.action ≡ false
    → (execute_decision session message author d now actions).0 ≡ true
    → execute_decision session message author' d' later
        (execute_decision session message author d now actions).1
      ≡ (false, (execute_decision session message author d now actions).1)
unfolding execute_decision is_cached
execute_decision_repeated session message author author' d d' now later actions e h k =
    let key = make_idempotency_key session message d.action in ground (arith, e, h, eq_iff key key)
