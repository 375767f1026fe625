-- ===== src/Flags/Service.antt =====
-- `FeatureFlagService` of app/services/feature_flags.py and its table. Python's `str.upper` and the
-- setting `APP_ENV` are parameters.
use ai_modrator.Common.{
  String, Bool, true, false, ◌&&◌, ◌||◌, not, Option, none, some, List, [], ◌∷◌, str_eq,
  if◌then◌else◌,
}
use Prim.Native.String.{◌++◌}
use ai_modrator.Common.Text.{or_text}
use ai_modrator.Common.Dict.{Dict, lookup}

pub record FeatureFlag : Type 0 where
  pub key : String
  pub description : String
  pub enabled : Bool
  pub creator_id : Option String
  pub stream_session_id : Option String
  pub environment : String

-- Python's `==` on optional texts.
abbrev pub same : Option String → Option String → Bool
same none none = true
same (some s) (some t) = str_eq s t
same _ _ = false

-- Python's truth value of an optional text.
abbrev pub is_given : Option String → Bool
is_given none = false
is_given (some s) = not (str_eq s "")

unfoldable pub default_flags : Dict Bool
default_flags =
    ("HONNEY", true)
    ∷ ("AI_MODERATION", true)
    ∷ ("OPENROUTER", true)
    ∷ ("ECONOMY", true)
    ∷ ("MINIGAMES", true)
    ∷ ("DISCORD_ALERTS", true)
    ∷ ("WEBSUB", true)
    ∷ ("AUTO_RECONNECT", true)
    ∷ []

abbrev pub or_else : Option Bool → Bool → Bool
or_else none b = b
or_else (some a) b = a

abbrev pub or_default : Option Bool → String → Bool
or_default none key = or_else (lookup key default_flags) true
or_default (some b) key = b

-- The first flag that a test accepts gives the answer.
unfoldable pub first_enabled : (FeatureFlag → Bool) → List FeatureFlag → Option Bool
first_enabled p [] = none
first_enabled p (f ∷ fs) = if p f then some f.enabled else first_enabled p fs

-- The row that `set_flag` looks for.
unfoldable pub is_exactly : String → Option String → Option String → String → FeatureFlag → Bool
is_exactly key creator_id stream_session_id environment f =
    str_eq f.key key
    && same f.creator_id creator_id
    && same f.stream_session_id stream_session_id
    && str_eq f.environment environment

unfoldable pub select_flags : (FeatureFlag → Bool) → List FeatureFlag → List FeatureFlag
select_flags p [] = []
select_flags p (f ∷ fs) = let rest = select_flags p fs in if p f then f ∷ rest else rest

unfoldable pub write_flag : (FeatureFlag → Bool) → Bool → List FeatureFlag → List FeatureFlag
write_flag p enabled [] = []
write_flag p enabled (f ∷ fs) =
    let rest = write_flag p enabled fs in
    if p f then record f { enabled = enabled } ∷ rest else f ∷ rest

unfoldable pub append_flag : List FeatureFlag → FeatureFlag → List FeatureFlag
append_flag [] f = f ∷ []
append_flag (g ∷ gs) f = g ∷ append_flag gs f

-- What is written to the audit log.
pub record FlagUpdate : Type 0 where
  pub actor_id : String
  pub key : String
  pub previous_state : Option Bool
  pub new_state : Bool
  pub creator_id : Option String
  pub stream_session_id : Option String
  pub environment : String
  pub reason : Option String

pub record Flags : Type 0 where
  pub flags : List FeatureFlag
  pub audit : List FlagUpdate

module _ (upper : String → String) (app_env : String) where
  abbrev pub has_key : String → FeatureFlag → Bool
  has_key flag_key f = str_eq f.key (upper flag_key)

  abbrev pub of_stream : Option String → FeatureFlag → Bool
  of_stream stream_session_id f = same f.stream_session_id stream_session_id

  abbrev pub of_creator : Option String → FeatureFlag → Bool
  of_creator creator_id f =
      same f.creator_id creator_id
      && same f.stream_session_id none
      && (str_eq f.environment app_env || str_eq f.environment "all")

  abbrev pub of_environment : String → FeatureFlag → Bool
  of_environment environment f =
      same f.creator_id none && same f.stream_session_id none && str_eq f.environment environment

  -- The five levels of the cascade, for the rows of a key.
  unfoldable pub cascade : List FeatureFlag → Option String → Option String → Bool → Bool
  cascade rows creator_id stream_session_id default =
      or_else
        (if is_given stream_session_id
          then first_enabled (of_stream stream_session_id) rows
          else none)
        (or_else (if is_given creator_id then first_enabled (of_creator creator_id) rows else none)
          (or_else (first_enabled (of_environment app_env) rows)
            (or_else (first_enabled (of_environment "all") rows) default)))

  unfoldable pub is_enabled :
      String → Option String → Option String → Option Bool → List FeatureFlag → Bool
  is_enabled flag_key creator_id stream_session_id default flags =
      let fallback = or_default default (upper flag_key) in
      elim (select_flags (has_key flag_key) flags) [
        | [] ↦ fallback
        | f ∷ fs ↦ cascade (f ∷ fs) creator_id stream_session_id fallback
      ]

  abbrev pub new_flag :
      String → Bool → Option String → Option String → String → Option String → FeatureFlag
  new_flag key enabled creator_id stream_session_id environment reason = record {
    key = upper key;
    description = or_text reason ("Feature flag " ++ upper key);
    enabled = enabled;
    creator_id = creator_id;
    stream_session_id = stream_session_id;
    environment = environment;
  }

  -- `none` stands for the error of a lookup that finds several rows.
  unfoldable pub set_flag :
      String
      → Bool
      → Option String
      → Option String
      → String
      → String
      → Option String
      → Flags
      → Option Flags
  set_flag key enabled creator_id stream_session_id environment actor_id reason x =
      let found = is_exactly (upper key) creator_id stream_session_id environment in
      let update : Option Bool → FlagUpdate = λ old. record {
        actor_id = actor_id;
        key = upper key;
        previous_state = old;
        new_state = enabled;
        creator_id = creator_id;
        stream_session_id = stream_session_id;
        environment = environment;
        reason = reason;
      } in
      elim (select_flags found x.flags) [
        | [] ↦ some (record {
          flags =
              append_flag x.flags
                (new_flag key enabled creator_id stream_session_id environment reason);
          audit = update none ∷ x.audit;
        })
        | f ∷ [] ↦ some (record {
          flags = write_flag found enabled x.flags;
          audit = update (some f.enabled) ∷ x.audit;
        })
        | f ∷ g ∷ fs ↦ none
      ]
