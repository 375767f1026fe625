-- ===== src/Flags/Tests.antt =====
-- Two flags, and the theorems at such inputs.
use ai_modrator.Common.{String, ◌≡◌, refl, false, Option, none, some, [], ◌∷◌}
use ai_modrator.Flags.Cascade.{set_flag-is_enabled, set_flag-isolated}
use ai_modrator.Flags.Service.{
  FeatureFlag, Flags, FlagUpdate, set_flag, is_enabled, select_flags, append_flag, cascade,
  first_enabled,
}

abbrev same_text : String → String
same_text text = text

abbrev no_flags : Flags
no_flags = record { flags = []; audit = [] }

abbrev economy_flag : Option String → Option String → String → FeatureFlag
economy_flag c s environment = record {
  key = "ECONOMY";
  description = "maintenance";
  enabled = false;
  creator_id = c;
  stream_session_id = s;
  environment = environment;
}

abbrev economy_update : Option String → Option String → String → FlagUpdate
economy_update c s environment = record {
  actor_id = "admin";
  key = "ECONOMY";
  previous_state = none;
  new_state = false;
  creator_id = c;
  stream_session_id = s;
  environment = environment;
  reason = some "maintenance";
}

abbrev production_off : Flags
production_off = record {
  flags = economy_flag none none "production" ∷ [];
  audit = economy_update none none "production" ∷ [];
}

abbrev stream_off : Flags
stream_off = record {
  flags = economy_flag none (some "s1") "all" ∷ [];
  audit = economy_update none (some "s1") "all" ∷ [];
}

production_set :
    set_flag same_text "production" "ECONOMY" false none none "production" "admin"
      (some "maintenance")
      no_flags
    ≡ some production_off
unfolding set_flag select_flags append_flag
production_set = refl

stream_set :
    set_flag same_text "production" "ECONOMY" false none
      (some "s1")
      "all"
      "admin"
      (some "maintenance")
      no_flags
    ≡ some stream_off
unfolding set_flag select_flags append_flag
stream_set = refl

-- The flag of the stream holds for this stream.
stream_is_off :
    is_enabled same_text "production" "ECONOMY" none (some "s1") none stream_off.flags ≡ false
unfolding is_enabled select_flags cascade first_enabled
stream_is_off = refl

set_flag-is_enabled_example :
    is_enabled same_text "production" "ECONOMY" none none none production_off.flags ≡ false
set_flag-is_enabled_example =
    set_flag-is_enabled same_text "production" "ECONOMY" "admin" false (some "maintenance") none
      no_flags production_off production_set

set_flag-isolated_example :
    is_enabled same_text "production" "ECONOMY" none (some "s2") none stream_off.flags
    ≡ is_enabled same_text "production" "ECONOMY" none (some "s2") none no_flags.flags
set_flag-isolated_example =
    set_flag-isolated same_text "production" "ECONOMY" "ECONOMY" "admin" "all" "s1" false
      (some "maintenance") none none (some "s2") none no_flags stream_off stream_set refl
