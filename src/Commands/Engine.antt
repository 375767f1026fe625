-- ===== src/Commands/Engine.antt =====
-- `ProductionCommandEngine` of app/commands/engine.py. The handlers of the commands and of `!uk`,
-- the guard of the output, and Python's `str.lower` and `str.replace` are parameters; `W` is what
-- the handlers read and write, the database with its table of custom commands. A time is a number
-- of microseconds.
use Prim.Native.String.{◌++◌, ◌∷◌ as cons, [] as nil}
use ai_modrator.Common.{
  ℕ, ◌+◌, ◌*◌, String, Bool, true, false, ◌&&◌, not, Option, none, some, List, [], ◌∷◌, str_eq, ltb,
  ◌==◌, if◌then◌else◌,
}
use ai_modrator.Common.Dict.{Dict, lookup, insert}
use ai_modrator.Common.Search.{starts_with}
use ai_modrator.Common.Split.{split}
use ai_modrator.Common.Strip.{strip}
use ai_modrator.Commands.Roles.{Role, is_at_least}
use ai_modrator.Commands.Table.{CustomCommand, CommandTables, resolve_command}

pub record CommandExecutionContext : Type 0 where
  pub command_name : String
  pub args : List String
  pub raw_text : String
  pub creator_id : String
  pub stream_session_id : String
  pub channel_id : String
  pub display_name : String
  pub author_role : Role

pub record CommandResult : Type 0 where
  pub success : Bool
  pub response_message : Option String
  pub action_taken : Option String
  pub error_message : Option String

pub record ChatCommand : Type 0 where
  pub name : String
  pub min_role : Role
  pub cooldown_seconds : ℕ
  pub aliases : List String

-- The built-in commands by name, and the names by alias.
pub record Registry : Type 0 where
  pub builtins : Dict ChatCommand
  pub builtin_aliases : Dict String

unfoldable pub add_aliases : (String → String) → String → List String → Dict String → Dict String
add_aliases lower name [] d = d
add_aliases lower name (a ∷ as') d = add_aliases lower name as' (insert (strip (lower a)) name d)

unfoldable pub register_command : (String → String) → ChatCommand → Registry → Registry
register_command lower command r =
    let name = strip (lower command.name) in
    record {
      builtins = insert name command r.builtins;
      builtin_aliases = add_aliases lower name command.aliases r.builtin_aliases;
    }

-- `len(stripped) > 1` is to be no more than the prefix.
unfoldable pub is_command : String → Bool
is_command text =
    let stripped = strip text in
    starts_with "!" stripped && not (str_eq stripped "!") && not (starts_with "!!" stripped)

-- `text[1:]`.
abbrev pub after_first : String → String
after_first nil = nil
after_first (cons c text) = text

abbrev pub parsed : (String → String) → List String → String × List String
parsed lower [] = ("", [])
parsed lower (name ∷ args) = (lower name, args)

unfoldable pub parse_command : (String → String) → String → String × List String
parse_command lower text = parsed lower (split (after_first (strip text)))

-- `_local_cooldowns`, a dictionary by creator, viewer and command.
abbrev pub Cooldowns : Type 0
Cooldowns = String → String → String → Option ℕ

abbrev pub put_cooldown : String → String → String → ℕ → Cooldowns → Cooldowns
put_cooldown c v n t d i j k = if str_eq c i && str_eq v j && str_eq n k then some t else d i j k

abbrev pub or_zero : Option ℕ → ℕ
or_zero none = 0
or_zero (some t) = t

unfoldable pub check_cooldown : String → String → String → ℕ → ℕ → Cooldowns → Bool × Cooldowns
check_cooldown creator_id viewer_id cmd_name cooldown_sec now d =
    if cooldown_sec == 0
    then (true, d)
    else if ltb now (or_zero (d creator_id viewer_id cmd_name))
    then (false, d)
    else (true, put_cooldown creator_id viewer_id cmd_name (now + cooldown_sec * 1000000) d)

abbrev pub refused : Option String → String → CommandResult
refused response error = record {
  success = false;
  response_message = response;
  action_taken = none;
  error_message = some error;
}

abbrev pub target_of : String → Registry → String
target_of name r = elim (lookup name r.builtin_aliases) [ none ↦ name | some target ↦ target ]

module _ (W : Type 0) (tables_of : W → CommandTables) (lower sanitize : String → String)
    (replace : String → String → String → String)
    (run_admin : CommandExecutionContext → W → CommandResult × W)
    (run_builtin : String → CommandExecutionContext → W → CommandResult × W) where
  -- The engine's cooldowns and the rest of the state.
  pub record State : Type 0 where
    pub local_cooldowns : Cooldowns
    pub world : W

  abbrev pub sanitized : Option String → Option String
  sanitized none = none
  sanitized (some text) = if str_eq text "" then some text else some (sanitize text)

  unfoldable pub finalize_result : CommandResult → CommandResult
  finalize_result r = record r { response_message = sanitized r.response_message }

  unfoldable pub custom_response : CustomCommand → CommandExecutionContext → CommandResult
  custom_response x ctx =
      let user = "@" ++ ctx.display_name in
      finalize_result (record {
        success = true;
        response_message = some (replace "{author}" user (replace "{user}" user x.response));
        action_taken = some "CUSTOM_COMMAND";
        error_message = none;
      })

  -- Step 2, for a built-in command that was found under the name `target`.
  unfoldable pub execute_builtin :
      String → String → ChatCommand → CommandExecutionContext → ℕ → State → CommandResult × State
  execute_builtin cmd_name target command ctx now s =
      let (may_run, cooldowns) =
        check_cooldown ctx.creator_id ctx.channel_id target command.cooldown_seconds now
          s.local_cooldowns in
      let (result, world) = run_builtin target ctx s.world in
      if not (is_at_least ctx.author_role command.min_role)
      then (refused (some "You do not have permission to use this command.") "PERMISSION_DENIED", s)
      else if not may_run
      then (
        refused (some ("Command '!" ++ cmd_name ++ "' is on cooldown. Please wait a moment."))
            "COOLDOWN_ACTIVE",
        record s { local_cooldowns = cooldowns },
      )
      else (finalize_result result, record { local_cooldowns = cooldowns; world = world })

  abbrev pub unknown_command : CommandResult
  unknown_command = refused none "UNKNOWN_COMMAND"

  -- Step 3, for a custom command that was found.
  unfoldable pub execute_custom :
      String → CustomCommand → CommandExecutionContext → ℕ → State → CommandResult × State
  execute_custom cmd_name command ctx now s =
      let (may_run, cooldowns) =
        check_cooldown ctx.creator_id ctx.channel_id command.name command.cooldown_seconds now
          s.local_cooldowns in
      if not command.enabled
      then (unknown_command, s)
      else if not (is_at_least ctx.author_role command.min_role)
      then (
        refused (some "You do not have permission to use this custom command.") "PERMISSION_DENIED",
        s,
      )
      else if not may_run
      then (
        refused (some ("Command '!" ++ cmd_name ++ "' is on cooldown.")) "COOLDOWN_ACTIVE",
        record s { local_cooldowns = cooldowns },
      )
      else (custom_response command ctx, record s { local_cooldowns = cooldowns })

  unfoldable pub execute_command :
      Registry → CommandExecutionContext → ℕ → State → CommandResult × State
  execute_command r ctx now s =
      let cmd_name = strip (lower ctx.command_name) in
      let target = target_of cmd_name r in
      let (result, world) = run_admin ctx s.world in
      if str_eq cmd_name "uk"
      then (finalize_result result, record s { world = world })
      else elim (lookup target r.builtins) [
        | some command ↦ execute_builtin cmd_name target command ctx now s
        | none ↦ elim (resolve_command lower ctx.creator_id cmd_name (tables_of s.world)) [
          | some command ↦ execute_custom cmd_name command ctx now s
          | none ↦ (unknown_command, s)
        ]
      ]
