-- ===== src/Commands/Tests.antt =====
-- A registry of one command, and the theorems at such inputs.
use ai_modrator.Common.{String, ◌≡◌, refl, ◌⊎◌, true, false, none, some, [], ◌∷◌, arith}
use ai_modrator.Common.Dict.{lookup, insert}
use ai_modrator.Common.Search.{starts_with}
use ai_modrator.Common.Split.{split, add_char, add_to_first}
use ai_modrator.Common.Strip.{strip}
use ai_modrator.Commands.Cooldowns.{
  execute, execute_command_cooldown, execute_command_denied, run, IsBelow, IsCooling,
}
use ai_modrator.Commands.Engine.{
  CommandExecutionContext, CommandResult, ChatCommand, Registry, State, add_aliases,
  register_command, is_command, parse_command, check_cooldown,
}
use ai_modrator.Commands.Roles.{Role, UserContext, creator, moderator, viewer, is_at_least}
use ai_modrator.Commands.Table.{CommandTables}

abbrev same_text : String → String
same_text text = text

abbrev replace : String → String → String → String
replace old new text = text

abbrev answer : CommandResult
answer = record {
  success = true;
  response_message = some "pong";
  action_taken = none;
  error_message = none;
}

abbrev run_admin : CommandExecutionContext → CommandTables → CommandResult × CommandTables
run_admin ctx t = (answer, t)

abbrev run_builtin :
    String → CommandExecutionContext → CommandTables → CommandResult × CommandTables
run_builtin target ctx t = (answer, t)

abbrev tables_of : CommandTables → CommandTables
tables_of t = t

abbrev ping : ChatCommand
ping = record { name = "ping"; min_role = moderator; cooldown_seconds = 5; aliases = "p" ∷ [] }

abbrev registry : Registry
registry = record { builtins = ("ping", ping) ∷ []; builtin_aliases = ("p", "ping") ∷ [] }

registered :
    register_command same_text ping (record { builtins = []; builtin_aliases = [] }) ≡ registry
unfolding register_command add_aliases insert strip
registered = refl

abbrev says : String → Role → CommandExecutionContext
says name role = record {
  command_name = name;
  args = [];
  raw_text = name;
  creator_id = "c";
  stream_session_id = "s";
  channel_id = "ann";
  display_name = "Ann";
  author_role = role;
}

parsed_name : parse_command same_text " !ping now" ≡ ("ping", "now" ∷ [])
unfolding parse_command strip split add_char add_to_first
parsed_name = refl

two_marks : is_command "!!ping" ≡ false
unfolding is_command strip starts_with
two_marks = refl

abbrev quiet : State CommandTables tables_of same_text same_text replace run_admin run_builtin
quiet = record { local_cooldowns = λ c v n. none; world = record { commands = []; aliases = [] } }

execute_command_cooldown_example :
    let e =
      execute CommandTables tables_of same_text same_text replace run_admin run_builtin registry in
    let s' =
      run CommandTables tables_of same_text same_text replace run_admin run_builtin registry
        ((says "p" moderator, 102000000) ∷ [])
        (e (says "ping" moderator) 100000000 quiet).1 in
    ((e (says "p" creator) 104000000 s').0.success ≡ false)
    × ((e (says "p" creator) 104000000 s').1.world ≡ s'.world)
unfolding strip lookup is_at_least check_cooldown
execute_command_cooldown_example =
    execute_command_cooldown CommandTables tables_of same_text same_text replace run_admin
      run_builtin registry "ping" ping (says "ping" moderator) (says "p" creator) 100000000
      104000000 ((says "p" moderator, 102000000) ∷ []) quiet (refl, refl, refl) (refl, refl, refl)
      refl refl (ground arith) refl refl (ground arith, tt) (ground arith)

execute_command_denied_example :
    let (result, s') =
      execute CommandTables tables_of same_text same_text replace run_admin run_builtin registry
        (says "ping" viewer)
        100000000
        quiet in
    let (reply, world') = run_builtin "ping" (says "ping" viewer) quiet.world in
    let cooling =
      IsCooling CommandTables tables_of same_text same_text replace run_admin run_builtin registry
        (says "ping" viewer)
        "ping"
        ping
        100000000
        quiet in
    (IsBelow viewer moderator
      × (result.success ≡ false)
      × (result.error_message ≡ some "PERMISSION_DENIED")
      × (s' ≡ quiet))
    ⊎ ((¬ IsBelow viewer moderator)
        × ((cooling
              × (result.success ≡ false)
              × (result.error_message ≡ some "COOLDOWN_ACTIVE")
              × (s'.world ≡ quiet.world))
            ⊎ ((¬ cooling)
                × (result.success ≡ reply.success)
                × (result.error_message ≡ reply.error_message)
                × (s'.world ≡ world'))))
unfolding strip lookup
execute_command_denied_example =
    execute_command_denied CommandTables tables_of same_text same_text replace run_admin run_builtin
      registry "ping" ping (says "ping" viewer) 100000000 quiet (refl, refl, refl)

abbrev user : Role → UserContext
user role = record { user_id = "u"; role = role; creator_id = none }
