-- ===== src/Commands/Table.antt =====
-- The tables of app/db/models/custom_command.py and `CommandRepository`
-- (app/db/repositories/command_repo.py). The tables allow one row for a creator and a name, and one
-- for a creator and an alias. Python's `str.lower` is a parameter.
use ai_modrator.Common.{
  ℕ, String, Bool, true, false, ◌&&◌, Option, none, some, List, [], ◌∷◌, str_eq, ◌==◌,
  if◌then◌else◌,
}
use ai_modrator.Common.Strip.{strip}
use ai_modrator.Commands.Roles.{Role}
use ai_modrator.Economy.Tables.{Uuid}

pub record CustomCommand : Type 0 where
  pub id : Uuid
  pub creator_id : String
  pub name : String
  pub response : String
  pub min_role : Role
  pub cooldown_seconds : ℕ
  pub enabled : Bool

pub record CommandAlias : Type 0 where
  pub creator_id : String
  pub alias : String
  pub target_command_id : Uuid

pub record CommandTables : Type 0 where
  pub commands : List CustomCommand
  pub aliases : List CommandAlias

abbrev pub normal : (String → String) → String → String
normal lower name = strip (lower name)

unfoldable pub find_command : String → String → List CustomCommand → Option CustomCommand
find_command creator_id name [] = none
find_command creator_id name (x ∷ xs) =
    if str_eq x.creator_id creator_id && str_eq x.name name
    then some x
    else find_command creator_id name xs

unfoldable pub find_by_id : Uuid → List CustomCommand → Option CustomCommand
find_by_id i [] = none
find_by_id i (x ∷ xs) = if x.id == i then some x else find_by_id i xs

unfoldable pub find_alias : String → String → List CommandAlias → Option CommandAlias
find_alias creator_id alias [] = none
find_alias creator_id alias (a ∷ as') =
    if str_eq a.creator_id creator_id && str_eq a.alias alias
    then some a
    else find_alias creator_id alias as'

module _ (lower : String → String) where
  unfoldable pub get_by_name : String → String → CommandTables → Option CustomCommand
  get_by_name creator_id name t = find_command creator_id (normal lower name) t.commands

  -- The join: the alias refers to a row, or is found with none.
  unfoldable pub get_by_alias : String → String → CommandTables → Option CustomCommand
  get_by_alias creator_id alias t = elim (find_alias creator_id (normal lower alias) t.aliases) [
    | none ↦ none
    | some a ↦ find_by_id a.target_command_id t.commands
  ]

  unfoldable pub resolve_command : String → String → CommandTables → Option CustomCommand
  resolve_command creator_id name_or_alias t = elim (get_by_name creator_id name_or_alias t) [
    | some x ↦ some x
    | none ↦ get_by_alias creator_id name_or_alias t
  ]

  unfoldable pub create_command :
      String
      → String
      → String
      → Role
      → ℕ
      → Bool
      → Uuid
      → CommandTables
      → CustomCommand × CommandTables
  create_command creator_id name response min_role cooldown_seconds enabled i t =
      let x : CustomCommand = record {
        id = i;
        creator_id = creator_id;
        name = normal lower name;
        response = response;
        min_role = min_role;
        cooldown_seconds = cooldown_seconds;
        enabled = enabled;
      } in
      (x, record t { commands = x ∷ t.commands })

  unfoldable pub add_alias : String → Uuid → String → CommandTables → CommandAlias × CommandTables
  add_alias creator_id command_id alias t =
      let a : CommandAlias = record {
        creator_id = creator_id;
        alias = normal lower alias;
        target_command_id = command_id;
      } in
      (a, record t { aliases = a ∷ t.aliases })

  -- The aliases of a deleted command are deleted with it.
  unfoldable pub drop_aliases : Uuid → List CommandAlias → List CommandAlias
  drop_aliases i [] = []
  drop_aliases i (a ∷ as') =
      let rest = drop_aliases i as' in if a.target_command_id == i then rest else a ∷ rest

  unfoldable pub drop_command : String → String → List CustomCommand → List CustomCommand
  drop_command creator_id name [] = []
  drop_command creator_id name (x ∷ xs) =
      let rest = drop_command creator_id name xs in
      if str_eq x.creator_id creator_id && str_eq x.name name then xs else x ∷ rest

  unfoldable pub delete_command : String → String → CommandTables → Bool × CommandTables
  delete_command creator_id name t = elim (get_by_name creator_id name t) [
    | none ↦ (false, t)
    | some x ↦ (
      true,
      record t {
        commands = drop_command creator_id (normal lower name) t.commands;
        aliases = drop_aliases x.id t.aliases;
      },
    )
  ]

-- `if x is not None: command.field = x`.
abbrev pub given {ℓ} : {A : Type ℓ} → Option A → A → A
given none old = old
given (some new) old = new

unfoldable pub update_command :
    Option String → Option Role → Option ℕ → Option Bool → CustomCommand → CustomCommand
update_command response min_role cooldown_seconds enabled x = record x {
  response = given response x.response;
  min_role = given min_role x.min_role;
  cooldown_seconds = given cooldown_seconds x.cooldown_seconds;
  enabled = given enabled x.enabled;
}
