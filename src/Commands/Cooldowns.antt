-- ===== src/Commands/Cooldowns.antt =====
-- What `execute_command` (app/commands/engine.py) lets through: nobody runs a command above the own
-- role, and nobody runs it again before its cooldown is over.
use ai_modrator.Common.{
  ℕ, ◌+◌, ◌*◌, ◌≤◌, ◌<◌, String, ◌≡◌, ap, ◌∙◌, refl, ◌⊎◌, inl, inr, true, false, some, List, [],
  ◌∷◌, All, str_eq, eq_iff, arith, Bool-cases, Option-cases,
}
use ai_modrator.Common.Dict.{lookup}
use ai_modrator.Common.Strip.{strip}
use ai_modrator.Commands.Engine.{
  CommandExecutionContext, CommandResult, ChatCommand, Registry, Cooldowns, check_cooldown, or_zero,
  target_of, finalize_result, State, execute_builtin, execute_custom, execute_command,
}
use ai_modrator.Commands.Roles.{Role, viewer, moderator, creator, developer, is_at_least}
use ai_modrator.Commands.Table.{CustomCommand, CommandTables, resolve_command}

-- A cooldown that is not over is not changed by any check.
check_cooldown-kept :
    (c v n i j k : String) (e seconds now : ℕ) (d : Cooldowns)
    → d c v n ≡ some e
    → now < e
    → (check_cooldown i j k seconds now d).1 c v n ≡ some e
unfolding check_cooldown
check_cooldown-kept c v n i j k e seconds now d h l =
    ground (arith, h, eq_iff i c, eq_iff j v, eq_iff k n)

check_cooldown-blocks :
    (c v n : String) (e seconds now : ℕ) (d : Cooldowns)
    → d c v n ≡ some e
    → now < e
    → 1 ≤ seconds
    → check_cooldown c v n seconds now d ≡ (false, d)
unfolding check_cooldown
check_cooldown-blocks c v n e seconds now d h l p = ground (arith, h)

check_cooldown-started :
    (c v n : String) (seconds now : ℕ) (d : Cooldowns)
    → (check_cooldown c v n seconds now d).0 ≡ true
    → 1 ≤ seconds
    → (check_cooldown c v n seconds now d).1 c v n ≡ some (now + seconds * 1000000)
unfolding check_cooldown
check_cooldown-started c v n seconds now d h p =
    ground (arith, h, eq_iff c c, eq_iff v v, eq_iff n n)

-- The order of the roles: viewer, moderator, creator, developer.
abbrev pub IsBelow : Role → Role → Type 0
IsBelow viewer viewer = ⊥
IsBelow viewer r = Unit
IsBelow moderator creator = Unit
IsBelow moderator developer = Unit
IsBelow creator developer = Unit
IsBelow r required = ⊥

is_at_least-cases :
    (r required : Role)
    → (IsBelow r required × (is_at_least r required ≡ false))
      ⊎ ((¬ IsBelow r required) × (is_at_least r required ≡ true))
unfolding is_at_least
is_at_least-cases viewer viewer = inr (λ h. h, refl)
is_at_least-cases viewer moderator = inl (tt, refl)
is_at_least-cases viewer creator = inl (tt, refl)
is_at_least-cases viewer developer = inl (tt, refl)
is_at_least-cases moderator viewer = inr (λ h. h, refl)
is_at_least-cases moderator moderator = inr (λ h. h, refl)
is_at_least-cases moderator creator = inl (tt, refl)
is_at_least-cases moderator developer = inl (tt, refl)
is_at_least-cases creator viewer = inr (λ h. h, refl)
is_at_least-cases creator moderator = inr (λ h. h, refl)
is_at_least-cases creator creator = inr (λ h. h, refl)
is_at_least-cases creator developer = inl (tt, refl)
is_at_least-cases developer viewer = inr (λ h. h, refl)
is_at_least-cases developer moderator = inr (λ h. h, refl)
is_at_least-cases developer creator = inr (λ h. h, refl)
is_at_least-cases developer developer = inr (λ h. h, refl)

check_cooldown-cases :
    (c v n : String) (seconds now : ℕ) (d : Cooldowns)
    → (((1 ≤ seconds) × (now < or_zero (d c v n)))
        × ((check_cooldown c v n seconds now d).0 ≡ false))
      ⊎ ((¬ ((1 ≤ seconds) × (now < or_zero (d c v n))))
          × ((check_cooldown c v n seconds now d).0 ≡ true))
unfolding check_cooldown
check_cooldown-cases c v n seconds now d = ground arith

module _ (W : Type 0) (tables_of : W → CommandTables) (lower sanitize : String → String)
    (replace : String → String → String → String)
    (run_admin : CommandExecutionContext → W → CommandResult × W)
    (run_builtin : String → CommandExecutionContext → W → CommandResult × W) (r : Registry) where
  abbrev pub Engine : Type 0
  Engine = State W tables_of lower sanitize replace run_admin run_builtin

  abbrev pub execute : CommandExecutionContext → ℕ → Engine → CommandResult × Engine
  execute = execute_command W tables_of lower sanitize replace run_admin run_builtin r

  -- Contexts, each with the time at which it is executed.
  unfoldable pub run : List (CommandExecutionContext × ℕ) → Engine → Engine
  run [] s = s
  run ((ctx, now) ∷ es) s = run es (execute ctx now s).1

  abbrev pub builtin :
      String → String → ChatCommand → CommandExecutionContext → ℕ → Engine → CommandResult × Engine
  builtin = execute_builtin W tables_of lower sanitize replace run_admin run_builtin

  abbrev pub custom :
      String → CustomCommand → CommandExecutionContext → ℕ → Engine → CommandResult × Engine
  custom = execute_custom W tables_of lower sanitize replace run_admin run_builtin

  abbrev pub name_of : CommandExecutionContext → String
  name_of ctx = strip (lower ctx.command_name)

  builtin-kept :
      (c v n name target : String) (e now : ℕ) (x : ChatCommand) (ctx : CommandExecutionContext)
      (s : Engine)
      → s.local_cooldowns c v n ≡ some e
      → now < e
      → (builtin name target x ctx now s).1.local_cooldowns c v n ≡ some e
  unfolding execute_builtin
  builtin-kept c v n name target e now x ctx s h l = ground (
    arith,
    h,
    check_cooldown-kept c v n ctx.creator_id ctx.channel_id target e x.cooldown_seconds now
        s.local_cooldowns h l,
  )

  custom-kept :
      (c v n name : String) (e now : ℕ) (x : CustomCommand) (ctx : CommandExecutionContext)
      (s : Engine)
      → s.local_cooldowns c v n ≡ some e
      → now < e
      → (custom name x ctx now s).1.local_cooldowns c v n ≡ some e
  unfolding execute_custom
  custom-kept c v n name e now x ctx s h l = ground (
    arith,
    h,
    check_cooldown-kept c v n ctx.creator_id ctx.channel_id x.name e x.cooldown_seconds now
        s.local_cooldowns h l,
  )

  execute-kept :
      (c v n : String) (e now : ℕ) (ctx : CommandExecutionContext) (s : Engine)
      → s.local_cooldowns c v n ≡ some e
      → now < e
      → (execute ctx now s).1.local_cooldowns c v n ≡ some e
  unfolding execute_command
  execute-kept c v n e now ctx s h l =
      let name = name_of ctx in
      let target = target_of name r in
      elim (Bool-cases (str_eq name "uk")) [
        | inl b ↦ rw (b, execute_command) h
        | inr b ↦ elim (Option-cases (lookup target r.builtins)) [
          | inr (x, f) ↦
              rw (b, f, execute_command) (builtin-kept c v n name target e now x ctx s h l)
          | inl f ↦
              elim (Option-cases (resolve_command lower ctx.creator_id name (tables_of s.world))) [
                | inr (x, g) ↦
                    rw (b, f, g, execute_command) (custom-kept c v n name e now x ctx s h l)
                | inl g ↦ rw (b, f, g, execute_command) h
              ]
        ]
      ]

  run-kept :
      (c v n : String) (e : ℕ) (es : List (CommandExecutionContext × ℕ)) (s : Engine)
      → s.local_cooldowns c v n ≡ some e
      → All (λ (x : CommandExecutionContext × ℕ). x.1 < e) es
      → (run es s).local_cooldowns c v n ≡ some e
  unfolding run
  run-kept c v n e [] s h all = h
  run-kept c v n e ((ctx, now) ∷ es) s h all =
      run-kept c v n e es (execute ctx now s).1 (execute-kept c v n e now ctx s h all.0) all.1

  -- `ctx` asks for the built-in command `x`, which is registered under `target`.
  abbrev pub AsksFor : CommandExecutionContext → String → ChatCommand → Type 0
  AsksFor ctx target x =
      (str_eq (name_of ctx) "uk" ≡ false)
      × (target_of (name_of ctx) r ≡ target)
      × (lookup target r.builtins ≡ some x)

  execute-builtin :
      (target : String) (x : ChatCommand) (ctx : CommandExecutionContext) (now : ℕ) (s : Engine)
      → AsksFor ctx target x
      → execute ctx now s ≡ builtin (name_of ctx) target x ctx now s
  unfolding execute_command
  execute-builtin target x ctx now s (b, t, f) =
      let found : lookup (target_of (name_of ctx) r) r.builtins ≡ some x =
        ap (λ u. lookup u r.builtins) t ∙ f in
      rw (b, found, execute_command) (ap (λ u. builtin (name_of ctx) u x ctx now s) t)

  builtin-started :
      (target : String) (x : ChatCommand) (ctx : CommandExecutionContext) (now : ℕ) (s : Engine)
      → AsksFor ctx target x
      → 1 ≤ x.cooldown_seconds
      → is_at_least ctx.author_role x.min_role ≡ true
      → (check_cooldown ctx.creator_id ctx.channel_id target x.cooldown_seconds now
          s.local_cooldowns).0
        ≡ true
      → (execute ctx now s).1.local_cooldowns ctx.creator_id ctx.channel_id target
        ≡ some (now + x.cooldown_seconds * 1000000)
  unfolding execute_builtin
  builtin-started target x ctx now s asks p may free =
      rw (execute-builtin target x ctx now s asks) (
        ground (
          arith,
          may,
          free,
          check_cooldown-started ctx.creator_id ctx.channel_id target x.cooldown_seconds now
              s.local_cooldowns free p,
        ))

  -- Once a viewer whose role is high enough has run a built-in command that is off cooldown and
  -- has a cooldown, then as long as the cooldown is not over, whatever commands are executed in
  -- between, no further call of the command by the viewer for the same creator succeeds or
  -- changes anything but the engine's cooldowns.
  pub execute_command_cooldown :
      (target : String) (x : ChatCommand) (ctx again : CommandExecutionContext) (now later : ℕ)
      (es : List (CommandExecutionContext × ℕ)) (s : Engine)
      → AsksFor ctx target x
      → AsksFor again target x
      → again.creator_id ≡ ctx.creator_id
      → again.channel_id ≡ ctx.channel_id
      → 1 ≤ x.cooldown_seconds
      → is_at_least ctx.author_role x.min_role ≡ true
      → (check_cooldown ctx.creator_id ctx.channel_id target x.cooldown_seconds now
          s.local_cooldowns).0
        ≡ true
      → All (λ (y : CommandExecutionContext × ℕ). y.1 < now + x.cooldown_seconds * 1000000) es
      → later < now + x.cooldown_seconds * 1000000
      → let s' = run es (execute ctx now s).1 in
        ((execute again later s').0.success ≡ false) × ((execute again later s').1.world ≡ s'.world)
  unfolding execute_builtin
  execute_command_cooldown target x ctx again now later es s asks asks_again same_c same_v p may
        free all h =
      let c = ctx.creator_id in
      let v = ctx.channel_id in
      let e = now + x.cooldown_seconds * 1000000 in
      let s' = run es (execute ctx now s).1 in
      let began = builtin-started target x ctx now s asks p may free in
      let kept = run-kept c v target e es (execute ctx now s).1 began all in
      let here : s'.local_cooldowns again.creator_id again.channel_id target ≡ some e =
        rw (same_c, same_v) kept in
      let blocked =
        check_cooldown-blocks again.creator_id again.channel_id target e x.cooldown_seconds later
          s'.local_cooldowns here h p in
      rw (execute-builtin target x again later s' asks_again)
        (ground (arith, blocked), ground (arith, blocked))

  -- The cooldown of a command that `ctx` asks for is not over.
  abbrev pub IsCooling : CommandExecutionContext → String → ChatCommand → ℕ → Engine → Type 0
  IsCooling ctx target x now s =
      (1 ≤ x.cooldown_seconds)
      × (now < or_zero (s.local_cooldowns ctx.creator_id ctx.channel_id target))

  -- A built-in command that wants a higher role than the author has, in the order viewer,
  -- moderator, creator, developer, is refused and changes nothing. With any other role of the
  -- author, it is refused as long as the author's cooldown for it is not over, where at most
  -- the engine's cooldowns change, and otherwise its handler decides the success, the error and
  -- the new state of all but the engine's cooldowns.
  pub execute_command_denied :
      (target : String) (x : ChatCommand) (ctx : CommandExecutionContext) (now : ℕ) (s : Engine)
      → AsksFor ctx target x
      → let (result, s') = execute ctx now s in
        let (answer, world') = run_builtin target ctx s.world in
        (IsBelow ctx.author_role x.min_role
          × (result.success ≡ false)
          × (result.error_message ≡ some "PERMISSION_DENIED")
          × (s' ≡ s))
        ⊎ ((¬ IsBelow ctx.author_role x.min_role)
            × ((IsCooling ctx target x now s
                  × (result.success ≡ false)
                  × (result.error_message ≡ some "COOLDOWN_ACTIVE")
                  × (s'.world ≡ s.world))
                ⊎ ((¬ IsCooling ctx target x now s)
                    × (result.success ≡ answer.success)
                    × (result.error_message ≡ answer.error_message)
                    × (s'.world ≡ world'))))
  unfolding execute_builtin finalize_result
  execute_command_denied target x ctx now s asks =
      rw (execute-builtin target x ctx now s asks)
        (elim (is_at_least-cases ctx.author_role x.min_role) [
          | inl (below, low) ↦
              inl (below, ground (arith, low), ground (arith, low), ground (arith, low))
          | inr (above, high) ↦
              let cooldown =
                check_cooldown-cases ctx.creator_id ctx.channel_id target x.cooldown_seconds now
                  s.local_cooldowns in
              inr (
                above,
                elim cooldown [
                  | inl (cooling, shut) ↦
                      inl
                        (cooling, rw (high, shut) refl, rw (high, shut) refl, rw (high, shut) refl)
                  | inr (over, free) ↦
                      inr (over, rw (high, free) refl, rw (high, free) refl, rw (high, free) refl)
                ],
              )
        ])
