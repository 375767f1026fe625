-- ===== src/Commands.antt =====
-- app/core/rbac.py, app/commands and app/db/repositories/command_repo.py.
pub mod Roles
pub mod Table
pub mod Engine
pub mod Cooldowns
mod Tests
