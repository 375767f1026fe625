-- ===== src/Commands/Roles.antt =====
-- Roles and permissions: app/core/rbac.py, and the order of the roles in
-- `ProductionCommandEngine` (app/commands/engine.py).
use ai_modrator.Common.{
  ℕ, ◌≤◌, String, ◌≡◌, refl, Bool, true, false, ◌||◌, Option, none, some, List, [], ◌∷◌, str_eq,
  leb, ◌==◌, arith,
}

pub data Role : Type 0 where
  developer creator moderator viewer : Role

pub data Permission : Type 0 where
  system_admin system_health_view key_pool_manage : Permission
  creator_create creator_read creator_update creator_delete : Permission
  stream_start stream_stop stream_read stream_restart : Permission
  moderation_execute moderation_config moderation_audit_view : Permission
  command_execute command_custom_manage : Permission

-- The place of a permission in the enumeration, by which two are compared.
abbrev pub place_of : Permission → ℕ
place_of system_admin = 0
place_of system_health_view = 1
place_of key_pool_manage = 2
place_of creator_create = 3
place_of creator_read = 4
place_of creator_update = 5
place_of creator_delete = 6
place_of stream_start = 7
place_of stream_stop = 8
place_of stream_read = 9
place_of stream_restart = 10
place_of moderation_execute = 11
place_of moderation_config = 12
place_of moderation_audit_view = 13
place_of command_execute = 14
place_of command_custom_manage = 15

abbrev pub same_permission : Permission → Permission → Bool
same_permission p q = place_of p == place_of q

-- `ROLE_PERMISSIONS`.
unfoldable pub role_permissions : Role → List Permission
role_permissions developer =
    system_admin ∷ system_health_view ∷ key_pool_manage ∷ creator_create ∷ creator_read
    ∷ creator_update ∷ creator_delete ∷ stream_start ∷ stream_stop ∷ stream_read ∷ stream_restart
    ∷ moderation_execute ∷ moderation_config ∷ moderation_audit_view ∷ command_execute
    ∷ command_custom_manage ∷ []
role_permissions creator =
    system_health_view ∷ creator_read ∷ creator_update ∷ stream_start ∷ stream_stop ∷ stream_read
    ∷ stream_restart ∷ moderation_config ∷ moderation_audit_view ∷ command_execute
    ∷ command_custom_manage ∷ []
role_permissions moderator =
    stream_read ∷ moderation_execute ∷ moderation_audit_view ∷ command_execute ∷ []
role_permissions viewer = command_execute ∷ []

unfoldable pub has : Permission → List Permission → Bool
has p [] = false
has p (q ∷ qs) = same_permission p q || has p qs

pub record UserContext : Type 0 where
  pub user_id : String
  pub role : Role
  pub creator_id : Option String

unfoldable pub has_permission : Permission → UserContext → Bool
has_permission p u = has p (role_permissions u.role)

abbrev pub is_creator : String → Option String → Bool
is_creator target none = false
is_creator target (some c) = str_eq c target

unfoldable pub can_manage_creator : String → UserContext → Bool
can_manage_creator target u = elim u.role [
  | developer ↦ true
  | creator ↦ is_creator target u.creator_id
  | moderator ↦ false
  | viewer ↦ false
]

-- `ROLE_HIERARCHY`.
abbrev pub rank : Role → ℕ
rank viewer = 1
rank moderator = 2
rank creator = 3
rank developer = 4

-- `_has_permission` of the command engine.
unfoldable pub is_at_least : Role → Role → Bool
is_at_least user_role required_role = leb (rank required_role) (rank user_role)

has-developer : (p : Permission) → has p (role_permissions developer) ≡ true
unfolding has role_permissions
has-developer system_admin = refl
has-developer system_health_view = refl
has-developer key_pool_manage = refl
has-developer creator_create = refl
has-developer creator_read = refl
has-developer creator_update = refl
has-developer creator_delete = refl
has-developer stream_start = refl
has-developer stream_stop = refl
has-developer stream_read = refl
has-developer stream_restart = refl
has-developer moderation_execute = refl
has-developer moderation_config = refl
has-developer moderation_audit_view = refl
has-developer command_execute = refl
has-developer command_custom_manage = refl

has-role_order :
    (p : Permission) (r s : Role)
    → rank r ≤ rank s
    → same_permission p moderation_execute ≡ false
    → has p (role_permissions r) ≡ true
    → has p (role_permissions s) ≡ true
unfolding has role_permissions
has-role_order p r developer l other h = has-developer p
has-role_order p developer creator l other h = ground arith
has-role_order p creator creator l other h = h
has-role_order p moderator creator l other h = ground (arith, other, h)
has-role_order p viewer creator l other h = ground (arith, h)
has-role_order p developer moderator l other h = ground arith
has-role_order p creator moderator l other h = ground arith
has-role_order p moderator moderator l other h = h
has-role_order p viewer moderator l other h = ground (arith, h)
has-role_order p developer viewer l other h = ground arith
has-role_order p creator viewer l other h = ground arith
has-role_order p moderator viewer l other h = ground arith
has-role_order p viewer viewer l other h = h

-- Every permission but `moderation:execute` that a user's role grants is granted by every role
-- that ranks at least as high.
pub has_permission-role_order :
    (p : Permission) (u v : UserContext)
    → rank u.role ≤ rank v.role
    → same_permission p moderation_execute ≡ false
    → has_permission p u ≡ true
    → has_permission p v ≡ true
unfolding has_permission
has_permission-role_order p u v l other h = has-role_order p u.role v.role l other h
