-- ===== src/Domain/Keys.antt =====
-- core/security/domain.py: the permission keys, the allowlists of the built-in roles, and the shape of
-- the three system roles.
use fastapi_templates_xtn.Prelude.{ℕ, String, Bool, true, false, List, [], ◌∷◌}

pub data PermissionKey : Type 0 where
  permissions_read roles_read roles_create roles_update roles_status_update roles_delete
        roles_assign roles_revoke roles_permissions_bind roles_permissions_unbind users_read
        users_create users_status_update users_password_reset users_sessions_revoke
        registration_configure projects_read projects_update :
      PermissionKey

-- `PermissionKey.X.value`
abbrev pub value : PermissionKey → String
value permissions_read = "permissions:read"
value roles_read = "roles:read"
value roles_create = "roles:create"
value roles_update = "roles:update"
value roles_status_update = "roles:status:update"
value roles_delete = "roles:delete"
value roles_assign = "roles:assign"
value roles_revoke = "roles:revoke"
value roles_permissions_bind = "roles:permissions:bind"
value roles_permissions_unbind = "roles:permissions:unbind"
value users_read = "users:read"
value users_create = "users:create"
value users_status_update = "users:status:update"
value users_password_reset = "users:password:reset"
value users_sessions_revoke = "users:sessions:revoke"
value registration_configure = "registration:configure"
value projects_read = "projects:read"
value projects_update = "projects:update"

abbrev pub super_admin_permission_keys : List String
super_admin_permission_keys =
    value permissions_read
    ∷ value roles_read
    ∷ value roles_create
    ∷ value roles_update
    ∷ value roles_status_update
    ∷ value roles_delete
    ∷ value roles_assign
    ∷ value roles_revoke
    ∷ value roles_permissions_bind
    ∷ value roles_permissions_unbind
    ∷ value users_read
    ∷ value users_create
    ∷ value users_status_update
    ∷ value users_password_reset
    ∷ value users_sessions_revoke
    ∷ value registration_configure
    ∷ value projects_read
    ∷ value projects_update
    ∷ []

abbrev pub admin_permission_keys : List String
admin_permission_keys =
    value permissions_read
    ∷ value roles_read
    ∷ value roles_create
    ∷ value roles_update
    ∷ value roles_status_update
    ∷ value roles_assign
    ∷ value roles_revoke
    ∷ value roles_permissions_bind
    ∷ value roles_permissions_unbind
    ∷ value users_read
    ∷ value users_create
    ∷ value users_status_update
    ∷ value users_password_reset
    ∷ value users_sessions_revoke
    ∷ value projects_read
    ∷ value projects_update
    ∷ []

abbrev pub user_permission_keys : List String
user_permission_keys = []

pub data SystemRoleKey : Type 0 where
  super_admin admin user : SystemRoleKey

-- `SystemRoleKey.X.value`
abbrev pub role_key : SystemRoleKey → String
role_key super_admin = "super_admin"
role_key admin = "admin"
role_key user = "user"

pub record SystemRoleSpec : Type 0 where
  pub key : SystemRoleKey
  pub name : String
  pub description : String
  pub management_tier : ℕ
  pub is_protected : Bool
  pub is_super_admin : Bool
  pub permissions : List String

abbrev pub system_role_specs : SystemRoleKey → SystemRoleSpec
system_role_specs super_admin = record {
  key = super_admin;
  name = "Super administrator";
  description = "Sole protected administrator for the application";
  management_tier = 1000;
  is_protected = true;
  is_super_admin = true;
  permissions = super_admin_permission_keys;
}
system_role_specs admin = record {
  key = admin;
  name = "Administrator";
  description = "Built-in administrator for strictly lower authority";
  management_tier = 500;
  is_protected = false;
  is_super_admin = false;
  permissions = admin_permission_keys;
}
system_role_specs user = record {
  key = user;
  name = "User";
  description = "Mandatory lowest-authority role for every user";
  management_tier = 0;
  is_protected = false;
  is_super_admin = false;
  permissions = user_permission_keys;
}

abbrev pub reserved_role_keys : List String
reserved_role_keys = role_key super_admin ∷ role_key admin ∷ role_key user ∷ []

abbrev pub max_roles_per_user : ℕ
max_roles_per_user = 10
