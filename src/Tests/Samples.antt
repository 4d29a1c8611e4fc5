-- ===== src/Tests/Samples.antt =====
-- A small installation: a super administrator (1), an administrator (2), an editor (3) who holds a custom
-- role (14), and a plain user (4).
use fastapi_templates_xtn.Prelude.{ℕ, String, Bool, true, false, [], ◌∷◌, none, some}
use fastapi_templates_xtn.Audit.{Python}
use fastapi_templates_xtn.Domain.Keys.{value, role_key}
use fastapi_templates_xtn.Domain.Keys
use fastapi_templates_xtn.Domain.Snapshot.{AuthorizationContext, http, build}
use fastapi_templates_xtn.Models.{User, Permission, Role, RolePermission, UserRole, Db}
use fastapi_templates_xtn.Service.Roles.{new_role}
use fastapi_templates_xtn.Service.Payloads.{RoleCreateRequest}

-- Every text is safe, and every pattern matches.
abbrev pub sample_python : Python
sample_python = record {
  search = λ _ _. false;
  fullmatch = λ _ _. true;
  normalized = λ key. key;
  ends_with = λ _ _. false;
  dumped_length = λ _. 100;
  str_uuid = λ _. "00000000-0000-4000-8000-000000000000";
}

abbrev pub sample_user : ℕ → String → Bool → User
sample_user id name is_protected = record {
  id = id;
  user_name = name;
  password_hash = none;
  must_change_password = false;
  password_changed_at = none;
  is_active = true;
  is_protected = is_protected;
  token_version = 5;
  authz_version = 1;
  deleted_at = none;
  deleted_by_user_id = none;
}

abbrev pub sample_role : ℕ → String → ℕ → Bool → Bool → Role
sample_role id key tier is_system is_super_admin = record {
  id = id;
  key = key;
  name = key;
  description = "";
  management_tier = tier;
  is_active = true;
  is_protected = is_super_admin;
  is_system = is_system;
  is_super_admin = is_super_admin;
  version = 7;
  deleted_at = none;
  deleted_by_user_id = none;
}

abbrev pub editor : RoleCreateRequest
editor = record { key = "editor"; name = "Editor"; description = ""; management_tier = 10 }

abbrev pub reader : RoleCreateRequest
reader = record { key = "reader"; name = "Reader"; description = ""; management_tier = 5 }

abbrev pub sample_permission : ℕ → String → Permission
sample_permission id key = record {
  id = id;
  key = key;
  description = key;
  deleted_at = none;
  deleted_by_user_id = none;
}

abbrev pub assignment : ℕ → ℕ → UserRole
assignment user_id role_id = record {
  user_id = user_id;
  role_id = role_id;
  assigned_by_user_id = none;
  deleted_at = none;
  deleted_by_user_id = none;
}

abbrev pub grant : ℕ → ℕ → RolePermission
grant role_id permission_id = record {
  role_id = role_id;
  permission_id = permission_id;
  assigned_by_user_id = none;
  deleted_at = none;
  deleted_by_user_id = none;
}

abbrev pub sample_db : Db
sample_db = record {
  users =
      sample_user 1 "owner" true
      ∷ sample_user 2 "chief" false
      ∷ sample_user 3 "editor" false
      ∷ sample_user 4 "plain" false
      ∷ [];
  state = some (record { epoch = 20; public_registration_enabled = true });
  permissions =
      sample_permission 31 (value Keys.roles_assign)
      ∷ sample_permission 32 (value Keys.roles_revoke)
      ∷ sample_permission 33 (value Keys.users_status_update)
      ∷ sample_permission 34 (value Keys.users_sessions_revoke)
      ∷ sample_permission 35 (value Keys.roles_status_update)
      ∷ sample_permission 36 (value Keys.roles_permissions_bind)
      ∷ sample_permission 37 (value Keys.projects_read)
      ∷ sample_permission 38 (value Keys.projects_update)
      ∷ sample_permission 39 (value Keys.roles_create)
      ∷ sample_permission 40 (value Keys.roles_update)
      ∷ [];
  roles =
      sample_role 11 (role_key Keys.super_admin) 1000 true true
      ∷ sample_role 12 (role_key Keys.admin) 500 true false
      ∷ sample_role 13 (role_key Keys.user) 0 true false
      ∷ new_role 14 editor
      ∷ new_role 15 reader
      ∷ [];
  role_permissions =
      grant 12 31
      ∷ grant 12 32
      ∷ grant 12 33
      ∷ grant 12 34
      ∷ grant 12 35
      ∷ grant 12 36
      ∷ grant 12 37
      ∷ grant 12 38
      ∷ grant 12 39
      ∷ grant 12 40
      ∷ grant 11 31
      ∷ grant 14 37
      ∷ grant 15 37
      ∷ [];
  user_roles =
      assignment 1 11
      ∷ assignment 2 12
      ∷ assignment 2 13
      ∷ assignment 3 13
      ∷ assignment 3 14
      ∷ assignment 4 13
      ∷ [];
  audit_events = [];
}

-- The administrator's request.
abbrev pub chief : AuthorizationContext
chief = record {
  principal = record {
    user_id = 2;
    token_version = 5;
    token_id = 90;
    issued_at = 1000;
    expires_at = 2000;
  };
  authorization_epoch = 20;
  authority = build 2 true false 5 1 [];
  request_id = "request-1";
  audit_source = http;
}
