-- ===== src/Accounts/Provisioning.antt =====
-- services/provisioning.py and core/security/identity.py: a new user with the base role.
use fastapi_templates_xtn.Prelude.{
  ℕ, String, Bool, true, false, not, ◌||◌, List, [], ◌∷◌, ◌++◌, Option, none, some, ok, err, ◌>>=◌,
  ◌>>◌, raise_if, or_raise, require, ◌==◌, nat_eq, string_eq, is_none, contains, any, first,
}
use fastapi_templates_xtn.Errors.{Outcome, not_found, conflict, value_error, key_error}
use fastapi_templates_xtn.Audit.{
  field, end, text, int, sanitize_audit_state, validate_audit_action, validate_audit_reason,
  validate_audit_request_id,
}
use fastapi_templates_xtn.Domain.Keys.{role_key, system_role_specs}
use fastapi_templates_xtn.Domain.Keys
use fastapi_templates_xtn.Domain.Snapshot.{AuditSource}
use fastapi_templates_xtn.Domain.Snapshot
use fastapi_templates_xtn.Models.{User, Role, UserRole, RbacState, RbacAuditEvent, Decision, Db}
use fastapi_templates_xtn.Repository.{lock_rbac_state, lock_users, lock_roles, user_of, role_of}
use fastapi_templates_xtn.Service.Base.{bump_epoch}
use fastapi_templates_xtn.Service.Users.{xor}
use fastapi_templates_xtn.Accounts.{
  Platform, Accounts, Attempt, lift, raised, runtime_error, integrity_error,
}

abbrev pub reserved_user_names : List String
reserved_user_names =
    "admin" ∷ "administrator" ∷ "root" ∷ "superadmin" ∷ "super_admin" ∷ "sysadmin" ∷ "system"
    ∷ "support" ∷ "user" ∷ "test" ∷ "guest" ∷ "ceshi" ∷ []

abbrev pub user_name_re : String
user_name_re = "[A-Za-z0-9_]{3,32}"

-- What a flush raises where the database refuses the rows: the name of the constraint, if it has one.
pub record Violation : Type 0 where
  pub constraint_name : Option String

-- The arguments that a caller gives or that a call draws: the id, the flush's error and the request's id.
pub record NewUser : Type 0 where
  pub user_name : String
  pub user_id : ℕ
  pub assigned_by_user_id : Option ℕ
  pub request_id : String
  pub violation : Option Violation

abbrev pub provisioned_row : ℕ → String → User
provisioned_row id user_name = record {
  id = id;
  user_name = user_name;
  password_hash = none;
  must_change_password = false;
  password_changed_at = none;
  is_active = true;
  is_protected = false;
  token_version = 0;
  authz_version = 1;
  deleted_at = none;
  deleted_by_user_id = none;
}

abbrev pub base_assignment : NewUser → ℕ → UserRole
base_assignment new role_id = record {
  user_id = new.user_id;
  role_id = role_id;
  assigned_by_user_id = new.assigned_by_user_id;
  deleted_at = none;
  deleted_by_user_id = none;
}

-- `assigned_by_user_id or user.id`
abbrev actor_or : Option ℕ → ℕ → ℕ
actor_or none user_id = user_id
actor_or (some actor_id) user_id = actor_id

unfoldable pub flush : Option Violation → Attempt (Unit {0})
flush none = ok tt
flush (some v) = err (integrity_error v.constraint_name)

-- The role is not what the migration has made it.
unfoldable pub breaks_contract : Role → Bool
breaks_contract user_role =
    let spec = system_role_specs Keys.user in
    not user_role.is_system
    || xor user_role.is_protected spec.is_protected
    || user_role.is_super_admin
    || not user_role.is_active
    || not (user_role.management_tier == spec.management_tier)
    || not (is_none user_role.deleted_at)

unfoldable pub require_provisioning_actor : Db → Option ℕ → Outcome (Unit {0})
unfolding lock_users
require_provisioning_actor db none = ok tt
require_provisioning_actor db (some actor_id) =
    raise_if (is_none (user_of (lock_users db (actor_id ∷ [])) actor_id))
      (not_found "provisioning_actor_not_found")

-- `select(User.id).where(or_(User.id == new_user_id, User.user_name == normalized_user_name))`
unfoldable pub identity_exists : Db → ℕ → String → Bool
identity_exists db user_id user_name =
    any (λ u. (u.id == user_id) || (u.user_name == user_name)) db.users

-- The rows that the operation adds.
unfoldable pub provisioned : RbacState → NewUser → String → ℕ → RbacAuditEvent → Db → Db
unfolding bump_epoch
provisioned state new user_name role_id event db = bump_epoch state (record db {
  users = db.users ++ provisioned_row new.user_id user_name ∷ [];
  user_roles = db.user_roles ++ base_assignment new role_id ∷ [];
  audit_events = db.audit_events ++ event ∷ [];
})

module _ (platform : Platform) where
  open platform use {python, unicode, strip}

  unfoldable pub normalize_identity : String → Outcome String
  normalize_identity value = do
    require (python.fullmatch user_name_re (strip value))
        (value_error "user_name must be 3-32 ASCII letters, digits, or underscores")
    raise_if (contains reserved_user_names (unicode.casefold (strip value)))
        (value_error "reserved_user_name")
    ok (strip value)

  -- The `RbacAuditEvent(...)` of the provisioning, with the validators of its columns.
  unfoldable pub provision_event : NewUser → ℕ → Outcome RbacAuditEvent
  provision_event new role_id = do
    action ← validate_audit_action python "user.provision"
    reason ← validate_audit_reason python "default_user_role_assigned"
    after ← sanitize_audit_state python (
        some (
          field "user_id" (text (python.str_uuid new.user_id)) (
            field "default_role_id" (text (python.str_uuid role_id))
              (field "authz_version" (int 1) end))))
    request_id ← validate_audit_request_id python new.request_id
    ok (record {
      actor_user_id = actor_or new.assigned_by_user_id new.user_id;
      target_user_id = some new.user_id;
      target_role_id = some role_id;
      action = action;
      decision = Decision.allowed;
      reason_code = reason;
      source = Snapshot.service;
      before_state = none;
      after_state = after;
      request_id = request_id;
    })

  unfoldable pub create_user_with_default_role : NewUser → Accounts → Attempt (User × Accounts)
  unfolding normalize_identity require_provisioning_actor identity_exists flush breaks_contract
      provision_event provisioned lock_rbac_state lock_roles
  create_user_with_default_role new a = do
    user_name ← lift (normalize_identity new.user_name)
    state ← lift (lock_rbac_state a.db)
    lift (require_provisioning_actor a.db new.assigned_by_user_id)
    raise_if (identity_exists a.db new.user_id user_name) (raised (conflict "user_identity_exists"))
    flush new.violation
    found ←
        or_raise (first (λ r. r.key == role_key Keys.user) a.db.roles)
          (raised (not_found "default_user_role_missing"))
    user_role ←
        or_raise (role_of (lock_roles a.db (found.id ∷ [])) found.id) (raised (key_error found.id))
    raise_if (breaks_contract user_role)
        (runtime_error "default user role does not match the migrated contract")
    event ← lift (provision_event new user_role.id)
    ok (
      provisioned_row new.user_id user_name,
      record a { db = provisioned state new user_name user_role.id event a.db },
    )
