-- ===== src/Service/Base.antt =====
-- services/access.py: the result of a mutation, the checks that operations share, and the writes of one
-- row. The session writes the attributes of a row by its id.
use fastapi_templates_xtn.Prelude.{
  ℕ, ◌+◌, String, Bool, not, ◌&&◌, ◌||◌, Option, some, ok, ◌>>=◌, ◌>>◌, raise_if, require, or_raise,
  ◌==◌, nat_eq, is_none, update_if,
}
use fastapi_templates_xtn.Errors.{Outcome, unauthenticated, stale_resource_version, forbidden}
use fastapi_templates_xtn.Audit.{Fields}
use fastapi_templates_xtn.Domain.Snapshot.{AuthorizationContext}
use fastapi_templates_xtn.Policy.{PolicyDecision}
use fastapi_templates_xtn.Models.{User, RbacState, Role, UserRole, RolePermission, Db}

pub record MutationOutcome (T : Type 0) : Type 0 where
  pub value : T
  pub reason_code : String
  pub before_state : Option Fields
  pub after_state : Option Fields
  pub audit_target_role_id : Option ℕ

-- The body of a transaction: an exception leaves no database behind.
abbrev pub Operation : Type 0 → Type 0
Operation T = Db → Outcome (MutationOutcome T × Db)

unfoldable pub require_current_locked_actor_row : Option User → AuthorizationContext → Outcome User
require_current_locked_actor_row actor_user context = do
  user ← or_raise actor_user (unauthenticated "actor_missing")
  raise_if (not user.is_active || not (user.token_version == context.principal.token_version))
      (unauthenticated "actor_no_longer_active")
  ok user

unfoldable pub require_expected_role_version : Role → ℕ → Outcome (Unit {0})
require_expected_role_version role expected_version =
    require (role.version == expected_version) (stale_resource_version "stale_role_version")

-- `if not decision.allowed: raise forbidden(decision.reason_code)`
abbrev pub require_allowed : PolicyDecision → Outcome (Unit {0})
require_allowed decision = require decision.allowed (forbidden decision.reason_code)

unfoldable pub write_user : User → Db → Db
write_user row db = record db { users = update_if (λ u. u.id == row.id) (λ _. row) db.users }

unfoldable pub write_role : Role → Db → Db
write_role row db = record db { roles = update_if (λ r. r.id == row.id) (λ _. row) db.roles }

-- `state.epoch += 1`
unfoldable pub bump_epoch : RbacState → Db → Db
bump_epoch state db = record db { state = some (record state { epoch = state.epoch + 1 }) }

abbrev pub delete_assignment : ℕ → ℕ → UserRole → UserRole
delete_assignment now actor_id a = record a {
  deleted_at = some now;
  deleted_by_user_id = some actor_id;
}

-- `update(UserRole).where(..., deleted_at IS NULL).values(deleted_at, deleted_by_user_id)`
unfoldable pub delete_user_roles : (UserRole → Bool) → ℕ → ℕ → Db → Db
delete_user_roles where_ now actor_id db = record db {
  user_roles =
      update_if (λ a. where_ a && is_none a.deleted_at) (delete_assignment now actor_id)
        db.user_roles;
}

abbrev pub delete_grant : ℕ → ℕ → RolePermission → RolePermission
delete_grant now actor_id g = record g { deleted_at = some now; deleted_by_user_id = some actor_id }

-- `update(RolePermission).where(..., deleted_at IS NULL).values(deleted_at, deleted_by_user_id)`
unfoldable pub delete_role_permissions : (RolePermission → Bool) → ℕ → ℕ → Db → Db
delete_role_permissions where_ now actor_id db = record db {
  role_permissions =
      update_if (λ g. where_ g && is_none g.deleted_at) (delete_grant now actor_id)
        db.role_permissions;
}
