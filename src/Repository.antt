-- ===== src/Repository.antt =====
-- repositories/access.py: the queries on the access tables, over the rows of the tables. A `dict` of
-- rows keyed by id is the list of the rows. Row locks serialise the writers, so an operation runs on the
-- database alone and a lock is the query without it.
pub mod Grants
pub mod Visible
use fastapi_templates_xtn.Prelude.{
  ℕ, String, Bool, true, false, not, ◌&&◌, ◌||◌, List, [], ◌∷◌, map, Option, none, some, ok, err,
  ◌>>=◌, ◌>>◌, or_raise, raise_if, ◌==◌, nat_eq, string_eq, is_none, keep_if, first, contains,
  to_set, length, sorted_ids,
}
use fastapi_templates_xtn.Errors.{Outcome, not_found, unauthenticated, unavailable}
use fastapi_templates_xtn.Domain.Keys.{role_key}
use fastapi_templates_xtn.Domain.Keys
use fastapi_templates_xtn.Domain.Snapshot.{RoleGrant, AuthoritySnapshot}
use fastapi_templates_xtn.Models.{User, RbacState, Permission, Role, RolePermission, UserRole, Db}
use Grants.{load_authority_snapshot_of, load_permissions_of_role}

-- A row that has not been deleted: `deleted_at IS NULL`.
abbrev pub is_live_user : User → Bool
is_live_user u = is_none u.deleted_at

-- `users.get(user_id)` on the rows of `lock_users`
abbrev pub user_of : List User → ℕ → Option User
user_of users user_id = first (λ u. u.id == user_id) users

abbrev pub role_of : List Role → ℕ → Option Role
role_of roles role_id = first (λ r. r.id == role_id) roles

unfoldable pub lock_rbac_state : Db → Outcome RbacState
lock_rbac_state db = or_raise db.state (unavailable "rbac_state_missing")

unfoldable pub lock_users : Db → List ℕ → List User
lock_users db user_ids = keep_if (λ u. contains user_ids u.id && is_none u.deleted_at) db.users

unfoldable pub lock_roles : Db → List ℕ → List Role
lock_roles db role_ids = keep_if (λ r. contains role_ids r.id && is_none r.deleted_at) db.roles

-- `select(UserRole.role_id).where(UserRole.user_id.in_(...), UserRole.deleted_at.is_(None))`
unfoldable pub assigned_role_ids : Db → List ℕ → List ℕ
assigned_role_ids db user_ids = to_set (
    map (λ a. a.role_id)
      (keep_if (λ a. contains user_ids a.user_id && is_none a.deleted_at) db.user_roles))

unfoldable pub count_live_user_roles : Db → ℕ → ℕ
count_live_user_roles db user_id =
    length (keep_if (λ a. (a.user_id == user_id) && is_none a.deleted_at) db.user_roles)

-- `select(User).where(User.id == user_id, User.deleted_at.is_(None))`
unfoldable pub find_live_user : Db → ℕ → Option User
find_live_user db user_id = first (λ u. (u.id == user_id) && is_none u.deleted_at) db.users

unfoldable pub load_authority_snapshot : Db → ℕ → Bool → Outcome AuthoritySnapshot
unfolding find_live_user
load_authority_snapshot db user_id include_disabled_roles = do
  user ← or_raise (find_live_user db user_id) (not_found "user_not_found")
  ok (load_authority_snapshot_of db include_disabled_roles user)

unfoldable pub require_current_actor : Db → ℕ → ℕ → Outcome AuthoritySnapshot
unfolding find_live_user load_authority_snapshot
require_current_actor db actor_user_id token_version = do
  user ← or_raise (find_live_user db actor_user_id) (unauthenticated "actor_no_longer_active")
  raise_if (not user.is_active || not (user.token_version == token_version))
      (unauthenticated "actor_no_longer_active")
  load_authority_snapshot db actor_user_id false

abbrev pub grant_of : Role → List String → RoleGrant
grant_of role permissions = record {
  role_id = role.id;
  key = role.key;
  management_tier = role.management_tier;
  permissions = permissions;
  is_system = role.is_system;
  is_protected = role.is_protected;
  is_super_admin = role.is_super_admin;
}

-- `load_role_grant` with its two flags
unfoldable pub load_role_grant : Db → ℕ → Bool → Bool → Outcome RoleGrant
load_role_grant db role_id include_disabled include_deleted = do
  role ←
      or_raise
        (first (λ r. (r.id == role_id) && (include_deleted || is_none r.deleted_at)) db.roles)
        (not_found "role_not_found")
  raise_if (not include_disabled && not role.is_active) (not_found "role_not_found")
  ok (grant_of role (load_permissions_of_role db role_id))

-- `[load_role_grants_for_roles(...)[role.id] for role in roles]`
unfoldable pub load_role_grants_for_roles : Db → List Role → List RoleGrant
load_role_grants_for_roles db roles =
    map (λ role. grant_of role (load_permissions_of_role db role.id)) roles

-- The live rows of the role, each with the key of its live permission.
unfoldable pub lock_role_permissions : Db → ℕ → List String
lock_role_permissions db role_id = load_permissions_of_role db role_id

-- The rows of `load_permission_keys`: the ids that are known, with their keys.
unfoldable pub load_permission_keys : Db → List ℕ → List Permission
load_permission_keys db permission_ids =
    keep_if (λ p. contains permission_ids p.id && is_none p.deleted_at) db.permissions

-- `load_live_super_admin_holder_ids`
unfoldable pub load_live_super_admin_holder_ids : Db → List ℕ
load_live_super_admin_holder_ids db = to_set (
    map (λ a. a.user_id)
      (keep_if
        (λ a.
          is_none a.deleted_at
          && not (
              is_none (
                first
                  (λ r.
                    (r.id == a.role_id)
                    && is_none r.deleted_at
                    && (r.key == role_key Keys.super_admin))
                  db.roles)))
        db.user_roles))
