-- ===== src/Service/Locking.antt =====
-- services/access.py: the reads and guards before a change of a user, `_lock_actor_and_target_user`, and
-- before a change of a shared role, `_lock_shared_role_change`.
pub mod Facts
pub mod RoleFacts
use fastapi_templates_xtn.Prelude.{
  ℕ, ◌+◌, String, Bool, true, false, not, ◌&&◌, ◌||◌, List, [], ◌∷◌, map, Option, none, some, ok,
  err, ◌>>=◌, ◌>>◌, raise_if, require, or_raise, ◌==◌, nat_eq, string_eq, is_none, keep_if, first,
  contains, union, to_set, update_if, sorted_ids,
}
use fastapi_templates_xtn.Errors.{Outcome, Error, forbidden, not_found, key_error}
use fastapi_templates_xtn.Domain.Keys.{PermissionKey, value}
use fastapi_templates_xtn.Domain.Snapshot.{RoleGrant, AuthoritySnapshot, AuthorizationContext}
use fastapi_templates_xtn.Policy.{
  RoleAdministrationOperation, decide_role_administration, is_administrative_user_visible,
  is_administrative_role_visible,
}
use fastapi_templates_xtn.Models.{User, RbacState, Role, Db}
use fastapi_templates_xtn.Repository.{
  user_of, role_of, lock_rbac_state, lock_users, lock_roles, assigned_role_ids, find_live_user,
  load_authority_snapshot, require_current_actor, load_role_grant, lock_role_permissions,
}
use fastapi_templates_xtn.Repository.Grants.{load_authority_snapshots_for_users}
use fastapi_templates_xtn.Service.Base.{
  require_current_locked_actor_row, require_allowed, bump_epoch, write_role,
}

pub record LockedTarget : Type 0 where
  pub actor : AuthoritySnapshot
  pub target : AuthoritySnapshot
  pub target_row : User
  pub state : RbacState
  pub locked_roles : List Role

unfoldable pub lock_actor_and_target_user :
    AuthorizationContext → ℕ → PermissionKey → List ℕ → Db → Outcome LockedTarget
lock_actor_and_target_user context target_user_id required_permission additional_role_ids db = do
  state ← lock_rbac_state db
  let actor_user_id = context.principal.user_id
  let user_ids = actor_user_id ∷ target_user_id ∷ []
  let users = lock_users db user_ids
  actor_row ← require_current_locked_actor_row (user_of users actor_user_id) context
  actor ← require_current_actor db actor_user_id context.principal.token_version
  require (contains actor.permissions (value required_permission))
      (forbidden "missing_operation_permission")
  target_row ← or_raise (user_of users target_user_id) (not_found "target_user_not_found")
  let locked_roles = lock_roles db (union (assigned_role_ids db user_ids) additional_role_ids)
  actor ← require_current_actor db actor_user_id context.principal.token_version
  visible_target ← load_authority_snapshot db target_user_id false
  require (is_administrative_user_visible actor visible_target) (not_found "target_user_not_found")
  target ← load_authority_snapshot db target_user_id true
  ok (record {
    actor = actor;
    target = target;
    target_row = target_row;
    state = state;
    locked_roles = locked_roles;
  })

pub record LockedSharedRole : Type 0 where
  pub actor : AuthoritySnapshot
  pub role : Role
  pub role_before : RoleGrant
  pub affected_before : List AuthoritySnapshot
  pub affected_ids : List ℕ
  pub state : RbacState
  pub users : List User
  pub permission_rows : List String

-- The live users with a live assignment of the role.
unfoldable pub affected_user_ids : Db → ℕ → List ℕ
affected_user_ids db role_id = to_set (
    map (λ a. a.user_id)
      (keep_if
        (λ a.
          (a.role_id == role_id)
          && is_none a.deleted_at
          && not (is_none (find_live_user db a.user_id)))
        db.user_roles))

-- `users[user_id] for user_id in ids`
unfoldable pub users_of : List User → List ℕ → Outcome (List User)
users_of users [] = ok []
users_of users (user_id ∷ ids) = do
  user ← or_raise (user_of users user_id) (key_error user_id)
  rest ← users_of users ids
  ok (user ∷ rest)

unfoldable pub lock_shared_role_change :
    AuthorizationContext → ℕ → PermissionKey → Bool → Db → Outcome LockedSharedRole
lock_shared_role_change context role_id required_permission include_inactive db = do
  state ← lock_rbac_state db
  let actor_id = context.principal.user_id
  let affected_ids = affected_user_ids db role_id
  let user_ids = union affected_ids (actor_id ∷ [])
  let users = lock_users db user_ids
  actor_row ← require_current_locked_actor_row (user_of users actor_id) context
  let locked_roles = lock_roles db (union (assigned_role_ids db user_ids) (role_id ∷ []))
  actor ← require_current_actor db actor_id context.principal.token_version
  require (contains actor.permissions (value required_permission))
      (forbidden "missing_operation_permission")
  role ← or_raise (role_of locked_roles role_id) (not_found "role_not_found")
  raise_if (not (is_none role.deleted_at) || (not include_inactive && not role.is_active))
      (not_found "role_not_found")
  let permission_rows = lock_role_permissions db role_id
  role_before ← load_role_grant db role_id true false
  require (is_administrative_role_visible actor role_before) (not_found "role_not_found")
  affected_users ← users_of users (sorted_ids affected_ids)
  ok (record {
    actor = actor;
    role = role;
    role_before = role_before;
    affected_before = load_authority_snapshots_for_users db true affected_users;
    affected_ids = affected_ids;
    state = state;
    users = users;
    permission_rows = permission_rows;
  })

unfoldable pub require_role_administration :
    LockedSharedRole → RoleAdministrationOperation → Outcome (Unit {0})
require_role_administration locked operation = require_allowed (
    decide_role_administration operation locked.actor locked.role_before
      (contains locked.affected_ids locked.actor.user_id) locked.affected_before)

-- `_bump_shared_authority`, and the row of the role as the operation has changed it
unfoldable pub bump_shared_authority : LockedSharedRole → Role → Db → Db
unfolding write_role bump_epoch
bump_shared_authority locked role db =
    let bumped = record db {
      users =
          update_if (λ u. contains locked.affected_ids u.id && is_none u.deleted_at)
            (λ u. record u { authz_version = u.authz_version + 1 }) db.users;
    } in
    bump_epoch locked.state (write_role (record role { version = role.version + 1 }) bumped)
