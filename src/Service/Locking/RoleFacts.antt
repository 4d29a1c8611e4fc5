-- ===== src/Service/Locking/RoleFacts.antt =====
-- What holds once a request has passed the locks and guards on a shared role.
use fastapi_templates_xtn.Prelude.{
  ℕ, ◌≡◌, sym, ◌∙◌, Bool, true, false, List, [], ◌∷◌, some, ok, arith, nat_eq, string_eq, contains,
  union, contains-union,
}
use fastapi_templates_xtn.Domain.Keys.{PermissionKey, value}
use fastapi_templates_xtn.Domain.Snapshot.{RoleGrant, AuthorizationContext}
use fastapi_templates_xtn.Policy.{is_administrative_role_visible}
use fastapi_templates_xtn.Models.{Role, Db}
use fastapi_templates_xtn.Repository.{
  grant_of, role_of, lock_rbac_state, lock_roles, assigned_role_ids, require_current_actor,
  load_role_grant, lock_role_permissions,
}
use fastapi_templates_xtn.Repository.Grants.{load_permissions_of_role}
use fastapi_templates_xtn.Service.Locking.{
  LockedSharedRole, lock_shared_role_change, affected_user_ids,
}
use fastapi_templates_xtn.Service.Locking.Facts.{
  role_of-lock_roles, find_live_role, IsCurrent, require_current_actor-IsCurrent,
}

load_role_grant_lem :
    (db : Db) (role_id : ℕ) (r : Role) (g : RoleGrant)
    → find_live_role db role_id ≡ some r
    → load_role_grant db role_id true false ≡ ok g
    → g ≡ grant_of r (load_permissions_of_role db role_id)
unfolding load_role_grant find_live_role
load_role_grant_lem db role_id r g found h = ground arith

-- What `_lock_shared_role_change` has read and tested.
pub record IsLockedRole (context : AuthorizationContext) (role_id : ℕ) (required : PermissionKey)
    (db : Db) (locked : LockedSharedRole) : Type 0 where
  pub state : db.state ≡ some locked.state
  pub row : find_live_role db role_id ≡ some locked.role
  pub actor : IsCurrent context db locked.actor
  pub permitted : contains locked.actor.permissions (value required) ≡ true
  pub visible : is_administrative_role_visible locked.actor locked.role_before ≡ true
  pub grant : locked.role_before ≡ grant_of locked.role (load_permissions_of_role db role_id)
  pub affected : locked.affected_ids ≡ affected_user_ids db role_id
  pub rows : locked.permission_rows ≡ lock_role_permissions db role_id

module _ (context : AuthorizationContext) (role_id : ℕ) (required : PermissionKey) (inactive : Bool)
    (db : Db) (locked : LockedSharedRole)
    (h : lock_shared_role_change context role_id required inactive db ≡ ok locked) where
  role_state : db.state ≡ some locked.state
  unfolding lock_shared_role_change lock_rbac_state
  role_state = ground arith

  role_row :
      (ids : List ℕ) × (role_of (lock_roles db (union ids (role_id ∷ []))) role_id
        ≡ some locked.role)
  unfolding lock_shared_role_change
  role_row = (
    assigned_role_ids db (union (affected_user_ids db role_id) (context.principal.user_id ∷ [])),
    ground arith,
  )

  role_actor :
      require_current_actor db context.principal.user_id context.principal.token_version
      ≡ ok locked.actor
  unfolding lock_shared_role_change
  role_actor = ground arith

  role_permitted : contains locked.actor.permissions (value required) ≡ true
  unfolding lock_shared_role_change
  role_permitted = ground arith

  role_visible : is_administrative_role_visible locked.actor locked.role_before ≡ true
  unfolding lock_shared_role_change
  role_visible = ground arith

  role_grant : load_role_grant db role_id true false ≡ ok locked.role_before
  unfolding lock_shared_role_change
  role_grant = ground arith

  role_affected : locked.affected_ids ≡ affected_user_ids db role_id
  unfolding lock_shared_role_change
  role_affected = ground arith

  role_rows : locked.permission_rows ≡ lock_role_permissions db role_id
  unfolding lock_shared_role_change
  role_rows = ground arith

  found_role : find_live_role db role_id ≡ some locked.role
  found_role = sym (role_of-lock_roles db _ role_id (listed role_id role_row.0)) ∙ role_row.1
    where
      listed : (r : ℕ) (ids : List ℕ) → contains (union ids (r ∷ [])) r ≡ true
      listed r ids = rw (contains-union ids (r ∷ []) r) (unfold contains in ground arith)

  pub lock_shared_role_change-IsLockedRole : IsLockedRole context role_id required db locked
  lock_shared_role_change-IsLockedRole = record {
    state = role_state;
    row = found_role;
    actor = require_current_actor-IsCurrent context db locked.actor role_actor;
    permitted = role_permitted;
    visible = role_visible;
    grant = load_role_grant_lem db role_id locked.role locked.role_before found_role role_grant;
    affected = role_affected;
    rows = role_rows;
  }
