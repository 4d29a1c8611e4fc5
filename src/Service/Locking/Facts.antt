-- ===== src/Service/Locking/Facts.antt =====
-- What holds once a request has passed the locks and guards of services/access.py.
use fastapi_templates_xtn.Prelude.{
  ℕ, ◌≡◌, sym, ◌∙◌, Bool, true, false, ◌&&◌, List, [], ◌∷◌, Option, some, ok, arith, ◌==◌, nat_eq,
  string_eq, is_none, first, contains, nat_beq_iff, first-keep_if, first-ext, first_holds,
}
use fastapi_templates_xtn.Domain.Keys.{PermissionKey, value}
use fastapi_templates_xtn.Domain.Snapshot.{AuthoritySnapshot, AuthorizationContext}
use fastapi_templates_xtn.Policy.{is_administrative_user_visible}
use fastapi_templates_xtn.Models.{User, Role, Db}
use fastapi_templates_xtn.Repository.{
  user_of, role_of, lock_rbac_state, lock_users, lock_roles, find_live_user,
  load_authority_snapshot, require_current_actor,
}
use fastapi_templates_xtn.Repository.Grants.{load_authority_snapshot_of}
use fastapi_templates_xtn.Service.Locking.{LockedTarget, lock_actor_and_target_user}

-- The row of a locked user is the user's live row.
pub user_of-lock_users :
    (db : Db) (ids : List ℕ) (user_id : ℕ)
    → contains ids user_id ≡ true
    → user_of (lock_users db ids) user_id ≡ find_live_user db user_id
unfolding lock_users find_live_user
user_of-lock_users db ids user_id m =
    first-keep_if (λ u. u.id == user_id) (λ u. contains ids u.id && is_none u.deleted_at) db.users
    ∙ first-ext _ _ db.users (λ u. same u)
  where
    same :
        (u : User)
        → ((u.id == user_id) && (contains ids u.id && is_none u.deleted_at))
          ≡ ((u.id == user_id) && is_none u.deleted_at)
    same u = grind (arith, nat_beq_iff)

pub find_live_user_lem :
    (db : Db) (user_id : ℕ) (u : User)
    → find_live_user db user_id ≡ some u
    → (u.id ≡ user_id) × (is_none u.deleted_at ≡ true)
unfolding find_live_user
find_live_user_lem db user_id u h =
    let held = first_holds (λ u. (u.id == user_id) && is_none u.deleted_at) db.users u h in
    (ground arith, ground arith)

pub load_authority_snapshot_lem :
    (db : Db) (user_id : ℕ) (include : Bool) (u : User) (s : AuthoritySnapshot)
    → find_live_user db user_id ≡ some u
    → load_authority_snapshot db user_id include ≡ ok s
    → s ≡ load_authority_snapshot_of db include u
unfolding load_authority_snapshot
load_authority_snapshot_lem db user_id include u s found h = ground arith

-- `select(Role).where(Role.id == role_id, Role.deleted_at.is_(None))`
unfoldable pub find_live_role : Db → ℕ → Option Role
find_live_role db role_id = first (λ r. (r.id == role_id) && is_none r.deleted_at) db.roles

pub role_of-lock_roles :
    (db : Db) (ids : List ℕ) (role_id : ℕ)
    → contains ids role_id ≡ true
    → role_of (lock_roles db ids) role_id ≡ find_live_role db role_id
unfolding lock_roles find_live_role
role_of-lock_roles db ids role_id m =
    first-keep_if (λ r. r.id == role_id) (λ r. contains ids r.id && is_none r.deleted_at) db.roles
    ∙ first-ext _ _ db.roles (λ r. same r)
  where
    same :
        (r : Role)
        → ((r.id == role_id) && (contains ids r.id && is_none r.deleted_at))
          ≡ ((r.id == role_id) && is_none r.deleted_at)
    same r = grind (arith, nat_beq_iff)

pub find_live_role_lem :
    (db : Db) (role_id : ℕ) (r : Role)
    → find_live_role db role_id ≡ some r
    → (r.id ≡ role_id) × (is_none r.deleted_at ≡ true)
unfolding find_live_role
find_live_role_lem db role_id r h =
    let held = first_holds (λ r. (r.id == role_id) && is_none r.deleted_at) db.roles r h in
    (ground arith, ground arith)

-- The actor is a live, active user of the token's version, with the authority of its active roles.
pub record IsCurrent (context : AuthorizationContext) (db : Db) (actor : AuthoritySnapshot)
    : Type 0 where
  pub actor_row : User
  pub found : find_live_user db context.principal.user_id ≡ some actor_row
  pub active : actor_row.is_active ≡ true
  pub current : actor_row.token_version ≡ context.principal.token_version
  pub loaded : actor ≡ load_authority_snapshot_of db false actor_row

require_current_actor_row :
    (context : AuthorizationContext) (db : Db) (s : AuthoritySnapshot)
    → require_current_actor db context.principal.user_id context.principal.token_version ≡ ok s
    → (u : User) × (find_live_user db context.principal.user_id ≡ some u)
unfolding require_current_actor
require_current_actor_row context db s h = ground arith

pub require_current_actor-IsCurrent :
    (context : AuthorizationContext) (db : Db) (s : AuthoritySnapshot)
    → require_current_actor db context.principal.user_id context.principal.token_version ≡ ok s
    → IsCurrent context db s
unfolding require_current_actor
require_current_actor-IsCurrent context db s h =
    let (u, found) = require_current_actor_row context db s h in
    record {
      actor_row = u;
      found = found;
      active = ground arith;
      current = ground arith;
      loaded =
          load_authority_snapshot_lem db context.principal.user_id false u s found (ground arith);
    }

-- What `_lock_actor_and_target_user` has read and tested.
pub record IsLockedTarget (context : AuthorizationContext) (target_user_id : ℕ)
    (required : PermissionKey) (db : Db) (locked : LockedTarget) : Type 0 where
  pub state : db.state ≡ some locked.state
  pub row : find_live_user db target_user_id ≡ some locked.target_row
  pub actor : IsCurrent context db locked.actor
  pub permitted : contains locked.actor.permissions (value required) ≡ true
  pub visible :
      is_administrative_user_visible locked.actor
        (load_authority_snapshot_of db false locked.target_row)
      ≡ true
  pub target : locked.target ≡ load_authority_snapshot_of db true locked.target_row

module _ (context : AuthorizationContext) (target_user_id : ℕ) (required : PermissionKey)
    (additional : List ℕ) (db : Db) (locked : LockedTarget)
    (h : lock_actor_and_target_user context target_user_id required additional db ≡ ok locked) where
  locked_state : db.state ≡ some locked.state
  unfolding lock_actor_and_target_user lock_rbac_state
  locked_state = ground arith

  locked_row :
      user_of (lock_users db (context.principal.user_id ∷ target_user_id ∷ [])) target_user_id
      ≡ some locked.target_row
  unfolding lock_actor_and_target_user
  locked_row = ground arith

  locked_actor :
      require_current_actor db context.principal.user_id context.principal.token_version
      ≡ ok locked.actor
  unfolding lock_actor_and_target_user
  locked_actor = ground arith

  locked_permitted : contains locked.actor.permissions (value required) ≡ true
  unfolding lock_actor_and_target_user
  locked_permitted = ground arith

  locked_visible :
      (s : AuthoritySnapshot) × (load_authority_snapshot db target_user_id false ≡ ok s)
      × (is_administrative_user_visible locked.actor s ≡ true)
  unfolding lock_actor_and_target_user
  locked_visible = ground arith

  locked_target : load_authority_snapshot db target_user_id true ≡ ok locked.target
  unfolding lock_actor_and_target_user
  locked_target = ground arith

  found_row : find_live_user db target_user_id ≡ some locked.target_row
  found_row = sym (user_of-lock_users db _ target_user_id (listed target_user_id)) ∙ locked_row
    where
      listed : (t : ℕ) → contains (context.principal.user_id ∷ t ∷ []) t ≡ true
      listed t = unfold contains in ground arith

  pub lock_actor_and_target_user-IsLockedTarget :
      IsLockedTarget context target_user_id required db locked
  lock_actor_and_target_user-IsLockedTarget = record {
    state = locked_state;
    row = found_row;
    actor = require_current_actor-IsCurrent context db locked.actor locked_actor;
    permitted = locked_permitted;
    visible =
        rw
          (← load_authority_snapshot_lem db target_user_id false locked.target_row locked_visible.0
            found_row locked_visible.1)
          locked_visible.2;
    target =
        load_authority_snapshot_lem db target_user_id true locked.target_row locked.target found_row
          locked_target;
  }
