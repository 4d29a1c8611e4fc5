-- ===== src/Service/Effects.antt =====
-- What a successful operation of services/access.py has done to the tables, in one of seven ways, with the
-- facts that its guards have established.
pub mod Assigning
pub mod Established
pub mod Tables
pub mod Accounts
use fastapi_templates_xtn.Prelude.{
  ℕ, ◌+◌, ◌≤◌, ◌<◌, ◌≡◌, ◌≢◌, refl, sym, ◌∙◌, ap, subst, ◌⊎◌, Bool, true, false, not, ◌&&◌, ◌||◌,
  List, [], ◌∷◌, ◌++◌, map, Option, none, some, ok, arith, ◌==◌, nat_eq, string_eq, is_none, any,
  contains, length, String, All, to_set, same_set, Bool-cases, inl, inr, if◌then◌else◌,
}
use fastapi_templates_xtn.Domain.Keys.{PermissionKey, reserved_role_keys, max_roles_per_user}
use fastapi_templates_xtn.Domain.Snapshot.{
  RoleGrant, AuthoritySnapshot, AuthorizationContext, build,
}
use fastapi_templates_xtn.Policy.{RoleOperation, bind, is_bind}
use fastapi_templates_xtn.Policy.Rules.{MayAct, IsManageable, IsWithin}
use fastapi_templates_xtn.Policy.Roles.{MayAdminister, MayChange}
use fastapi_templates_xtn.Models.{User, RbacState, Role, Permission, Db}
use fastapi_templates_xtn.Repository.{
  find_live_user, count_live_user_roles, grant_of, load_role_grants_for_roles, role_of,
}
use fastapi_templates_xtn.Repository.Grants.{load_authority_snapshot_of, load_permissions_of_role}
use fastapi_templates_xtn.Service.Base.{
  write_user, write_role, bump_epoch, delete_user_roles, delete_role_permissions,
}
use fastapi_templates_xtn.Service.Locking.{
  LockedTarget, LockedSharedRole, affected_user_ids, bump_shared_authority,
}
use fastapi_templates_xtn.Service.Locking.Facts.{
  IsCurrent, IsLockedTarget, find_live_user_lem, find_live_role, find_live_role_lem,
}
use fastapi_templates_xtn.Service.Locking.RoleFacts.{IsLockedRole}
use fastapi_templates_xtn.Service.Users.{with_status}
use fastapi_templates_xtn.Service.UserRoles.{
  is_empty, existing_role_ids, changed_role_ids, write_user_roles,
}
use fastapi_templates_xtn.Service.Roles.{new_role}
use fastapi_templates_xtn.Service.Payloads.{RoleCreateRequest}
use fastapi_templates_xtn.Service.RolePermissions.{write_role_permissions}

-- The locked row of a user that the actor may manage.
pub record IsTarget (context : AuthorizationContext) (db : Db) (t : ℕ) (locked : LockedTarget)
    : Type 0 where
  pub state : db.state ≡ some locked.state
  pub found : find_live_user db t ≡ some locked.target_row
  pub actor : IsCurrent context db locked.actor
  pub another : context.principal.user_id ≢ t
  pub unprotected : locked.target_row.is_protected ≡ false
  pub manageable : IsManageable locked.actor locked.target

-- The locked row of a custom role that the actor may administer.
pub record IsCustom (context : AuthorizationContext) (db : Db) (role_id : ℕ)
    (locked : LockedSharedRole) : Type 0 where
  pub state : db.state ≡ some locked.state
  pub found : find_live_role db role_id ≡ some locked.role
  pub actor : IsCurrent context db locked.actor
  pub custom : locked.role.is_system ≡ false
  pub lower : locked.role.management_tier < locked.actor.management_tier
  pub not_held : contains locked.affected_ids context.principal.user_id ≡ false
  pub affected : locked.affected_ids ≡ affected_user_ids db role_id

pub current_user_id :
    (context : AuthorizationContext) (db : Db) (actor : AuthoritySnapshot)
    → IsCurrent context db actor
    → actor.user_id ≡ context.principal.user_id
current_user_id context db actor c =
    ap (λ s. s.user_id) c.loaded
    ∙ unfold load_authority_snapshot_of build in
      (find_live_user_lem db context.principal.user_id c.actor_row c.found).0

unprotected_row :
    (db : Db) (u : User)
    → (load_authority_snapshot_of db true u).is_protected ≡ false
    → u.is_protected ≡ false
unfolding load_authority_snapshot_of build
unprotected_row db u h = ground arith

pub IsManageable-IsTarget :
    {context : AuthorizationContext} {db : Db} {t : ℕ} {required : PermissionKey}
    {locked : LockedTarget}
    → IsLockedTarget context t required db locked
    → IsManageable locked.actor locked.target
    → IsTarget context db t locked
IsManageable-IsTarget {context} {db} {t} {locked} l m = record {
  state = l.state;
  found = l.row;
  actor = l.actor;
  another = λ e. m.another (
      current_user_id context db locked.actor l.actor
      ∙ e
      ∙ sym (find_live_user_lem db t locked.target_row l.row).0
      ∙ sym (target_id l.target));
  unprotected =
      unprotected_row db locked.target_row
        (ap (λ s. s.is_protected) (sym l.target) ∙ m.unprotected);
  manageable = m;
}
  where
    target_id :
        locked.target ≡ load_authority_snapshot_of db true locked.target_row
        → locked.target.user_id ≡ locked.target_row.id
    target_id e = ap (λ s. s.user_id) e ∙ unfold load_authority_snapshot_of build in refl

pub MayAdminister-IsCustom :
    {context : AuthorizationContext} {db : Db} {role_id : ℕ} {required : PermissionKey}
    {locked : LockedSharedRole} {affected : List AuthoritySnapshot}
    → IsLockedRole context role_id required db locked
    → MayAdminister locked.actor locked.role_before
        (contains locked.affected_ids locked.actor.user_id)
        affected
    → IsCustom context db role_id locked
MayAdminister-IsCustom {context} {db} {role_id} {locked} l m = record {
  state = l.state;
  found = l.row;
  actor = l.actor;
  custom = ap (λ g. g.is_system) (sym l.grant) ∙ m.custom;
  lower = subst (λ g. g.management_tier < locked.actor.management_tier) l.grant m.lower;
  not_held =
      ap (contains locked.affected_ids) (sym (current_user_id context db locked.actor l.actor))
      ∙ m.not_held;
  affected = l.affected;
}

-- A requested role that is bound or unbound is live and not protected.
abbrev pub IsChangeable : Db → ℕ → Type 0
IsChangeable db role_id =
    (r : Role) × (find_live_role db role_id ≡ some r) × (r.is_protected ≡ false)

-- The tables below a shared change: nothing more, the deletion of a role, or a change of its permissions.
pub data SharedBase (db : Db) (role_id : ℕ) (locked : LockedSharedRole) (base : Db) : Type 0 where
  same : base ≡ db → SharedBase db role_id locked base
  deleted :
      (now : ℕ)
      → base
        ≡ delete_role_permissions
            (λ g. g.role_id == role_id)
            now
            locked.actor.user_id
            (delete_user_roles (λ a. a.role_id == role_id) now locked.actor.user_id db)
      → SharedBase db role_id locked base
  permissions :
      (operation : RoleOperation) (now : ℕ) (rows : List Permission) (requested : List ℕ)
      → base ≡ write_role_permissions operation now role_id locked rows requested db
      → SharedBase db role_id locked base

-- A later version of a role row: the same key, tier and flags, and if it is deleted, inactive.
pub record IsRevised (old row : Role) : Type 0 where
  pub id : row.id ≡ old.id
  pub key : row.key ≡ old.key
  pub management_tier : row.management_tier ≡ old.management_tier
  pub is_system : row.is_system ≡ old.is_system
  pub is_protected : row.is_protected ≡ old.is_protected
  pub is_super_admin : row.is_super_admin ≡ old.is_super_admin
  pub deletion :
      ((row.deleted_at ≡ old.deleted_at) × (row.deleted_by_user_id ≡ old.deleted_by_user_id))
      ⊎ ((is_none row.deleted_at ≡ false) × (row.is_active ≡ false))

-- `new_id` is the id that a creation brings, if the request is one.
pub data Effect (context : AuthorizationContext) (new_id : Option ℕ) (db d : Db) : Type 0 where
  nothing : d ≡ db → Effect context new_id db d
  status_written :
      (t : ℕ) (locked : LockedTarget) (is_active : Bool)
      → IsTarget context db t locked
      → d ≡ bump_epoch locked.state (write_user (with_status locked.target_row is_active) db)
      → Effect context new_id db d
  sessions_revoked :
      (t : ℕ) (locked : LockedTarget)
      → IsTarget context db t locked
      → d
        ≡ write_user
            (record locked.target_row { token_version = locked.target_row.token_version + 1 })
            db
      → Effect context new_id db d
  roles_changed :
      (t : ℕ) (locked : LockedTarget) (operation : RoleOperation) (now : ℕ) (changed : List ℕ)
      → IsTarget context db t locked
      → ((role_id : ℕ) → contains changed role_id ≡ true → IsChangeable db role_id)
      → (is_bind operation ≡ true
          → count_live_user_roles db t + length changed ≤ max_roles_per_user)
      → d
        ≡ bump_epoch locked.state (
            write_user
              (record locked.target_row { authz_version = locked.target_row.authz_version + 1 })
              (write_user_roles operation now locked.actor.user_id t changed db))
      → Effect context new_id db d
  role_created :
      (role_id : ℕ) (request : RoleCreateRequest) (state : RbacState)
      → new_id ≡ some role_id
      → db.state ≡ some state
      → contains reserved_role_keys request.key ≡ false
      → any (λ r. r.key == request.key) db.roles ≡ false
      → (1 ≤ request.management_tier) × (request.management_tier ≤ 999)
      → d ≡ bump_epoch state (record db { roles = db.roles ++ new_role role_id request ∷ [] })
      → Effect context new_id db d
  role_updated :
      (role_id : ℕ) (locked : LockedSharedRole) (name description : String)
      → IsCustom context db role_id locked
      → d
        ≡ bump_epoch locked.state (
            write_role
              (record locked.role {
                name = name;
                description = description;
                version = locked.role.version + 1;
              })
              db)
      → Effect context new_id db d
  role_shared :
      (role_id : ℕ) (locked : LockedSharedRole) (written : Role) (base : Db)
      → IsCustom context db role_id locked
      → IsRevised locked.role written
      → SharedBase db role_id locked base
      → d ≡ bump_shared_authority locked written base
      → Effect context new_id db d
