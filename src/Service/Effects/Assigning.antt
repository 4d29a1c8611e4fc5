-- ===== src/Service/Effects/Assigning.antt =====
-- The effect of `change_user_roles`: the roles that it binds or unbinds are live and not protected.
use fastapi_templates_xtn.Prelude.{
  ℕ, ◌+◌, ◌≤◌, ◌≡◌, sym, ◌∙◌, ap, subst, Bool, true, false, not, ◌&&◌, ◌||◌, List, [], ◌∷◌, none,
  some, ok, Ensures, Ensures-of, arith, ◌==◌, nat_eq, string_eq, any, contains, length, All, union,
  Bool-cases, inl, inr, sorted_ids, any-sorted_ids, ltb, nat_beq_iff, contains-union, contains-diff,
  contains-inter,
}
use fastapi_templates_xtn.Audit.{Python}
use fastapi_templates_xtn.Domain.Keys.{PermissionKey, max_roles_per_user}
use fastapi_templates_xtn.Domain.Snapshot.{RoleGrant, AuthorizationContext}
use fastapi_templates_xtn.Policy.{RoleOperation, bind, unbind, is_bind, required_for_change}
use fastapi_templates_xtn.Policy.Roles.{MayChange, decide_role_change_iff}
use fastapi_templates_xtn.Models.{Role, Db}
use fastapi_templates_xtn.Repository.{
  role_of, lock_roles, grant_of, load_role_grants_for_roles, assigned_role_ids,
  count_live_user_roles,
}
use fastapi_templates_xtn.Repository.Grants.{load_permissions_of_role}
use fastapi_templates_xtn.Service.Locking.{LockedTarget, lock_actor_and_target_user}
use fastapi_templates_xtn.Service.Locking.Facts.{
  role_of-lock_roles, lock_actor_and_target_user-IsLockedTarget,
}
use fastapi_templates_xtn.Service.UserRoles.{
  is_empty, existing_role_ids, requested_roles, changed_role_ids, apply_role_change,
  role_change_operation,
}
use fastapi_templates_xtn.Service.Success.{role_change_operation-IsRoleChange}
use fastapi_templates_xtn.Service.Effects.{
  IsManageable-IsTarget, IsChangeable, Effect, nothing, roles_changed,
}

requested_roles_step :
    (operation : RoleOperation) (locked_roles : List Role) (existing : List ℕ) (i : ℕ)
    (ids : List ℕ) (roles : List Role)
    → requested_roles operation locked_roles existing (i ∷ ids) ≡ ok roles
    → (role : Role) × (rest : List Role) × (role_of locked_roles i ≡ some role)
      × (requested_roles operation locked_roles existing ids ≡ ok rest)
      × (roles ≡ role ∷ rest)
unfolding requested_roles
requested_roles_step operation locked_roles existing i ids roles h = ground arith

-- Every requested role is found among the locked ones, and satisfies what all the found ones do.
requested_roles-All :
    (P : RoleGrant → Type 0) (db : Db) (operation : RoleOperation) (locked_roles : List Role)
    (existing ids : List ℕ) (roles : List Role)
    → requested_roles operation locked_roles existing ids ≡ ok roles
    → All P (load_role_grants_for_roles db roles)
    → (role_id : ℕ) → any (λ x. x == role_id) ids ≡ true
    → (r : Role) × (role_of locked_roles role_id ≡ some r)
      × P (grant_of r (load_permissions_of_role db r.id))
unfolding requested_roles load_role_grants_for_roles
requested_roles-All P db operation locked_roles existing [] roles h all_P role_id m = absurd (cc)
requested_roles-All P db operation locked_roles existing (i ∷ ids) roles h all_P role_id m =
    let (role, rest, found, loop, shape) =
      requested_roles_step operation locked_roles existing i ids roles h in
    let all_P' = subst (λ rs. All P (load_role_grants_for_roles db rs)) shape all_P in
    elim (Bool-cases (i == role_id)) [
      | inl here ↦
          (role, ap (role_of locked_roles) (sym ((nat_beq_iff i role_id).0 here)) ∙ found, all_P'.0)
      | inr later ↦
          requested_roles-All P db operation locked_roles existing ids rest loop all_P'.1 role_id
            (ground arith)
    ]

module _ (py : Python) (context : AuthorizationContext) (db : Db) where
  changed_in_requested :
      (operation : RoleOperation) (requested existing : List ℕ) (role_id : ℕ)
      → contains (changed_role_ids operation requested existing) role_id ≡ true
      → contains requested role_id ≡ true
  unfolding changed_role_ids
  changed_in_requested bind requested existing role_id h =
      ground (arith, contains-diff requested existing role_id)
  changed_in_requested unbind requested existing role_id h =
      ground (arith, contains-inter requested existing role_id)

  locked_roles_lem :
      (t : ℕ) (required : PermissionKey) (additional : List ℕ) (locked : LockedTarget)
      → lock_actor_and_target_user context t required additional db ≡ ok locked
      → locked.locked_roles
        ≡ lock_roles db
            (union (assigned_role_ids db (context.principal.user_id ∷ t ∷ [])) additional)
  unfolding lock_actor_and_target_user
  locked_roles_lem t required additional locked h = ground arith

  changeable :
      (t : ℕ) (requested : List ℕ) (operation : RoleOperation) (locked : LockedTarget)
      (roles : List Role)
      → lock_actor_and_target_user context t (required_for_change operation) requested db
        ≡ ok locked
      → requested_roles operation locked.locked_roles
          (existing_role_ids db t requested)
          (sorted_ids requested)
        ≡ ok roles
      → All (MayChange operation locked.actor) (load_role_grants_for_roles db roles)
      → (role_id : ℕ) → contains requested role_id ≡ true
      → IsChangeable db role_id
  changeable t requested operation locked roles e found may role_id m =
      let (role, is_role, unprotected) =
        requested_roles-All (MayChange operation locked.actor) db operation locked.locked_roles
          (existing_role_ids db t requested) (sorted_ids requested) roles found may role_id
          (any-sorted_ids requested role_id ∙ m) in
      let ids = assigned_role_ids db (context.principal.user_id ∷ t ∷ []) in
      (
        role,
        sym (
              role_of-lock_roles db (union ids requested) role_id
                (contains-union ids requested role_id ∙ rw m (or_true (contains ids role_id))))
            ∙ ap (λ rs. role_of rs role_id)
                (sym (locked_roles_lem t (required_for_change operation) requested locked e))
            ∙ is_role,
        unprotected.unprotected,
      )
    where
      or_true : (b : Bool) → (b || true) ≡ true
      or_true b = ground arith

  pub role_change_operation-Effect :
      (t : ℕ) (requested : List ℕ) (operation : RoleOperation) (now : ℕ)
      → Ensures
          (role_change_operation py context t requested operation now db)
          (λ r. Effect context none db r.1)
  role_change_operation-Effect t requested operation now = Ensures-of _ λ r h.
      let (locked, roles, e, change, done) =
        role_change_operation-IsRoleChange py context db t requested operation now r h in
      let is_locked =
        lock_actor_and_target_user-IsLockedTarget context t (required_for_change operation)
          requested db locked e in
      let may =
        (decide_role_change_iff operation locked.actor locked.target _ _).0 change.decided in
      let changed = changed_role_ids operation requested (existing_role_ids db t requested) in
      elim (Bool-cases (is_empty changed)) [
        | inl unchanged ↦ nothing (ap (λ x. x.1) done ∙ unfold apply_role_change in rw unchanged)
        | inr some_changed ↦
            roles_changed t locked operation now changed
              (IsManageable-IsTarget is_locked may.manageable)
              (λ role_id m.
                changeable t requested operation locked roles e change.found may.changeable role_id
                  (changed_in_requested operation requested _ role_id m))
              (λ b. room operation changed (count_live_user_roles db t) b some_changed change.room)
              (ap (λ x. x.1) done ∙ unfold apply_role_change in rw some_changed)
      ]
    where
      room :
          (operation : RoleOperation) (changed : List ℕ) (count : ℕ)
          → is_bind operation ≡ true
          → is_empty changed ≡ false
          → (is_bind operation
              && (not (is_empty changed) && ltb max_roles_per_user (count + length changed)))
            ≡ false
          → count + length changed ≤ max_roles_per_user
      room operation changed count b ne h = ground arith
