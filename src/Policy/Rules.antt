-- ===== src/Policy/Rules.antt =====
-- What core/security/policy.py grants, as conditions on the actor and the target, independent of the
-- order of the tests.
use fastapi_templates_xtn.Prelude.{
  Bool-cases, inl, inr, false, ◌<◌, String, ◌≡◌, refl, ◌≢◌, ◌↔◌, true, false, List, [], ◌∷◌, ok,
  arith, nat_eq, string_eq, contains, Subset, Subset_of_subset, subset_of_Subset, All,
}
use fastapi_templates_xtn.Domain.Keys.{PermissionKey, value, super_admin_permission_keys}
use fastapi_templates_xtn.Domain.Snapshot.{RoleGrant, AuthoritySnapshot}
use fastapi_templates_xtn.Policy.{
  target_is_within_actor_authority, role_is_within_actor_authority, basic_actor_check,
  affected_subjects_are_manageable, decide_user_administration,
}

-- The permissions lie in the control plane and the actor has them all.
pub record IsWithin (actor : AuthoritySnapshot) (permissions : List String) : Type 0 where
  pub in_control_plane : Subset permissions super_admin_permission_keys
  pub held : Subset permissions actor.permissions

-- The actor is active and has the permission of the operation.
pub record MayAct (actor : AuthoritySnapshot) (required : PermissionKey) : Type 0 where
  pub active : actor.user_is_active ≡ true
  pub permitted : contains actor.permissions (value required) ≡ true

-- The actor stands strictly above a subject that is another, unprotected user.
pub record IsManageable (actor subject : AuthoritySnapshot) : Type 0 where
  pub unprotected : subject.is_protected ≡ false
  pub another : actor.user_id ≢ subject.user_id
  pub lower : subject.management_tier < actor.management_tier
  pub within : IsWithin actor subject.permissions

pub target-IsWithin_iff :
    (actor target : AuthoritySnapshot)
    → (target_is_within_actor_authority actor target ≡ true) ↔ IsWithin actor target.permissions
unfolding target_is_within_actor_authority
target-IsWithin_iff actor target = (
  λ h. record {
    in_control_plane =
        Subset_of_subset target.permissions super_admin_permission_keys (ground arith);
    held = Subset_of_subset target.permissions actor.permissions (ground arith);
  },
  λ w. ground (
    arith,
    subset_of_Subset target.permissions super_admin_permission_keys w.in_control_plane,
    subset_of_Subset target.permissions actor.permissions w.held,
  ),
)

pub role-IsWithin_iff :
    (actor : AuthoritySnapshot) (role : RoleGrant)
    → (role_is_within_actor_authority actor role ≡ true) ↔ IsWithin actor role.permissions
unfolding role_is_within_actor_authority
role-IsWithin_iff actor role = (
  λ h. record {
    in_control_plane = Subset_of_subset role.permissions super_admin_permission_keys (ground arith);
    held = Subset_of_subset role.permissions actor.permissions (ground arith);
  },
  λ w. ground (
    arith,
    subset_of_Subset role.permissions super_admin_permission_keys w.in_control_plane,
    subset_of_Subset role.permissions actor.permissions w.held,
  ),
)

-- A user administration is allowed exactly if the actor may act and the target is manageable.
pub decide_user_administration_iff :
    (required : PermissionKey) (actor target : AuthoritySnapshot)
    → ((decide_user_administration required actor target).allowed ≡ true)
      ↔ (MayAct actor required × IsManageable actor target)
unfolding decide_user_administration basic_actor_check
decide_user_administration_iff required actor target = (
  λ h. (
    record { active = ground arith; permitted = ground arith },
    record {
      unprotected = ground arith;
      another = ground arith;
      lower = ground arith;
      within = (target-IsWithin_iff actor target).0 (ground arith);
    },
  ),
  λ w. ground (arith, (target-IsWithin_iff actor target).1 w.1.within),
)

-- Every affected subject is manageable exactly if the loop finds nothing to deny.
pub affected_iff :
    (actor : AuthoritySnapshot) (affected : List AuthoritySnapshot)
    → (affected_subjects_are_manageable actor affected ≡ ok tt) ↔ All (IsManageable actor) affected
unfolding affected_subjects_are_manageable
affected_iff actor [] = (λ _. tt, λ _. refl)
affected_iff actor (s ∷ rest) = (
  λ h. (
    record {
      unprotected = ground arith;
      another = ground arith;
      lower = ground arith;
      within = (target-IsWithin_iff actor s).0 (ground arith);
    },
    (affected_iff actor rest).0 (ground arith),
  ),
  λ w. ground (arith, (target-IsWithin_iff actor s).1 w.0.within, (affected_iff actor rest).1 w.1),
)

-- No two users may administer each other, whatever the permissions that the two operations need.
pub decide_user_administration-asym :
    (required required' : PermissionKey) (actor target : AuthoritySnapshot)
    → (decide_user_administration required actor target).allowed ≡ true
    → (decide_user_administration required' target actor).allowed ≡ false
decide_user_administration-asym required required' actor target h =
    elim (Bool-cases (decide_user_administration required' target actor).allowed) [
      | inl back ↦
          let below = ((decide_user_administration_iff required actor target).0 h).1.lower in
          let above = ((decide_user_administration_iff required' target actor).0 back).1.lower in
          absurd (ground arith)
      | inr denied ↦ denied
    ]
