-- ===== src/Policy/Roles.antt =====
-- What core/security/policy.py grants on roles: assignment, creation, administration and permissions.
use fastapi_templates_xtn.Prelude.{
  ℕ, ◌≤◌, ◌<◌, String, ◌≡◌, refl, ◌≢◌, ◌↔◌, Bool, true, false, List, [], ◌∷◌, ok, arith, nat_eq,
  string_eq, contains, Subset_of_subset, subset_of_Subset, All, eq_iff,
}
use fastapi_templates_xtn.Domain.Keys.{value, super_admin_permission_keys, role_key}
use fastapi_templates_xtn.Domain.Keys
use fastapi_templates_xtn.Domain.Snapshot.{RoleGrant, AuthoritySnapshot}
use fastapi_templates_xtn.Policy.{
  RoleOperation, bind, unbind, RoleAdministrationOperation, required_for_change,
  required_for_administration, required_for_permissions, basic_actor_check, check_changed_role,
  check_changed_roles, decide_role_change, decide_role_create, decide_role_administration,
  decide_role_permissions_change,
}
use fastapi_templates_xtn.Policy.Rules.{
  IsWithin, MayAct, IsManageable, target-IsWithin_iff, role-IsWithin_iff, affected_iff,
}

-- A role that the actor may bind or unbind.
pub record MayChange (operation : RoleOperation) (actor : AuthoritySnapshot) (role : RoleGrant)
    : Type 0 where
  pub not_super_admin : role.key ≢ role_key Keys.super_admin
  pub unprotected : role.is_protected ≡ false
  pub base_role_stays : operation ≡ unbind → role.key ≢ role_key Keys.user
  pub admin_by_super_admin : role.key ≡ role_key Keys.admin → actor.is_super_admin ≡ true
  pub lower : role.management_tier < actor.management_tier
  pub within : IsWithin actor role.permissions

check_changed_role_iff :
    (operation : RoleOperation) (actor : AuthoritySnapshot) (role : RoleGrant)
    → (check_changed_role operation actor role ≡ ok tt) ↔ MayChange operation actor role
unfolding check_changed_role
check_changed_role_iff bind actor role = (
  λ h. record {
    not_super_admin = ground (arith, eq_iff role.key (role_key Keys.super_admin));
    unprotected = ground arith;
    base_role_stays = λ p. absurd (cc);
    admin_by_super_admin = λ p. ground (arith, eq_iff role.key (role_key Keys.admin));
    lower = ground arith;
    within = (role-IsWithin_iff actor role).0 (ground arith);
  },
  λ m. ground (
    arith,
    eq_iff role.key (role_key Keys.super_admin),
    eq_iff role.key (role_key Keys.admin),
    (role-IsWithin_iff actor role).1 m.within,
  ),
)
check_changed_role_iff unbind actor role = (
  λ h. record {
    not_super_admin = ground (arith, eq_iff role.key (role_key Keys.super_admin));
    unprotected = ground arith;
    base_role_stays = λ p. ground (arith, eq_iff role.key (role_key Keys.user));
    admin_by_super_admin = λ p. ground (arith, eq_iff role.key (role_key Keys.admin));
    lower = ground arith;
    within = (role-IsWithin_iff actor role).0 (ground arith);
  },
  λ m. ground (
    arith,
    eq_iff role.key (role_key Keys.super_admin),
    eq_iff role.key (role_key Keys.admin),
    eq_iff role.key (role_key Keys.user),
    m.base_role_stays refl,
    (role-IsWithin_iff actor role).1 m.within,
  ),
)

check_changed_roles_iff :
    (operation : RoleOperation) (actor : AuthoritySnapshot) (roles : List RoleGrant)
    → (check_changed_roles operation actor roles ≡ ok tt) ↔ All (MayChange operation actor) roles
unfolding check_changed_roles
check_changed_roles_iff operation actor [] = (λ _. tt, λ _. refl)
check_changed_roles_iff operation actor (r ∷ rest) = (
  λ h. (
    (check_changed_role_iff operation actor r).0 (ground arith),
    (check_changed_roles_iff operation actor rest).0 (ground arith),
  ),
  λ w. ground (
    arith,
    (check_changed_role_iff operation actor r).1 w.0,
    (check_changed_roles_iff operation actor rest).1 w.1,
  ),
)

-- What a change of a user's roles needs.
pub record MayChangeRoles (operation : RoleOperation) (actor before after : AuthoritySnapshot)
    (roles : List RoleGrant) : Type 0 where
  pub may_act : MayAct actor (required_for_change operation)
  pub target_active : operation ≡ bind → before.user_is_active ≡ true
  pub manageable : IsManageable actor before
  pub changeable : All (MayChange operation actor) roles
  pub lower_after : after.management_tier < actor.management_tier
  pub within_after : IsWithin actor after.permissions

-- The decision on a role change allows exactly what the rules grant.
pub decide_role_change_iff :
    (operation : RoleOperation) (actor before after : AuthoritySnapshot) (roles : List RoleGrant)
    → ((decide_role_change operation actor before after roles).allowed ≡ true)
      ↔ MayChangeRoles operation actor before after roles
unfolding decide_role_change basic_actor_check
decide_role_change_iff bind actor before after roles = (
  λ h. record {
    may_act = record { active = ground arith; permitted = ground arith };
    target_active = λ _. ground arith;
    manageable = record {
      unprotected = ground arith;
      another = ground arith;
      lower = ground arith;
      within = (target-IsWithin_iff actor before).0 (ground arith);
    };
    changeable = (check_changed_roles_iff bind actor roles).0 (ground arith);
    lower_after = ground arith;
    within_after = (target-IsWithin_iff actor after).0 (ground arith);
  },
  λ m. ground (
    arith,
    m.target_active refl,
    (check_changed_roles_iff bind actor roles).1 m.changeable,
    (target-IsWithin_iff actor before).1 m.manageable.within,
    (target-IsWithin_iff actor after).1 m.within_after,
  ),
)
decide_role_change_iff unbind actor before after roles = (
  λ h. record {
    may_act = record { active = ground arith; permitted = ground arith };
    target_active = λ p. absurd (cc);
    manageable = record {
      unprotected = ground arith;
      another = ground arith;
      lower = ground arith;
      within = (target-IsWithin_iff actor before).0 (ground arith);
    };
    changeable = (check_changed_roles_iff unbind actor roles).0 (ground arith);
    lower_after = ground arith;
    within_after = (target-IsWithin_iff actor after).0 (ground arith);
  },
  λ m. ground (
    arith,
    (check_changed_roles_iff unbind actor roles).1 m.changeable,
    (target-IsWithin_iff actor before).1 m.manageable.within,
    (target-IsWithin_iff actor after).1 m.within_after,
  ),
)

-- A role may be created exactly in the tiers 1 to 999 below the actor's own.
pub decide_role_create_iff :
    (actor : AuthoritySnapshot) (tier : ℕ)
    → ((decide_role_create actor tier).allowed ≡ true) ↔ (
        MayAct actor Keys.roles_create × (1 ≤ tier) × (tier ≤ 999) × (tier < actor.management_tier))
unfolding decide_role_create basic_actor_check
decide_role_create_iff actor tier = (
  λ h. (
    record { active = ground arith; permitted = ground arith },
    ground arith,
    ground arith,
    ground arith,
  ),
  λ w. ground arith,
)

-- What a change of a shared role needs, apart from the permissions that it is to have.
pub record MayAdminister (actor : AuthoritySnapshot) (role : RoleGrant) (actor_holds_role : Bool)
    (affected : List AuthoritySnapshot) : Type 0 where
  pub custom : role.is_system ≡ false
  pub not_held : actor_holds_role ≡ false
  pub lower : role.management_tier < actor.management_tier
  pub within : IsWithin actor role.permissions
  pub subjects : All (IsManageable actor) affected

-- The decision on a role's administration allows exactly what the rules grant.
pub decide_role_administration_iff :
    (operation : RoleAdministrationOperation) (actor : AuthoritySnapshot) (role : RoleGrant)
    (holds : Bool) (affected : List AuthoritySnapshot)
    → ((decide_role_administration operation actor role holds affected).allowed ≡ true) ↔ (
        MayAct actor (required_for_administration operation)
        × MayAdminister actor role holds affected)
unfolding decide_role_administration basic_actor_check
decide_role_administration_iff operation actor role holds affected = (
  λ h. (
    record { active = ground arith; permitted = ground arith },
    record {
      custom = ground arith;
      not_held = ground arith;
      lower = ground arith;
      within = (role-IsWithin_iff actor role).0 (ground arith);
      subjects = (affected_iff actor affected).0 (ground arith);
    },
  ),
  λ w. ground (
    arith,
    (role-IsWithin_iff actor role).1 w.1.within,
    (affected_iff actor affected).1 w.1.subjects,
  ),
)

-- The decision on a role's permissions allows exactly what the rules grant: the permissions that the
-- role is to have lie within the actor's, and the registration switch is never among them.
pub decide_role_permissions_change_iff :
    (operation : RoleOperation) (actor : AuthoritySnapshot) (role : RoleGrant) (after : List String)
    (holds : Bool) (affected : List AuthoritySnapshot)
    → ((decide_role_permissions_change operation actor role after holds affected).allowed ≡ true)
      ↔ (MayAct actor (required_for_permissions operation)
          × MayAdminister actor role holds affected
          × IsWithin actor after
          × (contains after (value Keys.registration_configure) ≡ false))
unfolding decide_role_permissions_change basic_actor_check
decide_role_permissions_change_iff operation actor role after holds affected = (
  λ h. (
    record { active = ground arith; permitted = ground arith },
    record {
      custom = ground arith;
      not_held = ground arith;
      lower = ground arith;
      within = (role-IsWithin_iff actor role).0 (ground arith);
      subjects = (affected_iff actor affected).0 (ground arith);
    },
    record {
      in_control_plane = Subset_of_subset after super_admin_permission_keys (ground arith);
      held = Subset_of_subset after actor.permissions (ground arith);
    },
    ground arith,
  ),
  λ w. ground (
    arith,
    (role-IsWithin_iff actor role).1 w.1.within,
    (affected_iff actor affected).1 w.1.subjects,
    subset_of_Subset after super_admin_permission_keys w.2.in_control_plane,
    subset_of_Subset after actor.permissions w.2.held,
  ),
)
