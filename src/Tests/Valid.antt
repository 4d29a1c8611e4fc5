-- ===== src/Tests/Valid.antt =====
-- The sample installation satisfies the constraints of the tables.
use fastapi_templates_xtn.Prelude.{
  ℕ, ◌≡◌, ◌≢◌, refl, Bool, true, false, String, ◌==◌, nat_eq, string_eq, eq_iff, arith, inl,
  contains,
}
use fastapi_templates_xtn.Models.{User}
use fastapi_templates_xtn.Models.Constraints.{
  IsValidRole, IsValidUser, IsConsistent, MeetsConstraints, HasFormat,
}
use fastapi_templates_xtn.Repository.{count_live_user_roles}
use fastapi_templates_xtn.Service.Invariants.RoleRows.{new_role-IsValidRole}
use fastapi_templates_xtn.Service.Invariants.RoleLimit.{IsWithinLimit}
use fastapi_templates_xtn.Tests.Samples.{sample_db, sample_user, sample_role, editor, reader}
use fastapi_templates_xtn.Domain.Keys.{role_key}
use fastapi_templates_xtn.Domain.Keys

differ : (s t : String) → (s == t) ≡ false → s ≢ t
differ s t h e = let same = (eq_iff s t).1 e in cc

sample_user-IsValidUser :
    (id : ℕ) (name : String) (is_protected : Bool) → IsValidUser (sample_user id name is_protected)
sample_user-IsValidUser id name is_protected = record {
  password_state_coherent = inl (refl, refl, refl);
  deleted_user_no_password = λ _. refl;
  deleted_user_inactive = λ dead. absurd (cc);
  deleted_user_actor_requires_timestamp = λ by. absurd (cc);
}

super_admin_valid : IsValidRole (sample_role 11 (role_key Keys.super_admin) 1000 true true)
super_admin_valid = record {
  management_tier_range = ground arith;
  super_admin_tier_reserved = λ e. absurd (cc);
  custom_role_tier_range = λ e. absurd (cc);
  protected_role_is_system = λ _. refl;
  system_role_always_available = λ _. (refl, refl);
  deleted_role_inactive = λ e. absurd (cc);
  deleted_role_actor_requires_timestamp = λ e. absurd (cc);
  super_admin_flag_shape = λ _. (refl, refl, refl, refl);
  super_admin_role_shape = λ _. (refl, refl, refl, refl);
  admin_role_shape = λ e. absurd (differ (role_key Keys.super_admin) (role_key Keys.admin) refl e);
  user_role_shape = λ e. absurd (differ (role_key Keys.super_admin) (role_key Keys.user) refl e);
}

admin_valid : IsValidRole (sample_role 12 (role_key Keys.admin) 500 true false)
admin_valid = record {
  management_tier_range = ground arith;
  super_admin_tier_reserved = λ _. ground arith;
  custom_role_tier_range = λ e. absurd (cc);
  protected_role_is_system = λ _. refl;
  system_role_always_available = λ _. (refl, refl);
  deleted_role_inactive = λ e. absurd (cc);
  deleted_role_actor_requires_timestamp = λ e. absurd (cc);
  super_admin_flag_shape = λ e. absurd (cc);
  super_admin_role_shape =
      λ e. absurd (differ (role_key Keys.admin) (role_key Keys.super_admin) refl e);
  admin_role_shape = λ _. (refl, refl, refl, refl);
  user_role_shape = λ e. absurd (differ (role_key Keys.admin) (role_key Keys.user) refl e);
}

user_valid : IsValidRole (sample_role 13 (role_key Keys.user) 0 true false)
user_valid = record {
  management_tier_range = ground arith;
  super_admin_tier_reserved = λ _. ground arith;
  custom_role_tier_range = λ e. absurd (cc);
  protected_role_is_system = λ e. absurd (cc);
  system_role_always_available = λ _. (refl, refl);
  deleted_role_inactive = λ e. absurd (cc);
  deleted_role_actor_requires_timestamp = λ e. absurd (cc);
  super_admin_flag_shape = λ e. absurd (cc);
  super_admin_role_shape =
      λ e. absurd (differ (role_key Keys.user) (role_key Keys.super_admin) refl e);
  admin_role_shape = λ e. absurd (differ (role_key Keys.user) (role_key Keys.admin) refl e);
  user_role_shape = λ _. (refl, refl, refl, refl);
}

pub sample_db-IsConsistent : IsConsistent sample_db
unfolding contains
sample_db-IsConsistent = record {
  user_ids = ground arith;
  role_ids = ground arith;
  valid_users = (
    sample_user-IsValidUser 1 "owner" true,
    (
      sample_user-IsValidUser 2 "chief" false,
      (sample_user-IsValidUser 3 "editor" false, (sample_user-IsValidUser 4 "plain" false, tt)),
    ),
  );
  valid_roles = (
    super_admin_valid,
    (
      admin_valid,
      (
        user_valid,
        (
          new_role-IsValidRole 14 editor refl (ground arith),
          (new_role-IsValidRole 15 reader refl (ground arith), tt),
        ),
      ),
    ),
  );
  role_keys = (refl, (refl, (refl, (refl, (refl, tt)))));
}

pub sample_db-IsWithinLimit : IsWithinLimit sample_db
unfolding count_live_user_roles
sample_db-IsWithinLimit user_id = ground arith

pub sample_db-MeetsConstraints : MeetsConstraints (λ _ _. true) sample_db
sample_db-MeetsConstraints = record {
  consistent = sample_db-IsConsistent;
  user_names = (
    (
      differ "chief" "owner" refl,
      (differ "editor" "owner" refl, (differ "plain" "owner" refl, tt)),
    ),
    (
      (differ "editor" "chief" refl, (differ "plain" "chief" refl, tt)),
      ((differ "plain" "editor" refl, tt), (tt, tt)),
    ),
  );
  formats = (formatted, (formatted, (formatted, (formatted, tt))));
  single_super_admin = (λ _. refl, (λ _. refl, (λ _. refl, (λ _. refl, (λ _. refl, tt)))));
}
  where
    formatted : {u : User} → HasFormat (λ _ _. true) u
    formatted = record { user_name_format = refl; password_hash_shape = λ _ _. refl }
