-- ===== src/Models/Constraints.antt =====
-- models/access.py: the constraints of the tables, as predicates on the rows.
use fastapi_templates_xtn.Prelude.{
  ◌≤◌, ◌<◌, ◌≡◌, ◌≢◌, String, Bool, some, ◌⊎◌, true, false, ◌&&◌, List, [], ◌∷◌, ◌==◌, nat_eq,
  string_eq, is_none, any, All, KeyedBy,
}
use fastapi_templates_xtn.Domain.Keys.{role_key}
use fastapi_templates_xtn.Domain.Keys
use fastapi_templates_xtn.Models.{User, Role, UserRole, Db}

-- The check constraints of `roles`.
pub record IsValidRole (r : Role) : Type 0 where
  pub management_tier_range : r.management_tier ≤ 1000
  pub super_admin_tier_reserved : r.is_super_admin ≡ false → r.management_tier < 1000
  pub custom_role_tier_range :
      r.is_system ≡ false → (1 ≤ r.management_tier) × (r.management_tier ≤ 999)
  pub protected_role_is_system : r.is_protected ≡ true → r.is_system ≡ true
  pub system_role_always_available :
      r.is_system ≡ true → (r.is_active ≡ true) × (is_none r.deleted_at ≡ true)
  pub deleted_role_inactive : is_none r.deleted_at ≡ false → r.is_active ≡ false
  pub deleted_role_actor_requires_timestamp :
      is_none r.deleted_by_user_id ≡ false → is_none r.deleted_at ≡ false
  pub super_admin_flag_shape :
      r.is_super_admin ≡ true
      → (r.is_system ≡ true)
        × (r.is_protected ≡ true)
        × (r.management_tier ≡ 1000)
        × (r.key ≡ role_key Keys.super_admin)
  pub super_admin_role_shape :
      r.key ≡ role_key Keys.super_admin
      → (r.is_system ≡ true)
        × (r.is_protected ≡ true)
        × (r.is_super_admin ≡ true)
        × (r.management_tier ≡ 1000)
  pub admin_role_shape :
      r.key ≡ role_key Keys.admin
      → (r.is_system ≡ true)
        × (r.is_protected ≡ false)
        × (r.is_super_admin ≡ false)
        × (r.management_tier ≡ 500)
  pub user_role_shape :
      r.key ≡ role_key Keys.user
      → (r.is_system ≡ true)
        × (r.is_protected ≡ false)
        × (r.is_super_admin ≡ false)
        × (r.management_tier ≡ 0)

-- The check constraints of `users` on deletion and on the state of the password.
pub record IsValidUser (u : User) : Type 0 where
  pub password_state_coherent :
      ((is_none u.password_hash ≡ true)
        × (is_none u.password_changed_at ≡ true)
        × (u.must_change_password ≡ false))
      ⊎ ((is_none u.password_hash ≡ false) × (is_none u.password_changed_at ≡ false))
  pub deleted_user_no_password : is_none u.deleted_at ≡ false → is_none u.password_hash ≡ true
  pub deleted_user_inactive : is_none u.deleted_at ≡ false → u.is_active ≡ false
  pub deleted_user_actor_requires_timestamp :
      is_none u.deleted_by_user_id ≡ false → is_none u.deleted_at ≡ false

-- `uq_roles_key`
abbrev pub HasUniqueKeys : List Role → Type 0
HasUniqueKeys [] = Unit
HasUniqueKeys (r ∷ rs) = (any (λ x. x.key == r.key) rs ≡ false) × HasUniqueKeys rs

-- `uq_user_roles_live`: one live assignment of a role to a user
abbrev pub HasUniqueAssignments : List UserRole → Type 0
HasUniqueAssignments [] = Unit
HasUniqueAssignments (a ∷ rest) =
    (is_none a.deleted_at ≡ true
      → any (λ b. (b.user_id == a.user_id) && ((b.role_id == a.role_id) && is_none b.deleted_at))
          rest
        ≡ false)
    × HasUniqueAssignments rest

-- The constraints of the tables that the access service writes.
pub record IsConsistent (db : Db) : Type 0 where
  pub user_ids : KeyedBy (λ u. u.id) db.users
  pub role_ids : KeyedBy (λ r. r.id) db.roles
  pub valid_users : All IsValidUser db.users
  pub valid_roles : All IsValidRole db.roles
  pub role_keys : HasUniqueKeys db.roles

-- `uq_users_user_name`
abbrev pub HasUniqueNames : List User → Type 0
HasUniqueNames [] = Unit
HasUniqueNames (u ∷ us) = All (λ v. v.user_name ≢ u.user_name) us × HasUniqueNames us

-- `uq_roles_single_super_admin`
abbrev pub HasSingleSuperAdmin : List Role → Type 0
HasSingleSuperAdmin [] = Unit
HasSingleSuperAdmin (r ∷ rs) =
    (r.is_super_admin ≡ true → any (λ x. x.is_super_admin) rs ≡ false) × HasSingleSuperAdmin rs

abbrev pub user_name_pattern : String
user_name_pattern = "^[A-Za-z0-9_]{3,32}$"

abbrev pub password_hash_pattern : String
password_hash_pattern =
    "^\\$argon2id\\$v=19\\$m=[1-9][0-9]*,t=[1-9][0-9]*,p=[1-9][0-9]*\\$[A-Za-z0-9+/]{16,}\\$[A-Za-z0-9+/]{16,}$"

-- `user_name_format` and `password_hash_shape`, for PostgreSQL's operator `~` on a text and a pattern
pub record HasFormat (matches : String → String → Bool) (u : User) : Type 0 where
  pub user_name_format : matches u.user_name user_name_pattern ≡ true
  pub password_hash_shape :
      (encoded_hash : String)
      → u.password_hash ≡ some encoded_hash
      → matches encoded_hash password_hash_pattern ≡ true

-- All unique keys and check constraints of `users` and `roles`.
pub record MeetsConstraints (matches : String → String → Bool) (db : Db) : Type 0 where
  pub consistent : IsConsistent db
  pub user_names : HasUniqueNames db.users
  pub formats : All (HasFormat matches) db.users
  pub single_super_admin : HasSingleSuperAdmin db.roles
