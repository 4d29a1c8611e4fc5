-- ===== src/Repository/Grants.antt =====
-- repositories/access.py: the joins of assignments, roles and permissions, and the loop that
-- gathers their rows into one grant for each role.
use fastapi_templates_xtn.Prelude.{
  ℕ, String, Bool, ◌&&◌, ◌||◌, List, [], ◌∷◌, ◌++◌, map, Option, none, some, ◌==◌, nat_eq,
  string_eq, if◌then◌else◌, is_none, keep_if, insert, to_set,
}
use fastapi_templates_xtn.Domain.Snapshot.{RoleGrant, AuthoritySnapshot, build}
use fastapi_templates_xtn.Models.{User, Role, UserRole, Db}

-- One row of the query behind the snapshots.
pub record GrantRow : Type 0 where
  pub user_id : ℕ
  pub role_id : ℕ
  pub key : String
  pub management_tier : ℕ
  pub is_active : Bool
  pub is_system : Bool
  pub is_protected : Bool
  pub is_super_admin : Bool
  pub permission_key : Option String

unfoldable pub concat_map : {A B : Type 0} → (A → List B) → List A → List B
concat_map f [] = []
concat_map f (x ∷ xs) = f x ++ concat_map f xs

-- An outer join has one row with NULL where nothing matches.
unfoldable pub or_null : {A : Type 0} → List (Option A) → List (Option A)
or_null [] = none ∷ []
or_null (x ∷ xs) = x ∷ xs

-- `OUTER JOIN permissions ON permissions.id = role_permissions.permission_id AND deleted_at IS NULL`
unfoldable pub keys_of_permission : Db → ℕ → List (Option String)
unfolding or_null
keys_of_permission db permission_id = or_null (
    map (λ p. some p.key)
      (keep_if (λ p. (p.id == permission_id) && is_none p.deleted_at) db.permissions))

-- The two outer joins on one role.
unfoldable pub permission_keys_of : Db → ℕ → List (Option String)
unfolding keys_of_permission concat_map
permission_keys_of db role_id = or_null (
    concat_map (λ rp. keys_of_permission db rp.permission_id)
      (keep_if (λ rp. (rp.role_id == role_id) && is_none rp.deleted_at) db.role_permissions))

abbrev pub grant_row : ℕ → Role → Option String → GrantRow
grant_row user_id role permission_key = record {
  user_id = user_id;
  role_id = role.id;
  key = role.key;
  management_tier = role.management_tier;
  is_active = role.is_active;
  is_system = role.is_system;
  is_protected = role.is_protected;
  is_super_admin = role.is_super_admin;
  permission_key = permission_key;
}

-- The join of one assignment with its live roles that pass the statement's other conditions.
unfoldable pub rows_of_assignment : Db → (Role → Bool) → UserRole → List GrantRow
unfolding permission_keys_of
rows_of_assignment db filter_role a =
    concat_map (λ role. map (grant_row a.user_id role) (permission_keys_of db role.id))
      (keep_if (λ r. (r.id == a.role_id) && is_none r.deleted_at && filter_role r) db.roles)

-- The rows of one user's live assignments.
unfoldable pub grant_rows : Db → (Role → Bool) → ℕ → List GrantRow
unfolding rows_of_assignment
grant_rows db filter_role user_id =
    concat_map (rows_of_assignment db filter_role)
      (keep_if (λ a. (a.user_id == user_id) && is_none a.deleted_at) db.user_roles)

abbrev pub with_permission : RoleGrant → Option String → RoleGrant
with_permission g none = g
with_permission g (some k) = record g { permissions = insert k g.permissions }

-- `_RoleAccumulator(...)` for the row, with no permission yet
abbrev pub new_accumulator : GrantRow → RoleGrant
new_accumulator row = record {
  role_id = row.role_id;
  key = row.key;
  management_tier = row.management_tier;
  permissions = [];
  is_system = row.is_system;
  is_protected = row.is_protected;
  is_super_admin = row.is_super_admin;
}

-- `accumulators.setdefault(row.role_id, ...)`, and the row's permission
unfoldable pub add_row : GrantRow → List RoleGrant → List RoleGrant
add_row row [] = with_permission (new_accumulator row) row.permission_key ∷ []
add_row row (g ∷ gs) =
    if g.role_id == row.role_id
    then with_permission g row.permission_key ∷ gs
    else g ∷ add_row row gs

unfoldable pub accumulate : List RoleGrant → List GrantRow → List RoleGrant
unfolding add_row
accumulate acc [] = acc
accumulate acc (row ∷ rows) = accumulate (add_row row acc) rows

-- `load_role_grants_for_user`
unfoldable pub load_role_grants_for_user : Db → ℕ → Bool → List RoleGrant
unfolding grant_rows accumulate
load_role_grants_for_user db user_id include_disabled_roles =
    accumulate [] (grant_rows db (λ r. include_disabled_roles || r.is_active) user_id)

-- `load_authority_snapshots_for_users` on one user
unfoldable pub load_authority_snapshot_of : Db → Bool → User → AuthoritySnapshot
unfolding load_role_grants_for_user
load_authority_snapshot_of db include_disabled_roles user =
    build user.id user.is_active user.is_protected user.token_version user.authz_version
      (load_role_grants_for_user db user.id include_disabled_roles)

unfoldable pub load_authority_snapshots_for_users : Db → Bool → List User → List AuthoritySnapshot
unfolding load_authority_snapshot_of
load_authority_snapshots_for_users db include_disabled_roles users =
    map (load_authority_snapshot_of db include_disabled_roles) users

-- The inner joins of a role's live rows with their live permissions.
unfoldable pub load_permissions_of_role : Db → ℕ → List String
unfolding concat_map
load_permissions_of_role db role_id = to_set (
    concat_map
      (λ rp.
        map (λ p. p.key)
          (keep_if (λ p. (p.id == rp.permission_id) && is_none p.deleted_at) db.permissions))
      (keep_if (λ rp. (rp.role_id == role_id) && is_none rp.deleted_at) db.role_permissions))
