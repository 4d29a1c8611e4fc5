-- ===== src/Domain/Snapshot.antt =====
-- core/security/domain.py: a role's grant, a user's authority snapshot, and the context of a request.
-- A UUID is the number that its text stands for, so `str(uuid)` orders as the numbers do.
use fastapi_templates_xtn.Prelude.{
  ℕ, max, String, Bool, not, ◌||◌, List, [], ◌∷◌, ◌==◌, nat_eq, string_eq, if◌then◌else◌, keep_if,
  any, union, sorted_by, leb,
}

pub record Principal : Type 0 where
  pub user_id : ℕ
  pub token_version : ℕ
  pub token_id : ℕ
  pub issued_at : ℕ
  pub expires_at : ℕ

pub record RoleGrant : Type 0 where
  pub role_id : ℕ
  pub key : String
  pub management_tier : ℕ
  pub permissions : List String
  pub is_system : Bool
  pub is_protected : Bool
  pub is_super_admin : Bool

pub record AuthoritySnapshot : Type 0 where
  pub user_id : ℕ
  pub user_is_active : Bool
  pub user_is_protected : Bool
  pub token_version : ℕ
  pub roles : List RoleGrant
  pub permissions : List String
  pub management_tier : ℕ
  pub is_protected : Bool
  pub is_super_admin : Bool
  pub authz_version : ℕ

-- `frozenset(permission for role in roles for permission in role.permissions)`
unfoldable pub permission_union : List RoleGrant → List String
permission_union [] = []
permission_union (r ∷ rs) = union r.permissions (permission_union rs)

-- `max((role.management_tier for role in roles), default=0)`
unfoldable pub highest_tier : List RoleGrant → ℕ
highest_tier [] = 0
highest_tier (r ∷ rs) = max r.management_tier (highest_tier rs)

abbrev pub by_role_id : RoleGrant → RoleGrant → Bool
by_role_id a b = leb a.role_id b.role_id

unfoldable pub build : ℕ → Bool → Bool → ℕ → ℕ → List RoleGrant → AuthoritySnapshot
unfolding permission_union highest_tier
build user_id user_is_active user_is_protected token_version authz_version roles = record {
  user_id = user_id;
  user_is_active = user_is_active;
  user_is_protected = user_is_protected;
  token_version = token_version;
  roles = sorted_by by_role_id roles;
  permissions = permission_union roles;
  management_tier = highest_tier roles;
  is_protected = user_is_protected || any (λ r. r.is_protected) roles;
  is_super_admin = any (λ r. r.is_super_admin) roles;
  authz_version = authz_version;
}

-- `roles[role.role_id] = role` on a dict keyed by role id
unfoldable pub put_role : RoleGrant → List RoleGrant → List RoleGrant
put_role r [] = r ∷ []
put_role r (x ∷ xs) = if x.role_id == r.role_id then r ∷ xs else x ∷ put_role r xs

-- `{item.role_id: item for item in roles}`, as the dict's values
unfoldable pub roles_by_id : List RoleGrant → List RoleGrant → List RoleGrant
unfolding put_role
roles_by_id acc [] = acc
roles_by_id acc (r ∷ rs) = roles_by_id (put_role r acc) rs

unfoldable pub replace_roles : AuthoritySnapshot → List RoleGrant → AuthoritySnapshot
unfolding build
replace_roles s roles =
    build s.user_id s.user_is_active s.user_is_protected s.token_version s.authz_version roles

unfoldable pub with_role : AuthoritySnapshot → RoleGrant → AuthoritySnapshot
unfolding replace_roles roles_by_id
with_role s role = replace_roles s (put_role role (roles_by_id [] s.roles))

unfoldable pub without_role : AuthoritySnapshot → ℕ → AuthoritySnapshot
unfolding replace_roles
without_role s role_id = replace_roles s (keep_if (λ r. not (r.role_id == role_id)) s.roles)

pub data AuditSource : Type 0 where
  http service job operator migration : AuditSource

pub record AuthorizationContext : Type 0 where
  pub principal : Principal
  pub authorization_epoch : ℕ
  pub authority : AuthoritySnapshot
  pub request_id : String
  pub audit_source : AuditSource
