-- ===== src/Repository/Visible.antt =====
-- repositories/access.py: the queries that show an actor the users and roles below its own authority.
use fastapi_templates_xtn.Prelude.{
  ℕ, zero, suc, ◌-◌, ◌*◌, String, Bool, true, not, ◌&&◌, ◌||◌, List, [], ◌∷◌, map, Option, none,
  some, ◌==◌, nat_eq, string_eq, if◌then◌else◌, is_none, keep_if, any, first, to_set, ltb, leb,
  length, sorted_by, sorted_ids, text_le, max,
}
use fastapi_templates_xtn.Domain.Keys.{role_key}
use fastapi_templates_xtn.Domain.Keys
use fastapi_templates_xtn.Domain.Snapshot.{AuthoritySnapshot, build}
use fastapi_templates_xtn.Models.{User, Role, Db}
use fastapi_templates_xtn.Repository.Grants.{concat_map, grant_rows, accumulate}

unfoldable pub actor_is_super_admin : AuthoritySnapshot → Bool
actor_is_super_admin actor =
    any (λ r. (r.key == role_key Keys.super_admin) && r.is_super_admin) actor.roles

-- The condition on a role that a statement gets for every other actor.
unfoldable pub role_is_visible : AuthoritySnapshot → Role → Bool
unfolding actor_is_super_admin
role_is_visible actor role =
    if actor_is_super_admin actor
    then true
    else (ltb role.management_tier actor.management_tier
        && not role.is_protected
        && not role.is_super_admin)

pub record UserAccessView : Type 0 where
  pub user_name : String
  pub assigned_role_ids : List ℕ
  pub authority : AuthoritySnapshot

-- `load_user_access_views` on one user: the rows of disabled roles count as assigned and no more.
unfoldable pub load_user_access_view : Db → AuthoritySnapshot → User → UserAccessView
unfolding grant_rows accumulate
load_user_access_view db actor user =
    let rows = grant_rows db (role_is_visible actor) user.id in
    record {
      user_name = user.user_name;
      assigned_role_ids = sorted_ids (to_set (map (λ row. row.role_id) rows));
      authority =
          build user.id user.is_active user.is_protected user.token_version user.authz_version
            (accumulate [] (keep_if (λ row. row.is_active) rows));
    }

-- The active live roles behind a user's live assignments: a group of `active_user_authority`.
unfoldable pub active_roles : Db → ℕ → List Role
unfolding concat_map
active_roles db user_id =
    concat_map
      (λ a. keep_if (λ r. (r.id == a.role_id) && r.is_active && is_none r.deleted_at) db.roles)
      (keep_if (λ a. (a.user_id == user_id) && is_none a.deleted_at) db.user_roles)

-- `coalesce(max(management_tier), 0)` of the group
unfoldable pub max_tier : List Role → ℕ
max_tier [] = 0
max_tier (r ∷ rs) = max r.management_tier (max_tier rs)

unfoldable pub select_visible_users : Db → AuthoritySnapshot → List User
unfolding actor_is_super_admin active_roles max_tier
select_visible_users db actor =
    keep_if
      (λ u.
        is_none u.deleted_at
        && (actor_is_super_admin actor
            || (not (u.id == actor.user_id)
                && not u.is_protected
                && not (any (λ r. r.is_protected) (active_roles db u.id))
                && ltb (max_tier (active_roles db u.id)) actor.management_tier)))
      db.users

unfoldable pub select_visible_roles : Db → AuthoritySnapshot → List Role
unfolding role_is_visible
select_visible_roles db actor =
    keep_if (λ r. is_none r.deleted_at && role_is_visible actor r) db.roles

-- `.offset(n)` and `.limit(n)`
unfoldable pub offset : {A : Type 0} → ℕ → List A → List A
offset zero xs = xs
offset (suc n) [] = []
offset (suc n) (x ∷ xs) = offset n xs

unfoldable pub limit : {A : Type 0} → ℕ → List A → List A
limit zero xs = []
limit (suc n) [] = []
limit (suc n) (x ∷ xs) = x ∷ limit n xs

-- `ORDER BY roles.key, roles.id`
abbrev role_order : Role → Role → Bool
role_order a b = if a.key == b.key then leb a.id b.id else text_le a.key b.key

unfoldable pub list_visible_roles_page : Db → AuthoritySnapshot → ℕ → ℕ → List Role × ℕ
unfolding select_visible_roles offset limit
list_visible_roles_page db actor page page_size =
    let visible = select_visible_roles db actor in
    (
      limit page_size (offset ((page - 1) * page_size) (sorted_by role_order visible)),
      length visible,
    )

unfoldable pub load_visible_role : Db → AuthoritySnapshot → ℕ → Option Role
unfolding select_visible_roles
load_visible_role db actor role_id = first (λ r. r.id == role_id) (select_visible_roles db actor)

abbrev user_order : User → User → Bool
user_order a b = leb a.id b.id

-- `.where(User.user_name == user_name)` if a name is given
abbrev has_name : Option String → User → Bool
has_name none u = true
has_name (some name) u = u.user_name == name

unfoldable pub list_visible_users_page :
    Db → AuthoritySnapshot → ℕ → ℕ → Option String → List User × ℕ
unfolding select_visible_users offset limit
list_visible_users_page db actor page page_size user_name =
    let visible = keep_if (has_name user_name) (select_visible_users db actor) in
    (
      limit page_size (offset ((page - 1) * page_size) (sorted_by user_order visible)),
      length visible,
    )

unfoldable pub load_visible_user : Db → AuthoritySnapshot → ℕ → Option User
unfolding select_visible_users
load_visible_user db actor user_id = first (λ u. u.id == user_id) (select_visible_users db actor)
