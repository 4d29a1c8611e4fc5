-- ===== src/Service/Invariants/RoleLimit.antt =====
-- The limit on the live role assignments of a user.
use fastapi_templates_xtn.Prelude.{
  ℕ, ◌+◌, ◌≤◌, ◌≡◌, refl, sym, ◌∙◌, ap, Bool, false, ◌&&◌, List, [], ◌∷◌, ◌++◌, map, arith, ◌==◌,
  nat_eq, is_none, contains, length, keep_if, sorted_ids, leb, keep_if-append, length-append,
  length-sorted_by, length-keep_if-update_if, nat_beq_iff, Bool-cases, inl, inr, subst,
}
use fastapi_templates_xtn.Audit.{Python}
use fastapi_templates_xtn.Domain.Keys.{max_roles_per_user}
use fastapi_templates_xtn.Domain.Snapshot.{AuthorizationContext}
use fastapi_templates_xtn.Models.{UserRole, Db}
use fastapi_templates_xtn.Repository.{count_live_user_roles}
use fastapi_templates_xtn.Service.Base.{delete_assignment}
use fastapi_templates_xtn.Service.UserRoles.{new_assignment}
use fastapi_templates_xtn.Service.Commands.{Command, execute, context_of, new_role_id}
use fastapi_templates_xtn.Service.Effects.Tables.{
  AssignmentsWritten, kept, bound, unbound, role_deleted, Effect-AssignmentsWritten,
}
use fastapi_templates_xtn.Service.Invariants.{execute_by_Effect}

abbrev live_of : ℕ → UserRole → Bool
live_of user_id a = (a.user_id == user_id) && is_none a.deleted_at

-- No user has more than ten live assignments.
abbrev pub IsWithinLimit : Db → Type 0
IsWithinLimit db = (user_id : ℕ) → count_live_user_roles db user_id ≤ 10

new_count :
    (t actor_id user_id : ℕ) (ids : List ℕ)
    → (length (keep_if (live_of user_id) (map (new_assignment t actor_id) ids)) ≤ length ids)
      × ((t == user_id) ≡ false
          → length (keep_if (live_of user_id) (map (new_assignment t actor_id) ids)) ≡ 0)
new_count t actor_id user_id [] = (ground arith, λ _. refl)
new_count t actor_id user_id (i ∷ ids) = (
  ground (arith, (new_count t actor_id user_id ids).0),
  λ other. ground (arith, (new_count t actor_id user_id ids).1 other),
)

module _ (context : AuthorizationContext) (db : Db) (user_id : ℕ) where
  after_bind :
      (t actor_id : ℕ) (changed : List ℕ)
      → count_live_user_roles db t + length changed ≤ max_roles_per_user
      → count_live_user_roles db user_id ≤ max_roles_per_user
      → length (
          keep_if
            (live_of user_id)
            (db.user_roles ++ map (new_assignment t actor_id) (sorted_ids changed)))
        ≤ max_roles_per_user
  unfolding count_live_user_roles sorted_ids
  after_bind t actor_id changed room h =
      let ids = sorted_ids changed in
      let count : length
            (keep_if (live_of user_id) (db.user_roles ++ map (new_assignment t actor_id) ids))
          ≡ length (keep_if (live_of user_id) db.user_roles)
            + length (keep_if (live_of user_id) (map (new_assignment t actor_id) ids)) =
        ap length
          (keep_if-append (live_of user_id) db.user_roles (map (new_assignment t actor_id) ids))
        ∙ length-append (keep_if (live_of user_id) db.user_roles) _ in
      let new = new_count t actor_id user_id ids in
      let sorted : length ids ≡ length changed = length-sorted_by leb changed in
      elim (Bool-cases (t == user_id)) [
        | inl same ↦
            let e : count_live_user_roles db t ≡ count_live_user_roles db user_id =
              ap (count_live_user_roles db) ((nat_beq_iff t user_id).0 same) in
            ground (arith, new.0)
        | inr other ↦ ground (arith, new.1 other)
      ]

  within :
      (rows : List UserRole)
      → IsWithinLimit db
      → AssignmentsWritten context db rows
      → length (keep_if (live_of user_id) rows) ≤ max_roles_per_user
  unfolding count_live_user_roles
  within rows h (kept e) =
      subst (λ rs. length (keep_if (live_of user_id) rs) ≤ max_roles_per_user) (sym e) (h user_id)
  within rows h (bound t locked changed target f room e) =
      subst (λ rs. length (keep_if (live_of user_id) rs) ≤ max_roles_per_user) (sym e)
        (after_bind t locked.actor.user_id changed room (h user_id))
  within rows h (unbound t locked now changed target f e) =
      subst (λ rs. length (keep_if (live_of user_id) rs) ≤ max_roles_per_user) (sym e)
        (ground (
          arith,
          h user_id,
          length-keep_if-update_if (live_of user_id)
              (λ a. ((a.user_id == t) && contains changed a.role_id) && is_none a.deleted_at)
              (delete_assignment now locked.actor.user_id) db.user_roles (λ a hit. ground arith),
        ))
  within rows h (role_deleted role_id locked now custom e) =
      subst (λ rs. length (keep_if (live_of user_id) rs) ≤ max_roles_per_user) (sym e)
        (ground (
          arith,
          h user_id,
          length-keep_if-update_if (live_of user_id)
              (λ a. (a.role_id == role_id) && is_none a.deleted_at)
              (delete_assignment now locked.actor.user_id) db.user_roles (λ a hit. ground arith),
        ))

-- No request takes a user over the limit of ten roles.
pub execute-IsWithinLimit :
    (py : Python) (c : Command) (db : Db) → IsWithinLimit db → IsWithinLimit (execute py c db)
unfolding count_live_user_roles
execute-IsWithinLimit py c db h =
    execute_by_Effect py IsWithinLimit (λ d events w. w) c db
      (λ d effect user_id.
        within (context_of c) db user_id d.user_roles h
          (Effect-AssignmentsWritten (context_of c) db (new_role_id c) d effect))
      h
