-- ===== src/Service/Commands/Custom.antt =====
-- The changes of a shared role only ever write a custom role below the actor's authority.
use fastapi_templates_xtn.Prelude.{
  ℕ, ◌≡◌, ◌∙◌, ap, Bool, false, List, some, ok, arith, ◌==◌, nat_eq, contains, keep_if, update_if,
  All, KeyedBy, KeyedBy-first, keep_if-update_if, All-map_of, nat_beq_iff,
}
use fastapi_templates_xtn.Policy.{RoleAdministrationOperation}
use fastapi_templates_xtn.Policy.Roles.{MayAdminister, decide_role_administration_iff}
use fastapi_templates_xtn.Models.{Role, Db}
use fastapi_templates_xtn.Service.Locking.{LockedSharedRole, require_role_administration}
use fastapi_templates_xtn.Service.Locking.Facts.{find_live_role}

pub require_role_administration-MayAdminister :
    (locked : LockedSharedRole) (operation : RoleAdministrationOperation)
    → require_role_administration locked operation ≡ ok tt
    → MayAdminister locked.actor locked.role_before
        (contains locked.affected_ids locked.actor.user_id)
        locked.affected_before
unfolding require_role_administration
require_role_administration-MayAdminister locked operation h =
    ((decide_role_administration_iff operation locked.actor locked.role_before
        (contains locked.affected_ids locked.actor.user_id) locked.affected_before).0
      (ground arith)).1

-- The one row of the role that a request has locked.
pub only_row :
    (db : Db) (role_id : ℕ) (r : Role)
    → KeyedBy (λ x. x.id) db.roles
    → find_live_role db role_id ≡ some r
    → All (λ x. x.id ≡ r.id → x ≡ r) db.roles
unfolding find_live_role
only_row db role_id r keyed found = KeyedBy-first (λ x. x.id) _ db.roles r keyed found

-- A write to one row leaves alone what is selected without it.
pub keep_if-write_role :
    (q : Role → Bool) (db : Db) (role_id : ℕ) (r row : Role) (rows : List Role)
    → rows ≡ db.roles
    → KeyedBy (λ x. x.id) db.roles
    → find_live_role db role_id ≡ some r
    → row.id ≡ r.id
    → q r ≡ false
    → q row ≡ false
    → keep_if q (update_if (λ x. x.id == row.id) (λ _. row) rows) ≡ keep_if q db.roles
keep_if-write_role q db role_id r row rows same keyed found same_id out out' = rw same (
    keep_if-update_if q (λ x. x.id == row.id) (λ _. row) db.roles
      (All-map_of db.roles
        (λ x only hit. (ap q (only ((nat_beq_iff x.id row.id).0 hit ∙ same_id)) ∙ out, out'))
        (only_row db role_id r keyed found)))
