-- ===== src/Service/Invariants/BuiltIn.antt =====
-- The built-in roles are out of reach of every request: their rows, and the assignments of a protected one.
use fastapi_templates_xtn.Prelude.{
  ℕ, ◌≡◌, refl, sym, subst, any-sorted_ids, append_nil, ◌∙◌, ap, true, false, ◌&&◌, List, [], ◌∷◌,
  ◌++◌, map, Option, arith, ◌==◌, nat_eq, is_none, any, contains, keep_if, sorted_ids, All,
  All-trivial, KeyedBy, keep_if-append, keep_if-update_if, nat_beq_iff, first-All, Bool-cases, inl,
  inr,
}
use fastapi_templates_xtn.Audit.{Python}
use fastapi_templates_xtn.Domain.Snapshot.{AuthorizationContext}
use fastapi_templates_xtn.Models.{Role, UserRole, Db}
use fastapi_templates_xtn.Models.Constraints.{IsValidRole, IsConsistent}
use fastapi_templates_xtn.Service.Base.{delete_assignment}
use fastapi_templates_xtn.Service.Roles.{new_role}
use fastapi_templates_xtn.Service.UserRoles.{new_assignment}
use fastapi_templates_xtn.Service.Locking.{LockedSharedRole}
use fastapi_templates_xtn.Service.Locking.Facts.{find_live_role, find_live_role_lem}
use fastapi_templates_xtn.Service.Commands.{Command, execute, context_of, new_role_id}
use fastapi_templates_xtn.Service.Commands.Custom.{keep_if-write_role}
use fastapi_templates_xtn.Service.Effects.{IsCustom, IsChangeable}
use fastapi_templates_xtn.Service.Effects.Tables.{
  RolesWritten, kept, added, revised, Effect-RolesWritten, AssignmentsWritten, kept, bound, unbound,
  role_deleted, Effect-AssignmentsWritten,
}
use fastapi_templates_xtn.Service.Invariants.{execute_by_Effect}

module _ (context : AuthorizationContext) (db : Db) where
  built_in_rows :
      (new_id : Option ℕ) (rows : List Role)
      → KeyedBy (λ r. r.id) db.roles
      → RolesWritten context db new_id rows
      → keep_if (λ r. r.is_system) rows ≡ keep_if (λ r. r.is_system) db.roles
  built_in_rows new_id rows keyed (kept e) = ap (keep_if (λ r. r.is_system)) e
  built_in_rows new_id rows keyed (added role_id request fresh reserved unique tier e) =
      ap (keep_if (λ r. r.is_system)) e
      ∙ keep_if-append (λ r. r.is_system) db.roles (new_role role_id request ∷ [])
      ∙ append_nil (keep_if (λ r. r.is_system) db.roles)
  built_in_rows new_id rows keyed (revised role_id locked row custom rev e) =
      ap (keep_if (λ r. r.is_system)) e
      ∙ keep_if-write_role (λ r. r.is_system) db role_id locked.role row db.roles refl keyed
          custom.found rev.id custom.custom (rev.is_system ∙ custom.custom)

-- No request changes the row of a built-in role, creates one, or deletes one.
pub execute-built_in_roles :
    (py : Python) (c : Command) (db : Db)
    → KeyedBy (λ r. r.id) db.roles
    → keep_if (λ r. r.is_system) (execute py c db).roles ≡ keep_if (λ r. r.is_system) db.roles
execute-built_in_roles py c db keyed =
    execute_by_Effect py
      (λ d. keep_if (λ r. r.is_system) d.roles ≡ keep_if (λ r. r.is_system) db.roles)
      (λ d events h. h) c db
      (λ d effect.
        built_in_rows (context_of c) db (new_role_id c) d.roles keyed
          (Effect-RolesWritten (context_of c) db (new_role_id c) d effect))
      refl

-- The role is a protected one, as the super administrator's role is.
abbrev pub IsProtectedRole : Db → ℕ → Type 0
IsProtectedRole db role_id = All (λ r. r.id ≡ role_id → r.is_protected ≡ true) db.roles

module _ (context : AuthorizationContext) (db : Db) (sr : ℕ) (consistent : IsConsistent db)
    (protected : IsProtectedRole db sr) where
  changeable_other : IsChangeable db sr → ⊥
  unfolding find_live_role
  changeable_other (r, found, unprotected) =
      let is_protected =
        first-All (λ r. r.id ≡ sr → r.is_protected ≡ true)
          (λ r. (r.id == sr) && is_none r.deleted_at) db.roles r protected found
          (find_live_role_lem db sr r found).0 in
      cc

  custom_other : (locked : LockedSharedRole) → IsCustom context db sr locked → ⊥
  unfolding find_live_role
  custom_other locked custom =
      let valid : IsValidRole locked.role =
        first-All IsValidRole (λ r. (r.id == sr) && is_none r.deleted_at) db.roles locked.role
          consistent.valid_roles custom.found in
      let is_protected =
        first-All (λ r. r.id ≡ sr → r.is_protected ≡ true)
          (λ r. (r.id == sr) && is_none r.deleted_at) db.roles locked.role protected custom.found
          (find_live_role_lem db sr locked.role custom.found).0 in
      let is_system = valid.protected_role_is_system is_protected in
      let custom_role = custom.custom in cc

  changed_not :
      (changed : List ℕ)
      → ((role_id : ℕ) → contains changed role_id ≡ true → IsChangeable db role_id)
      → contains changed sr ≡ false
  changed_not changed f = elim (Bool-cases (contains changed sr)) [
    | inl m ↦ absurd (changeable_other (f sr m))
    | inr m ↦ m
  ]

  none_assigned :
      (t actor_id : ℕ) (ids : List ℕ)
      → any (λ x. x == sr) ids ≡ false
      → keep_if (λ a. a.role_id == sr) (map (new_assignment t actor_id) ids) ≡ []
  none_assigned t actor_id [] h = refl
  none_assigned t actor_id (i ∷ ids) h = ground (arith, none_assigned t actor_id ids (ground arith))

  other_role :
      (changed : List ℕ) (a : UserRole)
      → contains changed sr ≡ false
      → contains changed a.role_id ≡ true
      → (a.role_id == sr) ≡ false
  other_role changed a out m = elim (Bool-cases (a.role_id == sr)) [
    | inl same ↦ absurd (clash (ap (contains changed) ((nat_beq_iff a.role_id sr).0 same)))
    | inr other ↦ other
  ]
    where
      clash : contains changed a.role_id ≡ contains changed sr → ⊥
      clash e = cc

  other_id :
      (role_id : ℕ) (locked : LockedSharedRole)
      → IsCustom context db role_id locked
      → (a : UserRole) → (a.role_id == role_id) ≡ true
      → (a.role_id == sr) ≡ false
  other_id role_id locked custom a m = elim (Bool-cases (a.role_id == sr)) [
    | inl same ↦
        let e : role_id ≡ sr =
          sym ((nat_beq_iff a.role_id role_id).0 m) ∙ (nat_beq_iff a.role_id sr).0 same in
        absurd (custom_other locked (subst (λ i. IsCustom context db i locked) e custom))
    | inr other ↦ other
  ]

  protected_rows :
      (rows : List UserRole)
      → AssignmentsWritten context db rows
      → keep_if (λ a. a.role_id == sr) rows ≡ keep_if (λ a. a.role_id == sr) db.user_roles
  protected_rows rows (kept e) = ap (keep_if (λ a. a.role_id == sr)) e
  protected_rows rows (bound t locked changed target f room e) =
      ap (keep_if (λ a. a.role_id == sr)) e
      ∙ keep_if-append (λ a. a.role_id == sr) db.user_roles
          (map (new_assignment t locked.actor.user_id) (sorted_ids changed))
      ∙ ap (◌++◌ (keep_if (λ a. a.role_id == sr) db.user_roles)) (
          none_assigned t locked.actor.user_id (sorted_ids changed)
            (any-sorted_ids changed sr ∙ changed_not changed f))
      ∙ append_nil (keep_if (λ a. a.role_id == sr) db.user_roles)
  protected_rows rows (unbound t locked now changed target f e) =
      ap (keep_if (λ a. a.role_id == sr)) e
      ∙ keep_if-update_if (λ a. a.role_id == sr)
          (λ a. ((a.user_id == t) && contains changed a.role_id) && is_none a.deleted_at)
          (delete_assignment now locked.actor.user_id) db.user_roles
          (All-trivial db.user_roles (λ a hit.
            let other = other_role changed a (changed_not changed f) (ground arith) in
            (other, other)))
  protected_rows rows (role_deleted role_id locked now custom e) =
      ap (keep_if (λ a. a.role_id == sr)) e
      ∙ keep_if-update_if (λ a. a.role_id == sr)
          (λ a. (a.role_id == role_id) && is_none a.deleted_at)
          (delete_assignment now locked.actor.user_id) db.user_roles
          (All-trivial db.user_roles (λ a hit.
            let other = other_id role_id locked custom a (ground arith) in (other, other)))

-- No request gives anybody a protected role, or takes it away: who is super administrator is out of reach.
pub execute-protected_assignments :
    (py : Python) (c : Command) (db : Db) (role_id : ℕ)
    → IsConsistent db
    → IsProtectedRole db role_id
    → keep_if (λ a. a.role_id == role_id) (execute py c db).user_roles
      ≡ keep_if (λ a. a.role_id == role_id) db.user_roles
execute-protected_assignments py c db role_id consistent protected =
    execute_by_Effect py
      (λ d.
        keep_if (λ a. a.role_id == role_id) d.user_roles
        ≡ keep_if (λ a. a.role_id == role_id) db.user_roles)
      (λ d events h. h) c db
      (λ d effect.
        protected_rows (context_of c) db role_id consistent protected d.user_roles
          (Effect-AssignmentsWritten (context_of c) db (new_role_id c) d effect))
      refl
