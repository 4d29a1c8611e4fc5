-- ===== src/Service/History.antt =====
-- Requests one after another, from the first state of an installation on.
use fastapi_templates_xtn.Prelude.{
  ℕ, ◌≡◌, refl, sym, ◌∙◌, ap, String, Bool, true, ◌&&◌, List, [], ◌∷◌, some, arith, ◌==◌, nat_eq,
  any, keep_if, first, first_holds, All-map_of, KeyedBy, KeyedBy-first, nat_beq_iff, Bool-cases,
  inl, inr,
}
use fastapi_templates_xtn.Audit.{Python}
use fastapi_templates_xtn.Models.{Role, Db}
use fastapi_templates_xtn.Models.Constraints.{IsConsistent, MeetsConstraints}
use fastapi_templates_xtn.Service.Commands.{Command, execute, new_role_id}
use fastapi_templates_xtn.Service.Invariants.BuiltIn.{
  IsProtectedRole, execute-built_in_roles, execute-protected_assignments,
}
use fastapi_templates_xtn.Service.Invariants.RoleLimit.{IsWithinLimit, execute-IsWithinLimit}
use fastapi_templates_xtn.Service.Invariants.Formats.{execute-MeetsConstraints}
use fastapi_templates_xtn.Service.Invariants.Consistent.{IsFresh, execute-IsConsistent}

-- The databases that requests lead to from the first one.
pub data Reaches (py : Python) (db : Db) : Db → Type 0 where
  start : Reaches py db db
  step :
      (d : Db) (c : Command)
      → Reaches py db d
      → IsFresh (new_role_id c) d
      → Reaches py db (execute py c d)

pub Reaches-IsConsistent :
    (py : Python) (db d : Db) → IsConsistent db → Reaches py db d → IsConsistent d
Reaches-IsConsistent py db _ h start = h
Reaches-IsConsistent py db _ h (step d c reached fresh) =
    execute-IsConsistent py c d fresh (Reaches-IsConsistent py db d h reached)

-- After any sequence of requests all primary and unique keys and all check constraints of `users` and
-- `roles` hold, if they held before it and every created role got a new id.
pub Reaches-MeetsConstraints :
    (py : Python) (matches : String → String → Bool) (db d : Db)
    → MeetsConstraints matches db
    → Reaches py db d
    → MeetsConstraints matches d
Reaches-MeetsConstraints py matches db _ h start = h
Reaches-MeetsConstraints py matches db _ h (step d c reached fresh) =
    execute-MeetsConstraints py matches c d fresh
      (Reaches-MeetsConstraints py matches db d h reached)

-- After any sequence of requests no user has more than ten live role assignments, if none had before it.
pub Reaches-IsWithinLimit :
    (py : Python) (db d : Db) → IsWithinLimit db → Reaches py db d → IsWithinLimit d
Reaches-IsWithinLimit py db _ h start = h
Reaches-IsWithinLimit py db _ h (step d c reached fresh) =
    execute-IsWithinLimit py c d (Reaches-IsWithinLimit py db d h reached)

-- In a database that meets the constraints, no sequence of requests changes, adds or removes the row of a
-- built-in role.
pub Reaches-built_in_roles :
    (py : Python) (db d : Db)
    → IsConsistent db
    → Reaches py db d
    → keep_if (λ r. r.is_system) d.roles ≡ keep_if (λ r. r.is_system) db.roles
Reaches-built_in_roles py db _ h start = refl
Reaches-built_in_roles py db _ h (step d c reached fresh) =
    execute-built_in_roles py c d (Reaches-IsConsistent py db d h reached).role_ids
    ∙ Reaches-built_in_roles py db d h reached

-- Among the built-in roles there is a protected one with this id.
abbrev pub IsProtectedBuiltIn : Db → ℕ → Type 0
IsProtectedBuiltIn db role_id =
    any (λ r. (r.id == role_id) && r.is_protected) (keep_if (λ r. r.is_system) db.roles) ≡ true

first_of_any :
    (p q : Role → Bool) (rows : List Role)
    → any p (keep_if q rows) ≡ true
    → (r : Role) × (first (λ x. p x && q x) rows ≡ some r)
first_of_any p q [] h = absurd (cc)
first_of_any p q (x ∷ rows) h = elim (Bool-cases (p x && q x)) [
  | inl hit ↦ (x, ground arith)
  | inr miss ↦ let (r, e) = first_of_any p q rows (ground arith) in (r, ground arith)
]

built_in-IsProtectedRole :
    (db : Db) (role_id : ℕ)
    → KeyedBy (λ r. r.id) db.roles
    → IsProtectedBuiltIn db role_id
    → IsProtectedRole db role_id
built_in-IsProtectedRole db role_id keyed h =
    let p : Role → Bool = λ r. (r.id == role_id) && r.is_protected in
    let (r, found) = first_of_any p (λ r. r.is_system) db.roles h in
    let held = first_holds (λ x. p x && x.is_system) db.roles r found in
    let id : r.id ≡ role_id = (nat_beq_iff r.id role_id).0 (ground arith) in
    let protected : r.is_protected ≡ true = ground arith in
    All-map_of db.roles (λ x only e. ap (λ y. y.is_protected) (only (e ∙ sym id)) ∙ protected)
      (KeyedBy-first (λ x. x.id) (λ x. p x && x.is_system) db.roles r keyed found)

-- In a database that meets the constraints, no sequence of requests gives anybody a protected built-in role,
-- such as the super administrator's, or takes it away: its assignments stay the same rows.
pub Reaches-protected_assignments :
    (py : Python) (db d : Db) (role_id : ℕ)
    → IsConsistent db
    → IsProtectedBuiltIn db role_id
    → Reaches py db d
    → keep_if (λ a. a.role_id == role_id) d.user_roles
      ≡ keep_if (λ a. a.role_id == role_id) db.user_roles
Reaches-protected_assignments py db _ role_id h built_in start = refl
Reaches-protected_assignments py db _ role_id h built_in (step d c reached fresh) =
    let consistent = Reaches-IsConsistent py db d h reached in
    execute-protected_assignments py c d role_id consistent (
      built_in-IsProtectedRole d role_id consistent.role_ids (
        ap (any (λ r. (r.id == role_id) && r.is_protected))
          (Reaches-built_in_roles py db d h reached)
        ∙ built_in))
    ∙ Reaches-protected_assignments py db d role_id h built_in reached
