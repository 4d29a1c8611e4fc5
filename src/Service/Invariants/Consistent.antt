-- ===== src/Service/Invariants/Consistent.antt =====
-- The constraints of the tables hold after every request.
use fastapi_templates_xtn.Prelude.{
  ℕ, ◌≢◌, refl, sym, ◌∙◌, ap, subst, Bool, ◌&&◌, List, [], ◌∷◌, Option, none, some, ◌==◌, nat_eq,
  is_none, contains, All, All-map_of, All-append, All-update_if, KeyedBy, KeyedBy-update_if,
  KeyedBy-append, first-All, nat_beq_iff,
}
use fastapi_templates_xtn.Audit.{Python}
use fastapi_templates_xtn.Domain.Snapshot.{AuthorizationContext}
use fastapi_templates_xtn.Models.{User, Role, Db}
use fastapi_templates_xtn.Models.Constraints.{IsValidRole, IsValidUser, HasUniqueKeys, IsConsistent}
use fastapi_templates_xtn.Repository.{find_live_user}
use fastapi_templates_xtn.Service.Roles.{new_role}
use fastapi_templates_xtn.Service.Locking.Facts.{
  find_live_role, find_live_role_lem, find_live_user_lem,
}
use fastapi_templates_xtn.Service.Commands.{Command, execute, context_of, new_role_id}
use fastapi_templates_xtn.Service.Commands.Custom.{only_row}
use fastapi_templates_xtn.Service.Effects.Accounts.{
  UsersWritten, kept, written, bumped, bumped_user, Effect-UsersWritten,
}
use fastapi_templates_xtn.Service.Effects.Tables.{
  RolesWritten, kept, added, revised, Effect-RolesWritten,
}
use fastapi_templates_xtn.Service.Invariants.{execute_by_Effect}
use fastapi_templates_xtn.Service.Invariants.RoleRows.{
  new_role-IsValidRole, revised-IsValidRole, HasUniqueKeys-update_if, HasUniqueKeys-append,
}

-- A new role has a new id, as `uuid4` gives.
abbrev pub IsFresh : Option ℕ → Db → Type 0
IsFresh none db = Unit
IsFresh (some role_id) db = All (λ r. r.id ≢ role_id) db.roles

-- The constraints on `roles`.
record AreValidRoles (rows : List Role) : Type 0 where
  pub ids : KeyedBy (λ r. r.id) rows
  pub valid : All IsValidRole rows
  pub keys : HasUniqueKeys rows

-- The constraints on `users`.
record AreValidUsers (rows : List User) : Type 0 where
  pub ids : KeyedBy (λ u. u.id) rows
  pub valid : All IsValidUser rows

module _ (context : AuthorizationContext) (db : Db) where
  roles_valid :
      (new_id : Option ℕ) (rows : List Role)
      → IsFresh new_id db
      → AreValidRoles db.roles
      → RolesWritten context db new_id rows
      → AreValidRoles rows
  unfolding find_live_role
  roles_valid new_id rows fresh h (kept e) = subst AreValidRoles (sym e) h
  roles_valid new_id rows fresh h (added role_id request new out unique tier e) =
      subst AreValidRoles (sym e) (record {
        ids =
            KeyedBy-append (λ r. r.id) db.roles (new_role role_id request)
              (subst (λ i. IsFresh i db) new fresh) h.ids;
        valid =
            All-append IsValidRole db.roles (new_role role_id request ∷ []) h.valid
              (new_role-IsValidRole role_id request out tier, tt);
        keys = HasUniqueKeys-append db.roles (new_role role_id request) unique h.keys;
      })
  roles_valid new_id rows fresh h (revised role_id locked row custom rev e) =
      subst AreValidRoles (sym e) (record {
        ids =
            KeyedBy-update_if (λ r. r.id) (λ r. r.id == row.id) (λ _. row) db.roles
              (λ r hit. sym ((nat_beq_iff r.id row.id).0 hit)) h.ids;
        valid =
            All-update_if IsValidRole (λ r. r.id == row.id) (λ _. row) db.roles (λ r hit v. valid)
              h.valid;
        keys =
            HasUniqueKeys-update_if (λ r. r.id == row.id) (λ _. row) db.roles
              (All-map_of db.roles
                (λ r only hit.
                  rev.key ∙ ap (λ x. x.key) (sym (only ((nat_beq_iff r.id row.id).0 hit ∙ rev.id))))
                (only_row db role_id locked.role h.ids custom.found))
              h.keys;
      })
    where
      old : IsValidRole locked.role
      old =
          first-All IsValidRole (λ r. (r.id == role_id) && is_none r.deleted_at) db.roles
            locked.role h.valid custom.found

      valid : IsValidRole row
      valid =
          revised-IsValidRole locked.role row old custom.custom
            (find_live_role_lem db role_id locked.role custom.found).1 rev

  users_valid :
      (rows : List User)
      → AreValidUsers db.users
      → UsersWritten context db rows
      → AreValidUsers rows
  unfolding find_live_user
  users_valid rows h (kept e) = subst AreValidUsers (sym e) h
  users_valid rows h (written t locked row target rev e) = subst AreValidUsers (sym e) (record {
    ids =
        KeyedBy-update_if (λ u. u.id) (λ u. u.id == row.id) (λ _. row) db.users
          (λ u hit. sym ((nat_beq_iff u.id row.id).0 hit)) h.ids;
    valid =
        All-update_if IsValidUser (λ u. u.id == row.id) (λ _. row) db.users (λ u hit v. valid)
          h.valid;
  })
    where
      old : IsValidUser locked.target_row
      old =
          first-All IsValidUser (λ u. (u.id == t) && is_none u.deleted_at) db.users
            locked.target_row h.valid target.found

      valid : IsValidUser row
      valid = record {
        password_state_coherent =
            rw (rev.password_hash, rev.password_changed_at, rev.must_change_password)
              old.password_state_coherent;
        deleted_user_no_password =
            rw (rev.deleted_at, rev.password_hash) old.deleted_user_no_password;
        deleted_user_inactive = λ dead.
            let live =
              ap is_none rev.deleted_at
              ∙ (find_live_user_lem db t locked.target_row target.found).1 in
            absurd (cc);
        deleted_user_actor_requires_timestamp =
            rw (rev.deleted_by_user_id, rev.deleted_at) old.deleted_user_actor_requires_timestamp;
      }
  users_valid rows h (bumped role_id locked custom e) = subst AreValidUsers (sym e) (record {
    ids = KeyedBy-update_if (λ u. u.id) hit bumped_user db.users (λ u _. refl) h.ids;
    valid =
        All-update_if IsValidUser hit bumped_user db.users
          (λ u _ v. record {
            password_state_coherent = v.password_state_coherent;
            deleted_user_no_password = v.deleted_user_no_password;
            deleted_user_inactive = v.deleted_user_inactive;
            deleted_user_actor_requires_timestamp = v.deleted_user_actor_requires_timestamp;
          })
          h.valid;
  })
    where
      hit : User → Bool
      hit u = contains locked.affected_ids u.id && is_none u.deleted_at

-- Every request keeps the constraints of `users` and `roles`, if the id of a role that it creates is new.
pub execute-IsConsistent :
    (py : Python) (c : Command) (db : Db)
    → IsFresh (new_role_id c) db
    → IsConsistent db
    → IsConsistent (execute py c db)
execute-IsConsistent py c db fresh h =
    execute_by_Effect py IsConsistent
      (λ d events w. record {
        user_ids = w.user_ids;
        role_ids = w.role_ids;
        valid_users = w.valid_users;
        valid_roles = w.valid_roles;
        role_keys = w.role_keys;
      })
      c db
      (λ d effect.
        let roles =
          roles_valid (context_of c) db (new_role_id c) d.roles fresh
            (record { ids = h.role_ids; valid = h.valid_roles; keys = h.role_keys })
            (Effect-RolesWritten (context_of c) db (new_role_id c) d effect) in
        let users =
          users_valid (context_of c) db d.users (record { ids = h.user_ids; valid = h.valid_users })
            (Effect-UsersWritten (context_of c) db (new_role_id c) d effect) in
        record {
          user_ids = users.ids;
          role_ids = roles.ids;
          valid_users = users.valid;
          valid_roles = roles.valid;
          role_keys = roles.keys;
        })
      h
