-- ===== src/Service/Invariants/Formats.antt =====
-- The unique names, the formats and the single super administrator's role hold after every request.
use fastapi_templates_xtn.Prelude.{
  ◌≡◌, ◌≢◌, refl, sym, ◌∙◌, ap, subst, String, Bool, true, false, ◌&&◌, List, [], ◌∷◌, ◌==◌, nat_eq,
  string_eq, is_none, if◌then◌else◌, contains, any, update_if, All, All-map_of, All-trivial,
  KeyedBy, KeyedBy-first, nat_beq_iff, Bool-cases, inl, inr, eq_iff, arith,
}
use fastapi_templates_xtn.Audit.{Python}
use fastapi_templates_xtn.Domain.Snapshot.{AuthorizationContext}
use fastapi_templates_xtn.Domain.Keys.{role_key}
use fastapi_templates_xtn.Domain.Keys
use fastapi_templates_xtn.Models.{User, Role, Db}
use fastapi_templates_xtn.Models.Constraints.{
  IsValidRole, HasUniqueKeys, HasUniqueNames, HasSingleSuperAdmin, HasFormat, MeetsConstraints,
  user_name_pattern,
}
use fastapi_templates_xtn.Repository.{find_live_user}
use fastapi_templates_xtn.Service.Commands.{Command, execute, context_of, new_role_id}
use fastapi_templates_xtn.Service.Effects.Accounts.{
  UsersWritten, kept, written, bumped, bumped_user, Effect-UsersWritten,
}
use fastapi_templates_xtn.Service.Invariants.{execute_by_Effect}
use fastapi_templates_xtn.Service.Invariants.Consistent.{IsFresh, execute-IsConsistent}

-- The row keeps what the user logs in with.
record KeepsLogin (u v : User) : Type 0 where
  pub user_name : v.user_name ≡ u.user_name
  pub password_hash : v.password_hash ≡ u.password_hash

abbrev KeepLogin : (User → Bool) → (User → User) → List User → Type 0
KeepLogin p f rows = All (λ u. p u ≡ true → KeepsLogin u (f u)) rows

-- The constraints on names and on hashes.
record AreFormatted (matches : String → String → Bool) (rows : List User) : Type 0 where
  pub names : HasUniqueNames rows
  pub formats : All (HasFormat matches) rows

updated :
    (p : User → Bool) (f : User → User) (u : User)
    → (p u ≡ true → KeepsLogin u (f u))
    → KeepsLogin u (if p u then f u else u)
updated p f u h = elim (Bool-cases (p u)) [
  | inl hit ↦ rw hit (h hit)
  | inr miss ↦ rw miss (record { user_name = refl; password_hash = refl })
]

others_named :
    (name : String) (p : User → Bool) (f : User → User) (rows : List User)
    → KeepLogin p f rows
    → All (λ v. v.user_name ≢ name) rows
    → All (λ v. v.user_name ≢ name) (update_if p f rows)
others_named name p f [] keep h = tt
others_named name p f (u ∷ rows) keep h =
    (λ e. h.0 (sym (updated p f u keep.0).user_name ∙ e), others_named name p f rows keep.1 h.1)

module _ (matches : String → String → Bool) where
  same_format : (u v : User) → KeepsLogin u v → HasFormat matches u → HasFormat matches v
  same_format u v k h = record {
    user_name_format = ap (λ n. matches n user_name_pattern) k.user_name ∙ h.user_name_format;
    password_hash_shape = λ s e. h.password_hash_shape s (sym k.password_hash ∙ e);
  }

  update_if-AreFormatted :
      (p : User → Bool) (f : User → User) (rows : List User)
      → KeepLogin p f rows
      → AreFormatted matches rows
      → AreFormatted matches (update_if p f rows)
  update_if-AreFormatted p f [] keep h = record { names = tt; formats = tt }
  update_if-AreFormatted p f (u ∷ rows) keep h =
      let k = updated p f u keep.0 in
      let rest =
        update_if-AreFormatted p f rows keep.1
          (record { names = h.names.1; formats = h.formats.1 }) in
      record {
        names = (
          All-map_of (update_if p f rows) (λ v other e. other (e ∙ k.user_name))
              (others_named u.user_name p f rows keep.1 h.names.0),
          rest.names,
        );
        formats = (same_format u _ k h.formats.0, rest.formats);
      }

  users_formatted :
      (context : AuthorizationContext) (db : Db) (rows : List User)
      → KeyedBy (λ u. u.id) db.users
      → AreFormatted matches db.users
      → UsersWritten context db rows
      → AreFormatted matches rows
  unfolding find_live_user
  users_formatted context db rows ids h (kept e) = subst (AreFormatted matches) (sym e) h
  users_formatted context db rows ids h (written t locked row target same e) =
      subst (AreFormatted matches) (sym e) (
        update_if-AreFormatted (λ u. u.id == row.id) (λ _. row) db.users
          (All-map_of db.users
            (λ u only hit.
              let is_target = only ((nat_beq_iff u.id row.id).0 hit ∙ same.id) in
              record {
                user_name = same.user_name ∙ ap (λ x. x.user_name) (sym is_target);
                password_hash = same.password_hash ∙ ap (λ x. x.password_hash) (sym is_target);
              })
            (KeyedBy-first (λ u. u.id) (λ u. (u.id == t) && is_none u.deleted_at) db.users
              locked.target_row ids target.found))
          h)
  users_formatted context db rows ids h (bumped role_id locked custom e) =
      subst (AreFormatted matches) (sym e) (
        update_if-AreFormatted (λ u. contains locked.affected_ids u.id && is_none u.deleted_at)
          bumped_user db.users
          (All-trivial db.users (λ u hit. record { user_name = refl; password_hash = refl })) h)

-- Valid roles with different keys: the key of a super administrator's role has no second row.
no_other :
    (key : String) (rows : List Role)
    → key ≡ role_key Keys.super_admin
    → All IsValidRole rows
    → any (λ r. r.key == key) rows ≡ false
    → any (λ r. r.is_super_admin) rows ≡ false
no_other key [] is_key valid h = refl
no_other key (r ∷ rows) is_key valid h = elim (Bool-cases r.is_super_admin) [
  | inl super ↦
      let (_, _, _, named) = valid.0.super_admin_flag_shape super in
      let same : (r.key == key) ≡ true = (eq_iff r.key key).1 (named ∙ sym is_key) in
      absurd (ground arith)
  | inr plain ↦ rw plain (no_other key rows is_key valid.1 (ground arith))
]

single : (rows : List Role) → All IsValidRole rows → HasUniqueKeys rows → HasSingleSuperAdmin rows
single [] valid keys = tt
single (r ∷ rows) valid keys = (
  λ super.
      let (_, _, _, named) = valid.0.super_admin_flag_shape super in
      no_other r.key rows named valid.1 keys.0,
  single rows valid.1 keys.1,
)

-- Every request keeps all keys and check constraints of `users` and `roles`, if the id of a role that it
-- creates is new.
pub execute-MeetsConstraints :
    (py : Python) (matches : String → String → Bool) (c : Command) (db : Db)
    → IsFresh (new_role_id c) db
    → MeetsConstraints matches db
    → MeetsConstraints matches (execute py c db)
execute-MeetsConstraints py matches c db fresh h =
    let consistent = execute-IsConsistent py c db fresh h.consistent in
    let users : AreFormatted matches (execute py c db).users =
      execute_by_Effect py (λ d. AreFormatted matches d.users) (λ d events w. w) c db
        (λ d effect.
          users_formatted matches (context_of c) db d.users h.consistent.user_ids
            (record { names = h.user_names; formats = h.formats })
            (Effect-UsersWritten (context_of c) db (new_role_id c) d effect))
        (record { names = h.user_names; formats = h.formats }) in
    record {
      consistent = consistent;
      user_names = users.names;
      formats = users.formats;
      single_super_admin =
          single (execute py c db).roles consistent.valid_roles consistent.role_keys;
    }
