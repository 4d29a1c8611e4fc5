-- ===== src/Service/Versions/Progress.antt =====
-- A request that changes a role leaves it at the next version, so that of two requests that have seen the
-- same version at most one changes anything.
use fastapi_templates_xtn.Prelude.{
  ℕ, ◌+◌, ◌≡◌, refl, sym, ◌∙◌, ap, true, false, ◌&&◌, some, List, [], ◌∷◌, Ensures-of, to_set,
  nat_eq, arith, ◌==◌, is_none, first, update_if, same_set, string_eq, Bool-cases, inl, inr, ◌⊎◌,
}
use fastapi_templates_xtn.Audit.{Python}
use fastapi_templates_xtn.Domain.Keys
use fastapi_templates_xtn.Policy.{required_for_permissions}
use fastapi_templates_xtn.Models.{RbacAuditEvent, Role, Db}
use fastapi_templates_xtn.Repository.{load_permission_keys}
use fastapi_templates_xtn.Service.Base.{
  write_role, bump_epoch, delete_user_roles, delete_role_permissions,
}
use fastapi_templates_xtn.Service.Locking.{LockedSharedRole, bump_shared_authority}
use fastapi_templates_xtn.Service.Locking.Facts.{find_live_role, find_live_role_lem}
use fastapi_templates_xtn.Service.Locking.RoleFacts.{lock_shared_role_change-IsLockedRole}
use fastapi_templates_xtn.Service.Audited.Atomic.{SameTables}
use fastapi_templates_xtn.Service.Users.{xor}
use fastapi_templates_xtn.Service.Roles.{updated_role, apply_update, apply_active, apply_delete}
use fastapi_templates_xtn.Service.RolePermissions.{apply_permissions, write_role_permissions}
use fastapi_templates_xtn.Service.Success.{
  update_ok, active_ok, delete_ok, permission_change_ok, keys_after,
}
use fastapi_templates_xtn.Service.Commands.{
  Command, update_status, revoke_sessions, change_roles, create, update, set_active, soft_delete,
  change_permissions, Writes, execute, execute_keeps,
}
use fastapi_templates_xtn.Service.Versions.{Expects, execute-stale_version}

-- The role, if it is still live, is at the version after the expected one.
abbrev pub HasMovedOn : Db → ℕ → ℕ → Type 0
HasMovedOn d role_id version =
    (role : Role) → find_live_role d role_id ≡ some role → role.version ≡ version + 1

abbrev pub KeptOrMovedOn : Db → ℕ → ℕ → Db → Type 0
KeptOrMovedOn db role_id version d = SameTables d db ⊎ HasMovedOn d role_id version

first_written :
    (row : Role) (role_id : ℕ) (rows : List Role) (r : Role)
    → row.id ≡ role_id
    → first
        (λ x. (x.id == role_id) && is_none x.deleted_at)
        (update_if (λ x. x.id == row.id) (λ _. row) rows)
      ≡ some r
    → r ≡ row
first_written row role_id [] r same h = absurd (cc)
first_written row role_id (x ∷ rows) r same h = elim (Bool-cases (x.id == row.id)) [
  | inl hit ↦ elim (Bool-cases ((row.id == role_id) && is_none row.deleted_at)) [
    | inl found ↦ ground arith
    | inr gone ↦ first_written row role_id rows r same (ground arith)
  ]
  | inr miss ↦
      let other : (x.id == role_id) ≡ false = ap (λ i. x.id == i) (sym same) ∙ miss in
      first_written row role_id rows r same (ground arith)
]

module _ (db : Db) (role_id version : ℕ) where
  moved_on :
      (d : Db) (row : Role) (rows : List Role)
      → d.roles ≡ update_if (λ x. x.id == row.id) (λ _. row) rows
      → row.id ≡ role_id
      → row.version ≡ version + 1
      → HasMovedOn d role_id version
  unfolding find_live_role
  moved_on d row rows e id next role found =
      ap {A = Role} (λ r. r.version)
        (first_written row role_id rows role id
          (ap (first (λ x. (x.id == role_id) && is_none x.deleted_at)) (sym e) ∙ found))
      ∙ next

  shared_moved_on :
      (locked : LockedSharedRole) (written : Role) (base d : Db)
      → d ≡ bump_shared_authority locked written base
      → written.id ≡ role_id
      → written.version ≡ version
      → HasMovedOn d role_id version
  unfolding bump_shared_authority write_role bump_epoch
  shared_moved_on locked written base d e id current =
      moved_on d (record written { version = written.version + 1 }) base.roles (ap (λ x. x.roles) e)
        id (ap (λ v. v + 1) current)

  same_or : (d : Db) → d ≡ db → KeptOrMovedOn db role_id version d
  same_or d e = inl (record {
    users = ap (λ x. x.users) e;
    state = ap (λ x. x.state) e;
    permissions = ap (λ x. x.permissions) e;
    roles = ap (λ x. x.roles) e;
    role_permissions = ap (λ x. x.role_permissions) e;
    user_roles = ap (λ x. x.user_roles) e;
  })

  row_id :
      (locked : LockedSharedRole) (i : ℕ)
      → i ≡ role_id
      → find_live_role db i ≡ some locked.role
      → locked.role.id ≡ role_id
  row_id locked i same found = (find_live_role_lem db i locked.role found).0 ∙ same

  moves :
      (py : Python) (c : Command)
      → Expects c role_id version
      → Writes py c db (KeptOrMovedOn db role_id version)
  moves py (update_status _ _ _) e = absurd e
  moves py (revoke_sessions _ _) e = absurd e
  moves py (change_roles _ _ _ _ _) e = absurd e
  moves py (create _ _ _) e = absurd e
  moves py (update context i request v) e = Ensures-of _ λ r h.
      let (locked, l, guard, current, done) = update_ok py context db i request v r h in
      let found =
        (lock_shared_role_change-IsLockedRole context i Keys.roles_update true db locked l).row in
      let row = record (updated_role py request locked.role).1 {
        version = locked.role.version + 1;
      } in
      elim (Bool-cases (updated_role py request locked.role).0) [
        | inl changed ↦ inr (
            moved_on r.1 row db.roles
              (ap (λ x. x.1.roles) done
                ∙ unfold apply_update updated_role write_role bump_epoch in rw changed)
              (unfold updated_role in row_id locked i e.0 found) (ap (λ v. v + 1) (current ∙ e.1)))
        | inr unchanged ↦
            same_or r.1 (ap (λ x. x.1) done ∙ unfold apply_update updated_role in rw unchanged)
      ]
  moves py (set_active context i is_active v) e = Ensures-of _ λ r h.
      let (locked, l, guard, current, done) = active_ok py context db i is_active v r h in
      let found =
        (lock_shared_role_change-IsLockedRole context i Keys.roles_status_update true db locked
          l).row in
      elim (Bool-cases (xor locked.role.is_active is_active)) [
        | inl changed ↦ inr (
            shared_moved_on locked (record locked.role { is_active = is_active }) db r.1
              (ap (λ x. x.1) done ∙ unfold apply_active in rw changed) (row_id locked i e.0 found)
              (current ∙ e.1))
        | inr unchanged ↦ same_or r.1 (ap (λ x. x.1) done ∙ unfold apply_active in rw unchanged)
      ]
  moves py (soft_delete context i v now) e = Ensures-of _ λ r h.
      let (locked, l, guard, current, done) = delete_ok py context db i v now r h in
      let found =
        (lock_shared_role_change-IsLockedRole context i Keys.roles_delete true db locked l).row in
      inr (
        shared_moved_on locked
          (record locked.role {
            is_active = false;
            deleted_at = some now;
            deleted_by_user_id = some locked.actor.user_id;
          })
          (delete_role_permissions (λ g. g.role_id == i) now locked.actor.user_id
            (delete_user_roles (λ a. a.role_id == i) now locked.actor.user_id db))
          r.1 (ap (λ x. x.1) done ∙ unfold apply_delete in refl) (row_id locked i e.0 found)
          (current ∙ e.1))
  moves py (change_permissions context i ids operation v now) e = Ensures-of _ λ r h.
      let (locked, l, plane, allowed, current, done) =
        permission_change_ok py context db i (to_set ids) operation v now r h in
      let found =
        (lock_shared_role_change-IsLockedRole context i (required_for_permissions operation) false
          db locked l).row in
      let after = keys_after py context db operation locked (to_set ids) in
      elim (Bool-cases (same_set locked.role_before.permissions after)) [
        | inl unchanged ↦
            same_or r.1 (ap (λ x. x.1) done ∙ unfold apply_permissions in rw unchanged)
        | inr changed ↦ inr (
            shared_moved_on locked locked.role
              (write_role_permissions operation now i locked (load_permission_keys db (to_set ids))
                (to_set ids) db)
              r.1 (ap (λ x. x.1) done ∙ unfold apply_permissions in rw changed)
              (row_id locked i e.0 found) (current ∙ e.1))
      ]

-- Of two requests, one right after the other, that expect one version of one role, at most one changes any
-- table other than the audit log.
pub execute-no_lost_update :
    (py : Python) (first_one second_one : Command) (db : Db) (role_id version : ℕ)
    → Expects first_one role_id version
    → Expects second_one role_id version
    → SameTables (execute py first_one db) db
      ⊎ SameTables (execute py second_one (execute py first_one db)) (execute py first_one db)
unfolding find_live_role
execute-no_lost_update py a b db role_id version ea eb = second (
    execute_keeps py (KeptOrMovedOn db role_id version) stable a db
      (moves db role_id version py a ea) (same_or db role_id version db refl))
  where
    stable :
        (d : Db) (events : List RbacAuditEvent)
        → KeptOrMovedOn db role_id version d
        → KeptOrMovedOn db role_id version (record d { audit_events = events })
    stable d events (inl s) = inl (record {
      users = s.users;
      state = s.state;
      permissions = s.permissions;
      roles = s.roles;
      role_permissions = s.role_permissions;
      user_roles = s.user_roles;
    })
    stable d events (inr moved) = inr moved

    second :
        KeptOrMovedOn db role_id version (execute py a db)
        → SameTables (execute py a db) db
          ⊎ SameTables (execute py b (execute py a db)) (execute py a db)
    second (inl same) = inl same
    second (inr moved) = inr (
        execute-stale_version py b (execute py a db) role_id version eb
          (λ role found old. let next = moved role found in absurd (ground arith)))
