-- ===== src/Service/Sessions.antt =====
-- What ends the sessions of a user: a token is refused once the version that it carries is an old one.
use fastapi_templates_xtn.Prelude.{
  ℕ, ◌+◌, ◌≤◌, ◌≡◌, ◌≢◌, refl, sym, ◌∙◌, ap, false, ◌&&◌, some, List, [], ◌∷◌, ok, Ensures,
  Ensures-of, nat_eq, arith, ◌==◌, is_none, first, update_if, Bool-cases, inl, inr,
}
use fastapi_templates_xtn.Audit.{Python}
use fastapi_templates_xtn.Domain.Keys
use fastapi_templates_xtn.Domain.Snapshot.{AuthorizationContext, AuthoritySnapshot}
use fastapi_templates_xtn.Models.{User, Db}
use fastapi_templates_xtn.Repository.{find_live_user, require_current_actor}
use fastapi_templates_xtn.Service.Base.{write_user, bump_epoch}
use fastapi_templates_xtn.Service.Locking.{LockedTarget}
use fastapi_templates_xtn.Service.Locking.Facts.{
  find_live_user_lem, require_current_actor-IsCurrent, lock_actor_and_target_user-IsLockedTarget,
}
use fastapi_templates_xtn.Service.Users.{
  xor, with_status, apply_status, status_operation, revoke_operation,
}
use fastapi_templates_xtn.Service.Success.{status_ok, revoke_ok}

first_written_user :
    (row : User) (user_id : ℕ) (rows : List User) (u : User)
    → row.id ≡ user_id
    → first
        (λ x. (x.id == user_id) && is_none x.deleted_at)
        (update_if (λ x. x.id == row.id) (λ _. row) rows)
      ≡ some u
    → u ≡ row
first_written_user row user_id [] u same h = absurd (cc)
first_written_user row user_id (x ∷ rows) u same h = elim (Bool-cases (x.id == row.id)) [
  | inl hit ↦ elim (Bool-cases ((row.id == user_id) && is_none row.deleted_at)) [
    | inl found ↦ ground arith
    | inr gone ↦ first_written_user row user_id rows u same (ground arith)
  ]
  | inr miss ↦
      let other : (x.id == user_id) ≡ false = ap (λ i. x.id == i) (sym same) ∙ miss in
      first_written_user row user_id rows u same (ground arith)
]

-- Tokens of the principal are refused in the database.
abbrev pub IsRefused : AuthorizationContext → Db → Type 0
IsRefused victim d =
    (s : AuthoritySnapshot)
    → require_current_actor d victim.principal.user_id victim.principal.token_version ≢ ok s

module _ (victim : AuthorizationContext) (db : Db) (u : User)
    (found : find_live_user db victim.principal.user_id ≡ some u)
    (issued : victim.principal.token_version ≤ u.token_version) where
  pub refused :
      (d : Db) (row : User)
      → d.users ≡ update_if (λ x. x.id == row.id) (λ _. row) db.users
      → row.id ≡ victim.principal.user_id
      → row.token_version ≡ u.token_version + 1
      → IsRefused victim d
  unfolding find_live_user
  refused d row e id next s current =
      let c = require_current_actor-IsCurrent victim d s current in
      let same : c.actor_row ≡ row =
        first_written_user row victim.principal.user_id db.users c.actor_row id (
          ap (first (λ x. (x.id == victim.principal.user_id) && is_none x.deleted_at)) (sym e)
          ∙ c.found) in
      let version : row.token_version ≡ victim.principal.token_version =
        ap {A = User} (λ x. x.token_version) (sym same) ∙ c.current in
      absurd (ground arith)

  target_row :
      (locked : LockedTarget)
      → find_live_user db victim.principal.user_id ≡ some locked.target_row
      → locked.target_row ≡ u
  target_row locked e = let both = sym e ∙ found in ground arith

  -- Once the sessions of a user have been revoked, every token of that user is refused that carries the
  -- version from before the request or an earlier one.
  pub revoke_operation-IsRefused :
      (py : Python) (context : AuthorizationContext)
      → Ensures
          (revoke_operation py context victim.principal.user_id db)
          (λ r. IsRefused victim r.1)
  unfolding write_user
  revoke_operation-IsRefused py context = Ensures-of _ λ r h.
      let (locked, e, allowed, done) = revoke_ok py context db victim.principal.user_id r h in
      let row =
        (lock_actor_and_target_user-IsLockedTarget context victim.principal.user_id
          Keys.users_sessions_revoke [] db locked e).row in
      refused r.1 (record locked.target_row { token_version = locked.target_row.token_version + 1 })
        (ap (λ d. d.users) done)
        (find_live_user_lem db victim.principal.user_id locked.target_row row).0
        (ap {A = User} (λ x. x.token_version + 1) (target_row locked row))

inactive-IsRefused :
    (victim : AuthorizationContext) (d : Db)
    → ((u : User) → find_live_user d victim.principal.user_id ≡ some u → u.is_active ≡ false)
    → IsRefused victim d
inactive-IsRefused victim d inactive s current =
    let c = require_current_actor-IsCurrent victim d s current in
    let off = inactive c.actor_row c.found in let on = c.active in cc

suspended :
    (db d : Db) (row : User) (user_id : ℕ)
    → d.users ≡ update_if (λ x. x.id == row.id) (λ _. row) db.users
    → row.id ≡ user_id
    → row.is_active ≡ false
    → (u : User) → find_live_user d user_id ≡ some u
    → u.is_active ≡ false
unfolding find_live_user
suspended db d row user_id e id off u found =
    ap {A = User} (λ x. x.is_active)
      (first_written_user row user_id db.users u id
        (ap (first (λ x. (x.id == user_id) && is_none x.deleted_at)) (sym e) ∙ found))
    ∙ off

-- Once a user has been suspended, every token of that user is refused, whatever version it carries.
pub status_operation-IsRefused :
    (py : Python) (context victim : AuthorizationContext) (db : Db)
    → Ensures
        (status_operation py context victim.principal.user_id false db)
        (λ r. IsRefused victim r.1)
unfolding write_user bump_epoch
status_operation-IsRefused py context victim db = Ensures-of _ λ r h.
    let t = victim.principal.user_id in
    let (locked, e, allowed, done) = status_ok py context db t false r h in
    let row =
      (lock_actor_and_target_user-IsLockedTarget context t Keys.users_status_update [] db locked
        e).row in
    inactive-IsRefused victim r.1 (elim (Bool-cases (xor locked.target_row.is_active false)) [
      | inl changed ↦
          suspended db r.1 (with_status locked.target_row false) t
            (ap (λ x. x.1.users) done ∙ unfold apply_status in rw changed)
            (find_live_user_lem db t locked.target_row row).0 refl
      | inr unchanged ↦ λ u found.
          let base : r.1 ≡ db = ap (λ x. x.1) done ∙ unfold apply_status in rw unchanged in
          let same : some u ≡ some locked.target_row =
            sym found ∙ ap (λ d. find_live_user d t) base ∙ row in
          let off : locked.target_row.is_active ≡ false = ground arith in ground arith
    ])
