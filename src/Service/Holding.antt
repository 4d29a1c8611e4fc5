-- ===== src/Service/Holding.antt =====
-- What `change_user_roles` has done to the target, when it returns.
use fastapi_templates_xtn.Prelude.{
  ℕ, ◌≡◌, refl, ◌∙◌, ap, Bool, true, false, ◌&&◌, ◌||◌, List, [], ◌∷◌, map, Ensures, Ensures-of,
  nat_eq, arith, ◌==◌, is_none, any, any-append, contains, contains-to_set, contains-diff, diff,
  inter, contains-inter, keep_if, update_if, sorted_ids, any-sorted_ids, Bool-cases, inl, inr,
  nat_beq_iff, beq_refl,
}
use fastapi_templates_xtn.Audit.{Python}
use fastapi_templates_xtn.Domain.Snapshot.{AuthorizationContext}
use fastapi_templates_xtn.Policy.{RoleOperation, bind, unbind, is_bind}
use fastapi_templates_xtn.Models.{UserRole, Db}
use fastapi_templates_xtn.Service.Base.{
  write_user, bump_epoch, delete_user_roles, delete_assignment,
}
use fastapi_templates_xtn.Service.UserRoles.{
  is_empty, existing_role_ids, changed_role_ids, write_user_roles, new_assignment,
  apply_role_change, role_change_operation,
}
use fastapi_templates_xtn.Service.Success.{role_change_operation-IsRoleChange}

-- The user has a live assignment of the role.
abbrev holds : ℕ → ℕ → UserRole → Bool
holds user_id role_id a = (a.user_id == user_id) && (a.role_id == role_id) && is_none a.deleted_at

unfoldable pub holds_role : Db → ℕ → ℕ → Bool
holds_role db user_id role_id = any (holds user_id role_id) db.user_roles

existing_lem :
    (user_id role_id : ℕ) (requested : List ℕ) (rows : List UserRole)
    → contains requested role_id ≡ true
    → contains
        (map
          (λ a. a.role_id)
          (keep_if
            (λ a. (a.user_id == user_id) && contains requested a.role_id && is_none a.deleted_at)
            rows))
        role_id
      ≡ any (holds user_id role_id) rows
unfolding contains
existing_lem user_id role_id requested [] m = refl
existing_lem user_id role_id requested (a ∷ rows) m = elim (Bool-cases (a.role_id == role_id)) [
  | inl same ↦
      let listed : contains requested a.role_id ≡ true =
        ap (contains requested) ((nat_beq_iff a.role_id role_id).0 same) ∙ m in
      ground (arith, existing_lem user_id role_id requested rows m)
  | inr other ↦ ground (arith, existing_lem user_id role_id requested rows m)
]

new_lem :
    (user_id actor_id role_id : ℕ) (ids : List ℕ)
    → any (holds user_id role_id) (map (new_assignment user_id actor_id) ids)
      ≡ any (λ x. x == role_id) ids
new_lem user_id actor_id role_id [] = refl
new_lem user_id actor_id role_id (i ∷ ids) =
    ground (arith, new_lem user_id actor_id role_id ids, beq_refl user_id)

deleted_lem :
    (user_id role_id now actor_id : ℕ) (changed : List ℕ) (rows : List UserRole)
    → contains changed role_id ≡ true
    → any (holds user_id role_id) (
        update_if
          (λ a. ((a.user_id == user_id) && contains changed a.role_id) && is_none a.deleted_at)
          (delete_assignment now actor_id)
          rows)
      ≡ false
deleted_lem user_id role_id now actor_id changed [] m = refl
deleted_lem user_id role_id now actor_id changed (a ∷ rows) m =
    elim (Bool-cases (a.role_id == role_id)) [
      | inl same ↦
          let listed : contains changed a.role_id ≡ true =
            ap (contains changed) ((nat_beq_iff a.role_id role_id).0 same) ∙ m in
          ground (arith, deleted_lem user_id role_id now actor_id changed rows m)
      | inr other ↦ ground (arith, deleted_lem user_id role_id now actor_id changed rows m)
    ]

none_lem :
    (user_id role_id now actor_id : ℕ) (changed : List ℕ) (rows : List UserRole)
    → any (holds user_id role_id) rows ≡ false
    → any (holds user_id role_id) (
        update_if
          (λ a. ((a.user_id == user_id) && contains changed a.role_id) && is_none a.deleted_at)
          (delete_assignment now actor_id)
          rows)
      ≡ false
none_lem user_id role_id now actor_id changed [] h = refl
none_lem user_id role_id now actor_id changed (a ∷ rows) h =
    ground (arith, none_lem user_id role_id now actor_id changed rows (ground arith))

module _ (db : Db) (t role_id : ℕ) (requested : List ℕ)
    (m : contains requested role_id ≡ true) where
  existing_holds : contains (existing_role_ids db t requested) role_id ≡ holds_role db t role_id
  unfolding existing_role_ids holds_role
  existing_holds = contains-to_set _ role_id ∙ existing_lem t role_id requested db.user_roles m

  -- The writes of a change, or their absence, leave the role held exactly after a bind.
  written_holds :
      (operation : RoleOperation) (now actor_id : ℕ)
      → holds_role
          (write_user_roles operation now actor_id t
            (changed_role_ids operation requested (existing_role_ids db t requested))
            db)
          t
          role_id
        ≡ is_bind operation
  unfolding holds_role write_user_roles delete_user_roles changed_role_ids
  written_holds bind now actor_id =
      let existing = existing_role_ids db t requested in
      let changed = diff requested existing in
      any-append (holds t role_id) db.user_roles
        (map (new_assignment t actor_id) (sorted_ids changed))
      ∙ ap (◌||◌ (any (holds t role_id) db.user_roles)) (
          new_lem t actor_id role_id (sorted_ids changed)
          ∙ any-sorted_ids changed role_id
          ∙ contains-diff requested existing role_id)
      ∙ ground (arith, existing_holds)
  written_holds unbind now actor_id =
      let existing = existing_role_ids db t requested in
      let changed = inter requested existing in
      elim (Bool-cases (contains changed role_id)) [
        | inl hit ↦ deleted_lem t role_id now actor_id changed db.user_roles hit
        | inr miss ↦
            none_lem t role_id now actor_id changed db.user_roles
              (ground (arith, existing_holds, contains-inter requested existing role_id))
      ]

  nothing_changed : (ids : List ℕ) → is_empty ids ≡ true → contains ids role_id ≡ false
  unfolding contains
  nothing_changed [] h = refl
  nothing_changed (i ∷ ids) h = absurd (cc)

  kept_holds :
      (operation : RoleOperation)
      → is_empty (changed_role_ids operation requested (existing_role_ids db t requested)) ≡ true
      → holds_role db t role_id ≡ is_bind operation
  unfolding changed_role_ids
  kept_holds bind e =
      let existing = existing_role_ids db t requested in
      ground (
        arith,
        existing_holds,
        contains-diff requested existing role_id,
        nothing_changed (diff requested existing) e,
      )
  kept_holds unbind e =
      let existing = existing_role_ids db t requested in
      ground (
        arith,
        existing_holds,
        contains-inter requested existing role_id,
        nothing_changed (inter requested existing) e,
      )

-- When a change of a user's roles returns, the user has a live assignment of each requested role after a
-- bind, and of none of them after an unbind.
pub role_change_operation-holds_role :
    (py : Python) (context : AuthorizationContext) (t : ℕ) (requested : List ℕ)
    (operation : RoleOperation) (now : ℕ) (db : Db)
    → Ensures (role_change_operation py context t requested operation now db) (λ r.
      (role_id : ℕ)
      → contains requested role_id ≡ true
      → holds_role r.1 t role_id ≡ is_bind operation)
unfolding write_user bump_epoch holds_role
role_change_operation-holds_role py context t requested operation now db = Ensures-of _ λ r h.
    let (locked, roles, e, change, done) =
      role_change_operation-IsRoleChange py context db t requested operation now r h in
    let changed = changed_role_ids operation requested (existing_role_ids db t requested) in
    elim (Bool-cases (is_empty changed)) [
      | inl unchanged ↦ λ role_id m.
          let same : r.1 ≡ db = ap (λ x. x.1) done ∙ unfold apply_role_change in rw unchanged in
          ap (λ d. any (holds t role_id) d.user_roles) same
          ∙ kept_holds db t role_id requested m operation unchanged
      | inr some_changed ↦ λ role_id m.
          let rows : r.1.user_roles
              ≡ (write_user_roles operation now locked.actor.user_id t changed db).user_roles =
            ap (λ x. x.1.user_roles) done ∙ unfold apply_role_change in rw some_changed in
          ap (any (holds t role_id)) rows
          ∙ written_holds db t role_id requested m operation now locked.actor.user_id
    ]
