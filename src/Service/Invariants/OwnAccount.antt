-- ===== src/Service/Invariants/OwnAccount.antt =====
-- Nobody changes their own account: neither the row of the caller nor an assignment of a role to the caller.
use fastapi_templates_xtn.Prelude.{
  ℕ, ◌≡◌, ◌≢◌, refl, sym, ◌∙◌, ap, Bool, true, false, not, ◌&&◌, List, [], ◌∷◌, ◌++◌, map, arith,
  ◌==◌, nat_eq, is_none, contains, keep_if, sorted_ids, All, All-map_of, All-trivial,
  keep_if-append, keep_if-update_if, nat_beq_iff, Bool-cases, inl, inr, contains-to_set, append_nil,
}
use fastapi_templates_xtn.Audit.{Python}
use fastapi_templates_xtn.Domain.Snapshot.{AuthorizationContext}
use fastapi_templates_xtn.Models.{User, UserRole, Db}
use fastapi_templates_xtn.Repository.{find_live_user}
use fastapi_templates_xtn.Service.Base.{delete_assignment}
use fastapi_templates_xtn.Service.UserRoles.{new_assignment}
use fastapi_templates_xtn.Service.Locking.{LockedSharedRole, affected_user_ids}
use fastapi_templates_xtn.Service.Locking.Facts.{find_live_user_lem}
use fastapi_templates_xtn.Service.Commands.{Command, execute, context_of, new_role_id}
use fastapi_templates_xtn.Service.Effects.{IsCustom}
use fastapi_templates_xtn.Service.Effects.Accounts.{
  UsersWritten, kept, written, bumped, bumped_user, Effect-UsersWritten,
}
use fastapi_templates_xtn.Service.Effects.Tables.{
  AssignmentsWritten, kept, bound, unbound, role_deleted, Effect-AssignmentsWritten,
}
use fastapi_templates_xtn.Service.Invariants.{execute_by_Effect}

-- A user whose id is not among those of the kept rows has no such row.
unlisted :
    (q : UserRole → Bool) (rows : List UserRole) (user_id : ℕ)
    → contains (map (λ a. a.user_id) (keep_if q rows)) user_id ≡ false
    → All (λ a. q a ≡ true → (a.user_id == user_id) ≡ false) rows
unfolding contains
unlisted q [] user_id h = tt
unlisted q (a ∷ rows) user_id h = elim (Bool-cases (q a)) [
  | inl hit ↦ (λ _. ground arith, unlisted q rows user_id (ground arith))
  | inr miss ↦ (λ hit. absurd (cc), unlisted q rows user_id (ground arith))
]

module _ (context : AuthorizationContext) (db : Db) where
  not_me_of : (t : ℕ) → context.principal.user_id ≢ t → (t == context.principal.user_id) ≡ false
  not_me_of t other = elim (Bool-cases (t == context.principal.user_id)) [
    | inl same ↦ absurd (other (sym ((nat_beq_iff t context.principal.user_id).0 same)))
    | inr differs ↦ differs
  ]

  not_assigned :
      (role_id : ℕ) (locked : LockedSharedRole)
      → IsCustom context db role_id locked
      → All
          (λ a.
            ((a.role_id == role_id) && is_none a.deleted_at) ≡ true
            → (a.user_id == context.principal.user_id) ≡ false)
          db.user_roles
  unfolding affected_user_ids
  not_assigned role_id locked custom =
      All-map_of db.user_roles (λ a f hit. not_me a f hit)
        (unlisted
          (λ a.
            (a.role_id == role_id)
            && is_none a.deleted_at
            && not (is_none (find_live_user db a.user_id)))
          db.user_roles context.principal.user_id
          (sym (contains-to_set _ context.principal.user_id)
            ∙ ap (λ ids. contains ids context.principal.user_id) (sym custom.affected)
            ∙ custom.not_held))
    where
      not_me :
          (a : UserRole)
          → (((a.role_id == role_id)
                  && is_none a.deleted_at
                  && not (is_none (find_live_user db a.user_id)))
                ≡ true
              → (a.user_id == context.principal.user_id) ≡ false)
          → ((a.role_id == role_id) && is_none a.deleted_at) ≡ true
          → (a.user_id == context.principal.user_id) ≡ false
      not_me a f hit = elim (Bool-cases (a.user_id == context.principal.user_id)) [
        | inr other ↦ other
        | inl mine ↦
            let live : is_none (find_live_user db a.user_id) ≡ false =
              ap (λ u. is_none (find_live_user db u))
                ((nat_beq_iff a.user_id context.principal.user_id).0 mine)
              ∙ ap is_none custom.actor.found in
            f (ground arith)
      ]

  own_row :
      (rows : List User)
      → UsersWritten context db rows
      → keep_if (λ u. u.id == context.principal.user_id) rows
        ≡ keep_if (λ u. u.id == context.principal.user_id) db.users
  own_row rows (kept e) = ap (keep_if (λ u. u.id == context.principal.user_id)) e
  own_row rows (written t locked row target rev e) =
      ap (keep_if (λ u. u.id == context.principal.user_id)) e
      ∙ keep_if-update_if (λ u. u.id == context.principal.user_id) (λ u. u.id == row.id) (λ _. row)
          db.users
          (All-trivial db.users (λ u hit. (
            ap (λ i. i == context.principal.user_id) ((nat_beq_iff u.id row.id).0 hit) ∙ other,
            other,
          )))
    where
      other : (row.id == context.principal.user_id) ≡ false
      other = not_me_of row.id (λ e.
          target.another (e ∙ rev.id ∙ (find_live_user_lem db t locked.target_row target.found).0))
  own_row rows (bumped role_id locked custom e) =
      ap (keep_if (λ u. u.id == context.principal.user_id)) e
      ∙ keep_if-update_if (λ u. u.id == context.principal.user_id)
          (λ u. contains locked.affected_ids u.id && is_none u.deleted_at) bumped_user db.users
          (All-trivial db.users (λ u hit. let o = not_affected u hit in (o, o)))
    where
      not_affected :
          (u : User)
          → (contains locked.affected_ids u.id && is_none u.deleted_at) ≡ true
          → (u.id == context.principal.user_id) ≡ false
      not_affected u hit = not_me_of u.id (λ e.
          let out = ap (contains locked.affected_ids) (sym e) ∙ custom.not_held in
          absurd (ground arith))

  own_assignments :
      (rows : List UserRole)
      → AssignmentsWritten context db rows
      → keep_if (λ a. a.user_id == context.principal.user_id) rows
        ≡ keep_if (λ a. a.user_id == context.principal.user_id) db.user_roles
  own_assignments rows (kept e) = ap (keep_if (λ a. a.user_id == context.principal.user_id)) e
  own_assignments rows (bound t locked changed target f room e) =
      ap (keep_if (λ a. a.user_id == context.principal.user_id)) e
      ∙ keep_if-append (λ a. a.user_id == context.principal.user_id) db.user_roles
          (map (new_assignment t locked.actor.user_id) (sorted_ids changed))
      ∙ ap (◌++◌ (keep_if (λ a. a.user_id == context.principal.user_id) db.user_roles))
          (nothing_mine t locked.actor.user_id (sorted_ids changed) (not_me_of t target.another))
      ∙ append_nil (keep_if (λ a. a.user_id == context.principal.user_id) db.user_roles)
    where
      nothing_mine :
          (t actor_id : ℕ) (ids : List ℕ)
          → (t == context.principal.user_id) ≡ false
          → keep_if
              (λ a. a.user_id == context.principal.user_id)
              (map (new_assignment t actor_id) ids)
            ≡ []
      nothing_mine t actor_id [] h = refl
      nothing_mine t actor_id (i ∷ ids) h = ground (arith, nothing_mine t actor_id ids h)
  own_assignments rows (unbound t locked now changed target f e) =
      ap (keep_if (λ a. a.user_id == context.principal.user_id)) e
      ∙ keep_if-update_if (λ a. a.user_id == context.principal.user_id)
          (λ a. ((a.user_id == t) && contains changed a.role_id) && is_none a.deleted_at)
          (delete_assignment now locked.actor.user_id) db.user_roles
          (All-trivial db.user_roles (λ a hit. let o = mine_not a (ground arith) in (o, o)))
    where
      mine_not :
          (a : UserRole)
          → (a.user_id == t) ≡ true
          → (a.user_id == context.principal.user_id) ≡ false
      mine_not a hit =
          ap (λ i. i == context.principal.user_id) ((nat_beq_iff a.user_id t).0 hit)
          ∙ not_me_of t target.another
  own_assignments rows (role_deleted role_id locked now custom e) =
      ap (keep_if (λ a. a.user_id == context.principal.user_id)) e
      ∙ keep_if-update_if (λ a. a.user_id == context.principal.user_id)
          (λ a. (a.role_id == role_id) && is_none a.deleted_at)
          (delete_assignment now locked.actor.user_id) db.user_roles
          (All-map_of db.user_roles (λ a f hit. (f hit, f hit))
            (not_assigned role_id locked custom))

-- No request changes the account of its own caller: neither the caller's row in `users` nor any row of
-- `user_roles` that assigns a role to the caller.
pub execute-own_account :
    (py : Python) (c : Command) (db : Db)
    → (keep_if (λ u. u.id == (context_of c).principal.user_id) (execute py c db).users
        ≡ keep_if (λ u. u.id == (context_of c).principal.user_id) db.users)
      × (keep_if (λ a. a.user_id == (context_of c).principal.user_id) (execute py c db).user_roles
          ≡ keep_if (λ a. a.user_id == (context_of c).principal.user_id) db.user_roles)
execute-own_account py c db =
    execute_by_Effect py
      (λ d.
        (keep_if (λ u. u.id == (context_of c).principal.user_id) d.users
          ≡ keep_if (λ u. u.id == (context_of c).principal.user_id) db.users)
        × (keep_if (λ a. a.user_id == (context_of c).principal.user_id) d.user_roles
            ≡ keep_if (λ a. a.user_id == (context_of c).principal.user_id) db.user_roles))
      (λ d events h. h) c db
      (λ d effect. (
        own_row (context_of c) db d.users
            (Effect-UsersWritten (context_of c) db (new_role_id c) d effect),
        own_assignments (context_of c) db d.user_roles
            (Effect-AssignmentsWritten (context_of c) db (new_role_id c) d effect),
      ))
      (refl, refl)
