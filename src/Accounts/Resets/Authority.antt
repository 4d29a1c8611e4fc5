-- ===== src/Accounts/Resets/Authority.antt =====
-- services/authentication.py: whose password an administrator or an operator resets, and what that writes.
use fastapi_templates_xtn.Prelude.{
  ℕ, ◌≡◌, subst, true, [], ◌∷◌, some, ok, bind_inv, arith, contains, nat_eq, string_eq, or_raise,
  require,
}
use fastapi_templates_xtn.Errors.{forbidden, not_found}
use fastapi_templates_xtn.Domain.Keys.{value}
use fastapi_templates_xtn.Domain.Keys
use fastapi_templates_xtn.Domain.Snapshot.{AuthorizationContext, AuthoritySnapshot}
use fastapi_templates_xtn.Policy.{is_administrative_user_visible, decide_user_password_reset}
use fastapi_templates_xtn.Policy.Rules.{MayAct, IsManageable, decide_user_administration_iff}
use fastapi_templates_xtn.Models.{User, Db}
use fastapi_templates_xtn.Repository.{
  find_live_user, lock_rbac_state, lock_users, user_of, require_current_actor,
  load_authority_snapshot,
}
use fastapi_templates_xtn.Repository.Grants.{load_authority_snapshot_of}
use fastapi_templates_xtn.Service.Base.{require_allowed}
use fastapi_templates_xtn.Service.Locking.Facts.{
  IsCurrent, require_current_actor-IsCurrent, load_authority_snapshot_lem,
}
use fastapi_templates_xtn.Accounts.Rows.{found_row, contains_second}
use fastapi_templates_xtn.Accounts.Resets.{lock_authorized_reset_target}

-- The actor may reset the password of the user of the row.
pub record IsAuthorized (context : AuthorizationContext) (target_user_id : ℕ) (db : Db) (row : User)
    : Type 0 where
  pub live : find_live_user db target_user_id ≡ some row
  pub id : row.id ≡ target_user_id
  pub actor : AuthoritySnapshot
  pub current : IsCurrent context db actor
  pub may_act : MayAct actor Keys.users_password_reset
  pub manageable : IsManageable actor (load_authority_snapshot_of db true row)

module _ (db : Db) (context : AuthorizationContext) (target_user_id : ℕ) where
  pub lock_authorized_reset_target-IsAuthorized :
      (row : User)
      → lock_authorized_reset_target db context target_user_id ≡ ok row
      → IsAuthorized context target_user_id db row
  unfolding lock_authorized_reset_target decide_user_password_reset
  lock_authorized_reset_target-IsAuthorized row h =
      let actor_id = context.principal.user_id in
      let users = lock_users db (actor_id ∷ target_user_id ∷ []) in
      let (state, e1, h1) = bind_inv (lock_rbac_state db) _ h in
      let (actor, e2, h2) =
        bind_inv (require_current_actor db actor_id context.principal.token_version) _ h1 in
      let (u1, e3, h3) =
        bind_inv
          (require (contains actor.permissions (value Keys.users_password_reset))
            (forbidden "missing_operation_permission"))
          _ h2 in
      let (target_user, e4, h4) =
        bind_inv (or_raise (user_of users target_user_id) (not_found "user_not_found")) _ h3 in
      let (target, e5, h5) = bind_inv (load_authority_snapshot db target_user_id true) _ h4 in
      let (u2, e6, h6) =
        bind_inv
          (require (is_administrative_user_visible actor target) (not_found "user_not_found")) _
          h5 in
      let (u3, e7, h7) =
        bind_inv (require_allowed (decide_user_password_reset actor target)) _ h6 in
      let found : user_of users target_user_id ≡ some row = ground arith in
      let (live, id) =
        found_row db (actor_id ∷ target_user_id ∷ []) target_user_id row
          (contains_second actor_id target_user_id) found in
      let loaded = load_authority_snapshot_lem db target_user_id true row target live e5 in
      let (may, manageable) =
        (decide_user_administration_iff Keys.users_password_reset actor target).0 (ground arith) in
      record {
        live = live;
        id = id;
        actor = actor;
        current = require_current_actor-IsCurrent context db actor e2;
        may_act = may;
        manageable = subst (IsManageable actor) loaded manageable;
      }
