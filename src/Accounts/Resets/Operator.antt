-- ===== src/Accounts/Resets/Operator.antt =====
-- services/authentication.py: what an operator's reset has written once it has succeeded.
use fastapi_templates_xtn.Prelude.{
  ℕ, ◌≤◌, ◌≡◌, refl, sym, ap, ◌∙◌, String, Bool, true, [], ◌∷◌, some, ok, bind_inv, arith, nat_eq,
  or_raise, require, same_set, ◌↔◌,
}
use fastapi_templates_xtn.Errors.{forbidden, not_found, conflict}
use fastapi_templates_xtn.Domain.Snapshot.{AuthorizationContext, AuthoritySnapshot}
use fastapi_templates_xtn.Models.{User, Db}
use fastapi_templates_xtn.Repository.{
  find_live_user, lock_rbac_state, lock_users, user_of, load_authority_snapshot,
  load_live_super_admin_holder_ids,
}
use fastapi_templates_xtn.Repository.Grants.{load_authority_snapshot_of}
use fastapi_templates_xtn.Service.Base.{write_user}
use fastapi_templates_xtn.Service.Sessions.{IsRefused}
use fastapi_templates_xtn.Service.Locking.Facts.{load_authority_snapshot_lem}
use fastapi_templates_xtn.Passwords.{validate_new_password}
use fastapi_templates_xtn.Passwords.Acceptance.{IsAcceptable}
use fastapi_templates_xtn.Accounts.{
  Platform, Accounts, Attempt, raised, lift, record_event, add_event, in_transaction, and_then,
}
use fastapi_templates_xtn.Accounts.Credentials.{write_row, new_hash, or_policy_response}
use fastapi_templates_xtn.Accounts.Rows.{
  ended_by, found_row, contains_first, record_event_lem, in_transaction_lem, and_then_lem,
}
use fastapi_templates_xtn.Accounts.Changes.Renewal.{IsRenewed, rotated-IsRenewed}
use fastapi_templates_xtn.Accounts.Changes.{rotated}
use fastapi_templates_xtn.Accounts.Changes.Revocation.{accepted_hash, validated_text}
use fastapi_templates_xtn.Accounts.Resets.SuperAdmins.{HoldsSuperAdmin, sole_holder}
use fastapi_templates_xtn.Accounts.Resets.{
  identity_values_of, operator_event, operator_operation, operator_reset_super_admin_password,
}

-- The row is that of the one user with a live assignment of the live super administrator's role.
pub record IsSoleSuperAdmin (user_id : ℕ) (db : Db) (row : User) : Type 0 where
  pub live : find_live_user db user_id ≡ some row
  pub id : row.id ≡ user_id
  pub active : row.is_active ≡ true
  pub sole : (i : ℕ) → HoldsSuperAdmin db i ↔ (i ≡ user_id)
  pub authority : (load_authority_snapshot_of db true row).is_super_admin ≡ true

module _ (platform : Platform) (user_id : ℕ) where
  -- The row that an operator's reset has written, and what held of it before.
  pub record IsOperatorReset (temporary_password request_id : String) (salt now : ℕ)
      (before after : Accounts) : Type 0 where
    pub row : User
    pub target : IsSoleSuperAdmin user_id before.db row
    pub acceptable : IsAcceptable platform.unicode (identity_values_of row) temporary_password
    pub written :
        IsRenewed row
          (platform.argon2.hash salt temporary_password)
          true
          now
          (operator_event request_id row.id)
          before
          after
    pub ended :
        (victim : AuthorizationContext)
        → victim.principal.user_id ≡ user_id
        → victim.principal.token_version ≤ row.token_version
        → IsRefused victim after.db

  operated :
      (temporary_password request_id made : String) (now : ℕ) (a : Accounts) (r : Bool × Accounts)
      → operator_operation platform user_id temporary_password request_id made now a ≡ ok r
      → (row : User) × IsSoleSuperAdmin user_id a.db row
        × IsAcceptable platform.unicode (identity_values_of row) temporary_password
        × (r.1
            ≡ add_event platform.python
                (operator_event request_id row.id)
                (write_row (rotated row made true now) a))
  unfolding operator_operation
  operated temporary_password request_id made now a r h =
      let gone = raised (not_found "user_not_found") in
      let (state, e1, h1) = bind_inv (lift (lock_rbac_state a.db)) _ h in
      let (row, e2, h2) =
        bind_inv (or_raise (user_of (lock_users a.db (user_id ∷ [])) user_id) gone) _ h1 in
      let (u1, e3, h3) = bind_inv (require row.is_active gone) _ h2 in
      let (u2, e4, h4) =
        bind_inv
          (require (same_set (load_live_super_admin_holder_ids a.db) (user_id ∷ []))
            (raised (conflict "operator_reset_requires_sole_super_admin")))
          _ h3 in
      let (authority, e5, h5) = bind_inv (lift (load_authority_snapshot a.db user_id true)) _ h4 in
      let (u3, e6, h6) =
        bind_inv
          (require authority.is_super_admin
            (raised (forbidden "operator_reset_requires_super_admin")))
          _ h5 in
      let (accepted, e7, h7) =
        bind_inv
          (or_policy_response
            (validate_new_password platform.unicode (identity_values_of row) temporary_password))
          _ h6 in
      let (b, e8, h8) =
        bind_inv
          (record_event platform.python (operator_event request_id row.id)
            (write_row (rotated row made true now) a))
          _ h7 in
      let done : (true, b) ≡ r = ground arith in
      let found : user_of (lock_users a.db (user_id ∷ [])) user_id ≡ some row = ground arith in
      let (live, id) =
        found_row a.db (user_id ∷ []) user_id row (contains_first user_id []) found in
      let loaded =
        load_authority_snapshot_lem a.db user_id true row authority live (ground arith) in
      (
        row,
        record {
          live = live;
          id = id;
          active = ground arith;
          sole = sole_holder a.db user_id (ground arith);
          authority =
              ap {A = AuthoritySnapshot} (λ s. s.is_super_admin) (sym loaded) ∙ ground arith;
        },
        validated_text platform (identity_values_of row) temporary_password accepted e7,
        ap (λ x. x.1) (sym done) ∙ record_event_lem platform.python _ _ b e8,
      )

  -- Once an operator's reset has returned, the user was live, active and the only one with a live assignment
  -- of a live role with the super administrator's key, with its authority; the temporary password is
  -- acceptable for the name; the user's row is the one from before with its hash, the demand to change it,
  -- the time and the next token version, and besides it only one event has been written; and the database
  -- refuses every token of the user that carries the version from before or an earlier one.
  pub operator_reset_super_admin_password-IsOperatorReset :
      (temporary_password request_id : String) (salt now : ℕ) (a : Accounts) (answer : Bool)
      → let result =
          operator_reset_super_admin_password platform user_id temporary_password request_id salt
            now a in
        result.0 ≡ ok answer → IsOperatorReset temporary_password request_id salt now a result.1
  unfolding operator_reset_super_admin_password write_user
  operator_reset_super_admin_password-IsOperatorReset temporary_password request_id salt now a
        answer h =
      let op : String → Accounts → Attempt (Bool × Accounts) =
        λ made. operator_operation platform user_id temporary_password request_id made now in
      let last : String → Accounts → Attempt Bool × Accounts =
        λ made b. in_transaction (op made) b in
      let (made, hashed, done, after) =
        and_then_lem (new_hash platform [] salt temporary_password, a) last answer h in
      let (row, target, fine, result) =
        operated temporary_password request_id made now a _
          (in_transaction_lem (op made) a answer done) in
      let (is_made, _) = accepted_hash platform [] salt temporary_password made hashed in
      let final = after ∙ result in
      record {
        row = row;
        target = target;
        acceptable = fine;
        written = rotated-IsRenewed platform.python user_id row _ true now _ a _ target.live (
            final
            ∙ ap
                (λ m.
                  add_event platform.python (operator_event request_id row.id)
                    (write_row (rotated row m true now) a))
                is_made);
        ended =
            ended_by user_id a (and_then (new_hash platform [] salt temporary_password, a) last).1
              row (rotated row made true now) target.live target.id refl (ground arith)
              (ap (λ x. x.db.users) final);
      }
