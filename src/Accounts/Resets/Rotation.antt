-- ===== src/Accounts/Resets/Rotation.antt =====
-- services/authentication.py: what a reset of a password has written once it has succeeded.
use fastapi_templates_xtn.Prelude.{
  ℕ, ◌≤◌, ◌≡◌, refl, sym, ap, ◌∙◌, subst, String, Bool, true, List, ok, err, bind_inv, arith,
  nat_eq, string_eq,
}
use fastapi_templates_xtn.Errors.{rbac_error, value_error, key_error}
use fastapi_templates_xtn.Domain.Snapshot.{AuthorizationContext}
use fastapi_templates_xtn.Models.{User}
use fastapi_templates_xtn.Service.Base.{write_user}
use fastapi_templates_xtn.Service.Sessions.{IsRefused}
use fastapi_templates_xtn.Passwords.{validate_new_password}
use fastapi_templates_xtn.Passwords.Acceptance.{IsAcceptable}
use fastapi_templates_xtn.Accounts.{
  Platform, Accounts, Attempt, raised, rate_limited, runtime_error, integrity_error,
  invalid_login_credentials, lift, record_event, add_event, in_transaction, and_then,
}
use fastapi_templates_xtn.Accounts.Credentials.{write_row, new_hash, or_policy_response}
use fastapi_templates_xtn.Accounts.Rows.{
  ended_by, record_event_lem, in_transaction_lem, and_then_lem,
}
use fastapi_templates_xtn.Accounts.Changes.Renewal.{IsRenewed, rotated-IsRenewed}
use fastapi_templates_xtn.Accounts.Changes.{rotated, user_event}
use fastapi_templates_xtn.Accounts.Changes.Revocation.{accepted_hash, validated_text}
use fastapi_templates_xtn.Accounts.Resets.Authority.{
  IsAuthorized, lock_authorized_reset_target-IsAuthorized,
}
use fastapi_templates_xtn.Accounts.Resets.{
  identity_values_of, ResetMode, requires_change, reset_reason, reset_action,
  lock_authorized_reset_target, with_denial, authorize_operation, reset_operation, reset_authorized,
  reset_user_password,
}

module _ (platform : Platform) (context : AuthorizationContext) (target_user_id : ℕ) where
  with_denial_lem :
      {T : Type 0} (step : Attempt T × Accounts) (answer : T)
      → (with_denial platform context target_user_id step).0 ≡ ok answer
      → (step.0 ≡ ok answer) × ((with_denial platform context target_user_id step).1 ≡ step.1)
  unfolding with_denial
  with_denial_lem (ok v, a) answer h = (h, refl)
  with_denial_lem (err (raised (rbac_error e)), a) answer h = absurd (cc)
  with_denial_lem (err (raised (value_error m)), a) answer h = absurd (cc)
  with_denial_lem (err (raised (key_error k)), a) answer h = absurd (cc)
  with_denial_lem (err (rate_limited e), a) answer h = absurd (cc)
  with_denial_lem (err (runtime_error m), a) answer h = absurd (cc)
  with_denial_lem (err (integrity_error c), a) answer h = absurd (cc)
  with_denial_lem (err invalid_login_credentials, a) answer h = absurd (cc)

  -- The row that a reset has written, and what held of it before.
  pub record IsReset (new_password : String) (mode : ResetMode) (salt now : ℕ)
      (before after : Accounts) : Type 0 where
    pub row : User
    pub authorized : IsAuthorized context target_user_id before.db row
    pub acceptable : IsAcceptable platform.unicode (identity_values_of row) new_password
    pub written :
        IsRenewed row
          (platform.argon2.hash salt new_password)
          (requires_change mode)
          now
          (user_event context reset_action (reset_reason mode) row.id)
          before
          after
    pub ended :
        (victim : AuthorizationContext)
        → victim.principal.user_id ≡ target_user_id
        → victim.principal.token_version ≤ row.token_version
        → IsRefused victim after.db

  operated :
      (new_password made : String) (mode : ResetMode) (now : ℕ) (a : Accounts) (r : Bool × Accounts)
      → reset_operation platform context target_user_id new_password mode made now a ≡ ok r
      → (row : User) × IsAuthorized context target_user_id a.db row
        × IsAcceptable platform.unicode (identity_values_of row) new_password
        × (r.1
            ≡ add_event platform.python
                (user_event context reset_action (reset_reason mode) row.id)
                (write_row (rotated row made (requires_change mode) now) a))
  unfolding reset_operation
  operated new_password made mode now a r h =
      let (row, e1, h1) =
        bind_inv (lift (lock_authorized_reset_target a.db context target_user_id)) _ h in
      let (accepted, e2, h2) =
        bind_inv
          (or_policy_response
            (validate_new_password platform.unicode (identity_values_of row) new_password))
          _ h1 in
      let (b, e3, h3) =
        bind_inv
          (record_event platform.python (user_event context reset_action (reset_reason mode) row.id)
            (write_row (rotated row made (requires_change mode) now) a))
          _ h2 in
      let done : (true, b) ≡ r = ground arith in
      (
        row,
        lock_authorized_reset_target-IsAuthorized a.db context target_user_id row (ground arith),
        validated_text platform (identity_values_of row) new_password accepted e2,
        ap (λ x. x.1) (sym done) ∙ record_event_lem platform.python _ _ b e3,
      )

  authorized_state :
      (a : Accounts) (r : List String × Accounts)
      → authorize_operation context target_user_id a ≡ ok r
      → r.1 ≡ a
  unfolding authorize_operation
  authorized_state a r h =
      let (row, e1, h1) =
        bind_inv (lift (lock_authorized_reset_target a.db context target_user_id)) _ h in
      let done : (identity_values_of row, a) ≡ r = ground arith in ap (λ x. x.1) (sym done)

  -- Once a reset has returned, its actor was current and permitted in the state that the reset met, and
  -- stood strictly above the target, another, unprotected and live user, whose authority was within the
  -- actor's; the new password is acceptable for the target's name; exactly its hash, the flag of the mode,
  -- the time, the next token version and one event have been written; and the database refuses every token
  -- of the target that carries the version from before or an earlier one.
  pub reset_user_password-IsReset :
      (new_password : String) (mode : ResetMode) (salt now : ℕ) (gap : Accounts → Accounts)
      (a : Accounts) (answer : Bool)
      → let result =
          reset_user_password platform context target_user_id new_password mode salt now gap a in
        result.0 ≡ ok answer → IsReset new_password mode salt now (gap a) result.1
  unfolding reset_user_password reset_authorized write_user
  reset_user_password-IsReset new_password mode salt now gap a answer h =
      let first : Attempt (List String) × Accounts =
        with_denial platform context target_user_id
          (in_transaction (authorize_operation context target_user_id) a) in
      let next : List String → Accounts → Attempt Bool × Accounts = λ names b.
        reset_authorized platform context target_user_id new_password mode salt now names gap b in
      let (names, e, done, after) = and_then_lem first next answer h in
      let (ok1, same1) =
        with_denial_lem (in_transaction (authorize_operation context target_user_id) a) names e in
      let kept : first.1 ≡ a =
        same1
        ∙ authorized_state a _
            (in_transaction_lem (authorize_operation context target_user_id) a names ok1) in
      let op : String → Accounts → Attempt (Bool × Accounts) =
        λ made. reset_operation platform context target_user_id new_password mode made now in
      let last : String → Accounts → Attempt Bool × Accounts =
        λ made b. with_denial platform context target_user_id (in_transaction (op made) (gap b)) in
      let (made, hashed, done2, after2) =
        and_then_lem (new_hash platform names salt new_password, first.1) last answer done in
      let (ok2, same2) = with_denial_lem (in_transaction (op made) (gap first.1)) answer done2 in
      let (row, authorized, fine, result) =
        operated new_password made mode now (gap first.1) _
          (in_transaction_lem (op made) (gap first.1) answer ok2) in
      let (is_made, _) = accepted_hash platform names salt new_password made hashed in
      let final = after ∙ after2 ∙ same2 ∙ result in
      subst (λ s. IsReset new_password mode salt now (gap s) (and_then first next).1) kept
        (record {
          row = row;
          authorized = authorized;
          acceptable = fine;
          written =
              rotated-IsRenewed platform.python target_user_id row _ (requires_change mode) now _
                (gap first.1) _ authorized.live
                (final
                  ∙ ap
                      (λ m.
                        add_event platform.python
                          (user_event context reset_action (reset_reason mode) row.id)
                          (write_row (rotated row m (requires_change mode) now) (gap first.1)))
                      is_made);
          ended =
              ended_by target_user_id (gap first.1) (and_then first next).1 row
                (rotated row made (requires_change mode) now) authorized.live authorized.id refl
                (ground arith) (ap (λ x. x.db.users) final);
        })
