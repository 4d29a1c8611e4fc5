-- ===== src/Accounts/Changes/Completed.antt =====
-- services/authentication.py: what has happened once a reset has been completed with a temporary password.
use fastapi_templates_xtn.Prelude.{
  ℕ, ◌≤◌, ◌≡◌, refl, sym, ap, ◌∙◌, subst, String, Bool, true, false, [], ◌∷◌, Option, some, ok,
  bind_inv, arith, nat_eq, string_eq, eq_iff, ◌==◌, or_raise, raise_if, not,
}
use fastapi_templates_xtn.Errors.{invalid_request}
use fastapi_templates_xtn.Domain.Snapshot.{AuthorizationContext}
use fastapi_templates_xtn.Models.{User}
use fastapi_templates_xtn.Repository.{find_live_user, lock_rbac_state, lock_users, user_of}
use fastapi_templates_xtn.Service.Base.{write_user}
use fastapi_templates_xtn.Service.Sessions.{IsRefused}
use fastapi_templates_xtn.Passwords.Hashing.{match}
use fastapi_templates_xtn.Passwords.Acceptance.{IsAcceptable}
use fastapi_templates_xtn.Accounts.{
  Platform, Accounts, Attempt, raised, lift, invalid_login_credentials, record_event, add_event,
  in_transaction, and_then,
}
use fastapi_templates_xtn.Accounts.Credentials.{
  PasswordSnapshot, same_identity, same_password_state, same_text, write_row, verify_password,
  new_hash,
}
use fastapi_templates_xtn.Accounts.Login.{IdentityAbuseFlow, admit, or_invalid}
use fastapi_templates_xtn.Accounts.Rows.{
  ended_by, found_row, contains_first, record_event_lem, in_transaction_lem, and_then_lem,
  same_text-some,
}
use fastapi_templates_xtn.Accounts.Changes.Revocation.{accepted_hash, is_verified}
use fastapi_templates_xtn.Accounts.Changes.Renewal.{IsRenewed, rotated-IsRenewed}
use fastapi_templates_xtn.Accounts.Changes.{
  rotated, completed_event, is_temporary_credential, is_unchanged_temporary,
  verify_temporary_snapshot, complete_verified, complete_operation, complete_password_reset,
}

unchanged_temporary :
    (s : PasswordSnapshot) (u : User)
    → is_unchanged_temporary s u ≡ true
    → (u.is_active ≡ true)
      × (u.must_change_password ≡ true)
      × (u.user_name ≡ s.user_name)
      × (same_text u.password_hash s.password_hash ≡ true)
unfolding is_unchanged_temporary same_identity same_password_state
unchanged_temporary s u h =
    let name : (u.user_name == s.user_name) ≡ true = ground arith in
    (ground arith, ground arith, (eq_iff u.user_name s.user_name).0 name, ground arith)

module _ (platform : Platform) where
  -- The row that a completion has written, and what held of it before.
  pub record IsCompleted (temporary_password new_password request_id : String) (salt now : ℕ)
      (before after : Accounts) : Type 0 where
    pub row : User
    pub live : find_live_user before.db row.id ≡ some row
    pub active : row.is_active ≡ true
    pub temporary : row.must_change_password ≡ true
    pub encoded_hash : String
    pub stored : row.password_hash ≡ some encoded_hash
    pub matched : platform.argon2.verify encoded_hash temporary_password ≡ match
    pub acceptable : IsAcceptable platform.unicode (row.user_name ∷ []) new_password
    pub written :
        IsRenewed row
          (platform.argon2.hash salt new_password)
          false
          now
          (completed_event request_id row.id)
          before
          after
    pub ended :
        (victim : AuthorizationContext)
        → victim.principal.user_id ≡ row.id
        → victim.principal.token_version ≤ row.token_version
        → IsRefused victim after.db

  temporary_credential :
      (user_name password : String) (a : Accounts) (s : PasswordSnapshot)
      → or_invalid (verify_temporary_snapshot platform user_name password a) ≡ ok s
      → verify_password platform password s.password_hash ≡ ok true
  unfolding or_invalid verify_temporary_snapshot is_temporary_credential
  temporary_credential user_name password a s h = ground arith

  verified_and_hashed :
      (abuse_flow : Option IdentityAbuseFlow) (user_name temporary_password new_password : String)
      (salt : ℕ) (a : Accounts) (r : PasswordSnapshot × String)
      → complete_verified platform abuse_flow user_name temporary_password new_password salt a
        ≡ ok r
      → (verify_password platform temporary_password r.0.password_hash ≡ ok true)
        × (new_hash platform (r.0.user_name ∷ []) salt new_password ≡ ok r.1)
  unfolding complete_verified
  verified_and_hashed abuse_flow user_name temporary_password new_password salt a r h =
      let (u1, e1, h1) =
        bind_inv
          (raise_if (temporary_password == new_password)
            (raised (invalid_request "new_password_must_differ")))
          _ h in
      let (u2, e2, h2) = bind_inv (admit abuse_flow) _ h1 in
      let (s, e3, h3) =
        bind_inv (or_invalid (verify_temporary_snapshot platform user_name temporary_password a)) _
          h2 in
      let (made, e4, h4) = bind_inv (new_hash platform (s.user_name ∷ []) salt new_password) _ h3 in
      let done : (s, made) ≡ r = ground arith in
      subst
        (λ x.
          (verify_password platform temporary_password x.0.password_hash ≡ ok true)
          × (new_hash platform (x.0.user_name ∷ []) salt new_password ≡ ok x.1))
        done (temporary_credential user_name temporary_password a s e3, e4)

  operated :
      (request_id : String) (s : PasswordSnapshot) (made : String) (now : ℕ) (a : Accounts)
      (r : Bool × Accounts)
      → complete_operation platform request_id s made now a ≡ ok r
      → (row : User) × (find_live_user a.db row.id ≡ some row)
        × (is_unchanged_temporary s row ≡ true)
        × (r.1
            ≡ add_event platform.python
                (completed_event request_id row.id)
                (write_row (rotated row made false now) a))
  unfolding complete_operation
  operated request_id s made now a r h =
      let (state, e1, h1) = bind_inv (lift (lock_rbac_state a.db)) _ h in
      let (row, e2, h2) =
        bind_inv
          (or_raise (user_of (lock_users a.db (s.user_id ∷ [])) s.user_id)
            invalid_login_credentials)
          _ h1 in
      let (u1, e3, h3) =
        bind_inv (raise_if (not (is_unchanged_temporary s row)) invalid_login_credentials) _ h2 in
      let (b, e4, h4) =
        bind_inv
          (record_event platform.python (completed_event request_id row.id)
            (write_row (rotated row made false now) a))
          _ h3 in
      let done : (true, b) ≡ r = ground arith in
      let found : user_of (lock_users a.db (s.user_id ∷ [])) s.user_id ≡ some row = ground arith in
      let (live, id) =
        found_row a.db (s.user_id ∷ []) s.user_id row (contains_first s.user_id []) found in
      (
        row,
        ap (find_live_user a.db) id ∙ live,
        ground arith,
        ap (λ x. x.1) (sym done) ∙ record_event_lem platform.python _ _ b e4,
      )

  -- Once a completion has returned, the user was live, active and obliged to change the password in the state
  -- that it met, with a stored hash that the temporary password matches; the new password is acceptable for
  -- the user's name; exactly its hash, the cleared obligation, the time, the next token version and one event
  -- have been written; and the database refuses every token of the user from before.
  pub complete_password_reset-IsCompleted :
      (abuse_flow : Option IdentityAbuseFlow)
      (user_name temporary_password new_password request_id : String) (salt now : ℕ)
      (gap : Accounts → Accounts) (a : Accounts) (answer : Bool)
      → let result =
          complete_password_reset platform abuse_flow user_name temporary_password new_password
            request_id salt now gap a in
        result.0 ≡ ok answer
        → IsCompleted temporary_password new_password request_id salt now (gap a) result.1
  unfolding complete_password_reset write_user
  complete_password_reset-IsCompleted abuse_flow user_name temporary_password new_password
        request_id salt now gap a answer h =
      let op : PasswordSnapshot × String → Accounts → Attempt (Bool × Accounts) =
        λ x. complete_operation platform request_id x.0 x.1 now in
      let first =
        complete_verified platform abuse_flow user_name temporary_password new_password salt a in
      let last : PasswordSnapshot × String → Accounts → Attempt Bool × Accounts =
        λ x b. in_transaction (op x) (gap b) in
      let (x, e, done, after) = and_then_lem (first, a) last answer h in
      let (checked, hashed) =
        verified_and_hashed abuse_flow user_name temporary_password new_password salt a x e in
      let (row, live, same, result) =
        operated request_id x.0 x.1 now (gap a) _ (in_transaction_lem (op x) (gap a) answer done) in
      let (active, temporary, name, text) = unchanged_temporary x.0 row same in
      let (encoded, stored, matched) = is_verified platform temporary_password x.0 checked in
      let (is_made, fine) =
        accepted_hash platform (x.0.user_name ∷ []) salt new_password x.1 hashed in
      let final = after ∙ result in
      record {
        row = row;
        live = live;
        active = active;
        temporary = temporary;
        encoded_hash = encoded;
        stored = same_text-some row.password_hash x.0.password_hash encoded text stored;
        matched = matched;
        acceptable =
            subst (λ n. IsAcceptable platform.unicode (n ∷ []) new_password) (sym name) fine;
        written = rotated-IsRenewed platform.python row.id row _ false now _ (gap a) _ live (
            final
            ∙ ap
                (λ m.
                  add_event platform.python (completed_event request_id row.id)
                    (write_row (rotated row m false now) (gap a)))
                is_made);
        ended =
            ended_by row.id (gap a) (and_then (first, a) last).1 row (rotated row x.1 false now)
              live refl refl (ground arith) (ap (λ y. y.db.users) final);
      }
