-- ===== src/Accounts/Changes/Revocation.antt =====
-- services/authentication.py: what has happened once a user's own change of the password has succeeded.
use fastapi_templates_xtn.Prelude.{
  ℕ, ◌≡◌, refl, sym, ap, ◌∙◌, subst, inl, inr, String, Bool, true, false, not, List, [], ◌∷◌, some,
  ok, err, bind_inv, Bool-cases, arith, eq_iff, nat_eq, string_eq, ◌==◌, or_raise, raise_if,
}
use fastapi_templates_xtn.Errors.{forbidden, invalid_request}
use fastapi_templates_xtn.Domain.Snapshot.{AuthorizationContext}
use fastapi_templates_xtn.Models.{User}
use fastapi_templates_xtn.Repository.{find_live_user, lock_rbac_state, lock_users, user_of}
use fastapi_templates_xtn.Service.Base.{write_user}
use fastapi_templates_xtn.Service.Sessions.{IsRefused, refused}
use fastapi_templates_xtn.Passwords.{validate_new_password}
use fastapi_templates_xtn.Passwords.Hashing.{match, hash_new_password}
use fastapi_templates_xtn.Passwords.Acceptance.{IsAcceptable, validate_new_password-IsAcceptable}
use fastapi_templates_xtn.Accounts.{
  and_then, Platform, Accounts, Attempt, lift, raised, record_event, add_event, in_transaction,
}
use fastapi_templates_xtn.Accounts.Credentials.{
  PasswordSnapshot, same_identity, same_password_state, same_text, write_row, verify_password,
  verify_password_details, new_hash, or_policy_response,
}
use fastapi_templates_xtn.Accounts.Login.{or_invalid}
use fastapi_templates_xtn.Accounts.Login.Authentic.{verified}
use fastapi_templates_xtn.Accounts.Rows.{
  found_row, contains_first, record_event_lem, in_transaction_lem, and_then_lem, same_text-some,
}
use fastapi_templates_xtn.Accounts.Changes.Renewal.{IsRenewed, rotated-IsRenewed}
use fastapi_templates_xtn.Accounts.Changes.{
  rotated, user_event, is_current_credential, verify_current_password, reauthenticate_actor,
  is_unchanged_actor, change_operation, change_authenticated, change_password,
}

module _ (platform : Platform) where
  pub accepted_hash :
      (names : List String) (salt : ℕ) (password made : String)
      → new_hash platform names salt password ≡ ok made
      → (made ≡ platform.argon2.hash salt password) × IsAcceptable platform.unicode names password
  unfolding new_hash or_policy_response hash_new_password
  accepted_hash names salt password made h =
      let both : hash_new_password platform.unicode platform.argon2 names salt password ≡ ok made =
        ground arith in
      let (accepted, e, rest) =
        bind_inv (validate_new_password platform.unicode names password) _ both in
      let (same, fine) =
        (validate_new_password-IsAcceptable platform.unicode names password accepted).0 e in
      (ground arith, fine)

  pub validated_text :
      (names : List String) (password accepted : String)
      → or_policy_response (validate_new_password platform.unicode names password) ≡ ok accepted
      → IsAcceptable platform.unicode names password
  unfolding or_policy_response
  validated_text names password accepted h =
      ((validate_new_password-IsAcceptable platform.unicode names password accepted).0
        (ground arith)).1

  pub is_verified :
      (password : String) (s : PasswordSnapshot)
      → verify_password platform password s.password_hash ≡ ok true
      → (h : String) × (s.password_hash ≡ some h) × (platform.argon2.verify h password ≡ match)
  unfolding verify_password
  is_verified password s e =
      let (v, details, rest) =
        bind_inv (verify_password_details platform password s.password_hash) _ e in
      let held = verified platform password s.password_hash v details (ground arith) in
      (held.encoded_hash, held.is_stored, held.matched)

module _ (platform : Platform) (context : AuthorizationContext) where
  reauthenticated :
      (password action : String) (target : ℕ) (a : Accounts) (s : PasswordSnapshot)
      → (reauthenticate_actor platform context password action target a).0 ≡ ok s
      → (verify_current_password platform context password a ≡ ok (some s))
        × ((reauthenticate_actor platform context password action target a).1 ≡ a)
  unfolding reauthenticate_actor or_invalid
  reauthenticated password action target a s h = ground arith

  current_credential :
      (password : String) (a : Accounts) (s : PasswordSnapshot)
      → verify_current_password platform context password a ≡ ok (some s)
      → verify_password platform password s.password_hash ≡ ok true
  unfolding verify_current_password is_current_credential
  current_credential password a s h = ground arith

  unchanged :
      (s : PasswordSnapshot) (u : User)
      → is_unchanged_actor context s u ≡ true
      → (u.is_active ≡ true)
        × (u.token_version ≡ context.principal.token_version)
        × (u.user_name ≡ s.user_name)
        × (same_text u.password_hash s.password_hash ≡ true)
  unfolding is_unchanged_actor same_identity same_password_state
  unchanged s u h =
      let name : (u.user_name == s.user_name) ≡ true = ground arith in
      (ground arith, ground arith, (eq_iff u.user_name s.user_name).0 name, ground arith)

  operated :
      (s : PasswordSnapshot) (made : String) (now : ℕ) (a : Accounts) (r : Bool × Accounts)
      → change_operation platform context s made now a ≡ ok r
      → (u : User) × (find_live_user a.db context.principal.user_id ≡ some u)
        × (u.id ≡ context.principal.user_id)
        × (is_unchanged_actor context s u ≡ true)
        × (r.1
            ≡ add_event platform.python
                (user_event context "account_security.password.changed" "password_changed" u.id)
                (write_row (rotated u made false now) a))
  unfolding change_operation
  operated s made now a r h =
      let (state, e1, h1) = bind_inv (lift (lock_rbac_state a.db)) _ h in
      let user_id = context.principal.user_id in
      let gone = raised (forbidden "current_credential_changed") in
      let (u, e2, h2) =
        bind_inv (or_raise (user_of (lock_users a.db (user_id ∷ [])) user_id) gone) _ h1 in
      let (u2, e3, h3) = bind_inv (raise_if (not (is_unchanged_actor context s u)) gone) _ h2 in
      let (b, e4, h4) =
        bind_inv
          (record_event platform.python
            (user_event context "account_security.password.changed" "password_changed" u.id)
            (write_row (rotated u made false now) a))
          _ h3 in
      let done : (true, b) ≡ r = ground arith in
      let found : user_of (lock_users a.db (user_id ∷ [])) user_id ≡ some u = ground arith in
      let (live, id) = found_row a.db (user_id ∷ []) user_id u (contains_first user_id []) found in
      (
        u,
        live,
        id,
        ground arith,
        ap (λ x. x.1) (sym done) ∙ record_event_lem platform.python _ _ b e4,
      )

  -- The row that a change has written, and what held of it before.
  pub record IsChanged (current_password new_password : String) (salt now : ℕ)
      (before after : Accounts) : Type 0 where
    pub row : User
    pub live : find_live_user before.db context.principal.user_id ≡ some row
    pub active : row.is_active ≡ true
    pub current : row.token_version ≡ context.principal.token_version
    pub encoded_hash : String
    pub stored : row.password_hash ≡ some encoded_hash
    pub matched : platform.argon2.verify encoded_hash current_password ≡ match
    pub acceptable : IsAcceptable platform.unicode (row.user_name ∷ []) new_password
    pub written :
        IsRenewed row
          (platform.argon2.hash salt new_password)
          false
          now
          (user_event context "account_security.password.changed" "password_changed" row.id)
          before
          after
    pub ended : IsRefused context after.db

  changed :
      (current_password new_password : String) (salt now : ℕ) (s : PasswordSnapshot)
      (gap : Accounts → Accounts) (a : Accounts) (value : Bool)
      → verify_password platform current_password s.password_hash ≡ ok true
      → (change_authenticated platform context new_password salt now s gap a).0 ≡ ok value
      → IsChanged current_password new_password salt now
          (gap a)
          (change_authenticated platform context new_password salt now s gap a).1
  unfolding change_authenticated write_user
  changed current_password new_password salt now s gap a value checked h =
      let (made, hashed, done, after) =
        and_then_lem (new_hash platform (s.user_name ∷ []) salt new_password, a)
          (λ made b. in_transaction (change_operation platform context s made now) (gap b)) value
          h in
      let body =
        in_transaction_lem (change_operation platform context s made now) (gap a) value done in
      let (u, live, id, same, result) = operated s made now (gap a) _ body in
      let (is_made, fine) =
        accepted_hash platform (s.user_name ∷ []) salt new_password made hashed in
      let (active, current, name, text) = unchanged s u same in
      let (encoded, stored, matched) = is_verified platform current_password s checked in
      let written =
        after
        ∙ result
        ∙ ap
            (λ m.
              add_event platform.python
                (user_event context "account_security.password.changed" "password_changed" u.id)
                (write_row (rotated u m false now) (gap a)))
            is_made in
      record {
        row = u;
        live = live;
        active = active;
        current = current;
        encoded_hash = encoded;
        stored = same_text-some u.password_hash s.password_hash encoded text stored;
        matched = matched;
        acceptable =
            subst (λ n. IsAcceptable platform.unicode (n ∷ []) new_password) (sym name) fine;
        written =
            rotated-IsRenewed platform.python context.principal.user_id u _ false now _ (gap a) _
              live written;
        ended =
            refused context (gap a).db u live (ground arith) _ (rotated u made false now)
              (ap (λ x. x.db.users) (after ∙ result)) id (ground arith);
      }

  -- Once a change of the password has returned, the user of the request was live, active and of the token's
  -- version in the state that the change met, with a stored hash that the current password matches; the new
  -- password is acceptable for the user's name; exactly its hash, the flag, the time, the next token version
  -- and one event have been written; and the database refuses the tokens of the request's version.
  pub change_password-IsChanged :
      (current_password new_password : String) (salt now : ℕ) (gap : Accounts → Accounts)
      (a : Accounts) (value : Bool)
      → let result =
          change_password platform context current_password new_password salt now gap a in
        result.0 ≡ ok value → IsChanged current_password new_password salt now (gap a) result.1
  unfolding change_password and_then
  change_password-IsChanged current_password new_password salt now gap a value h =
      elim (Bool-cases (current_password == new_password)) [
        | inl same ↦
            let refused_ : change_password platform context current_password new_password salt now
                  gap a
                ≡ (err (raised (invalid_request "new_password_must_differ")), a) =
              rw (change_password, same) refl in
            let none_ = ap (λ x. x.0) (sym refused_) ∙ h in absurd (cc)
        | inr differ ↦
            let first =
              reauthenticate_actor platform context current_password
                "account_security.password.changed" context.principal.user_id a in
            let next : PasswordSnapshot → Accounts → Attempt Bool × Accounts =
              λ s b. change_authenticated platform context new_password salt now s gap b in
            let whole : change_password platform context current_password new_password salt now gap
                  a
                ≡ and_then first next =
              rw (change_password, differ) refl in
            let (s, e, done, after) =
              and_then_lem first next value (ap (λ x. x.0) (sym whole) ∙ h) in
            let (checked, kept) =
              reauthenticated current_password "account_security.password.changed"
                context.principal.user_id a s e in
            subst (IsChanged current_password new_password salt now (gap a))
              (sym (ap (λ x. x.1) whole ∙ after))
              (subst (λ b. IsChanged current_password new_password salt now (gap a) (next s b).1)
                (sym kept)
                (changed current_password new_password salt now s gap a value
                  (current_credential current_password a s checked)
                  (subst (λ b. (next s b).0 ≡ ok value) kept done)))
      ]
