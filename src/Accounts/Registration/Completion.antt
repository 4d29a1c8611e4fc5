-- ===== src/Accounts/Registration/Completion.antt =====
-- services/authentication.py: what a public registration has done once it has succeeded.
use fastapi_templates_xtn.Prelude.{
  ◌≢◌, Bool-cases, inl, inr, ℕ, ◌≡◌, sym, ap, ◌∙◌, String, true, [], ◌∷◌, Option, some, ok, err,
  bind_inv, arith, require, none, refl, List, ◌++◌, ◌+◌, ◌==◌, nat_eq, string_eq, nat_beq_iff,
  update_if, false, KeyedBy,
}
use fastapi_templates_xtn.Errors.{rbac_error, value_error, key_error}
use fastapi_templates_xtn.Models.{User, Role, RbacState, RbacAuditEvent}
use fastapi_templates_xtn.Service.Base.{write_user}
use fastapi_templates_xtn.Repository.{lock_rbac_state}
use fastapi_templates_xtn.Passwords.Acceptance.{IsAcceptable}
use fastapi_templates_xtn.Accounts.{
  Platform, Accounts, Attempt, lift, raised, rate_limited, runtime_error, integrity_error,
  invalid_login_credentials, record_event, add_event, in_transaction,
}
use fastapi_templates_xtn.Accounts.Credentials.{write_row, with_password, new_hash}
use fastapi_templates_xtn.Accounts.Login.{IdentityAbuseFlow, admit}
use fastapi_templates_xtn.Accounts.Provisioning.{NewUser, create_user_with_default_role}
use fastapi_templates_xtn.Accounts.Rows.{record_event_lem, in_transaction_lem, and_then_lem}
use fastapi_templates_xtn.Accounts.Changes.Revocation.{accepted_hash}
use fastapi_templates_xtn.Accounts.Registration.{
  registration_closed, registration_completed, or_username_exists, register_operation,
  registration_action, register,
}
use fastapi_templates_xtn.Accounts.Registration.Opening.{
  IsProvisioned, IsUserName, IsUnused, IsBaseRole, IsProvisionEvent, account, assignment,
  returned-IsProvisioned,
}

or_username_exists_lem :
    {T : Type 0} (m : Attempt T) (v : T) → or_username_exists m ≡ ok v → m ≡ ok v
unfolding or_username_exists
or_username_exists_lem (ok v) w h = h
or_username_exists_lem (err (integrity_error c)) w h = ground arith
or_username_exists_lem (err (raised (rbac_error e))) w h = ground arith
or_username_exists_lem (err (raised (value_error m))) w h = absurd (cc)
or_username_exists_lem (err (raised (key_error k))) w h = absurd (cc)
or_username_exists_lem (err (rate_limited e)) w h = absurd (cc)
or_username_exists_lem (err (runtime_error m)) w h = absurd (cc)
or_username_exists_lem (err invalid_login_credentials) w h = absurd (cc)

module _ (platform : Platform) (new : NewUser) where
  -- An account that a registration has opened, and what held before.
  pub record IsRegistered (password : String) (salt now : ℕ) (before after : Accounts) (id : ℕ)
      : Type 0 where
    pub state : RbacState
    pub is_state : before.db.state ≡ some state
    pub open_ : state.public_registration_enabled ≡ true
    pub user_name : String
    pub normalized : IsUserName platform new.user_name user_name
    pub unused : IsUnused new.user_id user_name before.db.users
    pub role : Role
    pub base : IsBaseRole before.db role
    pub event : RbacAuditEvent
    pub is_event : IsProvisionEvent new role.id event
    pub is_id : id ≡ new.user_id
    pub acceptable : IsAcceptable platform.unicode (new.user_name ∷ []) password
    pub written : after ≡ record before {
      db = record before.db {
        users =
            before.db.users
            ++ account id user_name (some (platform.argon2.hash salt password)) (some now) ∷ [];
        user_roles = before.db.user_roles ++ assignment new role.id ∷ [];
        audit_events = before.db.audit_events ++ event ∷ [];
        state = some (record state { epoch = state.epoch + 1 });
      };
      events = before.events ++ registration_completed new id ∷ [];
    }

  differs : (i j : ℕ) → i ≢ j → (i == j) ≡ false
  differs i j h = elim (Bool-cases (i == j)) [
    | inl same ↦ absurd (h ((nat_beq_iff i j).0 same))
    | inr other ↦ other
  ]

  -- The row that has just been added is the only one that the password is written to.
  update_added :
      (user_name : String) (row added : User) (rows : List User)
      → IsUnused new.user_id user_name rows
      → added.id ≡ new.user_id
      → update_if (λ u. u.id == new.user_id) (λ _. row) (rows ++ added ∷ []) ≡ rows ++ row ∷ []
  update_added user_name row added [] unused id = rw ((nat_beq_iff added.id new.user_id).1 id) refl
  update_added user_name row added (u ∷ rows) unused id =
      rw (differs u.id new.user_id unused.0.0, update_added user_name row added rows unused.1 id)
        refl

  -- The rows of a new user, once they have the password.
  with_account :
      (made : String) (now : ℕ) (before after : Accounts) (row : User)
      → (p : IsProvisioned platform new before after row)
      → add_event platform.python
          (registration_completed new row.id)
          (write_row (with_password row made false now) after)
        ≡ record before {
          db = record before.db {
            users = before.db.users ++ account new.user_id p.user_name (some made) (some now) ∷ [];
            user_roles = before.db.user_roles ++ assignment new p.role.id ∷ [];
            audit_events = before.db.audit_events ++ p.event ∷ [];
            state = some (record p.state { epoch = p.state.epoch + 1 });
          };
          events = before.events ++ registration_completed new new.user_id ∷ [];
        }
  unfolding write_user
  with_account made now before after row p =
      let whole : User → Accounts → Accounts = λ r b.
        add_event platform.python (registration_completed new r.id)
          (write_row (with_password r made false now) b) in
      ap (λ r. whole r after) p.is_row
      ∙ ap (whole (account new.user_id p.user_name none none)) p.written
      ∙ ap
          (λ users. record before {
            db = record before.db {
              users = users;
              user_roles = before.db.user_roles ++ assignment new p.role.id ∷ [];
              audit_events = before.db.audit_events ++ p.event ∷ [];
              state = some (record p.state { epoch = p.state.epoch + 1 });
            };
            events = before.events ++ registration_completed new new.user_id ∷ [];
          })
          (update_added p.user_name (account new.user_id p.user_name (some made) (some now))
            (account new.user_id p.user_name none none) before.db.users p.unused refl)

  operated :
      (made : String) (now : ℕ) (a : Accounts) (r : ℕ × Accounts)
      → register_operation platform new made now a ≡ ok r
      → (state : RbacState) × (a.db.state ≡ some state)
        × (state.public_registration_enabled ≡ true)
        × (p : User × Accounts) × (create_user_with_default_role platform new a ≡ ok p)
        × (r.0 ≡ p.0.id)
        × (r.1
            ≡ add_event platform.python
                (registration_completed new p.0.id)
                (write_row (with_password p.0 made false now) p.1))
  unfolding register_operation lock_rbac_state
  operated made now a r h =
      let (state, e1, h1) = bind_inv (lift (lock_rbac_state a.db)) _ h in
      let (u1, e2, h2) =
        bind_inv
          (require state.public_registration_enabled (raised (rbac_error registration_closed))) _
          h1 in
      let (p, e3, h3) = bind_inv (create_user_with_default_role platform new a) _ h2 in
      let (c, e4, h4) =
        bind_inv
          (record_event platform.python (registration_completed new p.0.id)
            (write_row (with_password p.0 made false now) p.1))
          _ h3 in
      let done : (p.0.id, c) ≡ r = ground arith in
      (
        state,
        ground arith,
        ground arith,
        p,
        e3,
        ap (λ x. x.0) (sym done),
        ap (λ x. x.1) (sym done) ∙ record_event_lem platform.python _ _ c e4,
      )

  completed :
      (password made : String) (salt now : ℕ) (before after : Accounts) (id : ℕ)
      (p : User × Accounts)
      → IsProvisioned platform new before p.1 p.0
      → (state : RbacState) → before.db.state ≡ some state
      → state.public_registration_enabled ≡ true
      → id ≡ p.0.id
      → made ≡ platform.argon2.hash salt password
      → IsAcceptable platform.unicode (new.user_name ∷ []) password
      → after
        ≡ add_event platform.python
            (registration_completed new p.0.id)
            (write_row (with_password p.0 made false now) p.1)
      → IsRegistered password salt now before after id
  completed password made salt now before after id p q state is_state open_ is_id is_made fine e =
      let new_id : id ≡ new.user_id = is_id ∙ ap (λ r. r.id) q.is_row in
      record {
        state = q.state;
        is_state = q.is_state;
        open_ = let both : some state ≡ some q.state = sym is_state ∙ q.is_state in ground arith;
        user_name = q.user_name;
        normalized = q.normalized;
        unused = q.unused;
        role = q.role;
        base = q.base;
        event = q.event;
        is_event = q.is_event;
        is_id = new_id;
        acceptable = fine;
        written = rw (new_id, sym is_made) (e ∙ with_account made now before p.1 p.0 q);
      }

  -- A public registration that returns found the registration open and, where role ids are unique, has
  -- added exactly one active account, with a normalized name, whose id and name nobody had, and with the
  -- hash of the given password, which is acceptable for the name; one live assignment to it, of the live and
  -- active system role with the key `user`; and one event in each log. It has raised the epoch by one and
  -- changed nothing else; it returns the new id.
  pub register-IsRegistered :
      (abuse_flow : Option IdentityAbuseFlow) (password : String) (salt now : ℕ)
      (gap : Accounts → Accounts) (a : Accounts) (id : ℕ)
      → KeyedBy (λ r. r.id) (gap a).db.roles
      → let result = register platform abuse_flow new password salt now gap a in
        result.0 ≡ ok id → IsRegistered password salt now (gap a) result.1 id
  unfolding register registration_action
  register-IsRegistered abuse_flow password salt now gap a id role_ids h =
      let (u, admitted, done, after) =
        and_then_lem (admit abuse_flow, a)
          (λ _ b. registration_action platform new password salt now gap b) id h in
      let op : String → Accounts → Attempt (ℕ × Accounts) =
        λ made. register_operation platform new made now in
      let last : String → Accounts → Attempt ℕ × Accounts = λ made b. (
        or_username_exists (in_transaction (op made) (gap b)).0,
        (in_transaction (op made) (gap b)).1,
      ) in
      let (made, hashed, done2, after2) =
        and_then_lem (new_hash platform (new.user_name ∷ []) salt password, a) last id done in
      let body = in_transaction_lem (op made) (gap a) id (or_username_exists_lem _ id done2) in
      let (state, is_state, open_, p, provisioned, is_id, result) =
        operated made now (gap a) _ body in
      let (is_made, fine) = accepted_hash platform (new.user_name ∷ []) salt password made hashed in
      completed password made salt now (gap a) _ id p
        (returned-IsProvisioned platform new (gap a) role_ids p provisioned) state is_state open_
        is_id is_made fine (after ∙ after2 ∙ result)
