-- ===== src/Accounts/Login/Failures.antt =====
-- services/authentication.py: with which errors a login fails.
use fastapi_templates_xtn.Prelude.{
  ℕ, ◌≡◌, refl, sym, ap, ◌∙◌, subst, inl, String, Bool, true, false, [], ◌∷◌, Option, none, some,
  ok, err, ◌>>=◌, bind_inv, if◌then◌else◌, arith, eq_iff, first, first_holds, is_none, ◌==◌, nat_eq,
  string_eq,
}
use fastapi_templates_xtn.Models.{User}
use fastapi_templates_xtn.Repository.{find_live_user, lock_users, user_of}
use fastapi_templates_xtn.Passwords.{validate_login_password_input}
use fastapi_templates_xtn.Passwords.Hashing.{
  Argon2, PasswordVerification, verify_or_dummy, hash_or_dummy, dummy_password_hash,
  hash_verified_password,
}
use fastapi_templates_xtn.Accounts.{Platform, Accounts, Attempt}
use fastapi_templates_xtn.Accounts.Credentials.{
  PasswordSnapshot, snapshot_from_user, same_identity, same_login_user_state,
  verify_password_details, load_snapshot_by_user_name,
}
use fastapi_templates_xtn.Accounts.Login.Authentic.{live_row}
use fastapi_templates_xtn.Accounts.Login.Unusable.{
  IsUnusable, FailsUniformly, fails-map, details_fail, details_bind,
}
use fastapi_templates_xtn.Accounts.Login.{
  FirstLock, IdentityAbuseFlow, returned, concurrent_rehash, first_lock, lock_found, lock_verified,
  is_login_candidate, or_invalid, replacement, login_replaced, login_checked, login_loaded,
  login_admitted, login_verified, finish_login, after_concurrent_rehash, verify_login_snapshot,
  admit, authenticate,
}

or_invalid-fails :
    {T : Type 0}
    → (P : Type 0) (m : Attempt (Option T)) → FailsUniformly P m
    → FailsUniformly P (or_invalid m)
unfolding or_invalid
or_invalid-fails P (ok (some a)) h = tt
or_invalid-fails P (ok none) h = inl refl
or_invalid-fails P (err e) h = h

branch-fails :
    {T : Type 0}
    → (P : Type 0) (b : Bool) (x y : Attempt T × Accounts) → FailsUniformly P x.0
    → FailsUniformly P y.0
    → FailsUniformly P (if b then x else y).0
branch-fails P true x y h k = h
branch-fails P false x y h k = k

-- A row with a stored hash that cannot be used.
pub record HasUnusableHash (argon2 : Argon2) (password : String) (row : User) : Type 0 where
  pub encoded_hash : String
  pub stored : row.password_hash ≡ some encoded_hash
  pub unusable : IsUnusable argon2 encoded_hash password

-- The hash that a login has compared and that cannot be used: that of the row with the name, or, after a
-- concurrent rehash, that of the live row with the name that the first transaction met. The dummy is
-- compared only where the name has no row or the row has no password.
pub data ComparesUnusable (argon2 : Argon2) (user_name password : String) (a between : Accounts)
    : Type 0 where
  of_row :
      (row : User)
      → first (λ u. u.user_name == user_name) a.db.users ≡ some row
      → HasUnusableHash argon2 password row
      → ComparesUnusable argon2 user_name password a between
  of_rehash :
      (row : User)
      → find_live_user between.db row.id ≡ some row
      → row.user_name ≡ user_name
      → HasUnusableHash argon2 password row
      → ComparesUnusable argon2 user_name password a between
  of_dummy :
      ((row : User)
        → first (λ u. u.user_name == user_name) a.db.users ≡ some row
        → row.password_hash ≡ none)
      → IsUnusable argon2 dummy_password_hash password
      → ComparesUnusable argon2 user_name password a between

-- What the first transaction of a login may have met.
abbrev MeetsUnusable : Argon2 → String → String → Accounts → Type 0
MeetsUnusable argon2 user_name password between =
    (row : User) × (find_live_user between.db row.id ≡ some row)
    × (row.user_name ≡ user_name)
    × HasUnusableHash argon2 password row

module _ (platform : Platform) where
  -- A password that has been verified has passed the bounds, so its rehash passes them, too.
  rehash_made :
      (salt : ℕ) (password : String) (stored : Option String) (v : PasswordVerification)
      → verify_password_details platform password stored ≡ ok v
      → (made : String) × (hash_verified_password platform.unicode platform.argon2 salt password
          ≡ ok made)
  unfolding verify_password_details verify_or_dummy hash_verified_password
  rehash_made salt password stored v h =
      let (validated, e, _) =
        bind_inv (validate_login_password_input platform.unicode password) _ (verified_ok h) in
      (platform.argon2.hash salt validated, ap (λ r. r >>= λ w. ok (platform.argon2.hash salt w)) e)
    where
      verified_ok :
          verify_password_details platform password stored ≡ ok v
          → verify_or_dummy platform.unicode platform.argon2 password stored ≡ ok v
      verified_ok d = ground arith

  replacement_made :
      (flag : Bool) (salt : ℕ) (password : String) (stored : Option String)
      (v : PasswordVerification)
      → verify_password_details platform password stored ≡ ok v
      → (r : Option String) × (replacement platform flag salt password ≡ ok r)
  unfolding replacement
  replacement_made false salt password stored v h = (none, refl)
  replacement_made true salt password stored v h =
      let (made, e) = rehash_made salt password stored v h in (some made, rw (replacement, e) refl)

  rehashed :
      (require_temporary : Bool) (snapshot c : PasswordSnapshot) (made : Option String) (u : User)
      (a : Accounts)
      → (lock_verified require_temporary snapshot made u a).0 ≡ concurrent_rehash c
      → (c ≡ snapshot_from_user u)
        × (u.user_name ≡ snapshot.user_name)
        × (is_none u.password_hash ≡ false)
  unfolding lock_verified same_login_user_state same_identity
  rehashed require_temporary snapshot c made u a h =
      let name : (u.user_name == snapshot.user_name) ≡ true = ground arith in
      (ground arith, (eq_iff u.user_name snapshot.user_name).0 name, ground arith)

  module _ (require_temporary : Bool) (password : String) (salt : ℕ)
      (first_gap second_gap : Accounts → Accounts) where
    rehash_unusable :
        (snapshot c : PasswordSnapshot) (made : Option String) (found : Option User) (b : Accounts)
        → user_of (lock_users b.db (snapshot.user_id ∷ [])) snapshot.user_id ≡ found
        → (lock_found require_temporary snapshot made found b).0 ≡ concurrent_rehash c
        → IsUnusable platform.argon2 (hash_or_dummy c.password_hash) password
        → MeetsUnusable platform.argon2 snapshot.user_name password b
    unfolding lock_found hash_or_dummy
    rehash_unusable snapshot c made none b e h bad = absurd (cc)
    rehash_unusable snapshot c made (some u) b e h bad =
        let (same, name, has) = rehashed require_temporary snapshot c made u b h in
        by_hash u.password_hash refl has same name
      where
        by_hash :
            (stored : Option String)
            → u.password_hash ≡ stored
            → is_none u.password_hash ≡ false
            → c ≡ snapshot_from_user u
            → u.user_name ≡ snapshot.user_name
            → MeetsUnusable platform.argon2 snapshot.user_name password b
        by_hash none hash has same name = absurd (cc)
        by_hash (some s) hash has same name = (
          u,
          live_row b snapshot.user_id u e,
          name,
          record {
            encoded_hash = s;
            stored = hash;
            unusable =
                subst (λ o. IsUnusable platform.argon2 (hash_or_dummy o) password)
                  (ap (λ x. x.password_hash) same ∙ hash) bad;
          },
        )

    finish-fails :
        (snapshot : PasswordSnapshot) (made : Option String) (b : Accounts)
        (step : FirstLock × Accounts)
        → first_lock require_temporary snapshot made b ≡ step
        → FailsUniformly
            (MeetsUnusable platform.argon2 snapshot.user_name password b)
            (finish_login platform require_temporary password snapshot second_gap step).0
    unfolding finish_login after_concurrent_rehash first_lock
    finish-fails snapshot made b (returned r, a) e = tt
    finish-fails snapshot made b (concurrent_rehash c, a) e =
        fails-map
          (rehash_unusable snapshot c made
            (user_of (lock_users b.db (snapshot.user_id ∷ [])) snapshot.user_id) b refl
            (ap (λ x. x.0) e))
          _ (details_bind platform password c.password_hash _)

    verified-fails :
        (snapshot : PasswordSnapshot) (v : PasswordVerification) (a : Accounts)
        → verify_password_details platform password snapshot.password_hash ≡ ok v
        → FailsUniformly
            (MeetsUnusable platform.argon2 snapshot.user_name password (first_gap a))
            (login_verified platform require_temporary password salt first_gap second_gap snapshot v
              a).0
    unfolding login_verified login_replaced
    verified-fails snapshot v a h =
        let P = MeetsUnusable platform.argon2 snapshot.user_name password (first_gap a) in
        let (made, e) = replacement_made v.needs_rehash salt password snapshot.password_hash v h in
        branch-fails P (is_login_candidate require_temporary snapshot v) _ _
          (subst
            (λ m.
              FailsUniformly P
                (login_replaced platform require_temporary password first_gap second_gap snapshot m
                  a).0)
            (sym e)
            (finish-fails snapshot made (first_gap a)
              (first_lock require_temporary snapshot made (first_gap a)) refl))
          tt

    checked-fails :
        (Q : Type 0) (snapshot : PasswordSnapshot) (r : Attempt PasswordVerification) (a : Accounts)
        → (MeetsUnusable platform.argon2 snapshot.user_name password (first_gap a) → Q)
        → verify_password_details platform password snapshot.password_hash ≡ r
        → FailsUniformly Q r
        → FailsUniformly Q
            (login_checked platform require_temporary password salt first_gap second_gap snapshot r
              a).0
    unfolding login_checked
    checked-fails Q snapshot (ok v) a f h g = fails-map f _ (verified-fails snapshot v a h)
    checked-fails Q snapshot (err e) a f h g = g

    loaded-fails :
        (user_name : String) (found : Option User) (a : Accounts)
        → first (λ u. u.user_name == user_name) a.db.users ≡ found
        → FailsUniformly
            (ComparesUnusable platform.argon2 user_name password a (first_gap a))
            (login_loaded platform require_temporary password salt first_gap second_gap
              (elim found [ none ↦ none | some u ↦ some (snapshot_from_user u) ])
              a).0
    unfolding login_loaded hash_or_dummy
    loaded-fails user_name none a e =
        fails-map (of_dummy (λ row h. let both = sym h ∙ e in absurd (cc))) _
          (details_bind platform password none _)
    loaded-fails user_name (some u) a e =
        checked-fails _ (snapshot_from_user u)
          (verify_password_details platform password u.password_hash) a
          (λ (row, live, name, bad). of_rehash row live (name ∙ same_name) bad) refl
          (fails-map (compared u.password_hash refl) _
            (details_fail platform password u.password_hash))
      where
        same_name : u.user_name ≡ user_name
        same_name =
            (eq_iff u.user_name user_name).0
              (first_holds (λ x. x.user_name == user_name) a.db.users u e)

        compared :
            (stored : Option String)
            → u.password_hash ≡ stored
            → IsUnusable platform.argon2 (hash_or_dummy stored) password
            → ComparesUnusable platform.argon2 user_name password a (first_gap a)
        compared none hash bad =
            of_dummy
              (λ row h.
                let both = sym h ∙ e in
                let same : row ≡ u = ground arith in ap (λ x. x.password_hash) same ∙ hash)
              bad
        compared (some s) hash bad =
            of_row u e (record { encoded_hash = s; stored = hash; unusable = bad })

  -- A login that the quota and the check after the admission let through fails, if it fails, with one and
  -- the same error, whether the name is unknown, the password is wrong, the user is not live or not active,
  -- or the state has changed meanwhile. It fails with another error only if the hash that it has compared
  -- cannot be read, has unsafe parameters or cannot be verified, and then always with the same one.
  pub authenticate-fails :
      (abuse_flow : Option IdentityAbuseFlow) (user_name password : String) (salt : ℕ)
      (first_gap second_gap : Accounts → Accounts) (a : Accounts)
      → admit abuse_flow ≡ ok tt
      → FailsUniformly
          (ComparesUnusable platform.argon2 user_name password a (first_gap a))
          (authenticate platform abuse_flow user_name password salt first_gap second_gap a).0
  unfolding authenticate login_admitted verify_login_snapshot load_snapshot_by_user_name
  authenticate-fails abuse_flow user_name password salt first_gap second_gap a h =
      let P = ComparesUnusable platform.argon2 user_name password a (first_gap a) in
      subst
        (λ m.
          FailsUniformly P
            (login_admitted platform m user_name password salt first_gap second_gap a).0)
        (sym h)
        (or_invalid-fails P _ (
          loaded-fails false password salt first_gap second_gap user_name
            (first (λ u. u.user_name == user_name) a.db.users) a refl))
