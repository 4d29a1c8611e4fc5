-- ===== src/Accounts/Login/Soundness.antt =====
-- services/authentication.py: whom a login lets in.
use fastapi_templates_xtn.Prelude.{
  ℕ, ◌≡◌, refl, sym, ap, ◌∙◌, ◌⊎◌, subst, inl, inr, String, Bool, true, false, [], ◌∷◌, Option,
  none, some, ok, err, bind_inv, if◌then◌else◌, Bool-cases, arith, nat_eq,
}
use fastapi_templates_xtn.Models.{User}
use fastapi_templates_xtn.Repository.{lock_users, user_of}
use fastapi_templates_xtn.Passwords.Hashing.{PasswordVerification}
use fastapi_templates_xtn.Accounts.{Platform, Accounts, Attempt}
use fastapi_templates_xtn.Accounts.Credentials.{
  PasswordSnapshot, same_login_user_state, same_password_state, same_text, verify_password_details,
}
use fastapi_templates_xtn.Accounts.Login.{
  AuthenticatedPasswordUser, authenticated_user, IdentityAbuseFlow, admit, FirstLock, returned,
  concurrent_rehash, lock_found, recheck_found, first_lock, second_lock, is_login_candidate,
  replacement, login_replaced, login_checked, login_loaded, login_admitted, login_verified,
  finish_login, after_concurrent_rehash, verify_login_snapshot, authenticate,
}
use fastapi_templates_xtn.Accounts.Login.Authentic.{
  live_row, IsAuthentic, verified, Lets, or_invalid_inv, is_candidate_active, still_active,
  authentic, lock_verified_lem, lock_verified-concurrent_rehash,
}

module _ (platform : Platform) where
  module _ (require_temporary : Bool) (password : String) (snapshot : PasswordSnapshot)
      (v : PasswordVerification)
      (checked : verify_password_details platform password snapshot.password_hash ≡ ok v)
      (candidate : is_login_candidate require_temporary snapshot v ≡ true) where
    lock_found-IsAuthentic :
        (made : Option String) (found : Option User) (a : Accounts)
        (result : AuthenticatedPasswordUser)
        → user_of (lock_users a.db (snapshot.user_id ∷ [])) snapshot.user_id ≡ found
        → (lock_found require_temporary snapshot made found a).0 ≡ returned (some result)
        → IsAuthentic platform password a result
    unfolding lock_found
    lock_found-IsAuthentic made none a result is_found h = absurd (cc)
    lock_found-IsAuthentic made (some u) a result is_found h =
        let (yes_, active) = is_candidate_active platform require_temporary snapshot v candidate in
        let (same, state, text) =
          lock_verified_lem platform require_temporary snapshot made u a result h in
        subst (IsAuthentic platform password a) (sym same) (
          authentic platform password snapshot v.needs_rehash u a
            (verified platform password snapshot.password_hash v checked yes_) active
            (live_row a snapshot.user_id u is_found) state text)

    lock_found-concurrent_rehash :
        (made : Option String) (found : Option User) (a : Accounts) (c : PasswordSnapshot)
        → (lock_found require_temporary snapshot made found a).0 ≡ concurrent_rehash c
        → (c.is_active ≡ true) × ((lock_found require_temporary snapshot made found a).1 ≡ a)
    unfolding lock_found
    lock_found-concurrent_rehash made none a c h = absurd (cc)
    lock_found-concurrent_rehash made (some u) a c h =
        let (yes_, active) = is_candidate_active platform require_temporary snapshot v candidate in
        let (same, state, kept) =
          lock_verified-concurrent_rehash platform require_temporary snapshot c made u a h in
        (
          ap {A = PasswordSnapshot} (λ x. x.is_active) same
              ∙ still_active platform u snapshot state active,
          kept,
        )

    recheck_found-IsAuthentic :
        (c : PasswordSnapshot) (w : PasswordVerification) (found : Option User) (a : Accounts)
        (result : AuthenticatedPasswordUser)
        → c.is_active ≡ true
        → verify_password_details platform password c.password_hash ≡ ok w
        → w.verified ≡ true
        → user_of (lock_users a.db (snapshot.user_id ∷ [])) snapshot.user_id ≡ found
        → recheck_found require_temporary c found ≡ some result
        → IsAuthentic platform password a result
    unfolding recheck_found
    recheck_found-IsAuthentic c w none a result active again yes_ is_found h = absurd (cc)
    recheck_found-IsAuthentic c w (some u) a result active again yes_ is_found h =
        let (same, state, text) = rechecked c u result h in
        subst (IsAuthentic platform password a) (sym same) (
          authentic platform password c w.needs_rehash u a
            (verified platform password c.password_hash w again yes_) active
            (live_row a snapshot.user_id u is_found) state text)
      where
        rechecked :
            (c : PasswordSnapshot) (u : User) (result : AuthenticatedPasswordUser)
            → recheck_found require_temporary c (some u) ≡ some result
            → (result ≡ authenticated_user u)
              × (same_login_user_state u c ≡ true)
              × (same_text u.password_hash c.password_hash ≡ true)
        rechecked c u result h = unfold recheck_found same_password_state in ground arith

    after_rehash-IsAuthentic :
        (c : PasswordSnapshot) (a : Accounts) (result : AuthenticatedPasswordUser)
        → c.is_active ≡ true
        → after_concurrent_rehash platform require_temporary password snapshot c a
          ≡ ok (some result)
        → IsAuthentic platform password a result
    unfolding after_concurrent_rehash second_lock
    after_rehash-IsAuthentic c a result active h =
        let (w, again, rest) =
          bind_inv (verify_password_details platform password c.password_hash) _ h in
        recheck_found-IsAuthentic c w _ a result active again (ground arith) refl (ground arith)

    finished :
        (second_gap : Accounts → Accounts) (made : Option String) (a : Accounts)
        (result : AuthenticatedPasswordUser) (step : FirstLock × Accounts)
        → first_lock require_temporary snapshot made a ≡ step
        → (finish_login platform require_temporary password snapshot second_gap step).0
          ≡ ok (some result)
        → IsAuthentic platform password a result
          ⊎ IsAuthentic platform password (second_gap a) result
    unfolding finish_login first_lock
    finished second_gap made a result (returned r, b) e h =
        let is_some : r ≡ some result = ground arith in
        inl (lock_found-IsAuthentic made _ a result refl (ap (λ x. x.0) e ∙ ap returned is_some))
    finished second_gap made a result (concurrent_rehash c, b) e h =
        let (active, kept) = lock_found-concurrent_rehash made _ a c (ap (λ x. x.0) e) in
        let same : b ≡ a = sym (ap (λ x. x.1) e) ∙ kept in
        inr (
          subst (λ z. IsAuthentic platform password (second_gap z) result) same
            (after_rehash-IsAuthentic c (second_gap b) result active h))

    replaced :
        (first_gap second_gap : Accounts → Accounts) (a : Accounts)
        (result : AuthenticatedPasswordUser) (made : Attempt (Option String))
        → (login_replaced platform require_temporary password first_gap second_gap snapshot made
            a).0
          ≡ ok (some result)
        → Lets platform password (first_gap a) (second_gap (first_gap a)) result
    unfolding login_replaced
    replaced first_gap second_gap a result (ok made) h =
        finished second_gap made (first_gap a) result _ refl h
    replaced first_gap second_gap a result (err e) h = absurd (cc)

  module _ (require_temporary : Bool) (password : String) (salt : ℕ)
      (first_gap second_gap : Accounts → Accounts) (a : Accounts)
      (result : AuthenticatedPasswordUser) where
    checked :
        (snapshot : PasswordSnapshot) (v : Attempt PasswordVerification)
        → verify_password_details platform password snapshot.password_hash ≡ v
        → (login_checked platform require_temporary password salt first_gap second_gap snapshot v
            a).0
          ≡ ok (some result)
        → Lets platform password (first_gap a) (second_gap (first_gap a)) result
    unfolding login_checked login_verified
    checked snapshot (err e) is_v h = absurd (cc)
    checked snapshot (ok v) is_v h =
        elim (Bool-cases (is_login_candidate require_temporary snapshot v)) [
          | inl candidate ↦
              replaced require_temporary password snapshot v is_v candidate first_gap second_gap a
                result (replacement platform v.needs_rehash salt password)
                (subst (λ b. (if b then pick snapshot v else (ok none, a)).0 ≡ ok (some result))
                  candidate h)
          | inr other ↦
              let none_ =
                subst (λ b. (if b then pick snapshot v else (ok none, a)).0 ≡ ok (some result))
                  other h in
              absurd (cc)
        ]
      where
        pick :
            PasswordSnapshot
            → PasswordVerification
            → Attempt (Option AuthenticatedPasswordUser) × Accounts
        pick snapshot v =
            login_replaced platform require_temporary password first_gap second_gap snapshot
              (replacement platform v.needs_rehash salt password) a

    loaded :
        (found : Option PasswordSnapshot)
        → (login_loaded platform require_temporary password salt first_gap second_gap found a).0
          ≡ ok (some result)
        → Lets platform password (first_gap a) (second_gap (first_gap a)) result
    unfolding login_loaded
    loaded none h =
        let (v, e, r) = bind_inv (verify_password_details platform password none) _ h in absurd (cc)
    loaded (some snapshot) h = checked snapshot _ refl h

  admitted :
      (admission : Attempt (Unit {0})) (user_name password : String) (salt : ℕ)
      (first_gap second_gap : Accounts → Accounts) (a : Accounts)
      (result : AuthenticatedPasswordUser)
      → (login_admitted platform admission user_name password salt first_gap second_gap a).0
        ≡ ok result
      → Lets platform password (first_gap a) (second_gap (first_gap a)) result
  unfolding login_admitted verify_login_snapshot
  admitted (err e) user_name password salt first_gap second_gap a result h = absurd (cc)
  admitted (ok _) user_name password salt first_gap second_gap a result h =
      loaded false password salt first_gap second_gap a result _
        (or_invalid_inv platform _ result h)

  -- Whoever a login returns is, when the first transaction or when the second transaction of the login
  -- begins, a live and active user with a stored hash that the password matches; the dummy hash lets nobody
  -- in. The returned token version and flag are those of that user's row.
  pub authenticate-IsAuthentic :
      (abuse_flow : Option IdentityAbuseFlow) (user_name password : String) (salt : ℕ)
      (first_gap second_gap : Accounts → Accounts) (a : Accounts)
      (result : AuthenticatedPasswordUser)
      → (authenticate platform abuse_flow user_name password salt first_gap second_gap a).0
        ≡ ok result
      → Lets platform password (first_gap a) (second_gap (first_gap a)) result
  unfolding authenticate
  authenticate-IsAuthentic abuse_flow user_name password salt first_gap second_gap a result h =
      admitted (admit abuse_flow) user_name password salt first_gap second_gap a result h
