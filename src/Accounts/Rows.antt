-- ===== src/Accounts/Rows.antt =====
-- What a lookup, an event and a transaction of the account services have done once they succeed.
use fastapi_templates_xtn.Prelude.{
  ℕ, ◌≡◌, refl, sym, ap, ◌∙◌, true, String, Option, none, eq_iff, List, [], ◌∷◌, some, ok, err,
  contains, nat_eq, beq_refl, arith, ◌||◌,
}
use fastapi_templates_xtn.Prelude.{◌+◌, ◌≤◌, ◌==◌, update_if}
use fastapi_templates_xtn.Service.Sessions.{IsRefused, refused}
use fastapi_templates_xtn.Domain.Snapshot.{AuthorizationContext}
use fastapi_templates_xtn.Audit.{Python, validate_audit_reason, validate_audit_request_id}
use fastapi_templates_xtn.Models.{User, Db}
use fastapi_templates_xtn.Repository.{find_live_user, lock_users, user_of}
use fastapi_templates_xtn.Service.Locking.Facts.{user_of-lock_users, find_live_user_lem}
use fastapi_templates_xtn.Accounts.Credentials.{same_text}
use fastapi_templates_xtn.Accounts.{
  Accounts, Attempt, AccountSecurityAuditEvent, record_event, account_event, validate_action,
  add_event, in_transaction, and_then,
}

-- The row that a lock has found is the live row of the user.
pub found_row :
    (db : Db) (ids : List ℕ) (user_id : ℕ) (u : User)
    → contains ids user_id ≡ true
    → user_of (lock_users db ids) user_id ≡ some u
    → (find_live_user db user_id ≡ some u) × (u.id ≡ user_id)
found_row db ids user_id u m h =
    let found = sym (user_of-lock_users db ids user_id m) ∙ h in
    (found, (find_live_user_lem db user_id u found).0)

pub contains_first : (i : ℕ) (ids : List ℕ) → contains (i ∷ ids) i ≡ true
unfolding contains
contains_first i ids = ap (λ b. b || contains ids i) (beq_refl i)

pub contains_second : (i j : ℕ) → contains (i ∷ j ∷ []) j ≡ true
unfolding contains
contains_second i j = let e = beq_refl j in ground arith

pub record_event_lem :
    (py : Python) (event : AccountSecurityAuditEvent) (a b : Accounts)
    → record_event py event a ≡ ok b
    → b ≡ add_event py event a
unfolding record_event account_event validate_action validate_audit_reason validate_audit_request_id
record_event_lem py event a b h = ground arith

module _ {T : Type 0} where
  pub in_transaction_lem :
      (body : Accounts → Attempt (T × Accounts)) (a : Accounts) (value : T)
      → (in_transaction body a).0 ≡ ok value
      → body a ≡ ok (value, (in_transaction body a).1)
  unfolding in_transaction
  in_transaction_lem body a value h = ground arith

module _ {A B : Type 0} where
  pub and_then_lem :
      (step : Attempt A × Accounts) (next : A → Accounts → Attempt B × Accounts) (value : B)
      → (and_then step next).0 ≡ ok value
      → (x : A) × (step.0 ≡ ok x)
        × ((next x step.1).0 ≡ ok value)
        × ((and_then step next).1 ≡ (next x step.1).1)
  unfolding and_then
  and_then_lem (ok x, a) next value h = (x, refl, h, refl)
  and_then_lem (err e, a) next value h = absurd (cc)

pub same_text-some :
    (p q : Option String) (s : String) → same_text p q ≡ true → q ≡ some s → p ≡ some s
same_text-some none none s h e = e
same_text-some none (some q) s h e = cc
same_text-some (some p) none s h e = cc
same_text-some (some p) (some q) s h e = ap some ((eq_iff p q).0 h) ∙ e

-- Once a row of a user has been written with the next version, tokens of the versions before are refused.
pub ended_by :
    (target_user_id : ℕ) (before after : Accounts) (row new : User)
    → find_live_user before.db target_user_id ≡ some row
    → row.id ≡ target_user_id
    → new.id ≡ row.id
    → new.token_version ≡ row.token_version + 1
    → after.db.users ≡ update_if (λ x. x.id == new.id) (λ _. new) before.db.users
    → (victim : AuthorizationContext) → victim.principal.user_id ≡ target_user_id
    → victim.principal.token_version ≤ row.token_version
    → IsRefused victim after.db
ended_by target_user_id before after row new live id same version users victim is_target issued =
    refused victim before.db row (ap (find_live_user before.db) is_target ∙ live) issued after.db
      new users (same ∙ id ∙ sym is_target) version
