-- ===== src/Accounts/Changes/Renewal.antt =====
-- services/authentication.py: what a new password leaves in the tables, as lists of rows.
use fastapi_templates_xtn.Prelude.{
  ℕ, suc, ◌≡◌, refl, ap, ◌∙◌, String, Bool, true, ◌&&◌, List, [], ◌∷◌, ◌++◌, some, arith, nat_eq,
  ◌==◌, is_none, first, update_if, Bool-cases, inl, inr,
}
use fastapi_templates_xtn.Audit.{Python}
use fastapi_templates_xtn.Models.{User}
use fastapi_templates_xtn.Repository.{find_live_user}
use fastapi_templates_xtn.Service.Base.{write_user}
use fastapi_templates_xtn.Service.Locking.Facts.{find_live_user_lem}
use fastapi_templates_xtn.Accounts.{Accounts, AccountSecurityAuditEvent, add_event}
use fastapi_templates_xtn.Accounts.Credentials.{write_row}
use fastapi_templates_xtn.Accounts.Changes.{rotated}

-- The row with another password, of the next token version.
abbrev pub renewed : User → String → Bool → ℕ → User
renewed row password_hash must_change_password now = record row {
  password_hash = some password_hash;
  must_change_password = must_change_password;
  password_changed_at = some now;
  token_version = suc row.token_version;
}

-- The row of the user is the renewed one, one event has been added, and all else is as before.
pub record IsRenewed (row : User) (password_hash : String) (must_change_password : Bool) (now : ℕ)
    (event : AccountSecurityAuditEvent) (before after : Accounts) : Type 0 where
  pub found :
      find_live_user after.db row.id ≡ some (renewed row password_hash must_change_password now)
  pub written : after ≡ record before {
    db = record before.db {
      users =
          update_if
            (λ u. u.id == row.id)
            (λ _. renewed row password_hash must_change_password now)
            before.db.users;
    };
    events = before.events ++ event ∷ [];
  }

first_renewed :
    (row new : User) (rows : List User)
    → first (λ u. (u.id == row.id) && is_none u.deleted_at) rows ≡ some row
    → ((new.id == row.id) && is_none new.deleted_at) ≡ (is_none row.deleted_at)
    → is_none row.deleted_at ≡ true
    → first
        (λ u. (u.id == row.id) && is_none u.deleted_at)
        (update_if (λ u. u.id == row.id) (λ _. new) rows)
      ≡ some new
first_renewed row new [] h same live = absurd (cc)
first_renewed row new (u ∷ rows) h same live = elim (Bool-cases (u.id == row.id)) [
  | inl hit ↦ rw (hit, same, live) refl
  | inr miss ↦ rw (miss, miss) (first_renewed row new rows (ground arith) same live)
]

pub rotated-IsRenewed :
    (py : Python) (user_id : ℕ) (row : User) (password_hash : String) (must_change_password : Bool)
    (now : ℕ) (event : AccountSecurityAuditEvent) (before after : Accounts)
    → find_live_user before.db user_id ≡ some row
    → after
      ≡ add_event py event (write_row (rotated row password_hash must_change_password now) before)
    → IsRenewed row password_hash must_change_password now event before after
unfolding write_user find_live_user
rotated-IsRenewed py user_id row password_hash must_change_password now event before after live e =
    let (id, alive) = find_live_user_lem before.db user_id row live in
    record {
      found =
          ap (λ b. find_live_user b.db row.id) e
          ∙ first_renewed row (renewed row password_hash must_change_password now) before.db.users
              (ap (find_live_user before.db) id ∙ live) (ground arith) alive;
      written = e;
    }
