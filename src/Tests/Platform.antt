-- ===== src/Tests/Platform.antt =====
-- A platform in which a hash is the password itself, and an installation whose editor has a password.
use Prim.Native.String.{count}
use fastapi_templates_xtn.Prelude.{
  ap, true, false, some, [], ◌∷◌, if◌then◌else◌, ◌==◌, string_eq, beq_refl, refl,
}
use fastapi_templates_xtn.Domain.Keys.{value}
use fastapi_templates_xtn.Domain.Keys
use fastapi_templates_xtn.Passwords.{Unicode}
use fastapi_templates_xtn.Passwords.Hashing.{Argon2, match, mismatch, hasher_parameters}
use fastapi_templates_xtn.Passwords.RoundTrip.{IsArgon2}
use fastapi_templates_xtn.Models.{User}
use fastapi_templates_xtn.Accounts.{Platform, Accounts}
use fastapi_templates_xtn.Tests.Samples.{
  sample_permission, grant, sample_python, sample_db, sample_user,
}

abbrev pub sample_unicode : Unicode
sample_unicode = record {
  utf8_length = λ s. some (count s);
  category = λ _. "Ll";
  nfkc = λ s. s;
  casefold = λ s. s;
}

abbrev pub sample_argon2 : Argon2
sample_argon2 = record {
  extract_parameters = λ _. some hasher_parameters;
  hash = λ _ password. password;
  verify = λ encoded_hash password. if encoded_hash == password then match else mismatch;
  check_needs_rehash = λ _. false;
}

pub sample_argon2-IsArgon2 : IsArgon2 sample_argon2 hasher_parameters
sample_argon2-IsArgon2 = record {
  extracted = λ _ _. refl;
  matches = λ _ password. ap (λ b. if b then match else mismatch) (beq_refl password);
  up_to_date = λ _ _. refl;
}

abbrev pub sample_platform : Platform
sample_platform = record {
  python = sample_python;
  unicode = sample_unicode;
  argon2 = sample_argon2;
  strip = λ s. s;
}

abbrev pub editor_row : User
editor_row = record (sample_user 3 "editor" false) {
  password_hash = some "correct horse";
  password_changed_at = some 900;
}

abbrev pub sample_accounts : Accounts
sample_accounts = record {
  db = record sample_db {
    users =
        sample_user 1 "owner" true
        ∷ sample_user 2 "chief" false
        ∷ editor_row
        ∷ sample_user 4 "plain" false
        ∷ [];
    permissions = sample_permission 41 (value Keys.users_password_reset) ∷ sample_db.permissions;
    role_permissions = grant 12 41 ∷ sample_db.role_permissions;
  };
  events = [];
}
