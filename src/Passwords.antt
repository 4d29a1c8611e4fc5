-- ===== src/Passwords.antt =====
-- core/security/passwords.py: what a password may be. A password is a `str`, so the test of its type
-- passes; Python's Unicode functions enter as the functions of `Unicode`.
pub mod Acceptance
pub mod Hashing
pub mod RoundTrip
pub mod Strength
use Prim.Native.String.{count}
use Prim.Native.Char.{code}
use fastapi_templates_xtn.Prelude.{
  ℕ, ◌-◌, String, Bool, true, false, not, ◌&&◌, ◌||◌, List, [], ◌∷◌, Option, none, some, Result, ok,
  err, ◌>>=◌, ◌>>◌, raise_if, or_raise, if◌then◌else◌, ltb, leb, ◌==◌, nat_eq, string_eq, any, all,
  map, contains, to_set, length, ℤ, pos, negsuc, difference, integer_eq, is_one_element,
}

pub record Unicode : Type 0 where
  -- `len(value.encode("utf-8"))`, none where it raises `UnicodeEncodeError`
  pub utf8_length : String → Option ℕ
  -- `unicodedata.category(chr(c))`
  pub category : ℕ → String
  -- `unicodedata.normalize("NFKC", value)`, `value.casefold()`
  pub nfkc : String → String
  pub casefold : String → String

-- The exceptions of the module: a `PasswordPolicyError` with its reason, a `PasswordHashError`.
pub data PasswordError : Type 0 where
  policy_error : String → PasswordError
  hash_error : PasswordError

abbrev pub min_password_characters : ℕ
min_password_characters = 8

abbrev pub max_password_characters : ℕ
max_password_characters = 60

abbrev pub max_password_utf8_bytes : ℕ
max_password_utf8_bytes = 1024

-- `[ord(c) for c in value]`
abbrev pub codes : String → List ℕ
codes String.[] = []
codes (String.◌∷◌ c s) = code c ∷ codes s

-- `str.isascii`, and on an ASCII text `str.isdecimal`, `str.isalpha` and `str.isalnum`
abbrev pub is_digit : ℕ → Bool
is_digit c = leb 48 c && leb c 57

abbrev pub is_letter : ℕ → Bool
is_letter c = (leb 65 c && leb c 90) || (leb 97 c && leb c 122)

abbrev pub is_ascii : List ℕ → Bool
is_ascii = all (λ c. ltb c 128)

abbrev pub is_decimal : List ℕ → Bool
is_decimal = all is_digit

abbrev pub is_alpha : List ℕ → Bool
is_alpha = all is_letter

abbrev pub is_alnum : List ℕ → Bool
is_alnum = all (λ c. is_digit c || is_letter c)

-- `[ord(right) - ord(left) for left, right in zip(folded, folded[1:])]`, from the first character on
abbrev pub steps_from : ℕ → List ℕ → List ℤ
steps_from left [] = []
steps_from left (right ∷ rest) = difference right left ∷ steps_from right rest

abbrev pub steps : List ℕ → List ℤ
steps [] = []
steps (c ∷ rest) = steps_from c rest

-- `steps[0] in (-1, 1)`
abbrev pub starts_by_one : List ℤ → Bool
starts_by_one [] = false
starts_by_one (step ∷ _) = (step == negsuc 0) || (step == pos 1)

-- One ascending or descending run of ASCII letters or of ASCII digits.
unfoldable pub is_sequence : List ℕ → Bool
unfolding is_one_element
is_sequence folded =
    ltb 1 (length folded)
    && is_ascii folded
    && is_alnum folded
    && (is_decimal folded || is_alpha folded)
    && (is_one_element (steps folded) && starts_by_one (steps folded))

module _ (unicode : Unicode) where
  open unicode use {utf8_length, category, nfkc, casefold}

  unfoldable pub encoded_length : String → Result PasswordError ℕ
  encoded_length value = or_raise (utf8_length value) (policy_error "password_invalid_unicode")

  unfoldable pub has_control_character : String → Bool
  has_control_character value = any (λ c. category c == "Cc") (codes value)

  unfoldable pub comparison_form : String → String
  comparison_form value = casefold (nfkc value)

  unfoldable pub validate_login_password_input : String → Result PasswordError String
  unfolding encoded_length
  validate_login_password_input password = do
    raise_if (count password == 0) (policy_error "password_empty")
    raise_if (ltb max_password_characters (count password)) (policy_error "password_too_long")
    bytes ← encoded_length password
    raise_if (ltb max_password_utf8_bytes bytes) (policy_error "password_too_large")
    ok password

  unfoldable pub identity_fragments : List String → List String
  unfolding comparison_form to_set
  identity_fragments identity_values = to_set (map comparison_form identity_values)

  unfoldable pub validate_new_password : List String → String → Result PasswordError String
  unfolding validate_login_password_input has_control_character comparison_form identity_fragments
      is_sequence is_one_element contains
  validate_new_password identity_values password = do
    _ ← validate_login_password_input password
    raise_if (ltb (count password) min_password_characters) (policy_error "password_too_short")
    raise_if (has_control_character password) (policy_error "password_contains_control_character")
    raise_if (is_one_element (codes (comparison_form password)))
        (policy_error "password_common_or_weak")
    raise_if (is_sequence (codes (comparison_form password)))
        (policy_error "password_common_or_weak")
    raise_if (contains (identity_fragments identity_values) (comparison_form password))
        (policy_error "password_same_as_user_name")
    ok password
