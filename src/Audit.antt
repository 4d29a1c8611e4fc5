-- ===== src/Audit.antt =====
-- core/audit.py: what an audit event may hold. The regular expressions, `json.dumps`, `str(uuid)` and
-- the Unicode functions are Python's, and enter as the functions of `Python`.
mod Json
pub use Json.*
use Prim.Native.String.{count}
use fastapi_templates_xtn.Prelude.{
  ℕ, suc, ◌<◌, String, Bool, true, false, not, ◌&&◌, ◌||◌, List, [], ◌∷◌, Option, none, some, ok,
  err, ◌>>=◌, ◌>>◌, raise_if, ltb, leb, string_eq, any, contains, length,
}
use fastapi_templates_xtn.Errors.{Outcome, value_error}

pub record Python : Type 0 where
  -- `re.search(pattern, text)`, `re.fullmatch(pattern, text)`
  pub search : String → String → Bool
  pub fullmatch : String → String → Bool
  -- `key.casefold().replace("-", "_")`
  pub normalized : String → String
  -- `text.endswith(suffix)`
  pub ends_with : String → String → Bool
  -- the bytes of `json.dumps(value, ...).encode("utf-8")`
  pub dumped_length : AuditJson → ℕ
  pub str_uuid : ℕ → String

abbrev pub action_re : String
action_re = "^[a-z][a-z0-9]*(?:[._:-][a-z0-9]+)*$"

abbrev pub reason_re : String
reason_re = "^[a-z][a-z0-9_]*$"

abbrev pub request_id_re : String
request_id_re = "^[A-Za-z0-9][A-Za-z0-9:._-]*$"

-- The name of the pattern `_SENSITIVE_TEXT_RE`; its text has quotes of its own.
abbrev pub sensitive_text_re : String
sensitive_text_re = "_SENSITIVE_TEXT_RE"

abbrev pub safe_audit_identifiers : List String
safe_audit_identifiers = "users:password:reset" ∷ []

abbrev pub max_depth : ℕ
max_depth = 6

abbrev pub max_collection_items : ℕ
max_collection_items = 100

abbrev pub max_state_bytes : ℕ
max_state_bytes = 16384

abbrev pub sensitive_keys : List String
sensitive_keys =
    "api_key" ∷ "apikey" ∷ "authorization" ∷ "cookie" ∷ "credentials" ∷ "database_url" ∷ "email"
    ∷ "id_token" ∷ "jti" ∷ "jwt" ∷ "jwt_secret" ∷ "password" ∷ "password_hash" ∷ "private_key"
    ∷ "proxy_url" ∷ "redis_url" ∷ "secret" ∷ "set_cookie" ∷ "token" ∷ "username" ∷ []

abbrev pub sensitive_suffixes : List String
sensitive_suffixes =
    "_api_key" ∷ "_cookie" ∷ "_credential" ∷ "_password" ∷ "_private_key" ∷ "_secret" ∷ "_token"
    ∷ []

module _ (py : Python) where
  open py use {search, fullmatch, normalized, ends_with, dumped_length}

  unfoldable pub require_safe_key : String → Outcome (Unit {0})
  require_safe_key key = do
    raise_if
        (contains sensitive_keys (normalized key)
          || any (ends_with (normalized key)) sensitive_suffixes)
        (value_error "audit state contains forbidden sensitive field")
    raise_if (leb (count key) 0 || ltb 120 (count key))
        (value_error "audit state keys must contain 1 to 120 characters")

  unfoldable pub require_depth : ℕ → Outcome (Unit {0})
  require_depth depth =
      raise_if (ltb max_depth depth) (value_error "audit state exceeds the maximum nesting depth")

  unfoldable mutual
    -- `_audit_json(value, depth=depth)`: a value that is returned is returned as it was
    pub audit_json : ℕ → AuditJson → Outcome (Unit {0})
    audit_json depth null = require_depth depth
    audit_json depth (bool b) = require_depth depth
    audit_json depth (int n) = require_depth depth
    audit_json depth (text s) = do
      require_depth depth
      raise_if (not (contains safe_audit_identifiers s) && search sensitive_text_re s)
          (value_error "audit state contains sensitive text")
    audit_json depth (array xs) = do
      require_depth depth
      raise_if (ltb max_collection_items (items_length xs))
          (value_error "audit state contains too many array items")
      audit_items (suc depth) xs
    audit_json depth (object fs) = do
      require_depth depth
      raise_if (ltb max_collection_items (fields_length fs))
          (value_error "audit state contains too many object fields")
      audit_fields (suc depth) fs

    pub audit_items : ℕ → Items → Outcome (Unit {0})
    audit_items depth nil = ok tt
    audit_items depth (cons x xs) = do audit_json depth x; audit_items depth xs

    pub audit_fields : ℕ → Fields → Outcome (Unit {0})
    audit_fields depth end = ok tt
    audit_fields depth (field key x fs) = do
      require_safe_key key
      audit_json depth x
      audit_fields depth fs

  -- A state is an object already, so the test of its type passes.
  unfoldable pub sanitize_audit_state : Option Fields → Outcome (Option Fields)
  sanitize_audit_state none = ok none
  sanitize_audit_state (some state) = do
    audit_json 0 (object state)
    raise_if (ltb max_state_bytes (dumped_length (object state)))
        (value_error "audit state exceeds 16 KiB")
    ok (some state)

  unfoldable pub validate_audit_action : String → Outcome String
  validate_audit_action value = do
    raise_if (ltb (count value) 3 || ltb 120 (count value) || not (fullmatch action_re value))
        (value_error "invalid audit action")
    ok value

  unfoldable pub validate_audit_reason : String → Outcome String
  validate_audit_reason value = do
    raise_if (ltb (count value) 2 || ltb 80 (count value) || not (fullmatch reason_re value))
        (value_error "invalid audit reason code")
    ok value

  unfoldable pub validate_audit_request_id : String → Outcome String
  validate_audit_request_id value = do
    raise_if (ltb (count value) 1 || ltb 128 (count value) || not (fullmatch request_id_re value))
        (value_error "invalid audit request or correlation ID")
    ok value
