-- ===== src/Requests.antt =====
-- dependencies/authentication.py: `require_permissions`, the check that stands before each route.
pub mod Permitted
use Prim.Native.String.{◌++◌}
use fastapi_templates_xtn.Prelude.{
  String, Bool, true, false, not, ◌&&◌, ◌||◌, List, [], ◌∷◌, map, Option, none, some, ok, err,
  ◌>>=◌, ◌>>◌, raise_if, require, if◌then◌else◌, ◌==◌, to_set, subset, inter, string_eq,
}
use fastapi_templates_xtn.Errors.{Outcome, value_error, forbidden}
use fastapi_templates_xtn.Audit.{Python}
use fastapi_templates_xtn.Domain.Keys.{PermissionKey, value}
use fastapi_templates_xtn.Domain.Snapshot.{AuthorizationContext}
use fastapi_templates_xtn.Models.{Db}
use fastapi_templates_xtn.Service.Audited.{write_denied_audit}

-- What the check reads of the request: the method, and the route's operation id if that is a text.
pub record HttpRequest : Type 0 where
  pub method : String
  pub operation_id : Option String

-- `f"api.{operation_id}" if isinstance(operation_id, str) and operation_id else "api.protected_write"`
unfoldable pub action_of : Option String → String
action_of none = "api.protected_write"
action_of (some operation_id) =
    if operation_id == "" then "api.protected_write" else "api." ++ operation_id

abbrev pub is_empty : List String → Bool
is_empty [] = true
is_empty (_ ∷ _) = false

-- `required_keys <= permissions if mode == "all" else bool(required_keys & permissions)`
unfoldable pub is_allowed : String → List String → List String → Bool
unfolding subset inter
is_allowed mode required_keys permissions =
    if mode == "all"
    then subset required_keys permissions
    else not (is_empty (inter required_keys permissions))

-- `if not required: raise ...`, `if mode not in ("all", "any"): raise ...`
unfoldable pub required_keys_of : List PermissionKey → String → Outcome (List String)
unfolding to_set
required_keys_of required mode = do
  raise_if (is_empty (map value required)) (value_error "at least one permission is required")
  require (mode == "all" || mode == "any") (value_error "mode must be 'all' or 'any'")
  ok (to_set (map value required))

module _ (py : Python) where
  -- The event has its own transaction, which does nothing if the database is not `reachable`.
  unfoldable pub write_permission_denial_audit : Bool → AuthorizationContext → String → Db → Db
  unfolding write_denied_audit
  write_permission_denial_audit false context action db = db
  write_permission_denial_audit true context action db =
      elim (write_denied_audit py
        (record {
          context = context;
          action = action;
          target_user_id = none;
          target_role_id = none;
        })
        "missing_required_permission" db) [ ok db' ↦ db' | err _ ↦ db ]

  unfoldable pub denied_request : Bool → AuthorizationContext → HttpRequest → Db → Db
  unfolding write_permission_denial_audit action_of
  denied_request reachable context request db =
      if request.method == "POST"
      then write_permission_denial_audit reachable context (action_of request.operation_id) db
      else db

  unfoldable pub dependency :
      String
      → List String
      → Bool
      → AuthorizationContext
      → HttpRequest
      → Db
      → Outcome AuthorizationContext × Db
  unfolding is_allowed denied_request
  dependency mode required_keys reachable context request db =
      if is_allowed mode required_keys context.authority.permissions then (ok context, db) else (
        err (forbidden "missing_required_permission"),
        denied_request reachable context request db,
      )

  unfoldable pub require_permissions :
      List PermissionKey
      → String
      → Outcome (Bool → AuthorizationContext → HttpRequest → Db → Outcome AuthorizationContext × Db)
  unfolding required_keys_of dependency
  require_permissions required mode = do
    required_keys ← required_keys_of required mode
    ok (dependency mode required_keys)
