-- ===== src/Requests/Permitted.antt =====
-- dependencies/authentication.py: whom `require_permissions` lets pass, and what it leaves behind.
use fastapi_templates_xtn.Prelude.{
  ◌≡◌, refl, sym, ◌∙◌, ◌⊎◌, ◌↔◌, inl, inr, String, Bool, true, false, not, ◌||◌, List, [], ◌∷◌, map,
  none, ok, err, if◌then◌else◌, ◌==◌, string_eq, arith, to_set, subset, inter, Subset, contains,
  contains-to_set, contains-inter, Subset_of_subset, subset_of_Subset, Bool-cases, Result-cases,
  ensured, beq_refl,
}
use fastapi_templates_xtn.Errors.{Outcome, forbidden}
use fastapi_templates_xtn.Audit.{Python}
use fastapi_templates_xtn.Domain.Keys.{PermissionKey, value}
use fastapi_templates_xtn.Domain.Snapshot.{AuthorizationContext}
use fastapi_templates_xtn.Models.{Db, RbacAuditEvent, denied}
use fastapi_templates_xtn.Service.Audited.{Request, audit_event, write_denied_audit}
use fastapi_templates_xtn.Service.Audited.Atomic.{IsEventOf, after_event, audit_event-IsEventOf}
use fastapi_templates_xtn.Requests.{
  HttpRequest, action_of, is_empty, is_allowed, required_keys_of, write_permission_denial_audit,
  denied_request, dependency, require_permissions,
}

-- All of the keys, or any of them, are among the permissions.
abbrev pub Permits : Bool → List String → List String → Type 0
Permits true keys permissions = Subset keys permissions
Permits false keys permissions =
    (key : String) × (contains keys key ≡ true) × (contains permissions key ≡ true)

member :
    (keys : List String) → not (is_empty keys) ≡ true → (key : String) × (contains keys key ≡ true)
unfolding contains
member [] h = absurd (ground arith)
member (key ∷ keys) h = (key, rw (beq_refl key))

not_empty :
    (keys : List String) (key : String) → contains keys key ≡ true → not (is_empty keys) ≡ true
unfolding contains
not_empty [] key h = ground arith
not_empty (k ∷ keys) key h = refl

allowed_if :
    (b : Bool) (keys permissions : List String)
    → ((if b
          then subset (to_set keys) permissions
          else not (is_empty (inter (to_set keys) permissions)))
        ≡ true)
      ↔ Permits b keys permissions
allowed_if true keys permissions = (
  λ h key m. Subset_of_subset (to_set keys) permissions h key (contains-to_set keys key ∙ m),
  λ p.
      subset_of_Subset (to_set keys) permissions
        (λ key m. p key (sym (contains-to_set keys key) ∙ m)),
)
allowed_if false keys permissions = (
  λ h.
      let (key, m) = member (inter (to_set keys) permissions) h in
      (
        key,
        ground (arith, contains-inter (to_set keys) permissions key, contains-to_set keys key),
        ground (arith, contains-inter (to_set keys) permissions key, contains-to_set keys key),
      ),
  λ (key, m, n).
      not_empty (inter (to_set keys) permissions) key
        (ground (arith, contains-inter (to_set keys) permissions key, contains-to_set keys key)),
)

abbrev pub denial : AuthorizationContext → HttpRequest → Request
denial context request = record {
  context = context;
  action = action_of request.operation_id;
  target_user_id = none;
  target_role_id = none;
}

module _ (py : Python) where
  -- Nothing is written, or the one event of the denial of a POST request.
  abbrev pub DenialRecorded : AuthorizationContext → HttpRequest → Db → Db → Type 0
  DenialRecorded context request db db' =
      (db' ≡ db)
      ⊎ ((event : RbacAuditEvent) × (request.method ≡ "POST")
          × IsEventOf (denial context request) denied "missing_required_permission" event
          × (db' ≡ after_event py db event))

  abbrev pub Checked :
      List PermissionKey
      → String
      → AuthorizationContext
      → HttpRequest
      → Db
      → Outcome AuthorizationContext × Db
      → Type 0
  Checked required mode context request db answer =
      (Permits (mode == "all") (map value required) context.authority.permissions
        × (answer ≡ (ok context, db)))
      ⊎ (¬ Permits (mode == "all") (map value required) context.authority.permissions
          × (answer.0 ≡ err (forbidden "missing_required_permission"))
          × DenialRecorded context request db answer.1)

  written :
      (reachable : Bool) (context : AuthorizationContext) (request : HttpRequest) (db : Db)
      → request.method ≡ "POST"
      → DenialRecorded context request db
          (write_permission_denial_audit py reachable context (action_of request.operation_id) db)
  unfolding write_permission_denial_audit write_denied_audit
  written false context request db post = inl refl
  written true context request db post =
      elim (Result-cases (
        audit_event py (denial context request) denied "missing_required_permission" none none
          none)) [
            | inl (event, e) ↦
                rw (write_permission_denial_audit, write_denied_audit, e)
                  (inr (
                    event,
                    post,
                    ensured _ e (
                        audit_event-IsEventOf py (denial context request) denied
                          "missing_required_permission" none none none),
                    refl,
                  ))
            | inr (x, e) ↦ rw (write_permission_denial_audit, write_denied_audit, e) (inl refl)
          ]

  recorded :
      (reachable : Bool) (context : AuthorizationContext) (request : HttpRequest) (db : Db)
      → DenialRecorded context request db (denied_request py reachable context request db)
  unfolding denied_request
  recorded reachable context request db = elim (Bool-cases (request.method == "POST")) [
    | inl post ↦
        rw post (
          written reachable context request db ((string_eq.equal_iff request.method "POST").0 post))
    | inr other ↦ rw other (inl refl)
  ]

  dependency-Checked :
      (required : List PermissionKey) (mode : String) (reachable : Bool)
      (context : AuthorizationContext) (request : HttpRequest) (db : Db)
      → Checked required mode context request db
          (dependency py mode (to_set (map value required)) reachable context request db)
  unfolding dependency is_allowed
  dependency-Checked required mode reachable context request db =
      let keys = map value required in
      let (sound, complete) = allowed_if (mode == "all") keys context.authority.permissions in
      elim (Bool-cases (is_allowed mode (to_set keys) context.authority.permissions)) [
        | inl yes_ ↦ rw yes_ (inl (sound yes_, refl))
        | inr no_ ↦
            rw no_ (
              inr (λ p. absurd (cc (complete p, no_)), refl, recorded reachable context request db))
      ]

  -- With at least one required permission and the mode "all" or "any", the check of a route lets a request
  -- pass exactly if the caller has all, or any, of the required permissions, and changes nothing then. It
  -- refuses every other request as forbidden and writes nothing but, for a POST request, at most the one
  -- event of the denial in the caller's name.
  pub require_permissions-Checked :
      (first : PermissionKey) (rest : List PermissionKey) (mode : String)
      → (mode == "all" || mode == "any") ≡ true
      → (check : Bool → AuthorizationContext → HttpRequest → Db → Outcome AuthorizationContext × Db)
        × (require_permissions py (first ∷ rest) mode ≡ ok check)
        × ((reachable : Bool) (context : AuthorizationContext) (request : HttpRequest) (db : Db)
            → Checked (first ∷ rest) mode context request db (check reachable context request db))
  unfolding require_permissions
  require_permissions-Checked first rest mode h = (
    dependency py mode (to_set (map value (first ∷ rest))),
    rw (required_keys_of, h) refl,
    dependency-Checked (first ∷ rest) mode,
  )
