-- ===== src/Accounts/Registration/Opening.antt =====
-- services/authentication.py and services/provisioning.py: what an account is when it has been opened.
use fastapi_templates_xtn.Prelude.{
  ◌≢◌, List, ◌||◌, any, contains, nat_beq_iff, ◌≡◌, sym, ap, ◌∙◌, String, true, false, [], ◌∷◌,
  some, ok, bind_inv, arith, nat_eq, string_eq, ◌==◌, or_raise, raise_if, first, Ensures,
  Ensures-of, bind_ok, ensured, ℕ, ◌+◌, ◌++◌, ◌&&◌, Option, none, refl, KeyedBy, KeyedBy-first,
  first-All, first_holds, All, eq_iff, is_none,
}
use fastapi_templates_xtn.Errors.{key_error, conflict, not_found}
use fastapi_templates_xtn.Domain.Keys.{role_key}
use fastapi_templates_xtn.Domain.Keys
use fastapi_templates_xtn.Models.{User, Role, UserRole, RbacState, RbacAuditEvent, Db, allowed}
use fastapi_templates_xtn.Audit.{
  sanitize_audit_state, validate_audit_action, validate_audit_reason, validate_audit_request_id,
}
use fastapi_templates_xtn.Service.Base.{bump_epoch}
use fastapi_templates_xtn.Repository.{lock_rbac_state, lock_roles, role_of}
use fastapi_templates_xtn.Service.Locking.Facts.{
  find_live_role, role_of-lock_roles, find_live_role_lem,
}
use fastapi_templates_xtn.Accounts.{Platform, Accounts, lift, raised, runtime_error}
use fastapi_templates_xtn.Accounts.Rows.{contains_first}
use fastapi_templates_xtn.Accounts.Provisioning.{
  reserved_user_names, NewUser, normalize_identity, provisioned_row, identity_exists,
  breaks_contract, provisioned, provision_event, require_provisioning_actor, flush,
  create_user_with_default_role,
}

-- The role that an account gets: the live row that is the migrated base role.
pub record IsBaseRole (db : Db) (role : Role) : Type 0 where
  pub live : find_live_role db role.id ≡ some role
  pub key : role.key ≡ "user"
  pub is_system : role.is_system ≡ true
  pub unprotected : role.is_protected ≡ false
  pub ordinary : role.is_super_admin ≡ false
  pub active : role.is_active ≡ true
  pub tier : role.management_tier ≡ 0

-- The account of a new user: live, active and ordinary, of the first versions, with this password, if any.
abbrev pub account : ℕ → String → Option String → Option ℕ → User
account id user_name password_hash changed_at = record {
  id = id;
  user_name = user_name;
  password_hash = password_hash;
  must_change_password = false;
  password_changed_at = changed_at;
  is_active = true;
  is_protected = false;
  token_version = 0;
  authz_version = 1;
  deleted_at = none;
  deleted_by_user_id = none;
}

-- The live assignment of the role to the new user.
abbrev pub assignment : NewUser → ℕ → UserRole
assignment new role_id = record {
  user_id = new.user_id;
  role_id = role_id;
  assigned_by_user_id = new.assigned_by_user_id;
  deleted_at = none;
  deleted_by_user_id = none;
}

pub record IsProvisionEvent (new : NewUser) (role_id : ℕ) (event : RbacAuditEvent) : Type 0 where
  pub target_user : event.target_user_id ≡ some new.user_id
  pub target_role : event.target_role_id ≡ some role_id
  pub decided : event.decision ≡ allowed

-- The given name without the spaces around it, in the format of names and not a reserved one.
pub record IsUserName (platform : Platform) (value user_name : String) : Type 0 where
  pub stripped : user_name ≡ platform.strip value
  pub format : platform.python.fullmatch "[A-Za-z0-9_]{3,32}" user_name ≡ true
  pub unreserved : contains reserved_user_names (platform.unicode.casefold user_name) ≡ false

-- No row has the id or the name.
abbrev pub IsUnused : ℕ → String → List User → Type 0
IsUnused id user_name = All (λ u. (u.id ≢ id) × (u.user_name ≢ user_name))

normalize_identity-IsUserName :
    (platform : Platform) (value user_name : String)
    → normalize_identity platform value ≡ ok user_name
    → IsUserName platform value user_name
unfolding normalize_identity
normalize_identity-IsUserName platform value user_name h =
    let same : user_name ≡ platform.strip value = ground arith in
    record { stripped = same; format = rw same (ground arith); unreserved = rw same (ground arith) }

not_any-IsUnused :
    (id : ℕ) (user_name : String) (rows : List User)
    → any (λ u. (u.id == id) || (u.user_name == user_name)) rows ≡ false
    → IsUnused id user_name rows
not_any-IsUnused id user_name [] h = tt
not_any-IsUnused id user_name (u ∷ rows) h = (
  (
    λ e. let hit = (nat_beq_iff u.id id).1 e in absurd (ground arith),
    λ e. let hit = (eq_iff u.user_name user_name).1 e in absurd (ground arith),
  ),
  not_any-IsUnused id user_name rows (ground arith),
)

-- What provisioning adds to the tables: a user of a normalized name that nobody has, with one assignment.
pub record IsProvisioned (platform : Platform) (new : NewUser) (before after : Accounts)
    (row : User) : Type 0 where
  pub user_name : String
  pub normalized : IsUserName platform new.user_name user_name
  pub unused : IsUnused new.user_id user_name before.db.users
  pub is_row : row ≡ account new.user_id user_name none none
  pub state : RbacState
  pub is_state : before.db.state ≡ some state
  pub role : Role
  pub base : IsBaseRole before.db role
  pub event : RbacAuditEvent
  pub is_event : IsProvisionEvent new role.id event
  pub written : after ≡ record before {
    db = record before.db {
      users = before.db.users ++ account new.user_id user_name none none ∷ [];
      user_roles = before.db.user_roles ++ assignment new role.id ∷ [];
      audit_events = before.db.audit_events ++ event ∷ [];
      state = some (record state { epoch = state.epoch + 1 });
    };
  }

provision_event-IsProvisionEvent :
    (platform : Platform) (new : NewUser) (role_id : ℕ)
    → Ensures (provision_event platform new role_id) (IsProvisionEvent new role_id)
unfolding provision_event
provision_event-IsProvisionEvent platform new role_id =
    bind_ok (validate_audit_action platform.python "user.provision") _ _ λ action e1.
      bind_ok (validate_audit_reason platform.python "default_user_role_assigned") _ _ λ reason e2.
        bind_ok (sanitize_audit_state platform.python _) _ _ λ after e3.
          bind_ok (validate_audit_request_id platform.python new.request_id) _ _
            λ i e4. record { target_user = refl; target_role = refl; decided = refl }

-- Role ids are unique, so the locked row is the one that has been found by its key.
base_key :
    (db : Db) (found role : Role)
    → KeyedBy (λ r. r.id) db.roles
    → first (λ r. r.key == "user") db.roles ≡ some found
    → find_live_role db found.id ≡ some role
    → role.key ≡ "user"
unfolding find_live_role
base_key db found role keyed is_found live =
    let same : role ≡ found =
      first_All_lem
        (KeyedBy-first (λ r. r.id) (λ r. r.key == "user") db.roles found keyed is_found) in
    ap (λ r. r.key) same
    ∙ (eq_iff found.key "user").0 (first_holds (λ r. r.key == "user") db.roles found is_found)
  where
    first_All_lem : All (λ r. r.id ≡ found.id → r ≡ found) db.roles → role ≡ found
    first_All_lem only =
        first-All (λ r. r.id ≡ found.id → r ≡ found)
          (λ r. (r.id == found.id) && is_none r.deleted_at) db.roles role only live
          (find_live_role_lem db found.id role live).0

kept_contract :
    (db : Db) (role : Role)
    → find_live_role db role.id ≡ some role
    → role.key ≡ "user"
    → breaks_contract role ≡ false
    → IsBaseRole db role
unfolding breaks_contract
kept_contract db role live key h = record {
  live = live;
  key = key;
  is_system = ground arith;
  unprotected = ground arith;
  ordinary = ground arith;
  active = ground arith;
  tier = ground arith;
}

module _ (platform : Platform) (new : NewUser) (a : Accounts)
    (role_ids : KeyedBy (λ r. r.id) a.db.roles) where
  pub returned-IsProvisioned :
      (r : User × Accounts)
      → create_user_with_default_role platform new a ≡ ok r
      → IsProvisioned platform new a r.1 r.0
  unfolding create_user_with_default_role lock_rbac_state provisioned bump_epoch identity_exists
  returned-IsProvisioned r h =
      let (user_name, e1, h1) = bind_inv (lift (normalize_identity platform new.user_name)) _ h in
      let (state, e2, h2) = bind_inv (lift (lock_rbac_state a.db)) _ h1 in
      let (u1, e3, h3) =
        bind_inv (lift (require_provisioning_actor a.db new.assigned_by_user_id)) _ h2 in
      let (u2, e4, h4) =
        bind_inv
          (raise_if (identity_exists a.db new.user_id user_name)
            (raised (conflict "user_identity_exists")))
          _ h3 in
      let (u3, e5, h5) = bind_inv (flush new.violation) _ h4 in
      let (found, e6, h6) =
        bind_inv
          (or_raise (first (λ r. r.key == role_key Keys.user) a.db.roles)
            (raised (not_found "default_user_role_missing")))
          _ h5 in
      let (role, e7, h7) =
        bind_inv
          (or_raise (role_of (lock_roles a.db (found.id ∷ [])) found.id)
            (raised (key_error found.id)))
          _ h6 in
      let (u4, e8, h8) =
        bind_inv
          (raise_if (breaks_contract role)
            (runtime_error "default user role does not match the migrated contract"))
          _ h7 in
      let (event, e9, h9) = bind_inv (lift (provision_event platform new role.id)) _ h8 in
      let locked : role_of (lock_roles a.db (found.id ∷ [])) found.id ≡ some role = ground arith in
      let live =
        sym (role_of-lock_roles a.db (found.id ∷ []) found.id (contains_first found.id []))
        ∙ locked in
      let id = (find_live_role_lem a.db found.id role live).0 in
      let done : (
        provisioned_row new.user_id user_name,
        record a { db = provisioned state new user_name role.id event a.db },
      )
          ≡ r =
        ground arith in
      record {
        user_name = user_name;
        normalized = normalize_identity-IsUserName platform new.user_name user_name (ground arith);
        unused = not_any-IsUnused new.user_id user_name a.db.users (ground arith);
        is_row = ap (λ x. x.0) (sym done);
        state = state;
        is_state = ground arith;
        role = role;
        base =
            kept_contract a.db role (ap (find_live_role a.db) id ∙ live)
              (base_key a.db found role role_ids (ground arith) live) (ground arith);
        event = event;
        is_event =
            ensured (IsProvisionEvent new role.id) (ground arith)
              (provision_event-IsProvisionEvent platform new role.id);
        written = ap (λ x. x.1) (sym done);
      }

  -- If role ids are unique, provisioning that succeeds adds exactly one user, active and without a password,
  -- with a normalized name, whose id and name nobody had; one live assignment to that user, of the live,
  -- active, unprotected system role of tier 0 with the key `user`; and one event about the two. It raises
  -- the epoch by one and changes nothing else.
  pub create_user_with_default_role-IsProvisioned :
      Ensures
        (create_user_with_default_role platform new a)
        (λ r. IsProvisioned platform new a r.1 r.0)
  create_user_with_default_role-IsProvisioned = Ensures-of _ returned-IsProvisioned
