-- ===== src/Service/Invariants/RoleRows.antt =====
-- The rows that a request writes into `roles` satisfy the check constraints, and their keys stay unique.
use fastapi_templates_xtn.Prelude.{
  ℕ, ◌≡◌, ◌≢◌, refl, sym, ◌∙◌, ap, Bool, true, false, ◌||◌, List, [], ◌∷◌, ◌++◌, String, arith,
  ◌==◌, nat_eq, string_eq, is_none, any, contains, update_if, All, any-append, Bool-cases, inl, inr,
  if◌then◌else◌, ◌≤◌, ◌⊎◌, eq_iff,
}
use fastapi_templates_xtn.Domain.Keys.{reserved_role_keys, role_key, SystemRoleKey}
use fastapi_templates_xtn.Domain.Keys
use fastapi_templates_xtn.Models.{Role}
use fastapi_templates_xtn.Models.Constraints.{IsValidRole, HasUniqueKeys}
use fastapi_templates_xtn.Service.Roles.{new_role}
use fastapi_templates_xtn.Service.Payloads.{RoleCreateRequest}
use fastapi_templates_xtn.Service.Effects.{IsRevised}

reserved : (system_key : SystemRoleKey) → contains reserved_role_keys (role_key system_key) ≡ true
unfolding contains
reserved Keys.super_admin = refl
reserved Keys.admin = refl
reserved Keys.user = refl

not_reserved :
    (key : String) (system_key : SystemRoleKey)
    → contains reserved_role_keys key ≡ false
    → key ≢ role_key system_key
not_reserved key system_key out e =
    let m = ap (contains reserved_role_keys) e ∙ reserved system_key in cc

pub new_role-IsValidRole :
    (role_id : ℕ) (request : RoleCreateRequest)
    → contains reserved_role_keys request.key ≡ false
    → (1 ≤ request.management_tier) × (request.management_tier ≤ 999)
    → IsValidRole (new_role role_id request)
new_role-IsValidRole role_id request out tier = record {
  management_tier_range = ground arith;
  super_admin_tier_reserved = λ _. ground arith;
  custom_role_tier_range = λ _. tier;
  protected_role_is_system = λ e. absurd (cc);
  system_role_always_available = λ e. absurd (cc);
  deleted_role_inactive = λ e. absurd (cc);
  deleted_role_actor_requires_timestamp = λ e. absurd (cc);
  super_admin_flag_shape = λ e. absurd (cc);
  super_admin_role_shape = λ e. absurd (not_reserved request.key Keys.super_admin out e);
  admin_role_shape = λ e. absurd (not_reserved request.key Keys.admin out e);
  user_role_shape = λ e. absurd (not_reserved request.key Keys.user out e);
}

pub revised-IsValidRole :
    (old row : Role)
    → IsValidRole old
    → old.is_system ≡ false
    → is_none old.deleted_at ≡ true
    → IsRevised old row
    → IsValidRole row
revised-IsValidRole old row valid custom live rev = record {
  management_tier_range = rw rev.management_tier valid.management_tier_range;
  super_admin_tier_reserved =
      λ e. rw rev.management_tier (valid.super_admin_tier_reserved (sym rev.is_super_admin ∙ e));
  custom_role_tier_range = λ _. rw rev.management_tier (valid.custom_role_tier_range custom);
  protected_role_is_system =
      λ e. rev.is_system ∙ valid.protected_role_is_system (sym rev.is_protected ∙ e);
  system_role_always_available = λ e. absurd (not_system e);
  deleted_role_inactive = λ dead. inactive dead rev.deletion;
  deleted_role_actor_requires_timestamp = λ by. stamped by rev.deletion;
  super_admin_flag_shape = λ e.
      absurd (
        not_system (rev.is_system ∙ (valid.super_admin_flag_shape (sym rev.is_super_admin ∙ e)).0));
  super_admin_role_shape =
      λ e. absurd (not_system (rev.is_system ∙ (valid.super_admin_role_shape (sym rev.key ∙ e)).0));
  admin_role_shape =
      λ e. absurd (not_system (rev.is_system ∙ (valid.admin_role_shape (sym rev.key ∙ e)).0));
  user_role_shape =
      λ e. absurd (not_system (rev.is_system ∙ (valid.user_role_shape (sym rev.key ∙ e)).0));
}
  where
    not_system : row.is_system ≡ true → ⊥
    not_system e = let f = rev.is_system ∙ custom in cc

    inactive :
        is_none row.deleted_at ≡ false
        → ((row.deleted_at ≡ old.deleted_at) × (row.deleted_by_user_id ≡ old.deleted_by_user_id))
          ⊎ ((is_none row.deleted_at ≡ false) × (row.is_active ≡ false))
        → row.is_active ≡ false
    inactive dead (inl same) = let e = ap is_none same.0 ∙ live in absurd (cc)
    inactive dead (inr d) = d.1

    stamped :
        is_none row.deleted_by_user_id ≡ false
        → ((row.deleted_at ≡ old.deleted_at) × (row.deleted_by_user_id ≡ old.deleted_by_user_id))
          ⊎ ((is_none row.deleted_at ≡ false) × (row.is_active ≡ false))
        → is_none row.deleted_at ≡ false
    stamped by (inl same) =
        ap is_none same.0
        ∙ valid.deleted_role_actor_requires_timestamp (ap is_none (sym same.1) ∙ by)
    stamped by (inr d) = d.0

same_key :
    (p : Role → Bool) (f : Role → Role) (r : Role)
    → (p r ≡ true → (f r).key ≡ r.key)
    → (if p r then f r else r).key ≡ r.key
same_key p f r same = elim (Bool-cases (p r)) [ inl hit ↦ rw hit (same hit) | inr miss ↦ rw miss ]

any-update_if :
    (key : String) (p : Role → Bool) (f : Role → Role) (rows : List Role)
    → All (λ r. p r ≡ true → (f r).key ≡ r.key) rows
    → any (λ r. r.key == key) (update_if p f rows) ≡ any (λ r. r.key == key) rows
any-update_if key p f [] same = refl
any-update_if key p f (r ∷ rows) same =
    ap (λ b. (b == key) || any (λ r. r.key == key) (update_if p f rows)) (same_key p f r same.0)
    ∙ ap (◌||◌ (r.key == key)) (any-update_if key p f rows same.1)

-- An update that leaves the keys alone leaves them unique.
pub HasUniqueKeys-update_if :
    (p : Role → Bool) (f : Role → Role) (rows : List Role)
    → All (λ r. p r ≡ true → (f r).key ≡ r.key) rows
    → HasUniqueKeys rows
    → HasUniqueKeys (update_if p f rows)
HasUniqueKeys-update_if p f [] same h = tt
HasUniqueKeys-update_if p f (r ∷ rows) same h = (
  any-update_if (if p r then f r else r).key p f rows same.1
      ∙ ap (λ key. any (λ x. x.key == key) rows) (same_key p f r same.0)
      ∙ h.0,
  HasUniqueKeys-update_if p f rows same.1 h.1,
)

-- An insert of a row with a new key.
pub HasUniqueKeys-append :
    (rows : List Role) (row : Role)
    → any (λ r. r.key == row.key) rows ≡ false
    → HasUniqueKeys rows
    → HasUniqueKeys (rows ++ row ∷ [])
HasUniqueKeys-append [] row new h = (refl, tt)
HasUniqueKeys-append (r ∷ rows) row new h = (
  any-append (λ x. x.key == r.key) rows (row ∷ []) ∙ rw h.0 (or_nil (row.key == r.key) differs),
  HasUniqueKeys-append rows row (ground arith) h.1,
)
  where
    differs : (row.key == r.key) ≡ false
    differs = elim (Bool-cases (row.key == r.key)) [
      | inl same ↦
          let back : (r.key == row.key) ≡ true =
            (eq_iff r.key row.key).1 (sym ((eq_iff row.key r.key).0 same)) in
          absurd (ground arith)
      | inr other ↦ other
    ]

    or_nil : (b : Bool) → b ≡ false → (b || false) ≡ false
    or_nil b e = ground arith
