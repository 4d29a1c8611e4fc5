-- ===== src/Accounts/Resets/SuperAdmins.antt =====
-- repositories/access.py: who holds the role of the super administrator.
use mathlib.Core.List.{Memᴰ}
use fastapi_templates_xtn.Prelude.{
  ℕ, ◌≡◌, refl, sym, ap, ◌∙◌, ◌↔◌, Bool, true, not, ◌&&◌, List, [], ◌∷◌, map, arith, nat_eq,
  string_eq, ◌==◌, is_none, first, keep_if, contains, contains-to_set, same_set, Subset_of_subset,
  beq_refl, Bool-cases, inl, inr, nat_beq_iff, eq_iff,
}
use fastapi_templates_xtn.Models.{Role, UserRole, Db}
use fastapi_templates_xtn.Repository.{load_live_super_admin_holder_ids}

-- A live assignment gives the user a live role with the super administrator's key.
pub record HoldsSuperAdmin (db : Db) (user_id : ℕ) : Type 0 where
  pub assignment : UserRole
  pub assigned : Memᴰ assignment db.user_roles
  pub holder : assignment.user_id ≡ user_id
  pub live_assignment : is_none assignment.deleted_at ≡ true
  pub role : Role
  pub is_role : Memᴰ role db.roles
  pub role_of_assignment : role.id ≡ assignment.role_id
  pub live_role : is_none role.deleted_at ≡ true
  pub key : role.key ≡ "super_admin"

module _ {A : Type 0} where
  some_first :
      (p : A → Bool) (xs : List A)
      → not (is_none (first p xs)) ≡ true
      → (x : A) × Memᴰ x xs × (p x ≡ true)
  some_first p [] h = absurd (ground arith)
  some_first p (x ∷ xs) h = elim (Bool-cases (p x)) [
    | inl hit ↦ (x, Memᴰ.head refl, hit)
    | inr miss ↦ let (y, m, e) = some_first p xs (ground arith) in (y, Memᴰ.tail m, e)
  ]

  first_some :
      (p : A → Bool) (x : A) (xs : List A)
      → Memᴰ x xs
      → p x ≡ true
      → not (is_none (first p xs)) ≡ true
  first_some p x [] m h = elim m [ ]
  first_some p x (y ∷ xs) (Memᴰ.head e) h = rw (sym (ap p e) ∙ h) refl
  first_some p x (y ∷ xs) (Memᴰ.tail m) h = let rest = first_some p x xs m h in ground arith

  selected :
      (f : A → ℕ) (p : A → Bool) (xs : List A) (i : ℕ)
      → contains (map f (keep_if p xs)) i ≡ true
      → (x : A) × Memᴰ x xs × (p x ≡ true) × (f x ≡ i)
  unfolding contains
  selected f p [] i h = absurd (ground arith)
  selected f p (x ∷ xs) i h = elim (Bool-cases (p x && (f x == i))) [
    | inl hit ↦ (x, Memᴰ.head refl, ground arith, (nat_beq_iff (f x) i).0 (ground arith))
    | inr miss ↦ let (y, m, e, same) = selected f p xs i (ground arith) in (y, Memᴰ.tail m, e, same)
  ]

  selects :
      (f : A → ℕ) (p : A → Bool) (x : A) (xs : List A)
      → Memᴰ x xs
      → p x ≡ true
      → contains (map f (keep_if p xs)) (f x) ≡ true
  unfolding contains
  selects f p x [] m h = elim m [ ]
  selects f p x (y ∷ xs) (Memᴰ.head e) h = rw (sym (ap p e) ∙ h, sym (ap f e), beq_refl (f x)) refl
  selects f p x (y ∷ xs) (Memᴰ.tail m) h = let rest = selects f p x xs m h in ground arith

abbrev is_super_admin_role : UserRole → Role → Bool
is_super_admin_role a r = (r.id == a.role_id) && is_none r.deleted_at && (r.key == "super_admin")

module _ (db : Db) where
  abbrev is_holding : UserRole → Bool
  is_holding a = is_none a.deleted_at && not (is_none (first (is_super_admin_role a) db.roles))

  pub holder_ids_lem :
      (user_id : ℕ)
      → (contains (load_live_super_admin_holder_ids db) user_id ≡ true) ↔ HoldsSuperAdmin db user_id
  unfolding load_live_super_admin_holder_ids
  holder_ids_lem user_id =
      let ids = map (λ a. a.user_id) (keep_if is_holding db.user_roles) in
      let same = contains-to_set ids user_id in
      (
        λ h.
            let (a, m, held, holder) =
              selected (λ a. a.user_id) is_holding db.user_roles user_id (sym same ∙ h) in
            let (r, n, is_role) = some_first (is_super_admin_role a) db.roles (ground arith) in
            record {
              assignment = a;
              assigned = m;
              holder = holder;
              live_assignment = ground arith;
              role = r;
              is_role = n;
              role_of_assignment = (nat_beq_iff r.id a.role_id).0 (ground arith);
              live_role = ground arith;
              key = (eq_iff r.key "super_admin").0 (ground arith);
            },
        λ h.
            let is_role : is_super_admin_role h.assignment h.role ≡ true =
              rw
                (
                  h.live_role,
                  (nat_beq_iff h.role.id h.assignment.role_id).1 h.role_of_assignment,
                  (eq_iff h.role.key "super_admin").1 h.key,
                )
                refl in
            let found =
              first_some (is_super_admin_role h.assignment) h.role db.roles h.is_role is_role in
            let held : is_holding h.assignment ≡ true = rw (h.live_assignment, found) refl in
            same
            ∙ ap (contains ids) (sym h.holder)
            ∙ selects (λ a. a.user_id) is_holding h.assignment db.user_roles h.assigned held,
      )

  -- Exactly the user holds the role.
  pub sole_holder :
      (user_id : ℕ)
      → same_set (load_live_super_admin_holder_ids db) (user_id ∷ []) ≡ true
      → (i : ℕ) → HoldsSuperAdmin db i ↔ (i ≡ user_id)
  unfolding same_set
  sole_holder user_id h i =
      let ids = load_live_super_admin_holder_ids db in
      let inside = Subset_of_subset ids (user_id ∷ []) (ground arith) in
      let back = Subset_of_subset (user_id ∷ []) ids (ground arith) in
      (
        λ held. only (inside i ((holder_ids_lem i).1 held)),
        λ e. (holder_ids_lem i).0 (back i (first_in e)),
      )
    where
      only : contains (user_id ∷ []) i ≡ true → i ≡ user_id
      only m = unfold contains in sym ((nat_beq_iff user_id i).0 (ground arith))

      first_in : i ≡ user_id → contains (user_id ∷ []) i ≡ true
      first_in e = unfold contains in rw ((nat_beq_iff user_id i).1 (sym e)) refl
