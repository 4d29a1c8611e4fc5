-- ===== src/Passwords/Acceptance.antt =====
-- core/security/passwords.py: which new passwords are accepted.
use Prim.Native.String.{count}
use fastapi_templates_xtn.Prelude.{
  ℕ, ◌≤◌, ◌≡◌, ◌≢◌, refl, sym, ap, ◌∙◌, ◌↔◌, String, Bool, true, false, ◌||◌, List, [], ◌∷◌, some,
  ok, ◌==◌, string_eq, nat_eq, eq_iff, any, contains, map, contains-to_set, All, is_one_element,
  arith,
}
use fastapi_templates_xtn.Passwords.{
  Unicode, codes, comparison_form, identity_fragments, encoded_length, has_control_character,
  validate_login_password_input, validate_new_password, is_sequence,
}
use fastapi_templates_xtn.Passwords.Strength.{
  IsRepetition, IsRun, is_one_element-IsRepetition, is_sequence-IsRun,
}

module _ (unicode : Unicode) where
  open unicode use {utf8_length, category}

  -- 8 to 60 characters without a control character, at most 1024 bytes of UTF-8, and in the form in
  -- which identities are compared neither one character repeated, nor a run, nor an identity.
  pub record IsAcceptable (identity_values : List String) (password : String) : Type 0 where
    pub long : 8 ≤ count password
    pub short : count password ≤ 60
    pub encoded : (bytes : ℕ) × (utf8_length password ≡ some bytes) × (bytes ≤ 1024)
    pub printable : All (λ c. category c ≢ "Cc") (codes password)
    pub varied : ¬ (IsRepetition (codes (comparison_form unicode password)))
    pub unordered : ¬ (IsRun (codes (comparison_form unicode password)))
    pub unlike :
        All
          (λ name. comparison_form unicode name ≢ comparison_form unicode password)
          identity_values

-- A test that decides a property fails exactly where the property does.
refuted : {P : Type 0} (b : Bool) → (b ≡ true) ↔ P → (b ≡ false) ↔ (¬ P)
refuted true (f, g) = (λ e. cc, λ n. absurd (n (f refl)))
refuted false (f, g) = (λ _ p. let e = g p in cc, λ _. refl)

any-All :
    {A : Type 0} (p : A → Bool) {P : A → Type 0} (xs : List A)
    → ((x : A) → (p x ≡ true) ↔ P x)
    → (any p xs ≡ false) ↔ All (λ x. ¬ (P x)) xs
any-All p [] decides = (λ _. tt, λ _. refl)
any-All p (x ∷ xs) decides =
    let (head, head') = refuted (p x) (decides x) in
    let (tail, tail') = any-All p xs decides in
    (
      λ h. (head (ground arith), tail (ground arith)),
      λ (h, t). let a = head' h in let b = tail' t in ground arith,
    )

contains-map :
    {A : Type 0} (f : A → String) (xs : List A) (s : String)
    → contains (map f xs) s ≡ any (λ x. f x == s) xs
unfolding contains
contains-map f [] s = refl
contains-map f (x ∷ xs) s = ap (◌||◌ (f x == s)) (contains-map f xs s)

module _ (unicode : Unicode) where
  open unicode use {utf8_length, category}

  has_control_character_iff :
      (password : String)
      → (has_control_character unicode password ≡ false)
        ↔ All (λ c. category c ≢ "Cc") (codes password)
  unfolding has_control_character
  has_control_character_iff password =
      any-All (λ c. category c == "Cc") (codes password) (λ c. eq_iff (category c) "Cc")

  identity_fragments_iff :
      (identity_values : List String) (form : String)
      → (contains (identity_fragments unicode identity_values) form ≡ false)
        ↔ All (λ name. comparison_form unicode name ≢ form) identity_values
  unfolding identity_fragments
  identity_fragments_iff identity_values form =
      let (f, g) =
        any-All (λ name. comparison_form unicode name == form) identity_values
          (λ name. eq_iff (comparison_form unicode name) form) in
      let e =
        contains-to_set (map (comparison_form unicode) identity_values) form
        ∙ contains-map (comparison_form unicode) identity_values form in
      (λ h. f (sym e ∙ h), λ h. e ∙ g h)

  -- The validation of a new password returns a text exactly when the text is the password and the password
  -- is acceptable: 8 to 60 characters, none a control character, at most 1024 bytes, and in the compared form
  -- neither a repetition, nor a run of letters or digits, nor one of the identities.
  pub validate_new_password-IsAcceptable :
      (identity_values : List String) (password accepted : String)
      → (validate_new_password unicode identity_values password ≡ ok accepted)
        ↔ ((accepted ≡ password) × IsAcceptable unicode identity_values password)
  unfolding validate_new_password validate_login_password_input encoded_length
  validate_new_password-IsAcceptable identity_values password accepted = (there, back)
    where
      there :
          validate_new_password unicode identity_values password ≡ ok accepted
          → (accepted ≡ password) × IsAcceptable unicode identity_values password
      there h =
          let form = comparison_form unicode password in
          (
            ground arith,
            record {
              long = ground arith;
              short = ground arith;
              encoded = ground arith;
              printable = (has_control_character_iff password).0 (ground arith);
              varied =
                  (refuted (is_one_element (codes form))
                      (is_one_element-IsRepetition (codes form))).0
                    (ground arith);
              unordered =
                  (refuted (is_sequence (codes form)) (is_sequence-IsRun (codes form))).0
                    (ground arith);
              unlike = (identity_fragments_iff identity_values form).0 (ground arith);
            },
          )

      back :
          ((accepted ≡ password) × IsAcceptable unicode identity_values password)
          → validate_new_password unicode identity_values password ≡ ok accepted
      back (same, a) =
          let form = comparison_form unicode password in
          let (bytes, encoded, small) = a.encoded in
          let long = a.long in
          let short = a.short in
          let printable = (has_control_character_iff password).1 a.printable in
          let varied =
            (refuted (is_one_element (codes form)) (is_one_element-IsRepetition (codes form))).1
              a.varied in
          let unordered =
            (refuted (is_sequence (codes form)) (is_sequence-IsRun (codes form))).1 a.unordered in
          let unlike = (identity_fragments_iff identity_values form).1 a.unlike in ground arith
