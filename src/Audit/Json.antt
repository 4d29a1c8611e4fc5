-- ===== src/Audit/Json.antt =====
-- core/audit.py: the JSON values of an audit state. Floats, enums and timestamps, which no modelled
-- payload holds, are left out; a UUID is in a payload as its text.
use fastapi_templates_xtn.Prelude.{ℕ, suc, String, Bool, List, [], ◌∷◌}

mutual
  pub data AuditJson : Type 0 where
    null : AuditJson
    bool : Bool → AuditJson
    int : ℕ → AuditJson
    text : String → AuditJson
    array : Items → AuditJson
    object : Fields → AuditJson

  pub data Items : Type 0 where
    nil : Items
    cons : AuditJson → Items → Items

  -- The entries of a `dict[str, object]`.
  pub data Fields : Type 0 where
    end : Fields
    field : String → AuditJson → Fields → Fields

abbrev pub items_length : Items → ℕ
items_length nil = 0
items_length (cons x xs) = suc (items_length xs)

abbrev pub fields_length : Fields → ℕ
fields_length end = 0
fields_length (field key x fs) = suc (fields_length fs)

abbrev pub text_items : List String → Items
text_items [] = nil
text_items (x ∷ rest) = cons (text x) (text_items rest)

-- A list of texts.
abbrev pub texts : List String → AuditJson
texts xs = array (text_items xs)
