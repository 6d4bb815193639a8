-- ===== src/Routes/Checked.antt =====
-- What the framework's check of the fields gives to the code that reads them.
use hcvault_mashery_api_auth.Prelude.{
  String, ◌≡◌, refl, sym, ap, ◌∙◌, Bool, true, Option, none, some, arith,
}
use hcvault_mashery_api_auth.Value.{Value, text}
use hcvault_mashery_api_auth.Plugin.{find}
use hcvault_mashery_api_auth.Request.{FieldData}
use hcvault_mashery_api_auth.Routes.{
  Schema, FieldSchema, FieldType, type_string, Conforms, has_type, zero_of, or_default,
}

-- A field that has its type where it is given.
abbrev pub given_as : FieldType → Option Value → Bool
given_as t none = true
given_as t (some v) = has_type t v

module _ {schema : Schema} {d : FieldData} (c : Conforms schema d) where
  pub declared :
      (k : String) (s : FieldSchema)
      → find k schema ≡ some s
      → given_as s.field_type (d.get_ok k) ≡ true
  declared k s q = split (d.get_ok k) refl
    where
      split : (o : Option Value) → d.get_ok k ≡ o → given_as s.field_type o ≡ true
      split none e = refl
      split (some v) e = c.typed k s v q e

  -- A text without a default is there for `Get`, too.
  pub got_text :
      (k : String) (s : FieldSchema)
      → find k schema ≡ some s
      → s.field_type ≡ type_string
      → s.default ≡ none
      → (t : String) × (d.get k ≡ text t)
  unfolding has_type
  got_text k s q t n = split (d.get_ok k) (c.got k s q) (declared k s q)
    where
      by_default :
          (t : FieldType) (v : Option Value)
          → t ≡ type_string
          → v ≡ none
          → (x : String) × ((elim v [ none ↦ zero_of t | some u ↦ u ]) ≡ text x)
      by_default type_string none e f = ("", refl)
      by_default t v e f = absurd (ground arith)

      split :
          (o : Option Value)
          → d.get k ≡ or_default s o
          → given_as s.field_type o ≡ true
          → (x : String) × (d.get k ≡ text x)
      split none e h = let (x, f) = by_default s.field_type s.default t n in (x, e ∙ f)
      split (some (text x)) e h = (x, e)
      split (some v) e h = absurd (ground (arith, ap (λ y. has_type y v) (sym t) ∙ h))
