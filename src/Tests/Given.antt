-- ===== src/Tests/Given.antt =====
-- Fields of requests that are checked by a schema, for any schema and any values.
use hcvault_mashery_api_auth.Prelude.{
  String, ◌≡◌, refl, ap, ◌∙◌, sym, Bool, true, false, Option, none, some, List, arith,
  if◌then◌else◌,
}
use hcvault_mashery_api_auth.Value.{Value, null}
use hcvault_mashery_api_auth.Plugin.{find}
use hcvault_mashery_api_auth.Request.{FieldData}
use hcvault_mashery_api_auth.Routes.{FieldSchema, Schema, Conforms, has_type, or_default}

-- A value that was given for a declared field, where it has the type of the field.
abbrev pub accepted : Option FieldSchema → Option Value → Option Value
accepted none v = none
accepted (some s) none = none
accepted (some s) (some v) = if has_type s.field_type v then some v else none

abbrev pub fallback : Option FieldSchema → Option Value → Value
fallback none v = null
fallback (some s) v = or_default s (accepted (some s) v)

abbrev pub checked_fields : Schema → List (String × Value) → FieldData
checked_fields schema given = record {
  get_ok = λ k. accepted (find k schema) (find k given);
  get = λ k. fallback (find k schema) (find k given);
}

accepted-has_type :
    (o : Option FieldSchema) (g : Option Value) (s : FieldSchema) (v : Value)
    → o ≡ some s
    → accepted o g ≡ some v
    → has_type s.field_type v ≡ true
accepted-has_type none g s v q e = absurd (ground arith)
accepted-has_type (some t) none s v q e = absurd (ground arith)
accepted-has_type (some t) (some u) s v q e = split (has_type t.field_type u) refl e
  where
    split :
        (b : Bool)
        → has_type t.field_type u ≡ b
        → (if b then some u else none) ≡ some v
        → has_type s.field_type v ≡ true
    split true h e' = ground arith
    split false h e' = absurd (ground arith)

pub checked_fields-Conforms :
    (schema : Schema) (given : List (String × Value))
    → Conforms schema (checked_fields schema given)
checked_fields-Conforms schema given = record {
  typed = λ k s v q e. accepted-has_type (find k schema) (find k given) s v q e;
  got = λ k s q.
      ap (λ o. fallback o (find k given)) q
      ∙ ap (λ o. or_default s (accepted o (find k given))) (sym q);
  undeclared = λ k q. ap (λ o. accepted o (find k given)) q;
}
