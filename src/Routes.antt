-- ===== src/Routes.antt =====
-- The tables of paths and fields by which the plugin describes itself to Vault: the
-- `framework.Path` and `framework.FieldSchema` values of mashery/plugin.go and the path files. The
-- descriptions, the help and the display names, which are texts for the user, are left out.
pub mod Schemas
pub mod Paths
pub mod Checked
pub mod Safe
pub mod Reads
pub mod Queries
pub mod Writes
use hcvault_mashery_api_auth.Prelude.{
  ℤ, pos, String, ◌≡◌, Bool, true, false, Option, none, some, List, [], ◌∷◌, if◌then◌else◌,
}
use hcvault_mashery_api_auth.Value.{Value, text, truth, number, texts, Fields, external}
use hcvault_mashery_api_auth.Exec.{Exec, throw, ◌>>=◌}
use hcvault_mashery_api_auth.Env.{Env}
use hcvault_mashery_api_auth.Plugin.{find}
use hcvault_mashery_api_auth.Request.{FieldData, World}
use hcvault_mashery_api_auth.Handler.{Handler}

-- The four of the framework's field types that the package uses.
pub data FieldType : Type 0 where
  type_string type_int type_bool type_comma_string_slice : FieldType

pub record FieldSchema : Type 0 where
  pub field_type : FieldType
  pub required : Bool
  pub default : Option Value
  pub allowed_values : List Value

abbrev pub Schema : Type 0
Schema = List (String × FieldSchema)

abbrev pub optional : FieldType → FieldSchema
optional t = record { field_type = t; required = false; default = none; allowed_values = [] }

abbrev pub mandatory : FieldType → FieldSchema
mandatory t = record (optional t) { required = true }

abbrev pub defaulted : FieldType → Value → FieldSchema
defaulted t v = record (optional t) { default = some v }

-- `logical.Operation`, as far as the paths have operations.
pub data Operation : Type 0 where
  list_operation read_operation create_operation update_operation delete_operation : Operation

-- The pattern of a path, as the parts that its regular expression is put together from:
-- `GenericNameRegex` and `MatchAllRegex` of a field, the optional suffix of the V3 proxy, and the
-- optional slash `/?`.
pub data Part : Type 0 where
  literal generic_name match_all optional_target_method : String → Part
  optional_slash : Part

abbrev pub ExistenceCheck : Env → Type 0
ExistenceCheck env = FieldData → Option Fields → Exec (World env) Bool

pub record RoutePath (env : Env) : Type 0 where
  pub pattern : List Part
  pub schema : Schema
  pub operations : List (Operation × Handler env)
  pub existence_check : Option (ExistenceCheck env)

abbrev pub same_operation : Operation → Operation → Bool
same_operation list_operation list_operation = true
same_operation read_operation read_operation = true
same_operation create_operation create_operation = true
same_operation update_operation update_operation = true
same_operation delete_operation delete_operation = true
same_operation _ _ = false

module _ {env : Env} where
  -- The entry of an operation in the map of a path's operations.
  unfoldable pub callback_in : List (Operation × Handler env) → Operation → Option (Handler env)
  callback_in [] op = none
  callback_in ((o, f) ∷ rest) op = if same_operation o op then some f else callback_in rest op

  abbrev pub callback_of : RoutePath env → Operation → Option (Handler env)
  callback_of p op = callback_in p.operations op

  abbrev pub run_callback : Option (Handler env) → Handler env
  run_callback none d body = throw (external "unsupported operation")
  run_callback (some f) d body = f d body

-- What Vault does with a request for a path. It asks the existence check of the path whether a write
-- creates or updates; `choose` is its choice, from the answer where there is one.
module _ {env : Env} (choose : Option Bool → Operation) where
  unfoldable pub write_to : RoutePath env → Handler env
  unfolding callback_in
  write_to p d body = elim p.existence_check [
    | none ↦ run_callback (callback_of p (choose none)) d body
    | some check ↦ do
      exists ← check d body
      run_callback (callback_of p (choose (some exists))) d body
  ]

-- That a write of something that does not exist creates it, and another one updates.
pub record WriteLaws (choose : Option Bool → Operation) : Type 0 where
  pub of_absent : choose (some false) ≡ create_operation
  pub of_present : choose (some true) ≡ update_operation

-- The values of a field type.
unfoldable pub has_type : FieldType → Value → Bool
has_type type_string (text s) = true
has_type type_int (number n) = true
has_type type_bool (truth b) = true
has_type type_comma_string_slice (texts l) = true
has_type _ _ = false

abbrev pub zero_of : FieldType → Value
zero_of type_string = text ""
zero_of type_int = number (pos 0)
zero_of type_bool = truth false
zero_of type_comma_string_slice = texts []

abbrev pub default_or_zero : FieldSchema → Value
default_or_zero s = elim s.default [ none ↦ zero_of s.field_type | some v ↦ v ]

abbrev pub or_default : FieldSchema → Option Value → Value
or_default s none = default_or_zero s
or_default s (some v) = v

-- What the framework documents of the fields of a request to a path with this schema: a field that is
-- given has the type that it is declared with, `Get` falls back on the default or the zero of the
-- type, and what is not declared is not given.
pub record Conforms (schema : Schema) (d : FieldData) : Type 0 where
  pub typed :
      (k : String) (s : FieldSchema) (v : Value)
      → find k schema ≡ some s
      → d.get_ok k ≡ some v
      → has_type s.field_type v ≡ true
  pub got :
      (k : String) (s : FieldSchema) → find k schema ≡ some s → d.get k ≡ or_default s (d.get_ok k)
  pub undeclared : (k : String) → find k schema ≡ none → d.get_ok k ≡ none
