-- ===== src/Value.antt =====
-- The values of Go's `interface{}` that the plugin meets, in request fields, JSON objects and
-- response data; errors; and `logical.Response`.
use hcvault_mashery_api_auth.Prelude.{ℤ, String, Bool, Option, none, some, List, ◌==◌}
use hcvault_mashery_api_auth.Prelude.{if◌then◌else◌}

-- `moment` is a `time.Time` and `duration` a `time.Duration`, in nanoseconds; `octets` is a
-- `[]byte`, and `texts` a `[]string`.
mutual
  pub data Value : Type 0 where
    null : Value
    truth : Bool → Value
    number : ℤ → Value
    text : String → Value
    texts : List String → Value
    octets : String → Value
    moment : ℤ → Value
    duration : ℤ → Value
    object : Fields → Value
    array : Values → Value

  pub data Values : Type 0 where
    nil : Values
    cons : Value → Values → Values

  -- A `map[string]interface{}`, or a JSON object.
  pub data Fields : Type 0 where
    end : Fields
    field : String → Value → Fields → Fields

-- `errors.New`, with the parts that its text is formatted from, `errwrap.Wrapf`, and the errors that
-- code outside of this repository returns.
pub data Err : Type 0 where
  new_error : String → List String → Err
  wrapped : String → Err → Err
  external : String → Err

-- An argument of a formatted message.
pub data Arg : Type 0 where
  arg_text : String → Arg
  arg_number : ℤ → Arg
  arg_error : Err → Arg

-- The lease of a secret response. The times are durations in nanoseconds.
pub record Lease : Type 0 where
  pub secret_type : String
  pub internal : Fields
  pub ttl : ℤ
  pub max_ttl : ℤ
  pub increment : ℤ
  pub renewable : Bool

pub record Payload : Type 0 where
  pub body : Fields
  pub lease : Option Lease
  pub warnings : List (String × List Arg)
  pub headers : List (String × List String)

-- `logical.ErrorResponse(format, args...)`, or any other response.
pub data Response : Type 0 where
  error_response : String → List Arg → Response
  answer : Payload → Response

-- `m[key]`: `none` where the key is absent.
abbrev pub lookup : String → Fields → Option Value
lookup key end = none
lookup key (field k v rest) = if k == key then some v else lookup key rest

-- A result of code that may return an error.
pub data Result {ℓ} (A : Type ℓ) : Type ℓ where
  good : A → Result A
  bad : Err → Result A

-- A `[]byte`: a JSON text, written as the value that it says, or any other bytes.
pub data Blob : Type 0 where
  document : Value → Blob
  raw : String → Blob

-- The JSON text of an object.
pattern abbrev pub json : Fields → Blob
json f = document (object f)
