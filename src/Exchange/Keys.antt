-- ===== src/Exchange/Keys.antt =====
-- The private key of a role, and the heap of an export: part of mashery/transformers_pki.go and
-- mashery/chainofresponsibility.go.
use hcvault_mashery_api_auth.Prelude.{String, refl, Option, none, some, []}
use hcvault_mashery_api_auth.Value.{
  text, end, field, new_error, Result, good, bad, Blob, Response, answer,
}
use hcvault_mashery_api_auth.Exec.{throw, ◌>>=◌, ◌>>◌}
use hcvault_mashery_api_auth.Role.{StoredRole}
use hcvault_mashery_api_auth.Env.{Env, Certificate}
use hcvault_mashery_api_auth.Request.{
  Step, get_path, next_tick, read_binary_path, write_binary_path,
}
use hcvault_mashery_api_auth.RoleSteps.{
  RoleContext, role_container, get_role, set_role, role_private_key_path,
}

abbrev pub recipient_block_name : String
recipient_block_name = "MASHERY ROLE RECIPIENT"

abbrev pub role_data_block_name : String
role_data_block_name = "MASHERY ROLE DATA"

-- `RoleExportContainer`
pub record RoleExportContainer (env : Env) : Type 0 where
  pub role : Option StoredRole
  pub cert : Option (Certificate env.PublicKey)
  pub recipient : String

instance abbrev pub role_export_container : {env : Env} → RoleContext (RoleExportContainer env)
role_export_container = record {
  get_role = λ h. h.role;
  carry_role = λ o h. record h { role = o };
  get-carry = λ o h. refl;
}

abbrev pub pem_response : String → Response
pem_response out =
    answer (record { body = field "pem" (text out) end; lease = none; warnings = []; headers = [] })

module _ {env : Env} {H : Type 0} ⦃rc : RoleContext H⦄ where
  abbrev generated : StoredRole → Result env.PrivateKey → Step env H (Unit {0})
  generated role (bad err) = throw err
  generated role (good pk) = do
    set_role (record role { private_key = some (env.marshal_key pk) })
    path ← get_path
    write_binary_path (role_private_key_path path) (env.marshal_key pk)

  -- A role that has no key yet is given one.
  abbrev found_key : StoredRole → Option Blob → Step env H (Unit {0})
  found_key role (some pk) = set_role (record role { private_key = some pk })
  found_key role none = do tick ← next_tick; generated role (env.generate_key tick)

  unfoldable pub retrieve_private_key : Step env H (Unit {0})
  unfolding role_private_key_path
  retrieve_private_key = do
    path ← get_path
    stored ← read_binary_path (role_private_key_path path)
    role ← get_role
    found_key role stored

unfoldable pub get_private_key : (env : Env) → StoredRole → Result env.PrivateKey
get_private_key env stored_role = elim stored_role.private_key [
  | none ↦ bad (new_error "private key is not initialized for this role" [])
  | some pk ↦ elim (env.parse_key pk) [
    | good key ↦ good key
    | bad _ ↦ bad (new_error "private key data structure is not understood" [])
  ]
]
