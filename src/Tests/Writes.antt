-- ===== src/Tests/Writes.antt =====
-- Writes and checked fields in memory, and the theorems at them.
use hcvault_mashery_api_auth.Prelude.{
  pos, String, ◌≡◌, refl, inr, Bool, true, false, Option, none, some, List, [], ◌∷◌,
}
use hcvault_mashery_api_auth.Value.{Value, text, number, end, field, Fields, json, error_response}
use hcvault_mashery_api_auth.Env.{V2Request}
use hcvault_mashery_api_auth.Exec.{ok, respond}
use hcvault_mashery_api_auth.Request.{
  FieldData, World, storage_path_for_role, read, read_path, persist, write_path,
}
use hcvault_mashery_api_auth.Plugin.{roles_storage_root}
use hcvault_mashery_api_auth.Request.Chain.{simple_chain}
use hcvault_mashery_api_auth.Handler.{handle_operation_with_container, handle_role_operation}
use hcvault_mashery_api_auth.Role.Json.{encode_keys, decode_keys, encode_usage, decode_usage}
use hcvault_mashery_api_auth.RoleSteps.{
  read_role, initial_role, role_keys_path, role_usage_path, block_operation_on_imported_role,
  update_role_keys_from_request, save_role_keys,
}
use hcvault_mashery_api_auth.Roles.{role_existence_check, update_chain, handle_update_role_data}
use hcvault_mashery_api_auth.Roles.Updated.{Updated, write_to-path_role-Updated}
use hcvault_mashery_api_auth.V2.{verify_v2_operation_request, v2_request_of}
use hcvault_mashery_api_auth.V3.{do_if_cli_write_enabled, execute_v3_delete}
use hcvault_mashery_api_auth.Routes.{
  Operation, create_operation, update_operation, delete_operation, WriteLaws, write_to, callback_in,
  has_type,
}
use hcvault_mashery_api_auth.Routes.Schemas.{
  path_role_fields, path_role_grant_fields, path_proxy_v2_fields, v3_path_fields,
  path_role_pem_import_fields,
}
use hcvault_mashery_api_auth.Routes.Paths.{path_role, path_role_v3, path_role_imp_exp_import}
use hcvault_mashery_api_auth.Routes.Queries.{verify_v2_operation_request-proxied}
use hcvault_mashery_api_auth.Routes.Writes.{
  cli_refusal, callback_of-path_role_v3-cli_refusal, write_to-path_role_imp_exp_import,
}
use hcvault_mashery_api_auth.Tests.{memory, memory-laws, a_world, some_keys}
use hcvault_mashery_api_auth.Tests.Given.{checked_fields, checked_fields-Conforms}

abbrev pub choose : Option Bool → Operation
choose none = update_operation
choose (some true) = update_operation
choose (some false) = create_operation

pub choose-laws : WriteLaws choose
choose-laws = record { of_absent = refl; of_present = refl }

abbrev pub named_r : List (String × Value)
named_r = ("roleName", text "r") ∷ []

abbrev grant_request : FieldData
grant_request = checked_fields path_role_grant_fields (("api", number (pos 2)) ∷ named_r)

-- A message that asks for another method, with another number.
abbrev posted : Option Fields
posted = some (
    field "method" (text "application.delete")
      (field "id" (number (pos 7)) (field "params" (text "p") end)))

abbrev proxied_fields : FieldData
proxied_fields =
    checked_fields path_proxy_v2_fields
      (("method", text "application.delete") ∷ ("id", number (pos 7)) ∷ named_r)

abbrev sent : V2Request
sent = record { id = pos 1; method = "object.query"; version = "2.0"; params = some (text "p") }

verify_v2_operation_request-proxied_example :
    (sent.id ≡ pos 1) × (sent.method ≡ "object.query") × (sent.version ≡ "2.0")
unfolding verify_v2_operation_request v2_request_of path_proxy_v2_fields
verify_v2_operation_request-proxied_example =
    verify_v2_operation_request-proxied proxied_fields posted tt tt sent
      (checked_fields-Conforms path_proxy_v2_fields
        (("method", text "application.delete") ∷ ("id", number (pos 7)) ∷ named_r))
      refl

abbrev v3_fields : FieldData
v3_fields = checked_fields v3_path_fields (("path", text "services") ∷ named_r)

callback_of-path_role_v3-cli_refusal_example :
    do_if_cli_write_enabled execute_v3_delete v3_fields none a_world
    ≡ (respond cli_refusal, a_world)
unfolding path_role_v3 callback_in
callback_of-path_role_v3-cli_refusal_example =
    callback_of-path_role_v3-cli_refusal delete_operation
      (do_if_cli_write_enabled execute_v3_delete) v3_fields none a_world (inr (inr refl)) refl refl

abbrev other_fields : FieldData
other_fields = checked_fields path_role_pem_import_fields (("roleName", text "absent") ∷ [])

write_to-path_role_imp_exp_import_example :
    write_to choose path_role_imp_exp_import other_fields none a_world ≡ (
      respond (error_response "importing data into non-existing role cannot possibly work" []),
      a_world,
    )
unfolding storage_path_for_role roles_storage_root path_role_pem_import_fields has_type
write_to-path_role_imp_exp_import_example =
    write_to-path_role_imp_exp_import choose-laws other_fields none a_world "u/role/absent" refl
      refl

abbrev pub update_fields : FieldData
update_fields = checked_fields path_role_fields (("secret", text "new") ∷ named_r)

abbrev pub updated : World memory
updated = (handle_update_role_data update_fields none a_world).1

pub updated_run : write_to choose path_role update_fields none a_world ≡ (ok tt, updated)
unfolding write_to callback_in path_role role_existence_check handle_update_role_data update_chain
    path_role_fields has_type storage_path_for_role roles_storage_root simple_chain
    handle_role_operation handle_operation_with_container read_role initial_role role_keys_path
    role_usage_path read read_path persist write_path block_operation_on_imported_role
    update_role_keys_from_request save_role_keys encode_keys decode_keys encode_usage decode_usage
updated_run = refl

write_to-path_role-Updated_example : Updated "u/role/r" update_fields a_world updated
unfolding storage_path_for_role roles_storage_root path_role_fields has_type
write_to-path_role-Updated_example =
    write_to-path_role-Updated memory-laws choose-laws update_fields none a_world updated "u/role/r"
      (json (encode_keys some_keys))
      (checked_fields-Conforms path_role_fields (("secret", text "new") ∷ named_r)) refl refl
      updated_run
