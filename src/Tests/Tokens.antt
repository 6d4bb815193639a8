-- ===== src/Tests/Tokens.antt =====
-- A reading of the stored token in memory.
use hcvault_mashery_api_auth.Prelude.{String, ◌≡◌, refl, none, some}
use hcvault_mashery_api_auth.Value.{answer}
use hcvault_mashery_api_auth.Exec.{Exit, respond}
use hcvault_mashery_api_auth.Request.{World}
use hcvault_mashery_api_auth.Grant.{
  read_grant_request_params, render_v3_lease_response, render_v3_plain_response,
  select_v3_rendering_func, with_v3_token,
}
use hcvault_mashery_api_auth.RoleSteps.{
  read_role, block_operation_on_force_proxy_role, block_usage_exceeding_limits,
  block_role_incapable_of, decrease_remaining_usage_quota, do_block_role_incapable_of, initial_role,
  role_keys_path, role_usage_path, spend_use,
}
use hcvault_mashery_api_auth.Request.{
  read_path, write_path, map_request_handler_context, persist, read, storage_path_for_role,
}
use hcvault_mashery_api_auth.Role.Json.{decode_keys, encode_keys, decode_usage, encode_usage}
use hcvault_mashery_api_auth.Role.{
  expired, depleted, is_v3_capable, has_usage_quota, as_v3_credentials, is_v2_capable,
  reduce_remaining_quota, supplies_key_and_secret,
}
use hcvault_mashery_api_auth.Token.{request_token}
use hcvault_mashery_api_auth.Time.{unix, add64, from_unix, scale64, sub64}
use hcvault_mashery_api_auth.Handler.{handle_operation_with_container, handle_role_operation}
use hcvault_mashery_api_auth.Plugin.{get_oauth_helper, roles_storage_root}
use hcvault_mashery_api_auth.Request.Chain.{mapping_run, simple_chain}
use hcvault_mashery_api_auth.Token.{ensure_access_token_valid, renew_token}
use hcvault_mashery_api_auth.Role.{v3_token_needs_renew}
use hcvault_mashery_api_auth.Api.{api_container}
use hcvault_mashery_api_auth.RoleSteps.{role_container}
use hcvault_mashery_api_auth.Tests.{memory, a_plugin, a_world, some_fields}
use hcvault_mashery_api_auth.Grant.{read_role_token, token_checks}
use hcvault_mashery_api_auth.Token.{rehydrate_v3_access_token}
use hcvault_mashery_api_auth.Grant.Tokens.{TokenGiven, read_role_token-TokenGiven}
use hcvault_mashery_api_auth.Tests.Runs.{payload_of}

abbrev shown : Exit (Unit {0}) × World memory
shown = read_role_token some_fields none a_world

shown_run :
    read_role_token some_fields none a_world ≡ (respond (answer (payload_of shown.0)), shown.1)
unfolding read_role_token token_checks rehydrate_v3_access_token ensure_access_token_valid
    renew_token v3_token_needs_renew read_role read_path decode_keys encode_keys decode_usage
    encode_usage block_operation_on_force_proxy_role block_usage_exceeding_limits expired depleted
    block_role_incapable_of is_v3_capable decrease_remaining_usage_quota has_usage_quota write_path
    unix read_grant_request_params render_v3_lease_response render_v3_plain_response
    select_v3_rendering_func with_v3_token handle_operation_with_container handle_role_operation
    get_oauth_helper roles_storage_root mapping_run simple_chain map_request_handler_context persist
    read storage_path_for_role as_v3_credentials is_v2_capable reduce_remaining_quota
    supplies_key_and_secret do_block_role_incapable_of initial_role role_keys_path role_usage_path
    spend_use add64 from_unix scale64 sub64 request_token
shown_run = refl

read_role_token-TokenGiven_example :
    (path : String) × (storage_path_for_role memory a_plugin some_fields ≡ some path)
    × TokenGiven path a_world
read_role_token-TokenGiven_example =
    read_role_token-TokenGiven some_fields none a_world shown.1 (payload_of shown.0) shown_run
