-- ===== src/Tests/Queries.antt =====
-- Queries of the V2 API in memory, and the theorems on them.
use hcvault_mashery_api_auth.Prelude.{String, ◌≡◌, refl, none, some, ◌==◌, if◌then◌else◌}
use hcvault_mashery_api_auth.Value.{text, answer}
use hcvault_mashery_api_auth.Exec.{Exit, respond}
use hcvault_mashery_api_auth.V2.{
  execute_v2_write, proxy_v2_request, verify_v2_operation_request, v2_request_of, v2_client_of_role,
  execute_v2_call_to_raw_response, execute_v2_call, render_v2_proxied_response, render_v2_response,
  proxy_v2_checks,
}
use hcvault_mashery_api_auth.V2.Sound.{Queried, proxy_v2_request-Queried, execute_v2_write-Queried}
use hcvault_mashery_api_auth.Api.Render.{proxied_response, append_x_headers}
use hcvault_mashery_api_auth.RoleSteps.{
  read_role, role_keys_path, role_usage_path, initial_role, block_usage_exceeding_limits,
  allow_only_v2_capable_role, decrease_remaining_usage_quota, spend_use,
}
use hcvault_mashery_api_auth.Role.{
  expired, depleted, is_v2_capable, supplies_key_and_secret, has_usage_quota,
  reduce_remaining_quota,
}
use hcvault_mashery_api_auth.Role.Json.{encode_keys, decode_keys, encode_usage, decode_usage}
use hcvault_mashery_api_auth.Plugin.{
  get_mashery_v2_client, new_v2_client, v2_signature_for, client_lookup_key, roles_storage_root,
}
use hcvault_mashery_api_auth.Request.{
  FieldData, World, storage_path_for_role, persist, read, read_path, write_path,
  map_request_handler_context,
}
use hcvault_mashery_api_auth.Request.Chain.{simple_chain, mapping_run}
use hcvault_mashery_api_auth.Handler.{handle_operation_with_container, handle_role_operation}
use hcvault_mashery_api_auth.Time.{unix, sub64, scale64}
use hcvault_mashery_api_auth.Tests.{memory, a_plugin, a_world, some_fields}
use hcvault_mashery_api_auth.Tests.Runs.{payload_of}

abbrev query_fields : FieldData
query_fields = record some_fields {
  get_ok = λ k. if k == "query" then some (text "select * from apis") else none;
}

abbrev proxied : Exit (Unit {0}) × World memory
proxied = proxy_v2_request query_fields none a_world

proxied_run :
    proxy_v2_request query_fields none a_world
    ≡ (respond (answer (payload_of proxied.0)), proxied.1)
unfolding execute_v2_write proxy_v2_request verify_v2_operation_request v2_request_of
    v2_client_of_role execute_v2_call_to_raw_response execute_v2_call render_v2_proxied_response
    render_v2_response proxy_v2_checks proxied_response append_x_headers read_role role_keys_path
    role_usage_path initial_role block_usage_exceeding_limits allow_only_v2_capable_role
    decrease_remaining_usage_quota spend_use expired depleted is_v2_capable supplies_key_and_secret
    has_usage_quota reduce_remaining_quota encode_keys decode_keys encode_usage decode_usage
    get_mashery_v2_client new_v2_client v2_signature_for client_lookup_key roles_storage_root
    storage_path_for_role persist read read_path write_path map_request_handler_context simple_chain
    mapping_run handle_operation_with_container handle_role_operation unix sub64 scale64
proxied_run = refl

proxy_v2_request-Queried_example :
    (path : String) × (storage_path_for_role memory a_plugin query_fields ≡ some path)
    × Queried path a_world
proxy_v2_request-Queried_example =
    proxy_v2_request-Queried query_fields none a_world proxied.1 (payload_of proxied.0) proxied_run

abbrev queried : Exit (Unit {0}) × World memory
queried = execute_v2_write query_fields none a_world

queried_run :
    execute_v2_write query_fields none a_world
    ≡ (respond (answer (payload_of queried.0)), queried.1)
unfolding execute_v2_write proxy_v2_request verify_v2_operation_request v2_request_of
    v2_client_of_role execute_v2_call_to_raw_response execute_v2_call render_v2_proxied_response
    render_v2_response proxy_v2_checks proxied_response append_x_headers read_role role_keys_path
    role_usage_path initial_role block_usage_exceeding_limits allow_only_v2_capable_role
    decrease_remaining_usage_quota spend_use expired depleted is_v2_capable supplies_key_and_secret
    has_usage_quota reduce_remaining_quota encode_keys decode_keys encode_usage decode_usage
    get_mashery_v2_client new_v2_client v2_signature_for client_lookup_key roles_storage_root
    storage_path_for_role persist read read_path write_path map_request_handler_context simple_chain
    mapping_run handle_operation_with_container handle_role_operation unix sub64 scale64
queried_run = refl

execute_v2_write-Queried_example :
    (path : String) × (storage_path_for_role memory a_plugin query_fields ≡ some path)
    × Queried path a_world
execute_v2_write-Queried_example =
    execute_v2_write-Queried query_fields none a_world queried.1 (payload_of queried.0) queried_run
