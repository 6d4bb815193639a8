-- ===== src/Tests/Puts.antt =====
-- A write of an object to the V3 path, with an API in memory that counts all calls of resources but
-- those with PUT.
use hcvault_mashery_api_auth.Prelude.{ℕ, suc, ◌≤◌, ◌<>◌, ◌≡◌, refl, true, some, arith}
use hcvault_mashery_api_auth.Value.{end, good}
use hcvault_mashery_api_auth.Exec.{ok}
use hcvault_mashery_api_auth.Request.{World}
use hcvault_mashery_api_auth.RoleSteps.{
  read_role, block_operation_on_force_proxy_role, block_usage_exceeding_limits,
  block_role_incapable_of, decrease_remaining_usage_quota, do_block_role_incapable_of, initial_role,
  role_keys_path, role_usage_path, spend_use,
}
use hcvault_mashery_api_auth.Request.{
  read_path, write_path, map_request_handler_context, persist, read, storage_path_for_role,
}
use hcvault_mashery_api_auth.Role.Json.{decode_keys, encode_keys, decode_usage, encode_usage}
use hcvault_mashery_api_auth.Role.{
  expired, depleted, is_v3_capable, has_usage_quota, after_expiry_term, as_v3_credentials,
  is_v2_capable, reduce_remaining_quota, supplies_key_and_secret,
}
use hcvault_mashery_api_auth.Token.{retrieve_v3_access_token, request_token}
use hcvault_mashery_api_auth.Time.{unix, add64, from_unix, scale64, sub64}
use hcvault_mashery_api_auth.Handler.{handle_operation_with_container, handle_role_operation}
use hcvault_mashery_api_auth.Plugin.{get_oauth_helper, roles_storage_root}
use hcvault_mashery_api_auth.Request.Chain.{mapping_run, simple_chain}
use hcvault_mashery_api_auth.V3.{
  invoke_v3, base_v3_invocation_chain, exists_chain, exists_answer, v3_object_exists,
}
use hcvault_mashery_api_auth.RoleSteps.{allow_only_v3_capable_role}
use hcvault_mashery_api_auth.Token.{ensure_access_token_valid, renew_token}
use hcvault_mashery_api_auth.Role.{v3_token_needs_renew}
use hcvault_mashery_api_auth.Api.{
  fetch_v3_resource, fetch_with_error_handling, do_fetch_with_error_handling, do_fetch, attempt,
  after_response, bounce_error_codes,
}
use hcvault_mashery_api_auth.Api.Render.{
  render_v3_single_object_response, parse_object, append_x_headers, single_object_response,
}
use hcvault_mashery_api_auth.Plugin.{get_mashery_v3_client, client_lookup_key, new_v3_client}
use hcvault_mashery_api_auth.Roles.{handle_delete_role_data, delete_role, delete_then}
use hcvault_mashery_api_auth.Env.{header_get}
use hcvault_mashery_api_auth.Api.{api_container}
use hcvault_mashery_api_auth.RoleSteps.{role_container}
use hcvault_mashery_api_auth.Tests.{a_store, memory, a_plugin, some_fields, a_response}
use hcvault_mashery_api_auth.Env.{V3Call, put_any}
use hcvault_mashery_api_auth.Api.{method_put}
use hcvault_mashery_api_auth.Api.Puts.{CountsOthers}
use hcvault_mashery_api_auth.V3.{do_if_cli_write_enabled, execute_v3_write}
use hcvault_mashery_api_auth.Routes.{write_to}
use hcvault_mashery_api_auth.Routes.Paths.{path_role_v3}
use hcvault_mashery_api_auth.Routes.Writes.{write_to-path_role_v3}
use hcvault_mashery_api_auth.Tests.{a_token, some_cfg}
use hcvault_mashery_api_auth.Env.{Env}
use hcvault_mashery_api_auth.Value.{text, Fields, field, end}
use hcvault_mashery_api_auth.Tests.Writes.{choose, choose-laws}

abbrev others : V3Call → ℕ → ℕ
others (put_any path body) n = n
others call n = suc n

abbrev watched : Env
watched = record memory {
  v3_call = λ c t call n. (good a_response, others call n);
  retrieve_token = λ o c n. (good a_token, n);
}

abbrev counted : ℕ → ℕ
counted n = n

abbrev service : Fields
service = field "name" (text "s") end

watched-CountsOthers : CountsOthers watched counted ("/" <> "services") service
watched-CountsOthers = record { put = λ c t m. omega arith; granted = λ o c m. omega arith }

abbrev open_world : World watched
open_world = record {
  store = a_store;
  remote = 0;
  plugin = record a_plugin { cfg = record some_cfg { cli_write_enabled = true } };
  ticks = 0;
}

abbrev found_world : World watched
found_world = (v3_object_exists some_fields (some service) open_world).1

found_run : v3_object_exists some_fields (some service) open_world ≡ (ok true, found_world)
unfolding read_role read_path decode_keys encode_keys decode_usage encode_usage
    block_operation_on_force_proxy_role block_usage_exceeding_limits expired depleted
    block_role_incapable_of is_v3_capable decrease_remaining_usage_quota has_usage_quota write_path
    retrieve_v3_access_token unix handle_operation_with_container handle_role_operation
    get_oauth_helper roles_storage_root mapping_run simple_chain map_request_handler_context persist
    read storage_path_for_role after_expiry_term as_v3_credentials is_v2_capable
    reduce_remaining_quota supplies_key_and_secret do_block_role_incapable_of initial_role
    role_keys_path role_usage_path spend_use add64 from_unix scale64 sub64 request_token invoke_v3
    base_v3_invocation_chain exists_chain exists_answer v3_object_exists allow_only_v3_capable_role
    ensure_access_token_valid renew_token v3_token_needs_renew fetch_v3_resource
    fetch_with_error_handling do_fetch_with_error_handling do_fetch attempt after_response
    bounce_error_codes render_v3_single_object_response parse_object append_x_headers
    single_object_response get_mashery_v3_client client_lookup_key new_v3_client
    handle_delete_role_data delete_role delete_then header_get
found_run = refl

write_to-path_role_v3_example :
    (write_to choose path_role_v3 some_fields (some service) open_world
      ≡ do_if_cli_write_enabled
          (execute_v3_write method_put)
          some_fields
          (some service)
          found_world)
    × (counted (write_to choose path_role_v3 some_fields (some service) open_world).1.remote
        ≤ counted found_world.remote)
write_to-path_role_v3_example =
    write_to-path_role_v3 choose-laws watched-CountsOthers some_fields open_world found_world true
      found_run refl
