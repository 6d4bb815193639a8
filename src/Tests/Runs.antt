-- ===== src/Tests/Runs.antt =====
-- Whole requests in memory, and the theorems on requests at them.
use hcvault_mashery_api_auth.Prelude.{
  ℕ, ◌≤◌, String, ◌≡◌, refl, Bool, true, false, none, some, List, [], ◌∷◌, arith, ◌==◌, ltb, eqb,
  if◌then◌else◌,
}
use hcvault_mashery_api_auth.Value.{end, Result, good, Blob, json, answer, Payload}
use hcvault_mashery_api_auth.Exec.{Exit, ok, respond, ◌>>◌}
use hcvault_mashery_api_auth.Role.{RoleKeys}
use hcvault_mashery_api_auth.Env.{HttpResponse}
use hcvault_mashery_api_auth.Request.{Req, World}
use hcvault_mashery_api_auth.Grant.{GrantRequest}
use hcvault_mashery_api_auth.Grant.Quota.{Grants, grant, finished, HasUsage, Grants-le}
use hcvault_mashery_api_auth.Role.Usage.{uses_left}
use hcvault_mashery_api_auth.Grant.Sound.{Granted, issue_grant-Granted}
use hcvault_mashery_api_auth.Grant.{
  issue_grant, create_v3_leased_response, grant_checks, grant_version, read_grant_request_params,
  render_v3_lease_response, render_v3_plain_response, select_v3_rendering_func, with_v3_token,
}
use hcvault_mashery_api_auth.RoleSteps.{
  read_role, block_operation_on_force_proxy_role, block_usage_exceeding_limits,
  block_role_incapable_of, decrease_remaining_usage_quota, do_block_role_incapable_of, initial_role,
  role_keys_path, role_usage_path, spend_use,
}
use hcvault_mashery_api_auth.Request.{
  read_path, write_path, map_request_handler_context, persist, read, storage_path_for_role,
}
use hcvault_mashery_api_auth.Role.Json.{decode_keys, encode_keys, decode_usage, encode_usage}
use hcvault_mashery_api_auth.Role.{
  expired, depleted, is_v3_capable, has_usage_quota, after_expiry_term, as_v3_credentials,
  is_v2_capable, reduce_remaining_quota, supplies_key_and_secret,
}
use hcvault_mashery_api_auth.Token.{retrieve_v3_access_token, request_token}
use hcvault_mashery_api_auth.Time.{unix, add64, from_unix, scale64, sub64}
use hcvault_mashery_api_auth.Handler.{handle_operation_with_container, handle_role_operation}
use hcvault_mashery_api_auth.Plugin.{get_oauth_helper, roles_storage_root}
use hcvault_mashery_api_auth.Request.Chain.{mapping_run, simple_chain}
use hcvault_mashery_api_auth.Api.{ApiContainer}
use hcvault_mashery_api_auth.V3.{
  invoke_v3, base_v3_invocation_chain, exists_chain, exists_answer, v3_object_exists,
}
use hcvault_mashery_api_auth.RoleSteps.{allow_only_v3_capable_role}
use hcvault_mashery_api_auth.Token.{ensure_access_token_valid, renew_token}
use hcvault_mashery_api_auth.Role.{v3_token_needs_renew}
use hcvault_mashery_api_auth.Api.{
  fetch_v3_resource, fetch_with_error_handling, do_fetch_with_error_handling, do_fetch, attempt,
  after_response, bounce_error_codes,
}
use hcvault_mashery_api_auth.Api.Render.{
  render_v3_single_object_response, parse_object, append_x_headers, single_object_response,
}
use hcvault_mashery_api_auth.Plugin.{get_mashery_v3_client, client_lookup_key, new_v3_client}
use hcvault_mashery_api_auth.Roles.{handle_delete_role_data, delete_role, delete_then}
use hcvault_mashery_api_auth.Env.{header_get}
use hcvault_mashery_api_auth.V3.Sound.{Invoked, invoke_v3-Invoked}
use hcvault_mashery_api_auth.V3.Exists.{v3_object_exists-true}
use hcvault_mashery_api_auth.Roles.Deletion.{IsGone, handle_delete_role_data-IsGone}
use hcvault_mashery_api_auth.Roles.{write_chain, update_chain}
use hcvault_mashery_api_auth.Roles.Imported.{imported_refusal, imported_role_unchanged}
use hcvault_mashery_api_auth.Api.Fetch.{do_fetch-NotDenied, bounce_error_codes-eq-ok}
use hcvault_mashery_api_auth.Api.{api_container, invoke}
use hcvault_mashery_api_auth.Env.{fetch_any}
use hcvault_mashery_api_auth.RoleSteps.{
  RoleContainer, role_container, empty_container, forget_used_token,
}
use hcvault_mashery_api_auth.Handler.{start_request}
use hcvault_mashery_api_auth.Request.Chain.{Transformer, append_steps, tail_chain}
use hcvault_mashery_api_auth.Request.Chain.Laws.{simple_chain-append, tail_chain-eq-simple_chain}
use hcvault_mashery_api_auth.Tests.{
  a_store, memory, memory-laws, some_keys, some_usage, a_role, a_plugin, a_world, some_fields,
  a_response,
}

-- The payload of an answer.
abbrev pub payload_of : Exit (Unit {0}) → Payload
payload_of (respond (answer p)) = p
payload_of _ = record { body = end; lease = none; warnings = []; headers = [] }

abbrev granted : Exit (Unit {0}) × World memory
granted = issue_grant some_fields none a_world

granted_run :
    issue_grant some_fields none a_world ≡ (respond (answer (payload_of granted.0)), granted.1)
unfolding issue_grant read_role read_path decode_keys encode_keys decode_usage encode_usage
    block_operation_on_force_proxy_role block_usage_exceeding_limits expired depleted
    block_role_incapable_of is_v3_capable decrease_remaining_usage_quota has_usage_quota write_path
    retrieve_v3_access_token unix create_v3_leased_response grant_checks grant_version
    read_grant_request_params render_v3_lease_response render_v3_plain_response
    select_v3_rendering_func with_v3_token handle_operation_with_container handle_role_operation
    get_oauth_helper roles_storage_root mapping_run simple_chain map_request_handler_context persist
    read storage_path_for_role after_expiry_term as_v3_credentials is_v2_capable
    reduce_remaining_quota supplies_key_and_secret do_block_role_incapable_of initial_role
    role_keys_path role_usage_path spend_use add64 from_unix scale64 sub64 request_token
granted_run = refl

issue_grant-Granted_example :
    (g : GrantRequest) × (read_grant_request_params some_fields a_world ≡ (ok g, a_world))
    × ((path : String) × (storage_path_for_role memory a_plugin some_fields ≡ some path)
        × Granted g.api_version path a_world granted.1)
issue_grant-Granted_example =
    issue_grant-Granted some_fields none a_world granted.1 (payload_of granted.0) granted_run

-- The steps of a read through the V3 API.
abbrev v3_steps : List (Transformer memory ApiContainer)
v3_steps =
    fetch_v3_resource "/services" [] ∷ bounce_error_codes ∷ render_v3_single_object_response ∷ []

abbrev invoked : Exit (Unit {0}) × World memory
invoked = invoke_v3 v3_steps some_fields none a_world

invoked_run :
    invoke_v3 v3_steps some_fields none a_world
    ≡ (respond (answer (payload_of invoked.0)), invoked.1)
unfolding read_role read_path decode_keys encode_keys decode_usage encode_usage
    block_operation_on_force_proxy_role block_usage_exceeding_limits expired depleted
    block_role_incapable_of is_v3_capable decrease_remaining_usage_quota has_usage_quota write_path
    retrieve_v3_access_token unix handle_operation_with_container handle_role_operation
    get_oauth_helper roles_storage_root mapping_run simple_chain map_request_handler_context persist
    read storage_path_for_role after_expiry_term as_v3_credentials is_v2_capable
    reduce_remaining_quota supplies_key_and_secret do_block_role_incapable_of initial_role
    role_keys_path role_usage_path spend_use add64 from_unix scale64 sub64 request_token invoke_v3
    base_v3_invocation_chain exists_chain exists_answer v3_object_exists allow_only_v3_capable_role
    ensure_access_token_valid renew_token v3_token_needs_renew fetch_v3_resource
    fetch_with_error_handling do_fetch_with_error_handling do_fetch attempt after_response
    bounce_error_codes render_v3_single_object_response parse_object append_x_headers
    single_object_response get_mashery_v3_client client_lookup_key new_v3_client
    handle_delete_role_data delete_role delete_then header_get
invoked_run = refl

invoke_v3-Invoked_example :
    (path : String) × (storage_path_for_role memory a_plugin some_fields ≡ some path)
    × Invoked path a_world
invoke_v3-Invoked_example =
    invoke_v3-Invoked v3_steps some_fields none a_world invoked.1 (payload_of invoked.0) invoked_run

abbrev after_deletion : World memory
after_deletion = (handle_delete_role_data some_fields none a_world).1

deletion_run : handle_delete_role_data some_fields none a_world ≡ (ok tt, after_deletion)
unfolding read_role read_path decode_keys encode_keys decode_usage encode_usage
    block_operation_on_force_proxy_role block_usage_exceeding_limits expired depleted
    block_role_incapable_of is_v3_capable decrease_remaining_usage_quota has_usage_quota write_path
    retrieve_v3_access_token unix handle_operation_with_container handle_role_operation
    get_oauth_helper roles_storage_root mapping_run simple_chain map_request_handler_context persist
    read storage_path_for_role after_expiry_term as_v3_credentials is_v2_capable
    reduce_remaining_quota supplies_key_and_secret do_block_role_incapable_of initial_role
    role_keys_path role_usage_path spend_use add64 from_unix scale64 sub64 request_token invoke_v3
    base_v3_invocation_chain exists_chain exists_answer v3_object_exists allow_only_v3_capable_role
    ensure_access_token_valid renew_token v3_token_needs_renew fetch_v3_resource
    fetch_with_error_handling do_fetch_with_error_handling do_fetch attempt after_response
    bounce_error_codes render_v3_single_object_response parse_object append_x_headers
    single_object_response get_mashery_v3_client client_lookup_key new_v3_client
    handle_delete_role_data delete_role delete_then header_get
deletion_run = refl

handle_delete_role_data-IsGone_example :
    (root : String) × (storage_path_for_role memory a_plugin some_fields ≡ some root)
    × IsGone memory-laws root after_deletion.store
handle_delete_role_data-IsGone_example =
    handle_delete_role_data-IsGone memory-laws some_fields none a_world after_deletion deletion_run

abbrev pub after_check : World memory
after_check = (v3_object_exists some_fields none a_world).1

pub check_run : v3_object_exists some_fields none a_world ≡ (ok true, after_check)
unfolding read_role read_path decode_keys encode_keys decode_usage encode_usage
    block_operation_on_force_proxy_role block_usage_exceeding_limits expired depleted
    block_role_incapable_of is_v3_capable decrease_remaining_usage_quota has_usage_quota write_path
    retrieve_v3_access_token unix handle_operation_with_container handle_role_operation
    get_oauth_helper roles_storage_root mapping_run simple_chain map_request_handler_context persist
    read storage_path_for_role after_expiry_term as_v3_credentials is_v2_capable
    reduce_remaining_quota supplies_key_and_secret do_block_role_incapable_of initial_role
    role_keys_path role_usage_path spend_use add64 from_unix scale64 sub64 request_token invoke_v3
    base_v3_invocation_chain exists_chain exists_answer v3_object_exists allow_only_v3_capable_role
    ensure_access_token_valid renew_token v3_token_needs_renew fetch_v3_resource
    fetch_with_error_handling do_fetch_with_error_handling do_fetch attempt after_response
    bounce_error_codes render_v3_single_object_response parse_object append_x_headers
    single_object_response get_mashery_v3_client client_lookup_key new_v3_client
    handle_delete_role_data delete_role delete_then header_get
check_run = refl

v3_object_exists-true_example : true ≡ true
v3_object_exists-true_example =
    v3_object_exists-true some_fields none a_world after_check true check_run

-- A request that holds the role, in a world where the API answers or not.
abbrev api_request : ℕ → Req memory ApiContainer
api_request calls =
    start_request (record { role = some a_role; response = some a_response; method = "GET" })
      "u/role/r" some_fields none (record a_world { remote = calls })

abbrev fetched : Exit (Result HttpResponse) × Req memory ApiContainer
fetched = fetch_with_error_handling (invoke (fetch_any "/services" [])) (api_request 0)

fetched_run :
    do_fetch ensure_access_token_valid (invoke (fetch_any "/services" [])) 3 (api_request 0)
    ≡ (ok (good a_response), fetched.1)
unfolding read_role read_path decode_keys encode_keys decode_usage encode_usage
    block_operation_on_force_proxy_role block_usage_exceeding_limits expired depleted
    block_role_incapable_of is_v3_capable decrease_remaining_usage_quota has_usage_quota write_path
    retrieve_v3_access_token unix handle_operation_with_container handle_role_operation
    get_oauth_helper roles_storage_root mapping_run simple_chain map_request_handler_context persist
    read storage_path_for_role after_expiry_term as_v3_credentials is_v2_capable
    reduce_remaining_quota supplies_key_and_secret do_block_role_incapable_of initial_role
    role_keys_path role_usage_path spend_use add64 from_unix scale64 sub64 request_token invoke_v3
    base_v3_invocation_chain exists_chain exists_answer v3_object_exists allow_only_v3_capable_role
    ensure_access_token_valid renew_token v3_token_needs_renew fetch_v3_resource
    fetch_with_error_handling do_fetch_with_error_handling do_fetch attempt after_response
    bounce_error_codes render_v3_single_object_response parse_object append_x_headers
    single_object_response get_mashery_v3_client client_lookup_key new_v3_client
    handle_delete_role_data delete_role delete_then header_get
fetched_run = refl

do_fetch-NotDenied_example : eqb a_response.status_code 403 ≡ false
do_fetch-NotDenied_example =
    do_fetch-NotDenied ensure_access_token_valid (invoke (fetch_any "/services" [])) 3
      (api_request 0) fetched.1 a_response fetched_run

bounced_run : bounce_error_codes (api_request 0) ≡ (ok tt, api_request 0)
unfolding read_role read_path decode_keys encode_keys decode_usage encode_usage
    block_operation_on_force_proxy_role block_usage_exceeding_limits expired depleted
    block_role_incapable_of is_v3_capable decrease_remaining_usage_quota has_usage_quota write_path
    retrieve_v3_access_token unix handle_operation_with_container handle_role_operation
    get_oauth_helper roles_storage_root mapping_run simple_chain map_request_handler_context persist
    read storage_path_for_role after_expiry_term as_v3_credentials is_v2_capable
    reduce_remaining_quota supplies_key_and_secret do_block_role_incapable_of initial_role
    role_keys_path role_usage_path spend_use add64 from_unix scale64 sub64 request_token invoke_v3
    base_v3_invocation_chain exists_chain exists_answer v3_object_exists allow_only_v3_capable_role
    ensure_access_token_valid renew_token v3_token_needs_renew fetch_v3_resource
    fetch_with_error_handling do_fetch_with_error_handling do_fetch attempt after_response
    bounce_error_codes render_v3_single_object_response parse_object append_x_headers
    single_object_response get_mashery_v3_client client_lookup_key new_v3_client
    handle_delete_role_data delete_role delete_then header_get
bounced_run = refl

bounce_error_codes-eq-ok_example :
    (resp : HttpResponse) × ((api_request 0).heap.response ≡ some resp)
    × (ltb 299 resp.status_code ≡ false)
    × ((body : Blob) × (resp.body ≡ good body))
    × (api_request 0 ≡ api_request 0)
bounce_error_codes-eq-ok_example =
    bounce_error_codes-eq-ok (api_request 0) (api_request 0) bounced_run

-- A request for an imported role.
abbrev imported_keys : RoleKeys
imported_keys = record some_keys { imported = true }

abbrev imported_request : Req memory RoleContainer
imported_request = start_request empty_container "u/role/r" some_fields none (record a_world {
  store = λ p.
      if p == "u/role/r/key"
      then some (json (encode_keys imported_keys))
      else if p == "u/role/r/usage"
      then some (json (encode_usage some_usage))
      else none;
})

abbrev read_request : Req memory RoleContainer
read_request = record imported_request {
  heap = record { role = some (record a_role { keys = imported_keys }) };
}

imported_read : (b : Bool) → read_role b imported_request ≡ (ok tt, read_request)
unfolding read_role read_path decode_keys encode_keys decode_usage encode_usage
    block_operation_on_force_proxy_role block_usage_exceeding_limits expired depleted
    block_role_incapable_of is_v3_capable decrease_remaining_usage_quota has_usage_quota write_path
    retrieve_v3_access_token unix handle_operation_with_container handle_role_operation
    get_oauth_helper roles_storage_root mapping_run simple_chain map_request_handler_context persist
    read storage_path_for_role after_expiry_term as_v3_credentials is_v2_capable
    reduce_remaining_quota supplies_key_and_secret do_block_role_incapable_of initial_role
    role_keys_path role_usage_path spend_use add64 from_unix scale64 sub64 request_token invoke_v3
    base_v3_invocation_chain exists_chain exists_answer v3_object_exists allow_only_v3_capable_role
    ensure_access_token_valid renew_token v3_token_needs_renew fetch_v3_resource
    fetch_with_error_handling do_fetch_with_error_handling do_fetch attempt after_response
    bounce_error_codes render_v3_single_object_response parse_object append_x_headers
    single_object_response get_mashery_v3_client client_lookup_key new_v3_client
    handle_delete_role_data delete_role delete_then header_get
imported_read true = refl
imported_read false = refl

imported_role_unchanged_example :
    (write_chain imported_request ≡ (imported_refusal, read_request))
    × (update_chain imported_request ≡ (imported_refusal, read_request))
imported_role_unchanged_example =
    imported_role_unchanged imported_request read_request read_request
      (record a_role { keys = imported_keys }) (record a_role { keys = imported_keys })
      (imported_read false) (imported_read true) refl refl refl refl

simple_chain-append_example :
    simple_chain {env = memory} (append_steps (read_role true ∷ []) (forget_used_token ∷ [])) ≡ (
      simple_chain (read_role true ∷ [])
      >> simple_chain {H = RoleContainer} (forget_used_token ∷ []))
simple_chain-append_example = simple_chain-append (read_role true ∷ []) (forget_used_token ∷ [])

tail_chain-eq-simple_chain_example :
    tail_chain {env = memory} {H = RoleContainer} (read_role true) (forget_used_token ∷ [])
    ≡ simple_chain (read_role true ∷ forget_used_token ∷ [])
tail_chain-eq-simple_chain_example =
    tail_chain-eq-simple_chain (read_role true) (forget_used_token ∷ [])

-- A second grant of the same role.
abbrev granted_again : Exit (Unit {0}) × World memory
granted_again = issue_grant some_fields none granted.1

granted_again_run :
    issue_grant some_fields none granted.1
    ≡ (respond (answer (payload_of granted_again.0)), granted_again.1)
unfolding issue_grant read_role read_path decode_keys encode_keys decode_usage encode_usage
    block_operation_on_force_proxy_role block_usage_exceeding_limits expired depleted
    block_role_incapable_of is_v3_capable decrease_remaining_usage_quota has_usage_quota write_path
    retrieve_v3_access_token unix create_v3_leased_response grant_checks grant_version
    read_grant_request_params render_v3_lease_response render_v3_plain_response
    select_v3_rendering_func with_v3_token handle_operation_with_container handle_role_operation
    get_oauth_helper roles_storage_root mapping_run simple_chain map_request_handler_context persist
    read storage_path_for_role after_expiry_term as_v3_credentials is_v2_capable
    reduce_remaining_quota supplies_key_and_secret do_block_role_incapable_of initial_role
    role_keys_path role_usage_path spend_use add64 from_unix scale64 sub64 request_token
granted_again_run = refl

usage_at : HasUsage memory-laws "u/role/r" a_store some_usage
unfolding issue_grant read_role read_path decode_keys encode_keys decode_usage encode_usage
    block_operation_on_force_proxy_role block_usage_exceeding_limits expired depleted
    block_role_incapable_of is_v3_capable decrease_remaining_usage_quota has_usage_quota write_path
    retrieve_v3_access_token unix create_v3_leased_response grant_checks grant_version
    read_grant_request_params render_v3_lease_response render_v3_plain_response
    select_v3_rendering_func with_v3_token handle_operation_with_container handle_role_operation
    get_oauth_helper roles_storage_root mapping_run simple_chain map_request_handler_context persist
    read storage_path_for_role after_expiry_term as_v3_credentials is_v2_capable
    reduce_remaining_quota supplies_key_and_secret do_block_role_incapable_of initial_role
    role_keys_path role_usage_path spend_use add64 from_unix scale64 sub64 request_token
usage_at = refl

named : storage_path_for_role memory a_plugin some_fields ≡ some "u/role/r"
unfolding issue_grant read_role read_path decode_keys encode_keys decode_usage encode_usage
    block_operation_on_force_proxy_role block_usage_exceeding_limits expired depleted
    block_role_incapable_of is_v3_capable decrease_remaining_usage_quota has_usage_quota write_path
    retrieve_v3_access_token unix create_v3_leased_response grant_checks grant_version
    read_grant_request_params render_v3_lease_response render_v3_plain_response
    select_v3_rendering_func with_v3_token handle_operation_with_container handle_role_operation
    get_oauth_helper roles_storage_root mapping_run simple_chain map_request_handler_context persist
    read storage_path_for_role after_expiry_term as_v3_credentials is_v2_capable
    reduce_remaining_quota supplies_key_and_secret do_block_role_incapable_of initial_role
    role_keys_path role_usage_path spend_use add64 from_unix scale64 sub64 request_token
named = refl

named_again : storage_path_for_role memory granted.1.plugin some_fields ≡ some "u/role/r"
unfolding issue_grant read_role read_path decode_keys encode_keys decode_usage encode_usage
    block_operation_on_force_proxy_role block_usage_exceeding_limits expired depleted
    block_role_incapable_of is_v3_capable decrease_remaining_usage_quota has_usage_quota write_path
    retrieve_v3_access_token unix create_v3_leased_response grant_checks grant_version
    read_grant_request_params render_v3_lease_response render_v3_plain_response
    select_v3_rendering_func with_v3_token handle_operation_with_container handle_role_operation
    get_oauth_helper roles_storage_root mapping_run simple_chain map_request_handler_context persist
    read storage_path_for_role after_expiry_term as_v3_credentials is_v2_capable
    reduce_remaining_quota supplies_key_and_secret do_block_role_incapable_of initial_role
    role_keys_path role_usage_path spend_use add64 from_unix scale64 sub64 request_token
named_again = refl

two-Grants : Grants memory "u/role/r" 2 a_world
two-Grants = grant some_fields none a_world granted.1 (payload_of granted.0) named granted_run (
    grant some_fields none granted.1 granted_again.1 (payload_of granted_again.0) named_again
      granted_again_run (finished granted_again.1))

has_quota : has_usage_quota some_usage ≡ true
unfolding has_usage_quota
has_quota = refl

Grants-le_example : 2 ≤ uses_left some_usage
Grants-le_example =
    Grants-le memory-laws "u/role/r" 2 a_world some_usage two-Grants usage_at has_quota
      (omega arith)
