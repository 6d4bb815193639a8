-- ===== src/Tests/Signed.antt =====
-- A grant for V2 in memory.
use hcvault_mashery_api_auth.Prelude.{pos, refl, inr, false, none, some, ◌==◌, if◌then◌else◌}
use hcvault_mashery_api_auth.Value.{number, text, null}
use hcvault_mashery_api_auth.Role.{
  expired, depleted, is_v2_capable, has_usage_quota, supplies_key_and_secret,
  reduce_remaining_quota,
}
use hcvault_mashery_api_auth.Role.Json.{encode_keys, decode_keys, encode_usage, decode_usage}
use hcvault_mashery_api_auth.Plugin.{roles_storage_root}
use hcvault_mashery_api_auth.Request.{FieldData, storage_path_for_role, read, persist}
use hcvault_mashery_api_auth.RoleSteps.{role_keys_path, role_usage_path}
use hcvault_mashery_api_auth.RoleSteps.Checks.{IsStored}
use hcvault_mashery_api_auth.Grant.{GrantRequest, read_grant_request_params, issue_grant}
use hcvault_mashery_api_auth.Grant.Live.{AnswersWith, signed_body, issue_grant-of_v2}
use hcvault_mashery_api_auth.Tests.{memory, a_role, a_plugin, a_store, a_world}

abbrev v2_fields : FieldData
v2_fields = record {
  get_ok = λ k. if k == "api" then some (number (pos 2)) else none;
  get = λ k. if k == "roleName" then text "r" else if k == "api" then number (pos 2) else null;
}

abbrev v2_params : GrantRequest
v2_params = record { api_version = pos 2; as_lease = false }

a_role-IsStored : IsStored memory a_plugin "u/role/r" a_store a_role
unfolding read role_keys_path role_usage_path decode_keys encode_keys decode_usage encode_usage
a_role-IsStored = record { keys_stored = refl; usage_stored = refl }

issue_grant-of_v2_example :
    AnswersWith (signed_body memory a_role 1) (issue_grant v2_fields none a_world)
unfolding read_grant_request_params storage_path_for_role roles_storage_root expired depleted
    is_v2_capable supplies_key_and_secret has_usage_quota persist role_usage_path encode_usage
    reduce_remaining_quota
issue_grant-of_v2_example =
    issue_grant-of_v2 v2_fields none a_world v2_params "u/role/r" a_role refl refl refl refl
      a_role-IsStored refl refl refl refl (inr refl)
