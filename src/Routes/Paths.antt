-- ===== src/Routes/Paths.antt =====
-- The paths of the plugin: `makeNew` of mashery/plugin.go, and the functions `path...` that it calls.
use hcvault_mashery_api_auth.Prelude.{ℤ, String, true, false, none, some, List, [], ◌∷◌}
use hcvault_mashery_api_auth.Value.{error_response}
use hcvault_mashery_api_auth.Exec.{pure, stop}
use hcvault_mashery_api_auth.Config.{BackendConfiguration}
use hcvault_mashery_api_auth.Env.{Env}
use hcvault_mashery_api_auth.Handler.{Handler}
use hcvault_mashery_api_auth.Api.{method_post, method_put}
use hcvault_mashery_api_auth.ConfigSteps.{
  PinSlot, leaf, issuer, root, store_configuration, update_cert, reset_cert,
}
use hcvault_mashery_api_auth.ConfigSteps.Shown.{read_configuration}
use hcvault_mashery_api_auth.Roles.{
  role_existence_check, handle_write_role_keys, handle_read_role_data, handle_update_role_data,
  handle_delete_role_data, list_roles,
}
use hcvault_mashery_api_auth.Grant.{issue_grant, read_role_token, delete_token, minutes}
use hcvault_mashery_api_auth.Exchange.Certificate.{role_pem_read}
use hcvault_mashery_api_auth.Exchange.Export.{role_export}
use hcvault_mashery_api_auth.Exchange.Import.{path_role_import}
use hcvault_mashery_api_auth.V2.{execute_v2_write, proxy_v2_request}
use hcvault_mashery_api_auth.V3.{
  v3_object_exists, do_if_cli_write_enabled, execute_v3_list, execute_v3_get, execute_v3_write,
  execute_v3_delete, proxy_v3_request, proxy_v3_update, proxy_method_get, proxy_method_delete,
}
use hcvault_mashery_api_auth.Routes.{
  Part, literal, generic_name, match_all, optional_target_method, optional_slash, RoutePath, Schema,
  ExistenceCheck, Operation, list_operation, read_operation, create_operation, update_operation,
  delete_operation,
}
use hcvault_mashery_api_auth.Routes.Schemas.{
  path_backend_config_fields, path_cert_config_fields, path_role_fields, path_role_pem_read_fields,
  path_role_pem_import_fields, path_role_export_fields, path_role_grant_fields,
  path_role_token_fields, path_role_v2_fields, path_proxy_v2_fields, v3_path_fields,
  v2_access_secret_fields, v3_access_secret_fields,
}

-- "roles/", the name of the role, and what follows.
abbrev pub role_pattern : List Part → List Part
role_pattern rest = literal "roles/" ∷ generic_name "roleName" ∷ rest

module _ {env : Env} where
  unfoldable pub always_exist : ExistenceCheck env
  always_exist d body = pure true

  unfoldable pub does_not_exist : ExistenceCheck env
  does_not_exist d body = pure false

  -- `roleExistenceCheck` does not look at the body of the request.
  abbrev pub role_exists : ExistenceCheck env
  role_exists d body = role_existence_check d

  -- `noopRenewRevoke`
  unfoldable pub noop_renew_revoke : Handler env
  noop_renew_revoke d body = pure tt

  unfoldable pub path_config : BackendConfiguration → RoutePath env
  path_config zero_cfg = record {
    pattern = literal "config" ∷ optional_slash ∷ [];
    schema = path_backend_config_fields;
    operations =
        (update_operation, store_configuration zero_cfg)
        ∷ (read_operation, read_configuration)
        ∷ [];
    existence_check = some always_exist;
  }

  unfoldable pub path_cert_config : BackendConfiguration → String → PinSlot → RoutePath env
  path_cert_config zero_cfg suffix pinner = record {
    pattern = literal "config/certs/" ∷ literal suffix ∷ [];
    schema = path_cert_config_fields;
    operations =
        (update_operation, update_cert zero_cfg pinner)
        ∷ (delete_operation, reset_cert zero_cfg pinner)
        ∷ [];
    existence_check = some always_exist;
  }

  unfoldable pub path_roles_root : RoutePath env
  path_roles_root = record {
    pattern = literal "roles" ∷ optional_slash ∷ [];
    schema = [];
    operations = (list_operation, list_roles) ∷ [];
    existence_check = none;
  }

  unfoldable pub path_role : RoutePath env
  path_role = record {
    pattern = role_pattern [];
    schema = path_role_fields;
    operations =
        (create_operation, handle_write_role_keys)
        ∷ (read_operation, handle_read_role_data)
        ∷ (update_operation, handle_update_role_data)
        ∷ (delete_operation, handle_delete_role_data)
        ∷ [];
    existence_check = some role_exists;
  }

  unfoldable pub path_role_imp_exp_get_pem : RoutePath env
  path_role_imp_exp_get_pem = record {
    pattern = role_pattern (literal "/pem" ∷ []);
    schema = path_role_pem_read_fields;
    operations = (read_operation, role_pem_read) ∷ [];
    existence_check = some role_exists;
  }

  unfoldable pub path_role_imp_exp_export : RoutePath env
  path_role_imp_exp_export = record {
    pattern = role_pattern (literal "/export" ∷ []);
    schema = path_role_export_fields;
    operations = (update_operation, role_export) ∷ [];
    existence_check = some role_exists;
  }

  -- The callback of a creation.
  unfoldable pub refuse_import : Handler env
  refuse_import d body =
      stop (error_response "importing data into non-existing role cannot possibly work" [])

  unfoldable pub path_role_imp_exp_import : RoutePath env
  path_role_imp_exp_import = record {
    pattern = role_pattern (literal "/import" ∷ []);
    schema = path_role_pem_import_fields;
    operations = (create_operation, refuse_import) ∷ (update_operation, path_role_import) ∷ [];
    existence_check = some role_exists;
  }

  unfoldable pub path_role_grant : RoutePath env
  path_role_grant = record {
    pattern = role_pattern (literal "/grant" ∷ []);
    schema = path_role_grant_fields;
    operations = (read_operation, issue_grant) ∷ [];
    existence_check = some role_exists;
  }

  unfoldable pub path_role_token : RoutePath env
  path_role_token = record {
    pattern = role_pattern (literal "/token" ∷ []);
    schema = path_role_token_fields;
    operations = (read_operation, read_role_token) ∷ (delete_operation, delete_token) ∷ [];
    existence_check = some role_exists;
  }

  unfoldable pub path_role_v2 : List Part → RoutePath env
  path_role_v2 pattern' = record {
    pattern = pattern';
    schema = path_role_v2_fields;
    operations = (create_operation, execute_v2_write) ∷ [];
    existence_check = some does_not_exist;
  }

  unfoldable pub path_role_v3 : RoutePath env
  path_role_v3 = record {
    pattern = role_pattern (literal "/v3/" ∷ match_all "path" ∷ []);
    schema = v3_path_fields;
    operations =
        (list_operation, execute_v3_list)
        ∷ (read_operation, execute_v3_get)
        ∷ (create_operation, do_if_cli_write_enabled (execute_v3_write method_post))
        ∷ (update_operation, do_if_cli_write_enabled (execute_v3_write method_put))
        ∷ (delete_operation, do_if_cli_write_enabled execute_v3_delete)
        ∷ [];
    existence_check = some v3_object_exists;
  }

  unfoldable pub path_proxy_v2 : RoutePath env
  path_proxy_v2 = record {
    pattern = role_pattern (literal "/proxy/v2" ∷ []);
    schema = path_proxy_v2_fields;
    operations = (create_operation, proxy_v2_request) ∷ [];
    existence_check = some does_not_exist;
  }

  -- The operations of both proxy paths of the V3 API.
  abbrev proxy_v3_operations : List (Operation × Handler env)
  proxy_v3_operations =
      (read_operation, proxy_v3_request proxy_method_get)
      ∷ (create_operation, proxy_v3_update)
      ∷ (update_operation, proxy_v3_update)
      ∷ (delete_operation, proxy_v3_request proxy_method_delete)
      ∷ []

  unfoldable pub path_proxy_v3 : RoutePath env
  path_proxy_v3 = record {
    pattern =
        role_pattern
          (literal "/proxy/v3/" ∷ match_all "path" ∷ optional_target_method "target_method" ∷ []);
    schema = v3_path_fields;
    operations = proxy_v3_operations;
    existence_check = none;
  }

  unfoldable pub path_proxy_v3_with_explicit_method : RoutePath env
  path_proxy_v3_with_explicit_method = record {
    pattern = role_pattern (
        literal "/proxy/v3-method/"
        ∷ generic_name "target_method"
        ∷ literal "/"
        ∷ match_all "path"
        ∷ []);
    schema = v3_path_fields;
    operations = proxy_v3_operations;
    existence_check = none;
  }

  -- `Paths` of `makeNew`, in its order.
  unfoldable pub all_paths : BackendConfiguration → List (RoutePath env)
  all_paths zero_cfg =
      path_config zero_cfg
      ∷ path_cert_config zero_cfg "leaf" leaf
      ∷ path_cert_config zero_cfg "issuer" issuer
      ∷ path_cert_config zero_cfg "root" root
      ∷ path_roles_root
      ∷ path_role
      ∷ path_role_imp_exp_get_pem
      ∷ path_role_imp_exp_export
      ∷ path_role_imp_exp_import
      ∷ path_role_grant
      ∷ path_role_token
      ∷ path_role_v2 (role_pattern (literal "/v2" ∷ []))
      ∷ path_role_v2 (role_pattern (literal "/v2/" ∷ generic_name "method" ∷ []))
      ∷ path_role_v3
      ∷ path_proxy_v2
      ∷ path_proxy_v3
      ∷ path_proxy_v3_with_explicit_method
      ∷ []

-- `framework.Secret`; the duration is in nanoseconds.
pub record Secret (env : Env) : Type 0 where
  pub secret_type : String
  pub schema : Schema
  pub default_duration : ℤ
  pub renew : Handler env
  pub revoke : Handler env

module _ {env : Env} where
  unfoldable pub v2_access_secret : Secret env
  v2_access_secret = record {
    secret_type = "v2_access";
    schema = v2_access_secret_fields;
    default_duration = minutes 1;
    renew = noop_renew_revoke;
    revoke = noop_renew_revoke;
  }

  unfoldable pub v3_access_secret : Secret env
  v3_access_secret = record {
    secret_type = "v3_access";
    schema = v3_access_secret_fields;
    default_duration = minutes 15;
    renew = noop_renew_revoke;
    revoke = noop_renew_revoke;
  }
