-- ===== src/Routes/Reads.antt =====
-- The parameters that the code reads, path by path, are there with the types that it asserts.
use hcvault_mashery_api_auth.Prelude.{String, ◌≡◌, ◌≢◌, Option, some}
use hcvault_mashery_api_auth.Value.{Value, text, Fields}
use hcvault_mashery_api_auth.Exec.{panic}
use hcvault_mashery_api_auth.Exec.Safe.{IsSafe}
use hcvault_mashery_api_auth.Role.{StoredRole}
use hcvault_mashery_api_auth.Env.{Env}
use hcvault_mashery_api_auth.Plugin.{AuthPlugin}
use hcvault_mashery_api_auth.Request.{FieldData, Req, World, storage_path_for_role}
use hcvault_mashery_api_auth.RoleSteps.{
  RoleContainer, role_container, update_role_keys_from_request,
}
use hcvault_mashery_api_auth.RoleSteps.Checks.{carrying}
use hcvault_mashery_api_auth.ConfigSteps.{parse_config_fields, parse_pin_fields}
use hcvault_mashery_api_auth.Exchange.Keys.{RoleExportContainer, role_export_container}
use hcvault_mashery_api_auth.Exchange.Certificate.{
  render_role_certificate, read_recipient_certificate,
}
use hcvault_mashery_api_auth.Exchange.Settings.{parse_desired_role_export}
use hcvault_mashery_api_auth.Grant.{read_grant_request_params}
use hcvault_mashery_api_auth.V2.{verify_v2_operation_request}
use hcvault_mashery_api_auth.V3.{target_update_method}
use hcvault_mashery_api_auth.Prelude.{List}
use hcvault_mashery_api_auth.Config.{BackendConfiguration}
use hcvault_mashery_api_auth.ConfigSteps.{PinSlot}
use hcvault_mashery_api_auth.Routes.{Part, RoutePath}
use hcvault_mashery_api_auth.Routes.Paths.{
  path_config, path_cert_config, path_role, path_role_imp_exp_get_pem, path_role_imp_exp_import,
  path_role_imp_exp_export, path_role_grant, path_role_token, path_role_v2, path_role_v3,
  path_proxy_v2, path_proxy_v3, path_proxy_v3_with_explicit_method,
}

-- The paths that have parameters.
pub data PathName : Type 0 where
  at_config at_role at_pem at_import at_export at_grant at_token : PathName
  at_v3 at_proxy_v2 at_proxy_v3 at_proxy_v3_method : PathName
  at_cert_config : String → PinSlot → PathName
  at_query : List Part → PathName

unfoldable pub path_of : {env : Env} → BackendConfiguration → PathName → RoutePath env
path_of zero_cfg at_config = path_config zero_cfg
path_of zero_cfg (at_cert_config suffix slot) = path_cert_config zero_cfg suffix slot
path_of zero_cfg at_role = path_role
path_of zero_cfg at_pem = path_role_imp_exp_get_pem
path_of zero_cfg at_import = path_role_imp_exp_import
path_of zero_cfg at_export = path_role_imp_exp_export
path_of zero_cfg at_grant = path_role_grant
path_of zero_cfg at_token = path_role_token
path_of zero_cfg (at_query pattern) = path_role_v2 pattern
path_of zero_cfg at_v3 = path_role_v3
path_of zero_cfg at_proxy_v2 = path_proxy_v2
path_of zero_cfg at_proxy_v3 = path_proxy_v3
path_of zero_cfg at_proxy_v3_method = path_proxy_v3_with_explicit_method

module _ (env : Env) (d : FieldData) where
  -- The text of this field is there.
  abbrev pub HasText : String → Type 0
  HasText k = (t : String) × (d.get k ≡ text t)

  -- The request names a role.
  abbrev pub IsNamed : Type 0
  IsNamed = (b : AuthPlugin) → (path : String) × (storage_path_for_role env b d ≡ some path)

  -- A request with these fields.
  abbrev pub asking : {H : Type 0} → Req env H → Req env H
  asking r = record r { fields = d }

  -- What the code of a path reads of these fields is read without a panic.
  abbrev pub IsRead : PathName → Type 0
  IsRead at_config = IsSafe (parse_config_fields env d)
  IsRead (at_cert_config suffix slot) = IsSafe (parse_pin_fields env d)
  IsRead at_role =
      IsNamed × ((r : Req env RoleContainer) → (update_role_keys_from_request (asking r)).0 ≢ panic)
  IsRead at_pem =
      IsNamed
      × ((role : StoredRole) (r : Req env RoleContainer)
          → (render_role_certificate (carrying role (asking r))).0 ≢ panic)
  IsRead at_import = IsNamed × HasText "pem"
  IsRead at_export =
      IsNamed
      × ((r : Req env (RoleExportContainer env))
          → (read_recipient_certificate (asking r)).0 ≢ panic)
      × ((r : Req env (RoleExportContainer env)) → (parse_desired_role_export (asking r)).0 ≢ panic)
  IsRead at_grant = IsNamed × IsSafe {S = World env} (read_grant_request_params d)
  IsRead at_token = IsNamed × IsSafe {S = World env} (read_grant_request_params d)
  IsRead (at_query pattern) =
      IsNamed
      × ((body : Option Fields) → IsSafe {S = World env} (verify_v2_operation_request d body))
  IsRead at_proxy_v2 =
      IsNamed
      × ((body : Option Fields) → IsSafe {S = World env} (verify_v2_operation_request d body))
  IsRead at_v3 = IsNamed × HasText "path"
  IsRead at_proxy_v3 = IsNamed × IsSafe (target_update_method {env = env} d) × HasText "path"
  IsRead at_proxy_v3_method = IsNamed × IsSafe (target_update_method {env = env} d) × HasText "path"
