-- ===== src/Routes/Schemas.antt =====
-- The fields of the paths: the `FieldSchema` maps of the path files and of the secrets of
-- mashery/path_role_grant.go.
use hcvault_mashery_api_auth.Prelude.{pos, [], ◌∷◌, false}
use hcvault_mashery_api_auth.Value.{text, truth, number}
use hcvault_mashery_api_auth.Routes.{
  Schema, type_string, type_int, type_bool, type_comma_string_slice, optional, mandatory, defaulted,
}

-- `pathBackendConfigFields`
unfoldable pub path_backend_config_fields : Schema
path_backend_config_fields =
    ("oaep_label", optional type_string)
    ∷ ("proxy_server", optional type_string)
    ∷ ("proxy_server_auth", optional type_string)
    ∷ ("proxy_server_creds", optional type_string)
    ∷ ("enable_cli_v3_write", optional type_bool)
    ∷ ("net_latency", optional type_string)
    ∷ ("tls_pinning", optional type_string)
    ∷ ("root_ca", optional type_string)
    ∷ []

-- `pathCertConfigFields`
unfoldable pub path_cert_config_fields : Schema
path_cert_config_fields =
    ("cn", optional type_string) ∷ ("sn", optional type_string) ∷ ("fp", optional type_string) ∷ []

-- `pathRoleFields`
unfoldable pub path_role_fields : Schema
path_role_fields =
    ("roleName", mandatory type_string)
    ∷ ("area_id", optional type_string)
    ∷ ("area_nid", optional type_int)
    ∷ ("api_key", optional type_string)
    ∷ ("secret", optional type_string)
    ∷ ("username", optional type_string)
    ∷ ("password", optional type_string)
    ∷ ("qps", defaulted type_int (number (pos 2)))
    ∷ []

-- `pathRolePemReadFields`
unfoldable pub path_role_pem_read_fields : Schema
path_role_pem_read_fields =
    ("roleName", optional type_string) ∷ ("cn", defaulted type_string (text "Bearer")) ∷ []

-- `pathRolePemImportFields`
unfoldable pub path_role_pem_import_fields : Schema
path_role_pem_import_fields =
    ("roleName", mandatory type_string) ∷ ("pem", mandatory type_string) ∷ []

-- `pathRoleExportFields`
unfoldable pub path_role_export_fields : Schema
path_role_export_fields =
    ("roleName", mandatory type_string)
    ∷ ("pem", mandatory type_string)
    ∷ ("explicit_term", optional type_string)
    ∷ ("explicit_num_uses", optional type_int)
    ∷ ("v2_only", optional type_bool)
    ∷ ("v3_only", optional type_bool)
    ∷ ("explicit_qps", optional type_int)
    ∷ ("force_proxy_mode", optional type_bool)
    ∷ ("exportable", optional type_bool)
    ∷ []

-- `pathRoleGrantFields`
unfoldable pub path_role_grant_fields : Schema
path_role_grant_fields =
    ("roleName", mandatory type_string)
    ∷ (
      "api",
      record (defaulted type_int (number (pos 3))) {
        allowed_values = number (pos 2) ∷ number (pos 3) ∷ [];
      },
    )
    ∷ ("lease", defaulted type_bool (truth false))
    ∷ []

-- The fields of `pathRoleToken`.
unfoldable pub path_role_token_fields : Schema
path_role_token_fields =
    ("roleName", mandatory type_string) ∷ ("lease", defaulted type_bool (truth false)) ∷ []

-- `pathRoleV2Fields`
unfoldable pub path_role_v2_fields : Schema
path_role_v2_fields =
    ("roleName", mandatory type_string)
    ∷ ("method", optional type_string)
    ∷ ("query", optional type_string)
    ∷ []

-- The fields of `pathProxyV2`.
unfoldable pub path_proxy_v2_fields : Schema
path_proxy_v2_fields = ("roleName", mandatory type_string) ∷ []

-- `v3PathFields`
unfoldable pub v3_path_fields : Schema
v3_path_fields =
    ("roleName", mandatory type_string)
    ∷ ("path", mandatory type_string)
    ∷ ("offset", defaulted type_int (number (pos 0)))
    ∷ ("limit", defaulted type_int (number (pos 100)))
    ∷ ("fields", optional type_comma_string_slice)
    ∷ ("filter", optional type_comma_string_slice)
    ∷ ("sort", optional type_comma_string_slice)
    ∷ ("target_method", optional type_string)
    ∷ []

-- The fields of `v2AccessSecret` and `v3AccessSecret`.
unfoldable pub v2_access_secret_fields : Schema
v2_access_secret_fields =
    ("area_nid", optional type_int)
    ∷ ("api_key", optional type_string)
    ∷ ("sig", optional type_string)
    ∷ ("qps", optional type_int)
    ∷ []

unfoldable pub v3_access_secret_fields : Schema
v3_access_secret_fields = ("access_token", optional type_string) ∷ ("qps", optional type_int) ∷ []
