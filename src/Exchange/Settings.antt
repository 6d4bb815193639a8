-- ===== src/Exchange/Settings.antt =====
-- What an export grants: `parseDesiredRoleExport` and the pure part of `renderEncryptedRoleData` of
-- mashery/transformers_pki.go.
use hcvault_mashery_api_auth.Prelude.{
  ℤ, pos, negsuc, ltb_ℤ, Bool, false, Option, none, some, if◌then◌else◌,
}
use hcvault_mashery_api_auth.Value.{Value, text, number, truth, Result, good, bad}
use hcvault_mashery_api_auth.Exec.{pure, crash, ◌>>=◌}
use hcvault_mashery_api_auth.Role.{
  RoleKeys, StoredRole, RoleDataExchange, RoleUsageTerm, create_role_data_exchange,
}
use hcvault_mashery_api_auth.Env.{Env}
use hcvault_mashery_api_auth.Duration.{parse_user_input_duration}
use hcvault_mashery_api_auth.Request.{Step, get_fields, read_clock}

-- `desired_term` is a duration in nanoseconds.
pub record DesiredRoleExport : Type 0 where
  pub desired_term : ℤ
  pub desired_num_uses : ℤ
  pub desired_qps : ℤ
  pub desired_force_proxy_mode : Bool
  pub desired_only_v2 : Bool
  pub desired_only_v3 : Bool
  pub desire_exportable : Bool

abbrev pub default_export : DesiredRoleExport
default_export = record {
  desired_term = pos 0;
  desired_num_uses = negsuc 0;
  desired_qps = negsuc 0;
  desired_force_proxy_mode = false;
  desired_only_v2 = false;
  desired_only_v3 = false;
  desire_exportable = false;
}

abbrev pub with_term : DesiredRoleExport → Result ℤ → Result DesiredRoleExport
with_term rv (bad err) = bad err
with_term rv (good dur) = good (record rv { desired_term = dur })

module _ {env : Env} {H : Type 0} where
  -- `if v, ok := d.GetOk(field); ok { dest = v.(T) }`
  abbrev pub number_param : Option Value → ℤ → Step env H ℤ
  number_param none default = pure default
  number_param (some (number n)) default = pure n
  number_param (some _) default = crash

  abbrev pub truth_param : Option Value → Step env H Bool
  truth_param none = pure false
  truth_param (some (truth b)) = pure b
  truth_param (some _) = crash

  abbrev pub term_param : Option Value → Step env H (Result ℤ)
  term_param none = pure (good (pos 0))
  term_param (some (text s)) = do now ← read_clock; pure (parse_user_input_duration env now s)
  term_param (some _) = crash

  unfoldable pub parse_desired_role_export : Step env H (Result DesiredRoleExport)
  unfolding parse_user_input_duration
  parse_desired_role_export = do
    d ← get_fields
    num_uses ← number_param (d.get_ok "explicit_num_uses") (negsuc 0)
    only_v2 ← truth_param (d.get_ok "v2_only")
    only_v3 ← truth_param (d.get_ok "v3_only")
    qps ← number_param (d.get_ok "explicit_qps") (negsuc 0)
    force_proxy_mode ← truth_param (d.get_ok "force_proxy_mode")
    exportable ← truth_param (d.get_ok "exportable")
    term ← term_param (d.get_ok "explicit_term")
    pure (
        with_term
          (record {
            desired_term = pos 0;
            desired_num_uses = num_uses;
            desired_qps = qps;
            desired_force_proxy_mode = force_proxy_mode;
            desired_only_v2 = only_v2;
            desired_only_v3 = only_v3;
            desire_exportable = exportable;
          })
          term)

abbrev granted_uses : ℤ → Option RoleUsageTerm → Option RoleUsageTerm
granted_uses n none = none
granted_uses n (some t) = some (if ltb_ℤ (pos 0) n then record t { explicit_num_uses = n } else t)

-- The keys that are passed on, after the settings were applied to those of the role.
unfoldable pub export_keys : DesiredRoleExport → RoleKeys → RoleKeys
export_keys s k = record k {
  force_proxy_mode = s.desired_force_proxy_mode;
  exportable = s.desire_exportable;
  max_qps = if ltb_ℤ (pos 0) s.desired_qps then s.desired_qps else k.max_qps;
  area_id = if s.desired_only_v2 then "" else k.area_id;
  username = if s.desired_only_v2 then "" else k.username;
  password = if s.desired_only_v2 then "" else k.password;
  area_nid = if s.desired_only_v3 then pos 0 else k.area_nid;
}

-- What is encrypted for the recipient.
unfoldable pub export_of : ℤ → DesiredRoleExport → StoredRole → RoleDataExchange
unfolding create_role_data_exchange export_keys
export_of now s role =
    let exp = create_role_data_exchange now s.desired_term role in
    record {
      role_data = export_keys s exp.role_data;
      usage_term = granted_uses s.desired_num_uses exp.usage_term;
    }
