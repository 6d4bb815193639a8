-- ===== src/System/Exchanges.antt =====
-- The steps of export and import that leave the plugin as it was.
use hcvault_mashery_api_auth.Prelude.{ℤ, negsuc, refl, Option, arith}
use hcvault_mashery_api_auth.Value.{Value, Result, good, bad}
use hcvault_mashery_api_auth.Env.{Env, PemBlock}
use hcvault_mashery_api_auth.Request.{get_fields}
use hcvault_mashery_api_auth.RoleSteps.{role_container}
use hcvault_mashery_api_auth.Token.{v3_token_container}
use hcvault_mashery_api_auth.Grant.{v2_signature_container}
use hcvault_mashery_api_auth.ConfigSteps.{pinning_container}
use hcvault_mashery_api_auth.Exchange.Keys.{RoleExportContainer, role_export_container}
use hcvault_mashery_api_auth.Exchange.Certificate.{
  render_role_certificate, read_recipient_certificate,
}
use hcvault_mashery_api_auth.Exchange.Export.{render_encrypted_role_data, exported, encrypt_export}
use hcvault_mashery_api_auth.Exchange.Settings.{
  number_param, truth_param, term_param, DesiredRoleExport, parse_desired_role_export,
}
use hcvault_mashery_api_auth.Exchange.Import.{import_exchange_data}
use hcvault_mashery_api_auth.System.Keeps.{Keeps, Keeps-of_plugin, bind-Keeps}

module _ {env : Env} where
  pub role_certificate-Keeps : Keeps {env = env} render_role_certificate
  unfolding render_role_certificate
  role_certificate-Keeps = Keeps-of_plugin render_role_certificate (λ r. ground arith)

  pub recipient-Keeps : Keeps {env = env} read_recipient_certificate
  unfolding read_recipient_certificate
  recipient-Keeps = Keeps-of_plugin read_recipient_certificate (λ r. ground arith)

  exported-Keeps : (x : Result DesiredRoleExport) → Keeps {env = env} (exported x)
  unfolding encrypt_export
  exported-Keeps (good s) = Keeps-of_plugin (exported (good s)) (λ r. ground arith)
  exported-Keeps (bad e) = Keeps-of_plugin (exported (bad e)) (λ r. refl)

  number_param-Keeps :
      (o : Option Value) (default : ℤ)
      → Keeps {env = env} {H = RoleExportContainer env} (number_param o default)
  number_param-Keeps o default = Keeps-of_plugin (number_param o default) (λ r. ground arith)

  truth_param-Keeps :
      (o : Option Value) → Keeps {env = env} {H = RoleExportContainer env} (truth_param o)
  truth_param-Keeps o = Keeps-of_plugin (truth_param o) (λ r. ground arith)

  term_param-Keeps :
      (o : Option Value) → Keeps {env = env} {H = RoleExportContainer env} (term_param o)
  term_param-Keeps o = Keeps-of_plugin (term_param o) (λ r. ground arith)

  settings-Keeps : Keeps {env = env} {H = RoleExportContainer env} parse_desired_role_export
  unfolding parse_desired_role_export
  settings-Keeps = bind-Keeps get_fields _ (Keeps-of_plugin get_fields (λ r. refl)) (λ d.
      bind-Keeps (number_param (d.get_ok "explicit_num_uses") (negsuc 0)) _
        (number_param-Keeps (d.get_ok "explicit_num_uses") (negsuc 0))
        (λ n.
          bind-Keeps (truth_param (d.get_ok "v2_only")) _ (truth_param-Keeps (d.get_ok "v2_only"))
            (λ a.
              bind-Keeps (truth_param (d.get_ok "v3_only")) _
                (truth_param-Keeps (d.get_ok "v3_only"))
                (λ b.
                  bind-Keeps (number_param (d.get_ok "explicit_qps") (negsuc 0)) _
                    (number_param-Keeps (d.get_ok "explicit_qps") (negsuc 0))
                    (λ q.
                      bind-Keeps (truth_param (d.get_ok "force_proxy_mode")) _
                        (truth_param-Keeps (d.get_ok "force_proxy_mode"))
                        (λ f.
                          bind-Keeps (truth_param (d.get_ok "exportable")) _
                            (truth_param-Keeps (d.get_ok "exportable"))
                            (λ x.
                              bind-Keeps (term_param (d.get_ok "explicit_term")) _
                                (term_param-Keeps (d.get_ok "explicit_term"))
                                (λ t. Keeps-of_plugin _ (λ r. refl)))))))))

  pub encrypted-Keeps : Keeps {env = env} render_encrypted_role_data
  unfolding render_encrypted_role_data
  encrypted-Keeps = bind-Keeps parse_desired_role_export exported settings-Keeps exported-Keeps

  pub import-Keeps : (blk : PemBlock) → Keeps {env = env} (import_exchange_data blk)
  unfolding import_exchange_data
  import-Keeps blk = Keeps-of_plugin (import_exchange_data blk) (λ r. ground arith)
