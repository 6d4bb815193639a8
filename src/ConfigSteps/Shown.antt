-- ===== src/ConfigSteps/Shown.antt =====
-- How the configuration is shown: `readConfiguration` of mashery/path_config.go and the formats of
-- mashery/parseutils.go.
use hcvault_mashery_api_auth.Prelude.{
  ℤ, eqb_ℤ, String, ◌<>◌, not, ◌||◌, none, [], ◌==◌, if◌then◌else◌,
}
use hcvault_mashery_api_auth.Value.{text, truth, Fields, end, field, answer}
use hcvault_mashery_api_auth.Exec.{respond}
use hcvault_mashery_api_auth.Config.{
  BackendConfiguration, CertPin, tls_pinning_default, tls_pinning_system, tls_pinning_custom,
  tls_pinning_insecure, effective_oaep_label, effective_network_latency, effective_tls_pinning,
}
use hcvault_mashery_api_auth.Env.{Env}
use hcvault_mashery_api_auth.Handler.{Handler}

-- `appendNoEmpty`, of what the builder has so far.
unfoldable pub append_no_empty : String → String → String → String
append_no_empty val key built =
    if val == "" then built else (if built == "" then built else built <> ", ") <> key <> "=" <> val

module _ (env : Env) where
  unfoldable pub format_optional_secret_value : String → String
  format_optional_secret_value str = if str == "" then "" else "sha256:" <> env.sha256_hex str

  unfoldable pub format_tls_pinning_option : ℤ → String
  format_tls_pinning_option opt =
      if eqb_ℤ opt tls_pinning_default
      then "default"
      else if eqb_ℤ opt tls_pinning_system
      then "system"
      else if eqb_ℤ opt tls_pinning_custom
      then "custom"
      else if eqb_ℤ opt tls_pinning_insecure
      then "insecure"
      else env.show_number opt

  unfoldable pub format_root_ca : BackendConfiguration → String
  format_root_ca cfg =
      if cfg.tls_certs == "" || cfg.tls_certs == "-"
      then "---- use system ----"
      else if not (env.has_certificates cfg.tls_certs)
      then "---- CAN NOT BE PARSED! ----"
      else "---- custom root CA certificates ----"

  unfoldable pub format_cert_pin : CertPin → String
  unfolding append_no_empty
  format_cert_pin pin =
      if env.pin_is_empty pin
      then ""
      else append_no_empty (env.hex_encode pin.fingerprint) "fp" (
          append_no_empty (env.hex_encode pin.serial_number) "sn"
            (append_no_empty pin.common_name "cn" ""))

  unfoldable pub configuration_fields : BackendConfiguration → Fields
  unfolding format_optional_secret_value format_tls_pinning_option format_root_ca format_cert_pin
      effective_oaep_label effective_network_latency effective_tls_pinning
  configuration_fields cfg = field "build version" (text "0.5") (
      field "oaep_label (effective)"
        (text (format_optional_secret_value (effective_oaep_label cfg)))
        (field "proxy_server" (text cfg.proxy_server) (
          field "proxy_server_auth" (text cfg.proxy_server_auth) (
            field "proxy_server_creds" (text cfg.proxy_server_creds) (
              field "enable_cli_v3_write" (truth cfg.cli_write_enabled) (
                field "net_latency (effective)"
                  (text (env.show_duration (effective_network_latency cfg)))
                  (field "tls_pinning (effective)"
                    (text (format_tls_pinning_option (effective_tls_pinning env.pin_is_empty cfg)))
                    (field "tls_pinning (desired)"
                      (text (format_tls_pinning_option cfg.tls_pinning))
                      (field "root_ca" (text (format_root_ca cfg)) (
                        field "mashery leaf cert" (text (format_cert_pin cfg.leaf_cert_pin)) (
                          field "mashery issuer cert" (text (format_cert_pin cfg.issuer_cert_pin)) (
                            field "mashery root cert" (text (format_cert_pin cfg.root_cert_pin))
                              end))))))))))))

module _ {env : Env} where
  unfoldable pub read_configuration : Handler env
  unfolding configuration_fields
  read_configuration d body w = (
    respond (
        answer (record {
          body = configuration_fields env w.plugin.cfg;
          lease = none;
          warnings = [];
          headers = [];
        })),
    w,
  )
