-- ===== src/Exchange/Export.antt =====
-- The export of a role: part of mashery/transformers_pki.go and mashery/path_role_impexp.go.
use hcvault_mashery_api_auth.Prelude.{
  ℤ, pos, ltb_ℤ, String, ◌<>◌, Bool, true, false, none, some, List, [], ◌∷◌, if◌then◌else◌,
}
use hcvault_mashery_api_auth.Value.{
  text, end, field, Result, good, bad, json, Response, error_response, answer, arg_error,
}
use hcvault_mashery_api_auth.Exec.{stop, lift, deref, ◌>>=◌}
use hcvault_mashery_api_auth.Role.{StoredRole, RoleDataExchange, is_v2_capable, is_v3_capable}
use hcvault_mashery_api_auth.Role.Json.{encode_exchange}
use hcvault_mashery_api_auth.Env.{Env}
use hcvault_mashery_api_auth.Request.{Step, get_heap, get_plugin, read_clock, next_tick}
use hcvault_mashery_api_auth.Request.Chain.{simple_chain}
use hcvault_mashery_api_auth.RoleSteps.{
  role_container, get_role, read_role, block_non_exportable_role,
}
use hcvault_mashery_api_auth.Handler.{Handler, handle_role_operation}
use hcvault_mashery_api_auth.Exchange.Keys.{
  RoleExportContainer, role_export_container, role_data_block_name,
}
use hcvault_mashery_api_auth.Exchange.Certificate.{read_recipient_certificate}
use hcvault_mashery_api_auth.Exchange.Settings.{
  DesiredRoleExport, parse_desired_role_export, export_of,
}

-- The value of a header that tells how much is granted.
unfoldable pub granted_uses_header : Env → RoleDataExchange → String
granted_uses_header env exp = elim exp.usage_term [
  | none ↦ "∞"
  | some t ↦
      if ltb_ℤ (pos 0) t.explicit_num_uses
      then "max " <> env.show_number t.explicit_num_uses <> " uses"
      else "∞"
]

-- `time.Duration(exp.UsageTerm.ExplicitTerm).String()`
unfoldable pub granted_term_header : Env → RoleDataExchange → String
granted_term_header env exp = elim exp.usage_term [
  | none ↦ "∞"
  | some t ↦ if ltb_ℤ (pos 0) t.explicit_term then env.show_duration t.explicit_term else "∞"
]

abbrev show_truth : Bool → String
show_truth true = "true"
show_truth false = "false"

-- The headers of the block; `now` is the time of the export.
unfoldable pub export_headers :
    (env : Env) → ℤ → RoleDataExchange → StoredRole → String → String → List (String × String)
unfolding granted_uses_header granted_term_header
export_headers env now exp role subject recipient =
    ("Date", env.show_time now)
    ∷ ("Term", granted_term_header env exp)
    ∷ ("Uses", granted_uses_header env exp)
    ∷ ("Recipient", subject)
    ∷ ("Recipient Role", recipient)
    ∷ ("Origin Role", role.name)
    ∷ ("V2 Capable", show_truth (is_v2_capable exp.role_data))
    ∷ ("V3 Capable", show_truth (is_v3_capable exp.role_data))
    ∷ ("Max QPS", env.show_number exp.role_data.max_qps)
    ∷ ("Forced Proxy Mode", show_truth exp.role_data.force_proxy_mode)
    ∷ []

-- The response, with a warning where the term that was asked for is negative.
abbrev export_response : DesiredRoleExport → String → Response
export_response settings pem_out = answer (record {
  body = field "pem" (text pem_out) end;
  lease = none;
  warnings =
      if ltb_ℤ settings.desired_term (pos 0) then ("explicit term is in the past", []) ∷ [] else [];
  headers = [];
})

module _ {env : Env} where
  unfoldable pub encrypt_export : DesiredRoleExport → Step env (RoleExportContainer env) (Unit {0})
  unfolding export_of export_headers
  encrypt_export settings = do
    role ← get_role
    now ← read_clock
    let exp = export_of now settings role
    h ← get_heap
    cert ← deref h.cert
    key ← deref cert.public_key
    b ← get_plugin
    tick ← next_tick
    dat ← lift (
        env.encrypt_oaep tick key (env.gzip_compress (json (encode_exchange exp))) b.cfg.oaep_label)
    date ← read_clock
    stop (
        export_response settings (
          env.pem_encode (record {
            block_type = role_data_block_name;
            pem_headers = export_headers env date exp role cert.subject h.recipient;
            bytes = dat;
          })))

  abbrev pub exported : Result DesiredRoleExport → Step env (RoleExportContainer env) (Unit {0})
  exported (bad err) = stop (error_response "invalid export configuration: %f" (arg_error err ∷ []))
  exported (good settings) = encrypt_export settings

  unfoldable pub render_encrypted_role_data : Step env (RoleExportContainer env) (Unit {0})
  unfolding parse_desired_role_export encrypt_export
  render_encrypted_role_data = do settings ← parse_desired_role_export; exported settings

  unfoldable pub role_export : Handler env
  unfolding handle_role_operation simple_chain
  role_export =
      handle_role_operation (record { role = none; cert = none; recipient = "" })
        (simple_chain (
          read_role true
          ∷ block_non_exportable_role
          ∷ read_recipient_certificate
          ∷ render_encrypted_role_data
          ∷ []))
