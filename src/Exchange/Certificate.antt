-- ===== src/Exchange/Certificate.antt =====
-- The certificate of a recipient, made and read: part of mashery/transformers_pki.go.
use hcvault_mashery_api_auth.Prelude.{
  ◌*◌, ℤ, pos, ltb_ℤ, String, true, Option, none, some, [], ◌∷◌, ◌==◌, if◌then◌else◌,
}
use hcvault_mashery_api_auth.Value.{wrapped, Result, good, bad, Blob, error_response, arg_error}
use hcvault_mashery_api_auth.Exec.{stop, throw, lift, ◌>>=◌, ◌>>◌}
use hcvault_mashery_api_auth.Time.{add64}
use hcvault_mashery_api_auth.Env.{Env, PemBlock, Certificate}
use hcvault_mashery_api_auth.Plugin.{find}
use hcvault_mashery_api_auth.Request.{Step, get_heap, put_heap, get_fields, read_clock, assert_text}
use hcvault_mashery_api_auth.Request.Chain.{simple_chain}
use hcvault_mashery_api_auth.RoleSteps.{
  RoleContainer, role_container, empty_container, get_role, text_or, read_role,
}
use hcvault_mashery_api_auth.Handler.{Handler, handle_role_operation}
use hcvault_mashery_api_auth.Exchange.Keys.{
  RoleExportContainer, role_export_container, pem_response, recipient_block_name,
  retrieve_private_key, get_private_key,
}

-- The block of `createSelfSignedCertificatePEMBlock`.
abbrev recipient_block : Env → String → ℤ → String → Blob → PemBlock
recipient_block env cn cert_to header_name der = record {
  block_type = recipient_block_name;
  pem_headers =
      ("NotAfter", env.show_time cert_to) ∷ ("Common-Name", cn) ∷ ("Role", header_name) ∷ [];
  bytes = der;
}

abbrev hours_4 : ℤ
hours_4 = pos (4 * 3600 * 1000000000)

abbrev text_or_empty : Option String → String
text_or_empty none = ""
text_or_empty (some s) = s

abbrev recipient_name : PemBlock → String
recipient_name blk =
    let name = text_or_empty (find "Role" blk.pem_headers) in
    if name == "" then "---not specified---" else name

module _ {env : Env} where
  abbrev signed : String → ℤ → String → Result Blob → Step env RoleContainer (Unit {0})
  signed cn cert_to role_name (bad err) = throw (
      wrapped "cannot generate x509 certificate ({{err}})"
        (wrapped "cannot generate x509 certificate ({{err}})" err))
  signed cn cert_to role_name (good der) =
      stop (pem_response (env.pem_encode (recipient_block env cn cert_to role_name der)))

  unfoldable pub render_role_certificate : Step env RoleContainer (Unit {0})
  unfolding get_private_key
  render_role_certificate = do
    d ← get_fields
    cn ← text_or (d.get_ok "cn") "Bearer"
    cert_from ← read_clock
    later ← read_clock
    let cert_to = add64 later hours_4
    role ← get_role
    pk ← lift (get_private_key env role)
    signed cn cert_to role.name (env.create_certificate cn cert_from cert_to pk)

  abbrev refuse : String → Step env (RoleExportContainer env) (Unit {0})
  refuse message = stop (error_response message [])

  -- The certificate of a recipient, at the clock's time.
  abbrev accept_certificate :
      ℤ → Result (Certificate env.PublicKey) → Step env (RoleExportContainer env) (Unit {0})
  accept_certificate now (bad err) =
      stop (error_response "received unparseable certificate: %s" (arg_error err ∷ []))
  accept_certificate now (good cert) =
      if ltb_ℤ now cert.not_before
      then refuse "supplied certificate is not yet valid"
      else if ltb_ℤ cert.not_after now
      then refuse "supplied certificate has already expired"
      else do h ← get_heap; put_heap (record h { cert = some cert })

  abbrev accept_recipient : PemBlock → Step env (RoleExportContainer env) (Unit {0})
  accept_recipient blk = do
    h ← get_heap
    put_heap (record h { recipient = recipient_name blk })
    now ← read_clock
    accept_certificate now (env.parse_certificate blk.bytes)

  abbrev accept_block : Option PemBlock → Step env (RoleExportContainer env) (Unit {0})
  accept_block none = refuse "supplied PEM data bears no PEM block"
  accept_block (some blk) =
      if blk.block_type == recipient_block_name
      then accept_recipient blk
      else refuse "input does not contain credentials recipient block"

  unfoldable pub read_recipient_certificate : Step env (RoleExportContainer env) (Unit {0})
  read_recipient_certificate = do
    d ← get_fields
    raw_pem ← assert_text (d.get "pem")
    if raw_pem == ""
        then refuse "no PEM-encoded data received"
        else accept_block (env.pem_decode raw_pem)

  unfoldable pub role_pem_read : Handler env
  unfolding handle_role_operation simple_chain
  role_pem_read =
      handle_role_operation empty_container
        (simple_chain (read_role true ∷ retrieve_private_key ∷ render_role_certificate ∷ []))
