-- ===== src/Exchange/Import.antt =====
-- The import of a role: part of mashery/transformers_pki.go and mashery/path_role_impexp.go.
use hcvault_mashery_api_auth.Prelude.{
  String, Option, true, none, some, [], ◌∷◌, ◌==◌, if◌then◌else◌,
}
use hcvault_mashery_api_auth.Value.{
  null, end, new_error, external, Result, good, bad, Blob, document, json, error_response,
  arg_error,
}
use hcvault_mashery_api_auth.Exec.{pure, stop, lift, deref, ◌>>=◌}
use hcvault_mashery_api_auth.Role.{RoleDataExchange, import_role}
use hcvault_mashery_api_auth.Role.Json.{decode_exchange}
use hcvault_mashery_api_auth.Env.{Env, PemBlock}
use hcvault_mashery_api_auth.Request.{Step, get_plugin, assert_text}
use hcvault_mashery_api_auth.Request.Chain.{Transformer, simple_chain}
use hcvault_mashery_api_auth.RoleSteps.{
  RoleContainer, role_container, empty_container, get_role, set_role, read_role, save_role_keys,
  save_role_usage,
}
use hcvault_mashery_api_auth.Handler.{Handler, handle_role_operation}
use hcvault_mashery_api_auth.Exchange.Keys.{
  role_export_container, role_data_block_name, retrieve_private_key, get_private_key,
}

-- A block of role data in the PEM text of a request.
unfoldable pub retrieve_import_pem_block : Env → String → Result PemBlock
retrieve_import_pem_block env pem_str =
    if pem_str == ""
    then bad (new_error "empty PEM data received" [])
    else elim (env.pem_decode pem_str) [
      | none ↦ bad (new_error "submitted data does not contain a valid PEM block" [])
      | some blk ↦
          if blk.block_type == role_data_block_name
          then good blk
          else bad (new_error "incorrect PEM block" [])
    ]

-- `json.Unmarshal` into a zero `RoleDataExchange`; `null` leaves it as it is.
abbrev parse_exchange : Blob → Result RoleDataExchange
parse_exchange (json f) = elim (decode_exchange f) [
  | none ↦ bad (external "json")
  | some x ↦ good x
]
parse_exchange (document null) = elim (decode_exchange end) [
  | none ↦ bad (external "json")
  | some x ↦ good x
]
parse_exchange _ = bad (external "json")

-- `gzip.NewReader` gives no reader where it gives an error.
abbrev reader_of : {A : Type 0} → Result A → Option A
reader_of (good reader) = some reader
reader_of (bad err) = none

module _ {env : Env} where
  abbrev or_refuse : {A H : Type 0} → String → Result A → Step env H A
  or_refuse message (good a) = pure a
  or_refuse message (bad err) = stop (error_response message (arg_error err ∷ []))

  -- The error of `gzip.NewReader` is dropped, and a reader that is nil is read from.
  unfoldable pub gzip_decompress : Blob → Step env RoleContainer (Result Blob)
  gzip_decompress input = do
    gzreader ← deref (reader_of (env.gzip_new_reader input))
    pure (env.gzip_read_all gzreader)

  unfoldable pub import_exchange_data : PemBlock → Step env RoleContainer (Unit {0})
  unfolding get_private_key decode_exchange import_role gzip_decompress
  import_exchange_data blk = do
    role ← get_role
    pk ← lift (get_private_key env role)
    b ← get_plugin
    plain_text ←
        or_refuse "was unable to decrypt the Mashery role data (%s)"
          (env.decrypt_oaep pk blk.bytes b.cfg.oaep_label)
    decompressed ← gzip_decompress plain_text
    json_txt ← or_refuse "was unable to GZipDecompress Mashery role data (%s)" decompressed
    exp_role ← or_refuse "was unable to parse Mashery role data (%s)" (parse_exchange json_txt)
    set_role (import_role exp_role role)

  unfoldable pub import_chain : PemBlock → Transformer env RoleContainer
  unfolding simple_chain
  import_chain blk = simple_chain (
      read_role true
      ∷ retrieve_private_key
      ∷ import_exchange_data blk
      ∷ save_role_keys
      ∷ save_role_usage
      ∷ [])

  abbrev pub imported_block : Result PemBlock → Handler env
  imported_block (bad err) d body =
      stop (error_response "input does not contain a valid PEM block (%s)" (arg_error err ∷ []))
  imported_block (good blk) d body = handle_role_operation empty_container (import_chain blk) d body

  unfoldable pub path_role_import : Handler env
  unfolding handle_role_operation retrieve_import_pem_block import_chain
  path_role_import d body = do
    pem_str ← assert_text (d.get "pem")
    imported_block (retrieve_import_pem_block env pem_str) d body
