-- ===== src/System/Settings.antt =====
-- The handlers of the configuration, of exports and of the API keep the plugin coherent.
use hcvault_mashery_api_auth.Prelude.{String, refl, true, Option, none, [], ◌∷◌, arith}
use hcvault_mashery_api_auth.Value.{Value, Fields, Result, good, bad}
use hcvault_mashery_api_auth.Exec.{Exec, ◌>>=◌}
use hcvault_mashery_api_auth.Config.{BackendConfiguration}
use hcvault_mashery_api_auth.Env.{Env, PemBlock, V2Request}
use hcvault_mashery_api_auth.Plugin.{config_path}
use hcvault_mashery_api_auth.Request.{World, FieldData, assert_text}
use hcvault_mashery_api_auth.Request.Chain.{Transformer, simple_chain}
use hcvault_mashery_api_auth.Handler.{handle_operation_with_container}
use hcvault_mashery_api_auth.RoleSteps.{
  role_container, empty_container, read_role, block_usage_exceeding_limits,
  allow_only_v2_capable_role, decrease_remaining_usage_quota, save_role_keys, save_role_usage,
  block_non_exportable_role,
}
use hcvault_mashery_api_auth.Exchange.Certificate.{
  role_pem_read, render_role_certificate, read_recipient_certificate,
}
use hcvault_mashery_api_auth.Exchange.Keys.{retrieve_private_key, role_export_container}
use hcvault_mashery_api_auth.Exchange.Export.{role_export, render_encrypted_role_data}
use hcvault_mashery_api_auth.Exchange.Import.{
  import_exchange_data, path_role_import, import_chain, imported_block, retrieve_import_pem_block,
}
use hcvault_mashery_api_auth.Api.{api_container, empty_api_container}
use hcvault_mashery_api_auth.ConfigSteps.{
  PinningContainer, pinning_container, config_container, read_back_end_config,
  parse_back_end_configuration, save_back_end_config, accept_backend_configuration, select_pin,
  parse_certificate_pin_configuration, reset_certificate_pin, PinSlot, ConfigContainer, pin_chain,
  store_configuration, update_cert, reset_cert,
}
use hcvault_mashery_api_auth.ConfigSteps.Shown.{read_configuration}
use hcvault_mashery_api_auth.V2.{
  v2_container, execute_v2_call, execute_v2_call_to_raw_response, render_v2_response,
  render_v2_proxied_response, empty_v2_container, execute_v2_write, proxy_v2_request,
  proxy_v2_checks, verify_v2_operation_request, or_invalid,
}
use hcvault_mashery_api_auth.System.Keeps.{
  Keeps, KeepsWorld, KeepsWorld-of_plugin, bind-KeepsWorld, handle_role-KeepsWorld,
  handle_operation-KeepsWorld, simple_chain-Keeps, mapping_run-Keeps,
}
use hcvault_mashery_api_auth.System.Steps.{
  v2_response-Keeps, v2_proxied-Keeps, read_config-Keeps, save_config-Keeps, parse_config-Keeps,
  select_pin-Keeps, parse_pin-Keeps, reset_pin-Keeps,
}
use hcvault_mashery_api_auth.System.RoleSteps.{
  read_role-Keeps, save_keys-Keeps, save_usage-Keeps, exceeding-Keeps, decrease-Keeps,
  private_key-Keeps, non_exportable-Keeps, v2_capable-Keeps,
}
use hcvault_mashery_api_auth.System.Exchanges.{
  role_certificate-Keeps, recipient-Keeps, encrypted-Keeps, import-Keeps,
}
use hcvault_mashery_api_auth.System.Calls.{v2_raw-Keeps, v2_call-Keeps, accept-Keeps}
use hcvault_mashery_api_auth.System.Handlers.{role_chain-KeepsWorld}

module _ {env : Env} (d : FieldData) (body : Option Fields) where
  pub pem_read-KeepsWorld : KeepsWorld {env = env} (role_pem_read d body)
  unfolding role_pem_read
  pem_read-KeepsWorld =
      role_chain-KeepsWorld {env = env} empty_container
        (read_role true ∷ retrieve_private_key ∷ render_role_certificate ∷ []) d body
        (read_role-Keeps true, (private_key-Keeps, (role_certificate-Keeps, tt)))

  pub export-KeepsWorld : KeepsWorld {env = env} (role_export d body)
  unfolding role_export
  export-KeepsWorld =
      role_chain-KeepsWorld {env = env} (record { role = none; cert = none; recipient = "" })
        (read_role true
          ∷ block_non_exportable_role
          ∷ read_recipient_certificate
          ∷ render_encrypted_role_data
          ∷ [])
        d body
        (read_role-Keeps true, (non_exportable-Keeps, (recipient-Keeps, (encrypted-Keeps, tt))))

  block-KeepsWorld : (x : Result PemBlock) → KeepsWorld {env = env} (imported_block x d body)
  unfolding import_chain
  block-KeepsWorld (bad err) = KeepsWorld-of_plugin (imported_block (bad err) d body) (λ w. refl)
  block-KeepsWorld (good blk) =
      role_chain-KeepsWorld {env = env} empty_container
        (read_role true
          ∷ retrieve_private_key
          ∷ import_exchange_data blk
          ∷ save_role_keys
          ∷ save_role_usage
          ∷ [])
        d body
        (
          read_role-Keeps true,
          (private_key-Keeps, (import-Keeps blk, (save_keys-Keeps, (save_usage-Keeps, tt)))),
        )

  assert_text-KeepsWorld : (v : Value) → KeepsWorld {env = env} (assert_text v)
  assert_text-KeepsWorld v = KeepsWorld-of_plugin (assert_text v) (λ w. ground arith)

  pub import-KeepsWorld : KeepsWorld {env = env} (path_role_import d body)
  unfolding path_role_import
  import-KeepsWorld =
      bind-KeepsWorld (assert_text (d.get "pem")) _ (assert_text-KeepsWorld (d.get "pem"))
        (λ pem. block-KeepsWorld (retrieve_import_pem_block env pem))

  pub read_configuration-KeepsWorld : KeepsWorld {env = env} (read_configuration d body)
  unfolding read_configuration
  read_configuration-KeepsWorld = KeepsWorld-of_plugin (read_configuration d body) (λ w. refl)

  pub store_configuration-KeepsWorld :
      (zero_cfg : BackendConfiguration)
      → KeepsWorld {env = env} (store_configuration zero_cfg d body)
  unfolding store_configuration
  store_configuration-KeepsWorld zero_cfg = record {
    at = λ w h.
        (handle_operation-KeepsWorld {H = ConfigContainer} (record { cfg = zero_cfg })
            (config_path w.plugin)
            (simple_chain (
              read_back_end_config ∷ parse_back_end_configuration ∷ save_back_end_config
              ∷ accept_backend_configuration ∷ []))
            d body
            (simple_chain-Keeps {env = env} {H = ConfigContainer}
              (read_back_end_config ∷ parse_back_end_configuration ∷ save_back_end_config
                ∷ accept_backend_configuration ∷ [])
              (
                read_config-Keeps,
                (parse_config-Keeps, (save_config-Keeps, (accept-Keeps, tt))),
              ))).at
          w h;
  }

  pinned-KeepsWorld :
      (zero_cfg : BackendConfiguration) (slot : PinSlot) (path : String)
      (change : Transformer env PinningContainer)
      → Keeps change
      → KeepsWorld {env = env} (
          handle_operation_with_container
            (record { cfg = zero_cfg; pin = none })
            path
            (pin_chain slot change)
            d
            body)
  unfolding pin_chain
  pinned-KeepsWorld zero_cfg slot path change k =
      handle_operation-KeepsWorld _ path (pin_chain slot change) d body (
        simple_chain-Keeps {H = PinningContainer}
          (read_back_end_config
            ∷ select_pin slot
            ∷ change
            ∷ save_back_end_config
            ∷ accept_backend_configuration
            ∷ [])
          (
            read_config-Keeps,
            (select_pin-Keeps slot, (k, (save_config-Keeps, (accept-Keeps, tt)))),
          ))

  pub update_cert-KeepsWorld :
      (zero_cfg : BackendConfiguration) (slot : PinSlot)
      → KeepsWorld {env = env} (update_cert zero_cfg slot d body)
  unfolding update_cert
  update_cert-KeepsWorld zero_cfg slot = record {
    at = λ w h.
        (pinned-KeepsWorld zero_cfg slot (config_path w.plugin) parse_certificate_pin_configuration
            parse_pin-Keeps).at
          w h;
  }

  pub reset_cert-KeepsWorld :
      (zero_cfg : BackendConfiguration) (slot : PinSlot)
      → KeepsWorld {env = env} (reset_cert zero_cfg slot d body)
  unfolding reset_cert
  reset_cert-KeepsWorld zero_cfg slot = record {
    at = λ w h.
        (pinned-KeepsWorld zero_cfg slot (config_path w.plugin) reset_certificate_pin
            reset_pin-Keeps).at
          w h;
  }

  valid-KeepsWorld :
      {A : Type 0} (x : Result V2Request) (f : V2Request → Exec (World env) A)
      → ((q : V2Request) → KeepsWorld (f q))
      → KeepsWorld (or_invalid x >>= f)
  valid-KeepsWorld (good q) f k = record { at = λ w h. (k q).at w h }
  valid-KeepsWorld (bad err) f k = KeepsWorld-of_plugin _ (λ w. refl)

  verify-KeepsWorld : KeepsWorld {env = env} (verify_v2_operation_request d body)
  unfolding verify_v2_operation_request
  verify-KeepsWorld = KeepsWorld-of_plugin (verify_v2_operation_request d body) (λ w. ground arith)

  pub v2_write-KeepsWorld : KeepsWorld {env = env} (execute_v2_write d body)
  unfolding execute_v2_write
  v2_write-KeepsWorld =
      bind-KeepsWorld (verify_v2_operation_request d body) _ verify-KeepsWorld (λ x.
        valid-KeepsWorld x _ (λ q.
          role_chain-KeepsWorld {env = env} empty_v2_container
            (read_role true
              ∷ block_usage_exceeding_limits
              ∷ allow_only_v2_capable_role
              ∷ decrease_remaining_usage_quota
              ∷ execute_v2_call q
              ∷ render_v2_response
              ∷ [])
            d body
            (
              read_role-Keeps true,
              (
                exceeding-Keeps,
                (v2_capable-Keeps, (decrease-Keeps, (v2_call-Keeps q, (v2_response-Keeps, tt)))),
              ),
            )))

  pub v2_proxy-KeepsWorld : KeepsWorld {env = env} (proxy_v2_request d body)
  unfolding proxy_v2_request proxy_v2_checks
  v2_proxy-KeepsWorld =
      bind-KeepsWorld (verify_v2_operation_request d body) _ verify-KeepsWorld (λ x.
        valid-KeepsWorld x _ (λ q. handle_role-KeepsWorld empty_api_container _ d body (
          mapping_run-Keeps (simple_chain proxy_v2_checks) (λ _. empty_container)
            (λ from to. record to { role = from.role })
            (execute_v2_call_to_raw_response q ∷ render_v2_proxied_response ∷ [])
            (simple_chain-Keeps {env = env} proxy_v2_checks
              (read_role-Keeps true, (v2_capable-Keeps, (exceeding-Keeps, (decrease-Keeps, tt)))))
            (v2_raw-Keeps q, (v2_proxied-Keeps, tt)))))
