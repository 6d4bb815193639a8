-- ===== src/System/Steps.antt =====
-- The steps that leave the plugin as it was.
use hcvault_mashery_api_auth.Prelude.{refl, Option, none, some, List, [], map, arith, length}
use hcvault_mashery_api_auth.Value.{Err, Response, error_response, new_error, arg_error}
use hcvault_mashery_api_auth.Exec.{Exit, ok, respond, fail, panic, throw}
use hcvault_mashery_api_auth.Env.{Env}
use hcvault_mashery_api_auth.Request.{Req, Step, read_path, write_path, read_own, write_own}
use hcvault_mashery_api_auth.RoleSteps.{role_container}
use hcvault_mashery_api_auth.Token.{v3_token_container, rehydrate_v3_access_token}
use hcvault_mashery_api_auth.Grant.{
  GrantRequest, v2_signature_container, retrieve_v2_signature, select_v2_rendering_func,
  select_v3_rendering_func,
}
use hcvault_mashery_api_auth.Api.{bounce_error_codes}
use hcvault_mashery_api_auth.Api.Render.{
  render_v3_list_response, render_v3_array_of_objects, render_v3_proxied_response,
  render_v3_single_object_response, render_v3_object_count_response, render_v3_response_to_empty,
}
use hcvault_mashery_api_auth.V2.{render_v2_proxied_response, render_v2_response}
use hcvault_mashery_api_auth.ConfigSteps.{
  ConfigContext, Draft, put_pin, first_error_args, parse_pin_fields, pin_at, parsed,
  parse_config_fields, PinningContainer, pinning_container, read_back_end_config,
  save_back_end_config, parse_back_end_configuration, PinSlot, select_pin,
  parse_certificate_pin_configuration, reset_certificate_pin,
}
use hcvault_mashery_api_auth.Exchange.Keys.{role_export_container}
use hcvault_mashery_api_auth.Plugin.Cache.{IsCoherent}
use hcvault_mashery_api_auth.System.Keeps.{Keeps, Keeps-of_plugin}

module _ {env : Env} {H : Type 0} ⦃cc : ConfigContext H⦄ where
  parsed-Keeps :
      {A : Type 0} (put : A → H → H) (refusal : List Err → Response) (x : Exit (Unit {0}) × Draft A)
      → Keeps {env = env} {H = H} (parsed put refusal x)
  parsed-Keeps put refusal (ok u, dr) =
      Keeps-of_plugin (parsed put refusal (ok u, dr)) (λ r. ground arith)
  parsed-Keeps put refusal (respond lr, dr) =
      Keeps-of_plugin (parsed put refusal (respond lr, dr)) (λ r. refl)
  parsed-Keeps put refusal (fail err, dr) =
      Keeps-of_plugin (parsed put refusal (fail err, dr)) (λ r. refl)
  parsed-Keeps put refusal (panic, dr) =
      Keeps-of_plugin (parsed put refusal (panic, dr)) (λ r. refl)

module _ {env : Env} where
  pub rehydrate-Keeps : Keeps {env = env} rehydrate_v3_access_token
  unfolding rehydrate_v3_access_token
  rehydrate-Keeps = Keeps-of_plugin rehydrate_v3_access_token (λ r. ground arith)

  pub signature-Keeps : Keeps {env = env} retrieve_v2_signature
  unfolding retrieve_v2_signature
  signature-Keeps = Keeps-of_plugin retrieve_v2_signature (λ r. ground arith)

  pub v2_rendering-Keeps : (g : GrantRequest) → Keeps {env = env} (select_v2_rendering_func g)
  unfolding select_v2_rendering_func
  v2_rendering-Keeps g = Keeps-of_plugin (select_v2_rendering_func g) (λ r. ground arith)

  pub v3_rendering-Keeps : (g : GrantRequest) → Keeps {env = env} (select_v3_rendering_func g)
  unfolding select_v3_rendering_func
  v3_rendering-Keeps g = Keeps-of_plugin (select_v3_rendering_func g) (λ r. ground arith)

  pub bounce-Keeps : Keeps {env = env} bounce_error_codes
  unfolding bounce_error_codes
  bounce-Keeps = Keeps-of_plugin bounce_error_codes (λ r. ground arith)

  pub list_response-Keeps : Keeps {env = env} render_v3_list_response
  unfolding render_v3_list_response
  list_response-Keeps = Keeps-of_plugin render_v3_list_response (λ r. ground arith)

  pub array-Keeps : Keeps {env = env} render_v3_array_of_objects
  unfolding render_v3_array_of_objects
  array-Keeps = Keeps-of_plugin render_v3_array_of_objects (λ r. ground arith)

  pub proxied-Keeps : Keeps {env = env} render_v3_proxied_response
  unfolding render_v3_proxied_response
  proxied-Keeps = Keeps-of_plugin render_v3_proxied_response (λ r. ground arith)

  pub single-Keeps : Keeps {env = env} render_v3_single_object_response
  unfolding render_v3_single_object_response
  single-Keeps = Keeps-of_plugin render_v3_single_object_response (λ r. ground arith)

  pub count-Keeps : Keeps {env = env} render_v3_object_count_response
  unfolding render_v3_object_count_response
  count-Keeps = Keeps-of_plugin render_v3_object_count_response (λ r. ground arith)

  pub empty-Keeps : Keeps {env = env} render_v3_response_to_empty
  unfolding render_v3_response_to_empty
  empty-Keeps = Keeps-of_plugin render_v3_response_to_empty (λ r. ground arith)

  pub v2_proxied-Keeps : Keeps {env = env} render_v2_proxied_response
  unfolding render_v2_proxied_response
  v2_proxied-Keeps = Keeps-of_plugin render_v2_proxied_response (λ r. ground arith)

  pub v2_response-Keeps : Keeps {env = env} render_v2_response
  unfolding render_v2_response
  v2_response-Keeps = Keeps-of_plugin render_v2_response (λ r. ground arith)

  pub select_pin-Keeps : (slot : PinSlot) → Keeps {env = env} (select_pin slot)
  unfolding select_pin
  select_pin-Keeps slot = Keeps-of_plugin (select_pin slot) (λ r. ground arith)

  pub reset_pin-Keeps : Keeps {env = env} reset_certificate_pin
  unfolding reset_certificate_pin
  reset_pin-Keeps = Keeps-of_plugin reset_certificate_pin (λ r. ground arith)

  pub parse_pin-Keeps : Keeps {env = env} parse_certificate_pin_configuration
  unfolding parse_certificate_pin_configuration
  parse_pin-Keeps = record { at = λ r h. split r h r.heap.pin }
    where
      pin_parsed : Req env PinningContainer → Option PinSlot → Step env PinningContainer (Unit {0})
      pin_parsed r o = elim o [
        | none ↦ throw (new_error "tls pin hasn't been initialized" [])
        | some slot ↦
            parsed (put_pin slot)
              (λ es.
                error_response "invalid request due to %d parse errors, first error %s"
                  (first_error_args es (length es)))
              (parse_pin_fields env r.fields
                (record { target = pin_at slot r.heap.cfg; errors = [] }))
      ]

      split :
          (r : Req env PinningContainer)
          → IsCoherent env r.world.plugin
          → (o : Option PinSlot) → IsCoherent env (pin_parsed r o r).1.world.plugin
      split r h none = h
      split r h (some slot) =
          (parsed-Keeps {env = env} (put_pin slot)
              (λ es.
                error_response "invalid request due to %d parse errors, first error %s"
                  (first_error_args es (length es)))
              (parse_pin_fields env r.fields
                (record { target = pin_at slot r.heap.cfg; errors = [] }))).at
            r h

module _ {env : Env} {H : Type 0} ⦃cc : ConfigContext H⦄ where
  pub read_config-Keeps : Keeps {env = env} {H = H} read_back_end_config
  unfolding read_back_end_config read_own read_path
  read_config-Keeps = Keeps-of_plugin read_back_end_config (λ r. ground arith)

  pub save_config-Keeps : Keeps {env = env} {H = H} save_back_end_config
  unfolding save_back_end_config write_own write_path
  save_config-Keeps = Keeps-of_plugin save_back_end_config (λ r. ground arith)

  pub parse_config-Keeps : Keeps {env = env} {H = H} parse_back_end_configuration
  unfolding parse_back_end_configuration
  parse_config-Keeps = record {
    at = λ r h.
        (parsed-Keeps {env = env} cc.carry_cfg
            (λ es. error_response "incorrect input: %s" (map arg_error es))
            (parse_config_fields env r.fields
              (record { target = cc.get_cfg r.heap; errors = [] }))).at
          r h;
  }
