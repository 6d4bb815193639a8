-- ===== src/ConfigSteps/Stored.antt =====
-- The configuration that the plugin runs with, and the one that is stored.
use hcvault_mashery_api_auth.Prelude.{
  String, ◌≡◌, refl, sym, ap, ◌∙◌, subst, Option, none, some, List, [], ◌∷◌, ◌++◌, map, arith,
  length,
}
use hcvault_mashery_api_auth.Value.{
  new_error, arg_error, Fields, Err, good, json, Response, error_response,
}
use hcvault_mashery_api_auth.Exec.{Exit, ok, respond, fail, panic, pure, stop, throw}
use hcvault_mashery_api_auth.Config.{BackendConfiguration}
use hcvault_mashery_api_auth.Env.{Env, StorageLaws}
use hcvault_mashery_api_auth.Plugin.{config_path}
use hcvault_mashery_api_auth.Request.{FieldData, Req, World, Step, persist, read_own, write_own}
use hcvault_mashery_api_auth.Request.Chain.{Transformer, simple_chain}
use hcvault_mashery_api_auth.Request.Chain.Laws.{Each, simple_chain-eq-ok}
use hcvault_mashery_api_auth.Request.Stored.{get-persist}
use hcvault_mashery_api_auth.Handler.{start_request, handle_operation_with_container}
use hcvault_mashery_api_auth.ConfigSteps.{
  parse_pin_fields, pin_at, put_pin, first_error_args, ConfigContext, config_container,
  PinningContainer, pinning_container, PinSlot, Draft, encode_config, read_back_end_config,
  save_back_end_config, accept_backend_configuration, parse_back_end_configuration, parsed,
  parse_config_fields, store_configuration, select_pin, parse_certificate_pin_configuration,
  reset_certificate_pin, pin_chain, update_cert, reset_cert,
}

module _ {env : Env} where
  -- The configuration that the plugin has in this world is the one that is stored.
  abbrev pub IsStoredAt : String → World env → Type 0
  IsStoredAt path w =
      env.storage_get path w.store ≡ good (some (json (encode_config env w.plugin.cfg)))

module _ {env : Env} {H : Type 0} where
  -- A step after which the request is still at its path.
  abbrev pub KeepsPath : Transformer env H → Type 0
  KeepsPath m = (r r' : Req env H) → m r ≡ (ok tt, r') → r'.storage_path ≡ r.storage_path

module _ {env : Env} {H : Type 0} ⦃cc : ConfigContext H⦄ where
  ended : (r q : Req env H) → simple_chain [] r ≡ (ok tt, q) → r ≡ q
  unfolding simple_chain
  ended r q e = ap (λ (x : Exit (Unit {0}) × Req env H). x.1) e

  save-eq-ok :
      (r r' : Req env H)
      → save_back_end_config r ≡ (ok tt, r')
      → (persist env r.storage_path (encode_config env (cc.get_cfg r.heap)) r.world.store
          ≡ (none, r'.world.store))
        × (r'.heap ≡ r.heap)
        × (r'.world.plugin ≡ r.world.plugin)
  unfolding save_back_end_config write_own
  save-eq-ok r r' e = ground arith

  accept-eq-ok :
      (r r' : Req env H)
      → accept_backend_configuration r ≡ (ok tt, r')
      → (r'.world.store ≡ r.world.store) × (r'.world.plugin.cfg ≡ cc.get_cfg r.heap)
  unfolding accept_backend_configuration
  accept-eq-ok r r' e = ground arith

  read-KeepsPath : KeepsPath {env = env} {H = H} read_back_end_config
  unfolding read_back_end_config read_own
  read-KeepsPath r r' e = ground arith

  parsed-KeepsPath :
      {A : Type 0} (put : A → H → H) (refusal : List Err → Response) (x : Exit (Unit {0}) × Draft A)
      → KeepsPath {env = env} (parsed put refusal x)
  parsed-KeepsPath put refusal (ok _, dr) r r' e = split dr.errors e
    where
      split :
          (es : List Err)
          → (elim es as (λ x. Step env H (Unit {0})) [
            | [] ↦ pure tt
            | e' ∷ es' ↦ stop (refusal (e' ∷ es'))
          ])
              (record r { heap = put dr.target r.heap })
            ≡ (ok tt, r')
          → r'.storage_path ≡ r.storage_path
      split [] q = ground arith
      split (e' ∷ es') q = absurd (ground arith)
  parsed-KeepsPath put refusal (respond lr, dr) r r' e = absurd (ground arith)
  parsed-KeepsPath put refusal (fail err, dr) r r' e = absurd (ground arith)
  parsed-KeepsPath put refusal (panic, dr) r r' e = absurd (ground arith)

  parse-KeepsPath : KeepsPath {env = env} {H = H} parse_back_end_configuration
  unfolding parse_back_end_configuration
  parse-KeepsPath r r' e =
      parsed-KeepsPath cc.carry_cfg (λ es. error_response "incorrect input: %s" (map arg_error es))
        (parse_config_fields env r.fields (record { target = cc.get_cfg r.heap; errors = [] })) r r'
        e

  saved :
      (laws : StorageLaws env) (before : List (Transformer env H)) (r r' : Req env H)
      → Each (λ f. KeepsPath f) before
      → simple_chain (before ++ save_back_end_config ∷ accept_backend_configuration ∷ []) r
        ≡ (ok tt, r')
      → IsStoredAt r.storage_path r'.world
  saved laws [] r r' h e =
      let (r1, e1, rest1) = simple_chain-eq-ok save_back_end_config _ r r' e in
      let (r2, e2, rest2) = simple_chain-eq-ok accept_backend_configuration _ r1 r' rest1 in
      let (written, heap, _) = save-eq-ok r r1 e1 in
      let (kept, cfg) = accept-eq-ok r1 r2 e2 in
      subst (λ q. IsStoredAt r.storage_path q.world) (ended r2 r' rest2)
        (subst
          (λ s.
            env.storage_get r.storage_path s
            ≡ good (some (json (encode_config env r2.world.plugin.cfg))))
          (sym kept)
          (get-persist laws r.storage_path (encode_config env (cc.get_cfg r.heap)) r.world.store
              r1.world.store written
            ∙ ap (λ c. good (some (json (encode_config env c))))
                (sym (cfg ∙ ap (λ x. cc.get_cfg x) heap))))
  saved laws (f ∷ fs) r r' (h, hs) e =
      let (r1, e1, rest) = simple_chain-eq-ok f _ r r' e in
      subst (λ p. IsStoredAt p r'.world) (h r r1 e1) (saved laws fs r1 r' hs rest)

  handled :
      (laws : StorageLaws env) (before : List (Transformer env H)) (c : H) (path : String)
      (d : FieldData) (body : Option Fields) (w w' : World env)
      → Each (λ f. KeepsPath f) before
      → handle_operation_with_container c path
          (simple_chain (before ++ save_back_end_config ∷ accept_backend_configuration ∷ []))
          d
          body
          w
        ≡ (ok tt, w')
      → IsStoredAt path w'
  unfolding handle_operation_with_container
  handled laws before c path d body w w' h e =
      split
        (simple_chain (before ++ save_back_end_config ∷ accept_backend_configuration ∷ [])
          (start_request c path d body w))
        refl e
    where
      split :
          (x : Exit (Unit {0}) × Req env H)
          → simple_chain
              (before ++ save_back_end_config ∷ accept_backend_configuration ∷ [])
              (start_request c path d body w)
            ≡ x
          → ◌≡◌ {A = Exit (Unit {0}) × World env} (x.0, x.1.world) (ok tt, w')
          → IsStoredAt path w'
      split (ok _, r) ran q =
          subst (λ u. IsStoredAt path u) (ap (λ (y : Exit (Unit {0}) × World env). y.1) q)
            (saved laws before (start_request c path d body w) r h ran)
      split (respond lr, r) ran q = absurd (ground arith)
      split (fail err, r) ran q = absurd (ground arith)
      split (panic, r) ran q = absurd (ground arith)

module _ {env : Env} (laws : StorageLaws env) where
  -- With a storage that does what it documents: after a write of the configuration that goes through,
  -- the storage has the JSON form of exactly the configuration that the plugin runs with.
  pub store_configuration-IsStoredAt :
      (zero_cfg : BackendConfiguration) (d : FieldData) (body : Option Fields) (w w' : World env)
      → store_configuration zero_cfg d body w ≡ (ok tt, w')
      → IsStoredAt (config_path w.plugin) w'
  unfolding store_configuration
  store_configuration-IsStoredAt zero_cfg d body w w' e =
      handled laws (read_back_end_config ∷ parse_back_end_configuration ∷ [])
        (record { cfg = zero_cfg }) (config_path w.plugin) d body w w'
        (read-KeepsPath, (parse-KeepsPath, tt)) e

  parse_pin-KeepsPath : KeepsPath {env = env} parse_certificate_pin_configuration
  unfolding parse_certificate_pin_configuration
  parse_pin-KeepsPath r r' e = split r.heap.pin e
    where
      split :
          (o : Option PinSlot)
          → (elim o as (λ x. Step env PinningContainer (Unit {0})) [
            | none ↦ throw (new_error "tls pin hasn't been initialized" [])
            | some slot ↦
                parsed
                  (put_pin slot)
                  (λ es.
                    error_response "invalid request due to %d parse errors, first error %s"
                      (first_error_args es (length es)))
                  (parse_pin_fields env r.fields
                    (record { target = pin_at slot r.heap.cfg; errors = [] }))
          ])
              r
            ≡ (ok tt, r')
          → r'.storage_path ≡ r.storage_path
      split none q = absurd (ground arith)
      split (some slot) q =
          parsed-KeepsPath (put_pin slot)
            (λ es.
              error_response "invalid request due to %d parse errors, first error %s"
                (first_error_args es (length es)))
            (parse_pin_fields env r.fields
              (record { target = pin_at slot r.heap.cfg; errors = [] }))
            r r' q

  reset_pin-KeepsPath : KeepsPath {env = env} reset_certificate_pin
  unfolding reset_certificate_pin
  reset_pin-KeepsPath r r' e = ground arith

  pin_chain-IsStoredAt :
      (change : Transformer env PinningContainer) (zero_cfg : BackendConfiguration) (slot : PinSlot)
      (d : FieldData) (body : Option Fields) (w w' : World env)
      → KeepsPath change
      → handle_operation_with_container
          (record { cfg = zero_cfg; pin = none })
          (config_path w.plugin)
          (pin_chain slot change)
          d
          body
          w
        ≡ (ok tt, w')
      → IsStoredAt (config_path w.plugin) w'
  unfolding pin_chain select_pin
  pin_chain-IsStoredAt change zero_cfg slot d body w w' h e =
      handled laws (read_back_end_config ∷ select_pin slot ∷ change ∷ [])
        (record { cfg = zero_cfg; pin = none }) (config_path w.plugin) d body w w'
        (read-KeepsPath, ((λ r r' q. ground arith), (h, tt))) e

  -- With a storage that does what it documents: after a pin was updated, the storage has the JSON form
  -- of exactly the configuration that the plugin runs with.
  pub update_cert-IsStoredAt :
      (zero_cfg : BackendConfiguration) (slot : PinSlot) (d : FieldData) (body : Option Fields)
      (w w' : World env)
      → update_cert zero_cfg slot d body w ≡ (ok tt, w')
      → IsStoredAt (config_path w.plugin) w'
  unfolding update_cert
  update_cert-IsStoredAt zero_cfg slot d body w w' e =
      pin_chain-IsStoredAt parse_certificate_pin_configuration zero_cfg slot d body w w'
        parse_pin-KeepsPath e

  -- With a storage that does what it documents: after a pin was reset, the storage has the JSON form of
  -- exactly the configuration that the plugin runs with.
  pub reset_cert-IsStoredAt :
      (zero_cfg : BackendConfiguration) (slot : PinSlot) (d : FieldData) (body : Option Fields)
      (w w' : World env)
      → reset_cert zero_cfg slot d body w ≡ (ok tt, w')
      → IsStoredAt (config_path w.plugin) w'
  unfolding reset_cert
  reset_cert-IsStoredAt zero_cfg slot d body w w' e =
      pin_chain-IsStoredAt reset_certificate_pin zero_cfg slot d body w w' reset_pin-KeepsPath e
