-- ===== src/ConfigSteps.antt =====
-- The configuration paths: mashery/path_config.go, mashery/transformers_backendConfig_rw.go,
-- mashery/transformers_backendConfig_parser.go and the configuration half of mashery/plugin.go.
pub mod Stored
pub mod Mounted
pub mod Shown
use hcvault_mashery_api_auth.Prelude.{
  ℕ, suc, ℤ, pos, String, ◌≡◌, refl, Bool, true, false, Option, none, some, List, [], ◌∷◌, ◌++◌,
  map, ◌==◌, if◌then◌else◌, length,
}
use hcvault_mashery_api_auth.Prelude.{trunc_div}
use hcvault_mashery_api_auth.Value.{
  Value, null, text, truth, number, octets, Fields, end, field, lookup, Err, new_error, wrapped,
  Result, good, bad, error_response, Response, Arg, arg_error, arg_number,
}
use hcvault_mashery_api_auth.Exec.{
  Exit, ok, respond, fail, panic, Exec, pure, stop, throw, crash, ◌>>=◌, ◌>>◌,
}
use hcvault_mashery_api_auth.Time.{millisecond}
use hcvault_mashery_api_auth.Role.Json.{as_text, as_number, as_truth}
use hcvault_mashery_api_auth.Config.{
  BackendConfiguration, CertPin, empty_pin, tls_pinning_default, tls_pinning_system,
  tls_pinning_custom, tls_pinning_insecure,
}
use hcvault_mashery_api_auth.Env.{Env}
use hcvault_mashery_api_auth.Plugin.{
  accept_configuration_update, default_backend_configuration, config_path,
}
use hcvault_mashery_api_auth.Request.{
  FieldData, World, Step, get_heap, put_heap, get_plugin, put_plugin, get_fields, next_tick,
  read_own, write_own, read, persist,
}
use hcvault_mashery_api_auth.Request.Chain.{Transformer, simple_chain}
use hcvault_mashery_api_auth.Handler.{Handler, handle_operation_with_container}

-- The interface `BackendConfigurationContext` of a heap.
pub record ConfigContext (H : Type 0) : Type 0 where
  pub get_cfg : H → BackendConfiguration
  pub carry_cfg : BackendConfiguration → H → H
  pub get-carry : (c : BackendConfiguration) (h : H) → get_cfg (carry_cfg c h) ≡ c

-- `BackendConfigurationContainer`
pub record ConfigContainer : Type 0 where
  pub cfg : BackendConfiguration

-- The pin within a configuration that a path is about.
pub data PinSlot : Type 0 where
  leaf issuer root : PinSlot

-- `TLSPinningContainer`. Its pin is a pointer into its own configuration: the slot that it points
-- at, or `none` for nil.
pub record PinningContainer : Type 0 where
  pub cfg : BackendConfiguration
  pub pin : Option PinSlot

instance abbrev pub config_container : ConfigContext ConfigContainer
config_container = record {
  get_cfg = λ h. h.cfg;
  carry_cfg = λ c h. record h { cfg = c };
  get-carry = λ c h. refl;
}

instance abbrev pub pinning_container : ConfigContext PinningContainer
pinning_container = record {
  get_cfg = λ h. h.cfg;
  carry_cfg = λ c h. record h { cfg = c };
  get-carry = λ c h. refl;
}

unfoldable pub pin_at : PinSlot → BackendConfiguration → CertPin
pin_at leaf cfg = cfg.leaf_cert_pin
pin_at issuer cfg = cfg.issuer_cert_pin
pin_at root cfg = cfg.root_cert_pin

unfoldable pub set_pin : PinSlot → CertPin → BackendConfiguration → BackendConfiguration
set_pin leaf p cfg = record cfg { leaf_cert_pin = p }
set_pin issuer p cfg = record cfg { issuer_cert_pin = p }
set_pin root p cfg = record cfg { root_cert_pin = p }

infixl 5 ◌>>?◌
abbrev ◌>>?◌ : {A B : Type 0} → Option A → (A → Option B) → Option B
none >>? f = none
some a >>? f = f a

abbrev as_octets : String → Option Value → Option String
as_octets default none = some default
as_octets default (some null) = some default
as_octets default (some (octets s)) = some s
as_octets default (some _) = none

abbrev as_pin : Env → CertPin → Option Value → Option CertPin
as_pin env default none = some default
as_pin env default (some v) = env.pin_from_json v default

-- The JSON form of a configuration, by the struct tags of mashery/data_structs.go.
unfoldable pub encode_config : Env → BackendConfiguration → Fields
encode_config env c = field "_oaep_label" (octets c.oaep_label) (
    field "_proxy_s" (text c.proxy_server) (
      field "_proxy_t" (text c.proxy_server_auth) (
        field "_proxy_c" (text c.proxy_server_creds) (
          field "_tls_certs" (text c.tls_certs) (
            field "_cli_rw" (truth c.cli_write_enabled) (
              field "_net_l" (number c.network_latency) (
                field "_tls_pinning" (number c.tls_pinning) (
                  field "_leaf_pin" (env.pin_to_json c.leaf_cert_pin) (
                    field "_int_pin" (env.pin_to_json c.issuer_cert_pin)
                      (field "_root_pin" (env.pin_to_json c.root_cert_pin) end))))))))))

unfoldable pub decode_config : Env → Fields → BackendConfiguration → Option BackendConfiguration
decode_config env f r = as_octets r.oaep_label (lookup "_oaep_label" f) >>? λ oaep_label.
    as_text r.proxy_server (lookup "_proxy_s" f) >>? λ proxy_server.
    as_text r.proxy_server_auth (lookup "_proxy_t" f) >>? λ proxy_server_auth.
    as_text r.proxy_server_creds (lookup "_proxy_c" f) >>? λ proxy_server_creds.
    as_text r.tls_certs (lookup "_tls_certs" f) >>? λ tls_certs.
    as_truth r.cli_write_enabled (lookup "_cli_rw" f) >>? λ cli_write_enabled.
    as_number r.network_latency (lookup "_net_l" f) >>? λ network_latency.
    as_number r.tls_pinning (lookup "_tls_pinning" f) >>? λ tls_pinning.
    as_pin env r.leaf_cert_pin (lookup "_leaf_pin" f) >>? λ leaf_cert_pin.
    as_pin env r.issuer_cert_pin (lookup "_int_pin" f) >>? λ issuer_cert_pin.
    as_pin env r.root_cert_pin (lookup "_root_pin" f) >>? λ root_cert_pin. some (record {
      oaep_label = oaep_label;
      proxy_server = proxy_server;
      proxy_server_auth = proxy_server_auth;
      proxy_server_creds = proxy_server_creds;
      tls_certs = tls_certs;
      cli_write_enabled = cli_write_enabled;
      network_latency = network_latency;
      tls_pinning = tls_pinning;
      leaf_cert_pin = leaf_cert_pin;
      issuer_cert_pin = issuer_cert_pin;
      root_cert_pin = root_cert_pin;
    })

-- What a parser fills: a target, and the errors so far, the first one first.
pub record Draft (A : Type 0) : Type 0 where
  pub target : A
  pub errors : List Err

module _ {A : Type 0} where
  abbrev pub edit : (A → A) → Exec (Draft A) (Unit {0})
  edit f dr = (ok tt, record dr { target = f dr.target })

  abbrev pub report : Err → Exec (Draft A) (Unit {0})
  report e dr = (ok tt, record dr { errors = dr.errors ++ e ∷ [] })

  -- `copyStringFieldIfDefined`: a text that is not empty is copied.
  abbrev pub copy_text : Option Value → (String → A → A) → Exec (Draft A) (Unit {0})
  copy_text (some (text s)) set' = if s == "" then pure tt else edit (set' s)
  copy_text _ set' = pure tt

  -- `copyBooleanFieldIfDefined`
  abbrev pub copy_truth : Option Value → (Bool → A → A) → Exec (Draft A) (Unit {0})
  copy_truth (some (truth b)) set' = edit (set' b)
  copy_truth _ set' = pure tt

  -- `if v, ok := d.GetOk(field); ok { ... v.(string) ... }`
  abbrev pub with_text :
      Option Value → (String → Exec (Draft A) (Unit {0})) → Exec (Draft A) (Unit {0})
  with_text none k = pure tt
  with_text (some (text s)) k = k s
  with_text (some _) k = crash

  -- `consumeStringFieldIfDefined`, with the collection of its error.
  abbrev pub consume_text :
      Option Value → (String → Result String) → (String → A → A) → Exec (Draft A) (Unit {0})
  consume_text (some (text s)) consumer set' = elim (consumer s) [
    | bad e ↦ report e
    | good v ↦ edit (set' v)
  ]
  consume_text _ consumer set' = pure tt

abbrev pub ConfigDraft : Type 0
ConfigDraft = Draft BackendConfiguration

module _ (env : Env) where
  abbrev pub parse_proxy : String → Exec ConfigDraft (Unit {0})
  parse_proxy cfg_str = elim (env.url_hostname cfg_str) [
    | bad err ↦ report (wrapped "illegal value for proxy URL" err)
    | good host ↦
        if host == ""
        then report (new_error "proxy server URL does not contain a host name" [])
        else edit (λ be. record be { proxy_server = cfg_str })
  ]

  abbrev set_pinning : ℤ → Exec ConfigDraft (Unit {0})
  set_pinning n = edit (λ be. record be { tls_pinning = n })

  unfoldable pub parse_pinning : String → Exec ConfigDraft (Unit {0})
  parse_pinning v =
      let opt = env.to_lower v in
      if opt == "default"
      then set_pinning tls_pinning_default
      else if opt == "system"
      then set_pinning tls_pinning_system
      else if opt == "custom"
      then set_pinning tls_pinning_custom
      else if opt == "insecure"
      then set_pinning tls_pinning_insecure
      else report (new_error "unsupported tls pinning: %s" (v ∷ []))

  abbrev pub parse_latency : String → Exec ConfigDraft (Unit {0})
  parse_latency lat_exp = elim (env.parse_duration lat_exp) [
    | bad err ↦ report err
    | good dur ↦ edit (λ be. record be { network_latency = trunc_div dur millisecond })
  ]

  -- The assignments of `parseBackEndConfigurationFunc`.
  unfoldable pub parse_config_fields : FieldData → Exec ConfigDraft (Unit {0})
  unfolding parse_pinning
  parse_config_fields d = do
    with_text (d.get_ok "oaep_label") (λ s. edit (λ be. record be { oaep_label = s }))
    with_text (d.get_ok "proxy_server") parse_proxy
    copy_text (d.get_ok "proxy_server_auth") (λ s be. record be { proxy_server_auth = s })
    copy_text (d.get_ok "proxy_server_creds") (λ s be. record be { proxy_server_creds = s })
    copy_text (d.get_ok "root_ca") (λ s be. record be { tls_certs = s })
    with_text (d.get_ok "tls_pinning") parse_pinning
    copy_truth (d.get_ok "enable_cli_v3_write") (λ b be. record be { cli_write_enabled = b })
    with_text (d.get_ok "net_latency") parse_latency

  -- The assignments of `parseCertificatePinConfiguration`.
  unfoldable pub parse_pin_fields : FieldData → Exec (Draft CertPin) (Unit {0})
  parse_pin_fields d = do
    copy_text (d.get_ok "cn") (λ s p. record p { common_name = s })
    consume_text (d.get_ok "sn") env.serial_number_from_hex (λ s p. record p { serial_number = s })
    consume_text (d.get_ok "fp") env.fingerprint_from (λ s p. record p { fingerprint = s })

abbrev pub first_error_args : List Err → ℕ → List Arg
first_error_args [] n = arg_number (pos n) ∷ []
first_error_args (e ∷ _) n = arg_number (pos n) ∷ arg_error e ∷ []

module _ {env : Env} {H : Type 0} ⦃cc : ConfigContext H⦄ where
  -- Where the read fails, the chain ends, and what was carried is not looked at.
  unfoldable pub read_back_end_config : Step env H (Unit {0})
  unfolding default_backend_configuration
  read_back_end_config = do
    tick ← next_tick
    (_, val) ← read_own (decode_config env) (default_backend_configuration env tick)
    h ← get_heap
    put_heap (cc.carry_cfg val h)

  unfoldable pub save_back_end_config : Step env H (Unit {0})
  save_back_end_config = do h ← get_heap; write_own (encode_config env (cc.get_cfg h))

  unfoldable pub accept_backend_configuration : Step env H (Unit {0})
  unfolding accept_configuration_update
  accept_backend_configuration = do
    h ← get_heap
    b ← get_plugin
    put_plugin (accept_configuration_update env (cc.get_cfg h) b)

  -- The end of a parser: the target as it is now, and an error response if there were errors.
  abbrev pub parsed :
      {A : Type 0}
      → (A → H → H)
      → (List Err → Response)
      → Exit (Unit {0}) × Draft A
      → Step env H (Unit {0})
  parsed put refusal (ok _, dr) = do
    h ← get_heap
    put_heap (put dr.target h)
    elim dr.errors [ [] ↦ pure tt | e ∷ es ↦ stop (refusal (e ∷ es)) ]
  parsed put refusal (respond lr, dr) = stop lr
  parsed put refusal (fail err, dr) = throw err
  parsed put refusal (panic, dr) = crash

  unfoldable pub parse_back_end_configuration : Step env H (Unit {0})
  unfolding parse_config_fields
  parse_back_end_configuration = do
    d ← get_fields
    h ← get_heap
    parsed cc.carry_cfg (λ es. error_response "incorrect input: %s" (map arg_error es))
        (parse_config_fields env d (record { target = cc.get_cfg h; errors = [] }))

abbrev pub put_pin : PinSlot → CertPin → PinningContainer → PinningContainer
put_pin slot p h = record h { cfg = set_pin slot p h.cfg }

module _ {env : Env} where
  -- `wrapTargetCertPinSelector`
  unfoldable pub select_pin : PinSlot → Step env PinningContainer (Unit {0})
  select_pin slot = do h ← get_heap; put_heap (record h { pin = some slot })

  unfoldable pub parse_certificate_pin_configuration : Step env PinningContainer (Unit {0})
  unfolding parse_pin_fields pin_at set_pin
  parse_certificate_pin_configuration = do
    d ← get_fields
    h ← get_heap
    elim h.pin [
      | none ↦ throw (new_error "tls pin hasn't been initialized" [])
      | some slot ↦
          parsed (put_pin slot)
            (λ es.
              error_response "invalid request due to %d parse errors, first error %s"
                (first_error_args es (length es)))
            (parse_pin_fields env d (record { target = pin_at slot h.cfg; errors = [] }))
    ]

  unfoldable pub reset_certificate_pin : Step env PinningContainer (Unit {0})
  unfolding set_pin
  reset_certificate_pin = do
    h ← get_heap
    elim h.pin [ none ↦ crash | some slot ↦ put_heap (put_pin slot empty_pin h) ]

  -- The five steps of `updateCert` and `resetCert`.
  unfoldable pub pin_chain :
      PinSlot → Transformer env PinningContainer → Transformer env PinningContainer
  unfolding simple_chain
  pin_chain slot change = simple_chain (
      read_back_end_config
      ∷ select_pin slot
      ∷ change
      ∷ save_back_end_config
      ∷ accept_backend_configuration
      ∷ [])

  -- The containers begin with the zero configuration, which the first step replaces.
  unfoldable pub update_cert : BackendConfiguration → PinSlot → Handler env
  unfolding pin_chain handle_operation_with_container
  update_cert zero_cfg slot d body w =
      handle_operation_with_container (record { cfg = zero_cfg; pin = none }) (config_path w.plugin)
        (pin_chain slot parse_certificate_pin_configuration) d body w

  unfoldable pub reset_cert : BackendConfiguration → PinSlot → Handler env
  unfolding pin_chain handle_operation_with_container
  reset_cert zero_cfg slot d body w =
      handle_operation_with_container (record { cfg = zero_cfg; pin = none }) (config_path w.plugin)
        (pin_chain slot reset_certificate_pin) d body w

  unfoldable pub store_configuration : BackendConfiguration → Handler env
  unfolding simple_chain handle_operation_with_container
  store_configuration zero_cfg d body w =
      handle_operation_with_container {H = ConfigContainer} (record { cfg = zero_cfg })
        (config_path w.plugin)
        (simple_chain (
          read_back_end_config ∷ parse_back_end_configuration ∷ save_back_end_config
          ∷ accept_backend_configuration ∷ []))
        d body w

  -- `loadBackendConfiguration` and `initOnMount`: a configuration that is not there is stored.
  abbrev mounted : Result (Bool × BackendConfiguration) → Exec (World env) (Unit {0})
  mounted (bad err) w = (fail err, w)
  mounted (good (true, cfg)) w = (ok tt, record w { plugin = record (w.plugin) { cfg = cfg } })
  mounted (good (false, cfg)) w =
      let (e, store) = persist env (config_path w.plugin) (encode_config env cfg) w.store in
      elim e [
        | some err ↦ (fail err, record w { store = store })
        | none ↦ (ok tt, record w { store = store; plugin = record (w.plugin) { cfg = cfg } })
      ]

  unfoldable pub init_on_mount : Exec (World env) (Unit {0})
  unfolding default_backend_configuration read persist config_path
  init_on_mount w =
      let cfg = default_backend_configuration env w.ticks in
      mounted (read env (decode_config env) (config_path w.plugin) cfg w.store)
        (record w { ticks = suc w.ticks })
