-- ===== src/ConfigSteps/Mounted.antt =====
-- The configuration over a restart: what was stored is what the next mount runs with.
use hcvault_mashery_api_auth.Prelude.{ℕ, suc, String, ◌≡◌, refl, Option, some, arith}
use hcvault_mashery_api_auth.Value.{Fields, good, json}
use hcvault_mashery_api_auth.Exec.{ok}
use hcvault_mashery_api_auth.Config.{BackendConfiguration, CertPin, empty_pin}
use hcvault_mashery_api_auth.Env.{Env, StorageLaws}
use hcvault_mashery_api_auth.Request.{FieldData, World, read}
use hcvault_mashery_api_auth.ConfigSteps.{
  encode_config, decode_config, PinSlot, init_on_mount, store_configuration, update_cert,
  reset_cert,
}
use hcvault_mashery_api_auth.Plugin.{config_path, make_new, default_backend_configuration}
use hcvault_mashery_api_auth.Handler.{Handler}
use hcvault_mashery_api_auth.ConfigSteps.Stored.{
  IsStoredAt, store_configuration-IsStoredAt, update_cert-IsStoredAt, reset_cert-IsStoredAt,
}

-- What the client library documents of the JSON form of its pins: a pin is read back into an empty
-- one as it was.
pub record PinLaws (env : Env) : Type 0 where
  pub from-to_json : (p : CertPin) → env.pin_from_json (env.pin_to_json p) empty_pin ≡ some p

-- A receiver without pins.
abbrev HasNoPins : BackendConfiguration → Type 0
HasNoPins r =
    (r.leaf_cert_pin ≡ empty_pin) × (r.issuer_cert_pin ≡ empty_pin) × (r.root_cert_pin ≡ empty_pin)

-- The operations that write the configuration.
pub data ConfigWrite : Type 0 where
  writes_all : ConfigWrite
  writes_pin clears_pin : PinSlot → ConfigWrite

abbrev pub config_write : {env : Env} → ConfigWrite → BackendConfiguration → Handler env
config_write writes_all zero_cfg = store_configuration zero_cfg
config_write (writes_pin slot) zero_cfg = update_cert zero_cfg slot
config_write (clears_pin slot) zero_cfg = reset_cert zero_cfg slot

module _ {env : Env} (laws : StorageLaws env) where
  config_write-IsStoredAt :
      (op : ConfigWrite) (zero_cfg : BackendConfiguration) (d : FieldData) (body : Option Fields)
      (w w' : World env)
      → config_write op zero_cfg d body w ≡ (ok tt, w')
      → IsStoredAt (config_path w.plugin) w'
  config_write-IsStoredAt writes_all zero_cfg d body w w' e =
      store_configuration-IsStoredAt laws zero_cfg d body w w' e
  config_write-IsStoredAt (writes_pin slot) zero_cfg d body w w' e =
      update_cert-IsStoredAt laws zero_cfg slot d body w w' e
  config_write-IsStoredAt (clears_pin slot) zero_cfg d body w w' e =
      reset_cert-IsStoredAt laws zero_cfg slot d body w w' e

-- The world after a restart: a new plugin over what is stored.
abbrev pub restarted : {env : Env} → BackendConfiguration → String → World env → World env
restarted zero_cfg uuid w = record w { plugin = make_new zero_cfg uuid }

module _ {env : Env} (pins : PinLaws env) where
  decode-encode_config :
      (c r : BackendConfiguration)
      → HasNoPins r
      → decode_config env (encode_config env c) r ≡ some c
  unfolding encode_config decode_config
  decode-encode_config c r (l, i, t) = ground (
    arith,
    pins.from-to_json c.leaf_cert_pin,
    pins.from-to_json c.issuer_cert_pin,
    pins.from-to_json c.root_cert_pin,
  )

  default-HasNoPins : (tick : ℕ) → HasNoPins (default_backend_configuration env tick)
  unfolding default_backend_configuration
  default-HasNoPins tick = (refl, refl, refl)

  init_on_mount-of_stored :
      (w : World env) (c : BackendConfiguration)
      → env.storage_get (config_path w.plugin) w.store ≡ good (some (json (encode_config env c)))
      → init_on_mount w
        ≡ (ok tt, record w { ticks = suc w.ticks; plugin = record (w.plugin) { cfg = c } })
  unfolding init_on_mount read
  init_on_mount-of_stored w c e = ground (
    arith,
    decode-encode_config c (default_backend_configuration env w.ticks) (default-HasNoPins w.ticks),
  )

  -- With a storage that does what it documents, and pins that are read back as they were: where a
  -- write of the configuration, an update of a pin or a reset of one goes through, a plugin that is
  -- made anew for the same mount and mounted runs with exactly the configuration that was accepted.
  pub init_on_mount-config_write :
      (laws : StorageLaws env) (op : ConfigWrite) (zero_cfg : BackendConfiguration) (d : FieldData)
      (body : Option Fields) (w w' : World env)
      → config_write op zero_cfg d body w ≡ (ok tt, w')
      → init_on_mount (restarted zero_cfg w.plugin.backend_uuid w') ≡ (
        ok tt,
        record w' {
          plugin = record (make_new zero_cfg w.plugin.backend_uuid) { cfg = w'.plugin.cfg };
          ticks = suc w'.ticks;
        },
      )
  unfolding config_path make_new
  init_on_mount-config_write laws op zero_cfg d body w w' e =
      init_on_mount-of_stored (restarted zero_cfg w.plugin.backend_uuid w') w'.plugin.cfg
        (config_write-IsStoredAt laws op zero_cfg d body w w' e)
