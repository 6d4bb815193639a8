-- ===== src/Config.antt =====
-- The configuration of the secrets engine: the configuration half of mashery/data_structs.go.
use hcvault_mashery_api_auth.Prelude.{
  ℤ, pos, ltb_ℤ, eqb_ℤ, String, Bool, ◌&&◌, ◌||◌, Option, none, some, List, [], ◌∷◌, ◌==◌,
  if◌then◌else◌,
}
use hcvault_mashery_api_auth.Time.{scale64, millisecond}

-- The constants `TLSPinningDefault` to `TLSPinningInsecure` are the numbers 0 to 3.
abbrev pub tls_pinning_default : ℤ
tls_pinning_default = pos 0

abbrev pub tls_pinning_system : ℤ
tls_pinning_system = pos 1

abbrev pub tls_pinning_custom : ℤ
tls_pinning_custom = pos 2

abbrev pub tls_pinning_insecure : ℤ
tls_pinning_insecure = pos 3

-- The fields of `transport.TLSCertChainPin`.
pub record CertPin : Type 0 where
  pub common_name : String
  pub serial_number : String
  pub fingerprint : String

pub record BackendConfiguration : Type 0 where
  pub oaep_label : String
  pub proxy_server : String
  pub proxy_server_auth : String
  pub proxy_server_creds : String
  pub tls_certs : String
  pub cli_write_enabled : Bool
  pub network_latency : ℤ
  pub tls_pinning : ℤ
  pub leaf_cert_pin : CertPin
  pub issuer_cert_pin : CertPin
  pub root_cert_pin : CertPin

abbrev pub empty_pin : CertPin
empty_pin = record { common_name = ""; serial_number = ""; fingerprint = "" }

-- Where a `*tls.Config` comes from: `transport.DefaultTLSConfig()`, a zero `tls.Config{}`, one that
-- skips verification, or a `transport.TLSPinner` to which the pins were added in this order.
pub data TlsOrigin : Type 0 where
  stock empty_config skip_verify : TlsOrigin
  pinned : List CertPin → TlsOrigin

-- `root_cas` is the PEM text that the certificate pool was filled from.
pub record TlsConfig : Type 0 where
  pub origin : TlsOrigin
  pub root_cas : Option String

abbrev of_origin : TlsOrigin → TlsConfig
of_origin o = record { origin = o; root_cas = none }

unfoldable pub effective_oaep_label : BackendConfiguration → String
effective_oaep_label bc = bc.oaep_label

-- A duration in nanoseconds.
unfoldable pub effective_network_latency : BackendConfiguration → ℤ
effective_network_latency bc =
    if ltb_ℤ (pos 0) bc.network_latency
    then scale64 millisecond bc.network_latency
    else scale64 millisecond (pos 147)

unfoldable pub decorate_root_ca_certs : BackendConfiguration → Option TlsConfig → Option TlsConfig
decorate_root_ca_certs bc config =
    if bc.tls_certs == "" || "-" == bc.tls_certs
    then config
    else some (record (elim config [ none ↦ of_origin empty_config | some c ↦ c ]) {
      root_cas = some bc.tls_certs;
    })

-- `TLSCertChainPin.IsEmpty` belongs to the client library.
module _ (pin_is_empty : CertPin → Bool) where
  unfoldable pub effective_tls_pinning : BackendConfiguration → ℤ
  effective_tls_pinning bc =
      if eqb_ℤ bc.tls_pinning tls_pinning_custom
        && (pin_is_empty bc.leaf_cert_pin
            && pin_is_empty bc.issuer_cert_pin
            && pin_is_empty bc.root_cert_pin)
      then tls_pinning_default
      else bc.tls_pinning

  -- The pins that are added to the pinner: those that are not empty, the leaf first.
  unfoldable pub add_pin : CertPin → List CertPin → List CertPin
  add_pin p rest = if pin_is_empty p then rest else p ∷ rest

  unfoldable pub decorate_certificate_pinning : BackendConfiguration → Option TlsConfig
  unfolding effective_tls_pinning add_pin
  decorate_certificate_pinning bc =
      let level = effective_tls_pinning bc in
      if eqb_ℤ level tls_pinning_default
      then some (of_origin stock)
      else if eqb_ℤ level tls_pinning_insecure
      then some (of_origin skip_verify)
      else if eqb_ℤ level tls_pinning_system
      then none
      else if eqb_ℤ level tls_pinning_custom
      then some (
          of_origin (
            pinned (
              add_pin bc.leaf_cert_pin (add_pin bc.issuer_cert_pin (add_pin bc.root_cert_pin [])))))
      else some (of_origin stock)

  unfoldable pub effective_tls_configuration : BackendConfiguration → Option TlsConfig
  unfolding decorate_certificate_pinning decorate_root_ca_certs
  effective_tls_configuration bc = decorate_root_ca_certs bc (decorate_certificate_pinning bc)
