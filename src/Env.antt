-- ===== src/Env.antt =====
-- What the plugin uses of code outside of this repository, and of the system: the storage that
-- Vault hands to it, the clock, the Mashery API behind its client library, and cryptography. A
-- development over an `Env` holds for each of them.
use hcvault_mashery_api_auth.Prelude.{
  ℕ, ℤ, String, ◌≡◌, ◌≢◌, Bool, Option, none, some, List, [], ◌∷◌, ◌==◌, if◌then◌else◌,
}
use hcvault_mashery_api_auth.Value.{Value, Fields, Err, Result, Blob, good}
use hcvault_mashery_api_auth.Role.{Credentials}
use hcvault_mashery_api_auth.Config.{CertPin, TlsConfig}

-- `masherytypes.TimedAccessTokenResponse`; the times in nanoseconds since the epoch.
pub record Token : Type 0 where
  pub obtained : ℤ
  pub server_time : ℤ
  pub qps : ℤ
  pub token_type : String
  pub access_token : String
  pub expires_in : ℤ
  pub refresh_token : String

abbrev pub Headers : Type 0
Headers = List (String × List String)

-- `transport.WrappedResponse`; reading the body may fail.
pub record HttpResponse : Type 0 where
  pub status_code : ℕ
  pub header : Headers
  pub body : Result Blob

-- `http.Header.Get`: the first value of a key, or the empty text.
abbrev pub first_or_empty : List String → String
first_or_empty [] = ""
first_or_empty (v ∷ _) = v

unfoldable pub header_get : String → Headers → String
header_get key [] = ""
header_get key ((k, vs) ∷ rest) = if k == key then first_or_empty vs else header_get key rest

-- `v3client.OAuthHelperParams`
pub record OAuthParams : Type 0 where
  pub tls_config : Option TlsConfig
  pub proxy_server : Option String
  pub proxy_auth_type : String
  pub proxy_auth_credentials : String
  pub tls_config_delegate_system : Bool

-- `v3client.Params`, of which a client is made. `avg_net_latency` is a duration.
pub record V3Client : Type 0 where
  pub tls_config : Option TlsConfig
  pub tls_config_delegate_system : Bool
  pub qps : ℤ
  pub avg_net_latency : ℤ

-- `v2client.Params`, and the state of the authorizer that the client holds.
pub record V2Client : Type 0 where
  pub area_nid : ℤ
  pub api_key : String
  pub signature : String
  pub qps : ℤ
  pub travel_time_comp : ℤ

-- The four methods of `v3client.WildcardClient`, with the path. An absent query is the empty list.
pub data V3Call : Type 0 where
  fetch_any : String → List (String × String) → V3Call
  delete_any : String → V3Call
  post_any put_any : String → Fields → V3Call

-- `v2client.V2Request`; `params` is `none` for nil.
pub record V2Request : Type 0 where
  pub id : ℤ
  pub method : String
  pub version : String
  pub params : Option Value

-- `v2client.V2Result`
pub record V2Result : Type 0 where
  pub result : Value
  pub error : Value

pub record PemBlock : Type 0 where
  pub block_type : String
  pub pem_headers : List (String × String)
  pub bytes : Blob

-- The parts of an `x509.Certificate` that the plugin reads.
pub record Certificate (Key : Type 0) : Type 0 where
  pub subject : String
  pub not_before : ℤ
  pub not_after : ℤ
  pub public_key : Option Key

pub record Env : Type 1 where
  -- `logical.Storage`. A write or a deletion returns an error or nil, and the storage after it.
  pub Store : Type 0
  pub storage_get : String → Store → Result (Option Blob)
  pub storage_put : String → Blob → Store → Option Err × Store
  pub storage_delete : String → Store → Option Err × Store
  pub storage_list : String → Store → Result (List String)
  -- The readings of `time.Now()`, in their order, and the random bytes drawn at each.
  pub now : ℕ → ℤ
  pub random_label : ℕ → String
  -- The Mashery API behind the clients.
  pub Remote : Type 0
  pub retrieve_token : OAuthParams → Credentials → Remote → Result Token × Remote
  pub v3_call : V3Client → String → V3Call → Remote → Result HttpResponse × Remote
  pub v2_raw : V2Client → V2Request → Remote → Result HttpResponse × Remote
  pub v2_direct : V2Client → V2Request → Remote → Result V2Result × Remote
  pub token_expiry_time : Token → ℤ
  pub token_time_left : Token → ℤ
  -- Pins of the client library, their form in JSON, and its decoding of hexadecimal text.
  pub pin_is_empty : CertPin → Bool
  pub pin_to_json : CertPin → Value
  pub pin_from_json : Value → CertPin → Option CertPin
  pub serial_number_from_hex : String → Result String
  pub fingerprint_from : String → Result String
  pub hex_encode : String → String
  -- Text services: a URL's host name, a Go duration, a date, lower case, digests in hexadecimal.
  pub url_hostname : String → Result String
  pub parse_duration : String → Result ℤ
  pub date_utc : ℕ → ℕ → ℕ → ℤ
  pub to_lower : String → String
  pub md5_hex : String → String
  pub sha256_hex : String → String
  -- RSA, X.509, PEM and gzip. The number is that of the reading of the clock, for randomness;
  -- `has_certificates` tells whether `AppendCertsFromPEM` finds any.
  pub PrivateKey : Type 0
  pub PublicKey : Type 0
  pub generate_key : ℕ → Result PrivateKey
  pub marshal_key : PrivateKey → Blob
  pub parse_key : Blob → Result PrivateKey
  pub create_certificate : String → ℤ → ℤ → PrivateKey → Result Blob
  pub has_certificates : String → Bool
  pub parse_certificate : Blob → Result (Certificate PublicKey)
  pub encrypt_oaep : ℕ → PublicKey → Blob → String → Result Blob
  pub decrypt_oaep : PrivateKey → Blob → String → Result Blob
  pub pem_encode : PemBlock → String
  pub pem_decode : String → Option PemBlock
  pub gzip_compress : Blob → Blob
  pub GzipReader : Type 0
  pub gzip_new_reader : Blob → Result GzipReader
  pub gzip_read_all : GzipReader → Result Blob
  -- `fmt` of numbers, times, durations and other values, and `strconv.Atoi`.
  pub show_number : ℤ → String
  pub show_time : ℤ → String
  pub show_duration : ℤ → String
  pub show_value : Value → String
  pub show_blob : Blob → String
  pub read_number : String → Option ℤ

-- What `logical.Storage` documents: a write that reports no error is read back, other keys keep
-- their entries, and a deleted key has none.
pub record StorageLaws (env : Env) : Type 1 where
  pub get-put_self :
      (p : String) (b : Blob) (s s' : env.Store)
      → env.storage_put p b s ≡ (none, s')
      → env.storage_get p s' ≡ good (some b)
  pub get-put_ne :
      (p q : String) (b : Blob) (s s' : env.Store)
      → env.storage_put p b s ≡ (none, s')
      → p ≢ q
      → env.storage_get q s' ≡ env.storage_get q s
  pub get-delete_self :
      (p : String) (s s' : env.Store)
      → env.storage_delete p s ≡ (none, s')
      → env.storage_get p s' ≡ good none
  pub get-delete_ne :
      (p q : String) (s s' : env.Store)
      → env.storage_delete p s ≡ (none, s')
      → p ≢ q
      → env.storage_get q s' ≡ env.storage_get q s
