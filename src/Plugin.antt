-- ===== src/Plugin.antt =====
-- The plugin object of mashery/plugin.go: its configuration, its OAuth helper and its caches of API
-- clients. A map is an association list, a client is the parameters that it was made of.
pub mod Cache
pub mod Idle
use hcvault_mashery_api_auth.Prelude.{
  ℕ, zero, suc, ◌+◌, ◌-◌, ◌*◌, ◌/◌, ◌%◌, ◌^◌, ◌≤◌, ◌<◌, ℤ, pos, negsuc, pos_part, neg_part, ◌+ℤ◌,
  ◌-ℤ◌, ◌≤ℤ◌, ◌<ℤ◌, ltb_ℤ, leb_ℤ, eqb_ℤ, wrap64, IsInt64, wrap64_of_IsInt64, String, ◌<>◌, ◌≡◌,
  refl, sym, ap, ◌∙◌, fun_ext, subst, ◌≢◌, ◌↔◌, ◌⊎◌, inl, inr, Bool, true, false, not, ◌&&◌, ◌||◌,
  Option, none, some, List, [], ◌∷◌, ◌++◌, map, arith, ◌==◌, eq_iff, eq_refl, ltb, leb, eqb,
  if◌then◌else◌, Bool-cases, Option-cases, length, ne_of_not_equal, not_equal_of_ne, append-ne_left,
  append-ne_right,
}
use hcvault_mashery_api_auth.Time.{unix, scale64, add64, millisecond, second}
use hcvault_mashery_api_auth.Role.{StoredRole}
use hcvault_mashery_api_auth.Config.{
  BackendConfiguration, effective_tls_configuration, effective_tls_pinning, tls_pinning_system,
  tls_pinning_default, empty_pin, TlsConfig,
}
use hcvault_mashery_api_auth.Env.{Env, OAuthParams, V3Client, V2Client}

-- `V3ClientAndAuthorizer` and `V2ClientAndAuthorizer`
pub record Cached (C : Type 0) : Type 0 where
  pub client : C
  pub last_used : ℤ

pub record AuthPlugin : Type 0 where
  pub cfg : BackendConfiguration
  pub oauth_helper : Option OAuthParams
  pub v3_clients : List (String × Cached V3Client)
  pub v2_clients : List (String × Cached V2Client)
  pub backend_uuid : String

abbrev pub http_idle : ℤ
http_idle = negsuc (15 * 60 * 1000000000 - 1)

module _ {C : Type 0} where
  abbrev pub find : String → List (String × C) → Option C
  find key [] = none
  find key ((k, c) ∷ rest) = if k == key then some c else find key rest

  -- `m[key] = c`
  abbrev pub insert : String → C → List (String × C) → List (String × C)
  insert key c [] = (key, c) ∷ []
  insert key c ((k, d) ∷ rest) = if k == key then (key, c) ∷ rest else (k, d) ∷ insert key c rest

  -- The loop of `Housekeeping` over one map: `lastUsed.Before(lastUseCutover)` removes the client.
  unfoldable pub drop_idle : ℤ → List (String × Cached C) → List (String × Cached C)
  drop_idle cutover [] = []
  drop_idle cutover ((k, c) ∷ rest) =
      let kept = drop_idle cutover rest in if ltb_ℤ c.last_used cutover then kept else (k, c) ∷ kept

unfoldable pub client_lookup_key : AuthPlugin → StoredRole → String
client_lookup_key b role = b.backend_uuid <> "::" <> role.name

-- `ProxyServerURL`; the URL was parsed when it was configured.
abbrev pub proxy_server_url : BackendConfiguration → Option String
proxy_server_url bc = if bc.proxy_server == "" then none else some bc.proxy_server

-- `fmt.Sprintf("%s%s%d", ...)` under MD5.
unfoldable pub v2_signature_for : (env : Env) → ℤ → StoredRole → String
v2_signature_for env now role =
    env.md5_hex (role.keys.api_key <> role.keys.key_secret <> env.show_number (unix now))

module _ (env : Env) where
  abbrev pub pinning_of : BackendConfiguration → ℤ
  pinning_of cfg = effective_tls_pinning env.pin_is_empty cfg

  abbrev pub tls_of : BackendConfiguration → Option TlsConfig
  tls_of cfg = effective_tls_configuration env.pin_is_empty cfg

  -- What `GetOAuthHelper` makes the helper of.
  unfoldable pub oauth_params : BackendConfiguration → OAuthParams
  oauth_params cfg = record {
    tls_config = tls_of cfg;
    proxy_server = proxy_server_url cfg;
    proxy_auth_type = cfg.proxy_server_auth;
    proxy_auth_credentials = cfg.proxy_server_creds;
    tls_config_delegate_system = eqb_ℤ (pinning_of cfg) tls_pinning_system;
  }

  -- `sync.Once` makes the helper at the first call after it was reset.
  unfoldable pub get_oauth_helper : AuthPlugin → OAuthParams × AuthPlugin
  unfolding oauth_params
  get_oauth_helper b = elim b.oauth_helper [
    | some h ↦ (h, b)
    | none ↦ (oauth_params b.cfg, record b { oauth_helper = some (oauth_params b.cfg) })
  ]

  unfoldable pub accept_configuration_update : BackendConfiguration → AuthPlugin → AuthPlugin
  accept_configuration_update new_cfg b = record b {
    cfg = new_cfg;
    oauth_helper = none;
    v3_clients = [];
    v2_clients = [];
  }

  unfoldable pub new_v3_client : BackendConfiguration → StoredRole → V3Client
  new_v3_client cfg role = record {
    tls_config = tls_of cfg;
    tls_config_delegate_system = eqb_ℤ (pinning_of cfg) tls_pinning_system;
    qps = role.keys.max_qps;
    avg_net_latency = scale64 millisecond (pos 172);
  }

  -- A client that is found is returned. `cl` is a copy of the map's entry, so that the assignment to
  -- `cl.lastUsed` changes nothing that lasts.
  unfoldable pub get_mashery_v3_client : ℤ → StoredRole → AuthPlugin → V3Client × AuthPlugin
  unfolding client_lookup_key new_v3_client
  get_mashery_v3_client now role b =
      let key = client_lookup_key b role in
      elim (find key b.v3_clients) [
        | some cl ↦ (cl.client, b)
        | none ↦ (
          new_v3_client b.cfg role,
          record b {
            v3_clients =
                insert key (record { client = new_v3_client b.cfg role; last_used = now })
                  b.v3_clients;
          },
        )
      ]

  unfoldable pub new_v2_client : ℤ → StoredRole → V2Client
  unfolding v2_signature_for
  new_v2_client now role = record {
    area_nid = role.keys.area_nid;
    api_key = role.keys.api_key;
    signature = v2_signature_for env now role;
    qps = role.keys.max_qps;
    travel_time_comp = scale64 millisecond (pos 172);
  }

  -- The authorizer is shared with the client by a pointer, so that the client that is found sees the
  -- new signature; its `lastUsed` is again that of a copy.
  unfoldable pub get_mashery_v2_client : ℤ → StoredRole → AuthPlugin → V2Client × AuthPlugin
  unfolding client_lookup_key new_v2_client v2_signature_for
  get_mashery_v2_client now role b =
      let key = client_lookup_key b role in
      elim (find key b.v2_clients) [
        | some cl ↦
            let signed = record (cl.client) { signature = v2_signature_for env now role } in
            (
              signed,
              record b { v2_clients = insert key (record cl { client = signed }) b.v2_clients },
            )
        | none ↦
            let made = new_v2_client now role in
            (
              made,
              record b {
                v2_clients = insert key (record { client = made; last_used = now }) b.v2_clients;
              },
            )
      ]

  unfoldable pub housekeeping : ℤ → AuthPlugin → AuthPlugin
  unfolding drop_idle
  housekeeping now b =
      let cutover = add64 now http_idle in
      record b {
        v3_clients = drop_idle cutover b.v3_clients;
        v2_clients = drop_idle cutover b.v2_clients;
      }

  -- The label is random.
  unfoldable pub default_backend_configuration : ℕ → BackendConfiguration
  default_backend_configuration tick = record {
    oaep_label = env.random_label tick;
    proxy_server = "";
    proxy_server_auth = "";
    proxy_server_creds = "";
    tls_certs = "";
    cli_write_enabled = false;
    network_latency = pos 147;
    tls_pinning = tls_pinning_default;
    leaf_cert_pin = empty_pin;
    issuer_cert_pin = empty_pin;
    root_cert_pin = empty_pin;
  }

-- The fields of `makeNew`, with the zero configuration.
unfoldable pub make_new : BackendConfiguration → String → AuthPlugin
make_new zero_cfg uuid = record {
  cfg = zero_cfg;
  oauth_helper = none;
  v3_clients = [];
  v2_clients = [];
  backend_uuid = uuid;
}

unfoldable pub roles_storage_root : AuthPlugin → String
roles_storage_root b = b.backend_uuid <> "/role/"

unfoldable pub config_path : AuthPlugin → String
config_path b = b.backend_uuid <> "/config"
