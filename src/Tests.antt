-- ===== src/Tests.antt =====
-- Tests, and examples at which the theorems apply: one environment in memory and one role.
mod Runs
mod Examples
mod Queries
mod Given
mod Configs
mod Restarts
mod Lives
mod Puts
mod Tokens
mod Writes
mod Rounds
mod Signed
mod Worlds
use hcvault_mashery_api_auth.Prelude.{
  ℕ, zero, suc, ◌+◌, ◌-◌, ◌*◌, ◌/◌, ◌%◌, ◌^◌, ◌≤◌, ◌<◌, ℤ, pos, negsuc, pos_part, neg_part, ◌+ℤ◌,
  ◌-ℤ◌, ◌≤ℤ◌, ◌<ℤ◌, ltb_ℤ, leb_ℤ, eqb_ℤ, wrap64, IsInt64, wrap64_of_IsInt64, String, ◌<>◌, ◌≡◌,
  refl, sym, ap, ◌∙◌, fun_ext, subst, ◌≢◌, ◌↔◌, ◌⊎◌, inl, inr, Bool, true, false, not, ◌&&◌, ◌||◌,
  Option, none, some, List, [], ◌∷◌, ◌++◌, map, arith, ◌==◌, eq_iff, eq_refl, ltb, leb, eqb,
  if◌then◌else◌, Bool-cases, Option-cases, length, ne_of_not_equal, not_equal_of_ne, append-ne_left,
  append-ne_right,
}
use hcvault_mashery_api_auth.Value.{
  Value, null, text, number, truth, object, Fields, end, field, Err, external, Result, good, bad,
  Blob, raw, document, json, Response, answer, Payload,
}
use hcvault_mashery_api_auth.Exec.{Exit, ok, respond, fail, panic, Exec}
use hcvault_mashery_api_auth.Role.{
  RoleKeys, RoleUsageTerm, RoleDataExchange, StoredRoleUsage, StoredRole, zero_keys, zero_usage,
}
use hcvault_mashery_api_auth.Config.{BackendConfiguration, CertPin, empty_pin}
use hcvault_mashery_api_auth.Env.{
  Env, StorageLaws, Token, HttpResponse, V3Client, V2Result, Certificate,
}
use hcvault_mashery_api_auth.Plugin.{AuthPlugin}
use hcvault_mashery_api_auth.Request.{FieldData, Req, World}
use hcvault_mashery_api_auth.Grant.{GrantRequest}
use hcvault_mashery_api_auth.Grant.Sound.{Granted, issue_grant-Granted}
use hcvault_mashery_api_auth.Grant.{
  issue_grant, create_v3_leased_response, grant_checks, grant_version, read_grant_request_params,
  render_v3_lease_response, render_v3_plain_response, select_v3_rendering_func, with_v3_token,
}
use hcvault_mashery_api_auth.RoleSteps.{
  read_role, block_operation_on_force_proxy_role, block_usage_exceeding_limits,
  block_role_incapable_of, decrease_remaining_usage_quota, do_block_role_incapable_of, initial_role,
  role_keys_path, role_usage_path, spend_use,
}
use hcvault_mashery_api_auth.Request.{
  read_path, write_path, map_request_handler_context, persist, read, storage_path_for_role,
}
use hcvault_mashery_api_auth.Role.Json.{decode_keys, encode_keys, decode_usage, encode_usage}
use hcvault_mashery_api_auth.Role.{
  expired, depleted, is_v3_capable, has_usage_quota, after_expiry_term, as_v3_credentials,
  is_v2_capable, reduce_remaining_quota, supplies_key_and_secret,
}
use hcvault_mashery_api_auth.Token.{retrieve_v3_access_token, request_token}
use hcvault_mashery_api_auth.Time.{unix, add64, from_unix, scale64, sub64}
use hcvault_mashery_api_auth.Handler.{handle_operation_with_container, handle_role_operation}
use hcvault_mashery_api_auth.Plugin.{get_oauth_helper, roles_storage_root}
use hcvault_mashery_api_auth.Request.Chain.{mapping_run, simple_chain}
use hcvault_mashery_api_auth.Api.{ApiContainer}

abbrev pub a_token : Token
a_token = record {
  obtained = pos 0;
  server_time = pos 0;
  qps = pos 2;
  token_type = "Bearer";
  access_token = "tkn";
  expires_in = pos 3600;
  refresh_token = "";
}

abbrev pub a_response : HttpResponse
a_response = record {
  status_code = 200;
  header = [];
  body = good (json (field "id" (text "1") end));
}

-- Pins as JSON objects.
abbrev pin_object : CertPin → Value
pin_object p = object (
    field "cn" (text p.common_name)
      (field "sn" (text p.serial_number) (field "fp" (text p.fingerprint) end)))

abbrev pin_of : Value → CertPin → Option CertPin
pin_of (object (field _ (text cn) (field _ (text sn) (field _ (text fp) end)))) p =
    some (record { common_name = cn; serial_number = sn; fingerprint = fp })
pin_of _ p = some p

-- A storage in memory that never fails, a clock that stands at 1000 seconds, and an API whose first
-- ten calls answer.
abbrev pub memory : Env
memory = record {
  Store = String → Option Blob;
  storage_get = λ p s. good (s p);
  storage_put = λ p b s. (none, λ q. if p == q then some b else s q);
  storage_delete = λ p s. (none, λ q. if p == q then none else s q);
  storage_list = λ p s. good [];
  now = λ n. pos 1000000000000;
  random_label = λ n. "label";
  Remote = ℕ;
  retrieve_token = λ o c n. (good a_token, suc n);
  v3_call = λ c t call n. (if ltb n 10 then good a_response else bad (external "down"), suc n);
  v2_raw = λ c r n. (good a_response, suc n);
  v2_direct = λ c r n. (good (record { result = null; error = null }), suc n);
  token_expiry_time = λ t. pos 4600000000000;
  token_time_left = λ t. pos 3600000000000;
  pin_is_empty = λ p. p.common_name == "";
  pin_to_json = pin_object;
  pin_from_json = pin_of;
  serial_number_from_hex = λ s. good s;
  fingerprint_from = λ s. good s;
  hex_encode = λ s. s;
  url_hostname = λ s. good s;
  parse_duration = λ s. good (pos 0);
  date_utc = λ y m d. pos 0;
  to_lower = λ s. s;
  md5_hex = λ s. s;
  sha256_hex = λ s. s;
  has_certificates = λ s. true;
  PrivateKey = String;
  PublicKey = String;
  generate_key = λ n. good "key";
  marshal_key = λ k. raw k;
  parse_key = λ b. good "key";
  create_certificate = λ s a b k. good (raw s);
  parse_certificate = λ b.
      good
        (record { subject = "s"; not_before = pos 0; not_after = pos 0; public_key = some "key" });
  encrypt_oaep = λ n k b l. good b;
  decrypt_oaep = λ k b l. good b;
  pem_encode = λ b. "pem";
  pem_decode = λ s. none;
  gzip_compress = λ b. b;
  GzipReader = Blob;
  gzip_new_reader = λ b. good b;
  gzip_read_all = λ b. good b;
  show_number = λ n. "n";
  show_time = λ t. "t";
  show_duration = λ d. "d";
  show_value = λ v. "v";
  show_blob = λ b. "b";
  read_number = λ s. none;
}

abbrev pub some_keys : RoleKeys
some_keys = record {
  area_id = "aid";
  area_nid = pos 7;
  api_key = "key";
  key_secret = "secret";
  username = "user";
  password = "pass";
  max_qps = pos 2;
  force_proxy_mode = false;
  imported = false;
  exportable = true;
}

abbrev pub some_usage : StoredRoleUsage
some_usage = record zero_usage {
  v3_token = "old";
  v3_token_expiry = pos 4600;
  explicit_num_uses = pos 3;
  remaining_num_uses = pos 2;
}

abbrev pub a_role : StoredRole
a_role = record {
  keys = some_keys;
  usage = some_usage;
  private_key = none;
  name = "r";
  storage_path = "u/role/r";
}

abbrev pub some_cfg : BackendConfiguration
some_cfg = record {
  oaep_label = "label";
  proxy_server = "";
  proxy_server_auth = "";
  proxy_server_creds = "";
  tls_certs = "";
  cli_write_enabled = false;
  network_latency = pos 147;
  tls_pinning = pos 0;
  leaf_cert_pin = empty_pin;
  issuer_cert_pin = empty_pin;
  root_cert_pin = empty_pin;
}

abbrev pub a_plugin : AuthPlugin
a_plugin = record {
  cfg = some_cfg;
  oauth_helper = none;
  v3_clients = [];
  v2_clients = [];
  backend_uuid = "u";
}

abbrev pub a_store : String → Option Blob
a_store p =
    if p == "u/role/r/key"
    then some (json (encode_keys some_keys))
    else if p == "u/role/r/usage"
    then some (json (encode_usage some_usage))
    else none

abbrev pub a_world : World memory
a_world = record { store = a_store; remote = 0; plugin = a_plugin; ticks = 0 }

abbrev pub some_fields : FieldData
some_fields = record {
  get_ok = λ k. none;
  get = λ k. if k == "roleName" then text "r" else if k == "path" then text "services" else null;
}

abbrev pub Written : Type 0
Written = Option Err × memory.Store

pub memory-laws : StorageLaws memory
memory-laws = record {
  get-put_self = λ p b s s' e.
      sym (ap (λ (x : Written). good (x.1 p)) e)
      ∙ ap (λ (t : Bool). good (if t then some b else s p)) (eq_refl p);
  get-put_ne = λ p q b s s' e h.
      sym (ap (λ (x : Written). good (x.1 q)) e)
      ∙ ap (λ (t : Bool). good (if t then some b else s q)) (not_equal_of_ne p q h);
  get-delete_self = λ p s s' e.
      sym (ap (λ (x : Written). good (x.1 p)) e)
      ∙ ap (λ (t : Bool). good (if t then none else s p)) (eq_refl p);
  get-delete_ne = λ p q s s' e h.
      sym (ap (λ (x : Written). good (x.1 q)) e)
      ∙ ap (λ (t : Bool). good (if t then none else s q)) (not_equal_of_ne p q h);
}
