-- ===== src/Grant.antt =====
-- Credentials by value: mashery/transformers_grant.go, mashery/path_role_grant.go,
-- mashery/path_role_token.go and the signature half of mashery/transformers_v2.go.
pub mod Checks
pub mod Storage
pub mod Sound
pub mod Quota
pub mod Passes
pub mod Live
pub mod Tokens
use hcvault_mashery_api_auth.Prelude.{
  ℕ, zero, suc, ◌+◌, ◌-◌, ◌*◌, ◌/◌, ◌%◌, ◌^◌, ◌≤◌, ◌<◌, ℤ, pos, negsuc, pos_part, neg_part, ◌+ℤ◌,
  ◌-ℤ◌, ◌≤ℤ◌, ◌<ℤ◌, ltb_ℤ, leb_ℤ, eqb_ℤ, wrap64, IsInt64, wrap64_of_IsInt64, String, ◌<>◌, ◌≡◌,
  refl, sym, ap, ◌∙◌, fun_ext, subst, ◌≢◌, ◌↔◌, ◌⊎◌, inl, inr, Bool, true, false, not, ◌&&◌, ◌||◌,
  Option, none, some, List, [], ◌∷◌, ◌++◌, map, arith, ◌==◌, eq_iff, eq_refl, ltb, leb, eqb,
  if◌then◌else◌, Bool-cases, Option-cases, length, ne_of_not_equal, not_equal_of_ne, append-ne_left,
  append-ne_right,
}
use hcvault_mashery_api_auth.Value.{
  Value, text, number, truth, moment, duration, Fields, end, field, Response, error_response,
  answer, Payload, Lease, arg_number,
}
use hcvault_mashery_api_auth.Exec.{
  Exit, ok, respond, fail, panic, Exec, pure, stop, crash, deref, ◌>>=◌, ◌>>◌,
}
use hcvault_mashery_api_auth.Time.{unix, add64, scale64, second}
use hcvault_mashery_api_auth.Role.{StoredRole}
use hcvault_mashery_api_auth.Env.{Env, Token}
use hcvault_mashery_api_auth.Plugin.{v2_signature_for}
use hcvault_mashery_api_auth.Request.{FieldData, Req, Step, World, get_heap, put_heap, read_clock}
use hcvault_mashery_api_auth.Request.Chain.{Transformer, simple_chain, mapping_run}
use hcvault_mashery_api_auth.RoleSteps.{
  RoleContext, RoleContainer, role_container, empty_container, get_role, read_role,
  block_operation_on_force_proxy_role, block_usage_exceeding_limits, block_role_incapable_of,
  decrease_remaining_usage_quota, forget_used_token, save_role_usage,
}
use hcvault_mashery_api_auth.Token.{
  V3TokenContainer, v3_token_container, empty_token_container, ensure_access_token_valid,
  retrieve_v3_access_token, rehydrate_v3_access_token,
}
use hcvault_mashery_api_auth.Handler.{Handler, handle_role_operation}

pub record GrantRequest : Type 0 where
  pub api_version : ℤ
  pub as_lease : Bool

-- `V2SignatureContainer`
pub record V2SignatureContainer : Type 0 where
  pub role : Option StoredRole
  pub sig : String

instance abbrev pub v2_signature_container : RoleContext V2SignatureContainer
v2_signature_container = record {
  get_role = λ h. h.role;
  carry_role = λ o h. record h { role = o };
  get-carry = λ o h. refl;
}

abbrev pub minutes : ℕ → ℤ
minutes n = pos (n * 60 * 1000000000)

-- `framework.Secret.Response`: the response has a lease with the secret's default duration, and can
-- be renewed if the secret has a renewal function, as both of the plugin's do.
abbrev pub secret_response : String → ℤ → Fields → Fields → Lease
secret_response secret_type default_duration data' internal = record {
  secret_type = secret_type;
  internal = internal;
  ttl = default_duration;
  max_ttl = pos 0;
  increment = pos 0;
  renewable = true;
}

abbrev pub payload : Fields → Option Lease → Response
payload body lease = answer (record { body = body; lease = lease; warnings = []; headers = [] })

module _ {S : Type 0} where
  abbrev version_param : Option Value → Exec S ℤ
  version_param none = pure (pos 3)
  version_param (some (number v)) =
      if leb_ℤ (pos 2) v && leb_ℤ v (pos 3)
      then pure v
      else stop (error_response "unsupported api version: %d" (arg_number v ∷ []))
  version_param (some _) = crash

  abbrev lease_param : Option Value → Exec S Bool
  lease_param none = pure false
  lease_param (some (truth b)) = pure b
  lease_param (some _) = crash

  unfoldable pub read_grant_request_params : FieldData → Exec S GrantRequest
  read_grant_request_params d = do
    api_version ← version_param (d.get_ok "api")
    as_lease ← lease_param (d.get_ok "lease")
    pure (record { api_version = api_version; as_lease = as_lease })

abbrev pub v2_body : StoredRole → String → Fields
v2_body role signature = field "area_nid" (number role.keys.area_nid) (
    field "qps" (number role.keys.max_qps)
      (field "api_key" (text role.keys.api_key) (field "sig" (text signature) end)))

abbrev pub token_body : Env → Token → StoredRole → Fields
token_body env tkn role = field "access_token" (text tkn.access_token) (
    field "expiry" (moment (env.token_expiry_time tkn)) (
      field "expiry_epoch" (number (unix (env.token_expiry_time tkn)))
        (field "qps" (number role.keys.max_qps) end)))

-- `createV3LeasedResponse`; `exp` is the clock's time at which the token ends.
unfoldable pub create_v3_leased_response : Env → ℤ → Token → StoredRole → Response
create_v3_leased_response env now tkn role =
    let exp = add64 now (scale64 second tkn.expires_in) in
    payload (token_body env tkn role) (
      some
        (record (secret_response "v3_access" (minutes 15) (token_body env tkn role) (
          field "roleStoragePath" (text role.storage_path) (
            field "refresh_token" (text tkn.refresh_token)
              (field "token_expiry_time" (number (unix exp)) end)))) {
                max_ttl = scale64 900000000 tkn.expires_in;
                increment = minutes 15;
                renewable = true;
              }))

module _ {env : Env} where
  unfoldable pub retrieve_v2_signature : Step env V2SignatureContainer (Unit {0})
  unfolding v2_signature_for
  retrieve_v2_signature = do
    role ← get_role
    now ← read_clock
    h ← get_heap
    put_heap (record h { sig = v2_signature_for env now role })

  unfoldable pub render_v2_lease_response : Step env V2SignatureContainer (Unit {0})
  render_v2_lease_response = do
    role ← get_role
    h ← get_heap
    stop (
        payload (v2_body role h.sig) (
          some (record (secret_response "v2_access" (minutes 1) (v2_body role h.sig) end) {
            ttl = minutes 1;
            max_ttl = minutes 2;
          })))

  unfoldable pub render_v2_plain_response : Step env V2SignatureContainer (Unit {0})
  render_v2_plain_response = do
    role ← get_role
    h ← get_heap
    stop (payload (v2_body role h.sig) none)

  unfoldable pub render_v3_lease_response : Step env V3TokenContainer (Unit {0})
  unfolding create_v3_leased_response
  render_v3_lease_response = do
    role ← get_role
    h ← get_heap
    tkn ← deref h.token
    now ← read_clock
    stop (create_v3_leased_response env now tkn role)

  -- `ExpiryTime` is called on the token before the test for nil, which it does not survive.
  unfoldable pub render_v3_plain_response : Step env V3TokenContainer (Unit {0})
  render_v3_plain_response = do
    h ← get_heap
    tkn ← deref h.token
    role ← get_role
    stop (
        payload
          (field "token_time_remaining" (duration (env.token_time_left tkn))
            (token_body env tkn role))
          none)

  unfoldable pub select_v2_rendering_func : GrantRequest → Transformer env V2SignatureContainer
  unfolding render_v2_lease_response render_v2_plain_response
  select_v2_rendering_func gr =
      if gr.as_lease then render_v2_lease_response else render_v2_plain_response

  unfoldable pub select_v3_rendering_func : GrantRequest → Transformer env V3TokenContainer
  unfolding render_v3_lease_response render_v3_plain_response
  select_v3_rendering_func gr =
      if gr.as_lease then render_v3_lease_response else render_v3_plain_response

  -- The steps before credentials are given out.
  unfoldable pub grant_checks : ℤ → List (Transformer env RoleContainer)
  grant_checks api_version =
      read_role true
      ∷ block_operation_on_force_proxy_role
      ∷ block_usage_exceeding_limits
      ∷ block_role_incapable_of api_version
      ∷ decrease_remaining_usage_quota
      ∷ []

  -- `mapRoleContextToV3TokenContext`, run over these steps.
  unfoldable pub with_v3_token :
      List (Transformer env RoleContainer)
      → List (Transformer env V3TokenContainer)
      → Transformer env V3TokenContainer
  unfolding mapping_run
  with_v3_token base_checks =
      mapping_run (simple_chain base_checks) (λ _. empty_container)
        (λ from to. record to { role = from.role })

  unfoldable pub with_v2_signature :
      List (Transformer env RoleContainer)
      → List (Transformer env V2SignatureContainer)
      → Transformer env V2SignatureContainer
  unfolding mapping_run
  with_v2_signature base_checks =
      mapping_run (simple_chain base_checks) (λ _. empty_container)
        (λ from to. record to { role = from.role })

  -- The switch on the version that was asked for.
  unfoldable pub grant_version : GrantRequest → Handler env
  unfolding grant_checks with_v3_token with_v2_signature handle_role_operation
  grant_version params d body =
      if eqb_ℤ params.api_version (pos 2)
      then handle_role_operation (record { role = none; sig = "" })
          (with_v2_signature (grant_checks params.api_version)
            (retrieve_v2_signature ∷ select_v2_rendering_func params ∷ []))
          d body
      else if eqb_ℤ params.api_version (pos 3)
      then handle_role_operation empty_token_container
          (with_v3_token (grant_checks params.api_version)
            (retrieve_v3_access_token ∷ select_v3_rendering_func params ∷ []))
          d body
      else stop (error_response "unsupported api version" [])

  unfoldable pub issue_grant : Handler env
  unfolding read_grant_request_params grant_version
  issue_grant d body = do params ← read_grant_request_params d; grant_version params d body

  unfoldable pub token_checks : List (Transformer env RoleContainer)
  token_checks =
      read_role true
      ∷ block_operation_on_force_proxy_role
      ∷ block_usage_exceeding_limits
      ∷ block_role_incapable_of (pos 3)
      ∷ decrease_remaining_usage_quota
      ∷ ensure_access_token_valid
      ∷ []

  unfoldable pub read_role_token : Handler env
  unfolding read_grant_request_params token_checks with_v3_token handle_role_operation
  read_role_token d body = do
    params ← read_grant_request_params d
    handle_role_operation empty_token_container
        (with_v3_token token_checks
          (rehydrate_v3_access_token ∷ select_v3_rendering_func params ∷ []))
        d body

  unfoldable pub delete_token : Handler env
  unfolding handle_role_operation simple_chain
  delete_token =
      handle_role_operation empty_container
        (simple_chain (read_role true ∷ forget_used_token ∷ save_role_usage ∷ []))
