-- ===== src/Token.antt =====
-- V3 access tokens: `ensureAccessTokenValidForRole` and `retrieveV3AccessToken` of
-- mashery/transformers_v3.go, and `rehydrateV3AccessToken` of mashery/path_role_token.go.
pub mod Laws
use hcvault_mashery_api_auth.Prelude.{pos, ltb_ℤ, refl, ◌&&◌, Option, none, some, [], if◌then◌else◌}
use hcvault_mashery_api_auth.Value.{new_error, wrapped, Result, good, bad}
use hcvault_mashery_api_auth.Exec.{pure, throw, lift, ◌>>=◌, ◌>>◌}
use hcvault_mashery_api_auth.Time.{unix, from_unix, sub64}
use hcvault_mashery_api_auth.Role.{
  StoredRole, Credentials, v3_token_needs_renew, replace_access_token, as_v3_credentials,
  after_expiry_term,
}
use hcvault_mashery_api_auth.Role.Json.{encode_usage}
use hcvault_mashery_api_auth.Env.{Env, Token}
use hcvault_mashery_api_auth.Plugin.{get_oauth_helper}
use hcvault_mashery_api_auth.Request.{
  Step, get_heap, put_heap, get_plugin, put_plugin, get_path, read_clock, write_path, call_remote,
}
use hcvault_mashery_api_auth.RoleSteps.{RoleContext, get_role, set_role, role_usage_path}

-- `V3TokenContextContainer`
pub record V3TokenContainer : Type 0 where
  pub role : Option StoredRole
  pub token : Option Token

instance abbrev pub v3_token_container : RoleContext V3TokenContainer
v3_token_container = record {
  get_role = λ h. h.role;
  carry_role = λ o h. record h { role = o };
  get-carry = λ o h. refl;
}

abbrev pub empty_token_container : V3TokenContainer
empty_token_container = record { role = none; token = none }

module _ {env : Env} {H : Type 0} where
  -- `GetOAuthHelper().RetrieveAccessTokenFor(&creds)`
  unfoldable pub request_token : Credentials → Step env H (Result Token)
  unfolding get_oauth_helper
  request_token creds = do
    b ← get_plugin
    put_plugin (get_oauth_helper env b).1
    call_remote (env.retrieve_token (get_oauth_helper env b).0 creds)

module _ {env : Env} {H : Type 0} ⦃rc : RoleContext H⦄ where
  -- The branch that renews: the new token is put into the role and stored.
  unfoldable pub renew_token : StoredRole → Step env H (Unit {0})
  unfolding request_token role_usage_path
  renew_token role = do
    answer ← request_token (as_v3_credentials role)
    tkn ← lift answer
    now ← read_clock
    path ← get_path
    let usage =
        replace_access_token now tkn.access_token (unix (env.token_expiry_time tkn)) role.usage
    set_role (record role { usage = usage })
    write_path (role_usage_path path) (encode_usage usage)

  abbrev pub role_or_error : Option StoredRole → Step env H StoredRole
  role_or_error none = throw (
      new_error
        "received a nil pointer to role; need an initialized StoreRole to request access token" [])
  role_or_error (some role) = pure role

  unfoldable pub ensure_access_token_valid : Step env H (Unit {0})
  unfolding renew_token
  ensure_access_token_valid = do
    h ← get_heap
    role ← role_or_error (rc.get_role h)
    now ← read_clock
    if v3_token_needs_renew now role.usage then renew_token role else pure tt

module _ {env : Env} where
  abbrev carry_token : Token → Step env V3TokenContainer (Unit {0})
  carry_token tkn = do h ← get_heap; put_heap (record h { token = some tkn })

  -- What is done with the answer of the authorization server.
  abbrev pub accept_token : StoredRole → Result Token → Step env V3TokenContainer (Unit {0})
  accept_token role (bad err) = throw (wrapped "access token was not granted by Mashery" err)
  accept_token role (good tkn) =
      if ltb_ℤ (pos 0) (unix tkn.server_time) && after_expiry_term tkn.server_time role.usage
      then throw (
          new_error
            "your system's clock is skewed. Mashery response is after expiry term of your role grant"
            [])
      else carry_token tkn

  unfoldable pub retrieve_v3_access_token : Step env V3TokenContainer (Unit {0})
  unfolding request_token
  retrieve_v3_access_token = do
    role ← get_role
    answer ← request_token (as_v3_credentials role)
    accept_token role answer

  -- The token that is stored with the role, in the form of a response of the server.
  unfoldable pub rehydrate_v3_access_token : Step env V3TokenContainer (Unit {0})
  rehydrate_v3_access_token = do
    role ← get_role
    now ← read_clock
    carry_token (record {
      obtained = from_unix role.usage.v3_token_obtained;
      server_time = now;
      qps = role.keys.max_qps;
      token_type = "Bearer";
      access_token = role.usage.v3_token;
      expires_in = sub64 role.usage.v3_token_expiry role.usage.v3_token_obtained;
      refresh_token = "";
    })
