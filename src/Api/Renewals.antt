-- ===== src/Api/Renewals.antt =====
-- The renewal of a token costs no call of a resource.
use hcvault_mashery_api_auth.Prelude.{ℕ, ◌≤◌, ◌≡◌, refl, arith}
use hcvault_mashery_api_auth.Value.{Result}
use hcvault_mashery_api_auth.Exec.{pure, lift, ◌>>=◌, ◌>>◌}
use hcvault_mashery_api_auth.Role.{
  StoredRole, Credentials, as_v3_credentials, replace_access_token, v3_token_needs_renew,
}
use hcvault_mashery_api_auth.Role.Json.{encode_usage}
use hcvault_mashery_api_auth.Time.{unix}
use hcvault_mashery_api_auth.Token.{
  request_token, renew_token, role_or_error, ensure_access_token_valid,
}
use hcvault_mashery_api_auth.Env.{Env, Token, OAuthParams}
use hcvault_mashery_api_auth.Plugin.{get_oauth_helper}
use hcvault_mashery_api_auth.Request.{Req, Step, get_heap, get_path, read_clock, write_path}
use hcvault_mashery_api_auth.RoleSteps.{set_role, role_usage_path}
use hcvault_mashery_api_auth.Api.{ApiContainer, api_container}
use hcvault_mashery_api_auth.Api.Counts.{IsAtMost, bind-IsAtMost, if-IsAtMost, none-IsAtMost}

-- A request for a token is not counted.
abbrev pub IsUncounted : (env : Env) → (env.Remote → ℕ) → Type 0
IsUncounted env calls =
    (params : OAuthParams) (creds : Credentials) (m : env.Remote)
    → calls (env.retrieve_token params creds m).1 ≤ calls m

module _ {env : Env} {calls : env.Remote → ℕ} (granted : IsUncounted env calls) where
  request_token-IsAtMost :
      (creds : Credentials) → IsAtMost {env = env} calls 0 (request_token creds)
  unfolding request_token
  request_token-IsAtMost creds = record {
    at = λ r.
        let one = granted (get_oauth_helper env r.world.plugin).0 creds r.world.remote in
        omega arith;
  }

  -- What a renewal does with the answer of the authorization server.
  abbrev keep_token : StoredRole → Result Token → Step env ApiContainer (Unit {0})
  keep_token role answer = do
    tkn ← lift answer
    now ← read_clock
    path ← get_path
    let usage =
        replace_access_token now tkn.access_token (unix (env.token_expiry_time tkn)) role.usage
    set_role (record role { usage = usage })
    write_path (role_usage_path path) (encode_usage usage)

  keep_token-remote :
      (role : StoredRole) (answer : Result Token) (r : Req env ApiContainer)
      → (keep_token role answer r).1.world.remote ≡ r.world.remote
  unfolding write_path
  keep_token-remote role answer r = ground arith

  renew_token-IsAtMost :
      (role : StoredRole)
      → IsAtMost {env = env} calls 0 (renew_token {env = env} {H = ApiContainer} role)
  unfolding renew_token
  renew_token-IsAtMost role =
      bind-IsAtMost 0 0 0 (request_token (as_v3_credentials role)) (keep_token role) (omega arith)
        (request_token-IsAtMost (as_v3_credentials role))
        (λ answer. none-IsAtMost 0 (keep_token role answer) (keep_token-remote role answer))

  pub ensure-IsAtMost :
      IsAtMost {env = env} calls 0 (ensure_access_token_valid {env = env} {H = ApiContainer})
  unfolding ensure_access_token_valid
  ensure-IsAtMost =
      bind-IsAtMost 0 0 0 get_heap _ (omega arith) (none-IsAtMost 0 get_heap (λ r. refl)) (λ h.
        bind-IsAtMost 0 0 0 (role_or_error h.role) _ (omega arith)
          (none-IsAtMost 0 (role_or_error h.role) (λ r. ground arith))
          (λ role.
            bind-IsAtMost 0 0 0 read_clock _ (omega arith) (none-IsAtMost 0 read_clock (λ r. refl))
              (λ now.
                if-IsAtMost 0 (v3_token_needs_renew now role.usage) _ _ (renew_token-IsAtMost role)
                  (none-IsAtMost 0 (pure tt) (λ r. refl)))))
