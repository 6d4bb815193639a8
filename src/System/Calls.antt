-- ===== src/System/Calls.antt =====
-- The steps that use the plugin: tokens, calls of the API, and a new configuration.
use hcvault_mashery_api_auth.Prelude.{ℕ, zero, suc, ℤ, String, refl, List, arith, eqb}
use hcvault_mashery_api_auth.Value.{Fields, Result, good, bad}
use hcvault_mashery_api_auth.Exec.{Exit, ok, respond, fail, panic, pure, lift, ◌>>=◌, ◌>>◌}
use hcvault_mashery_api_auth.Role.{
  StoredRole, Credentials, as_v3_credentials, v3_token_needs_renew, replace_access_token,
}
use hcvault_mashery_api_auth.Role.Json.{encode_usage}
use hcvault_mashery_api_auth.Time.{unix}
use hcvault_mashery_api_auth.Env.{
  Env, Token, HttpResponse, V3Client, V2Client, V2Request, fetch_any, delete_any,
}
use hcvault_mashery_api_auth.Plugin.{get_mashery_v3_client, get_mashery_v2_client, AuthPlugin}
use hcvault_mashery_api_auth.Plugin.Cache.{
  IsCoherent, get_oauth_helper-IsCoherent, get_mashery_v3_client-IsCoherent,
  accept_configuration_update-IsCoherent,
}
use hcvault_mashery_api_auth.Request.{
  Req, Step, get_heap, put_heap, call_remote, get_path, read_clock, write_path,
}
use hcvault_mashery_api_auth.RoleSteps.{RoleContext, get_role, set_role, role_usage_path}
use hcvault_mashery_api_auth.Token.{
  v3_token_container, request_token, renew_token, role_or_error, ensure_access_token_valid,
  accept_token, retrieve_v3_access_token,
}
use hcvault_mashery_api_auth.Api.{
  ApiContainer, api_container, carry_method, FetchFunction, try, after_response, attempt, refreshed,
  do_fetch, do_fetch_with_error_handling, fetch_with_error_handling, invoke, finish,
  fetch_v3_resource, delete_v3_resource, write_call, write_to_v3_resource, is_inactive, denied,
}
use hcvault_mashery_api_auth.V2.{
  V2Container, v2_container, carried, v2_client_of_role, execute_v2_call_to_raw_response,
  execute_v2_call,
}
use hcvault_mashery_api_auth.ConfigSteps.{ConfigContext, accept_backend_configuration}
use hcvault_mashery_api_auth.System.Keeps.{Keeps, Keeps-of_plugin, bind-Keeps, if-Keeps}

module _ {env : Env} where
  -- The V2 clients are not what the helper and the V3 clients depend on.
  get_mashery_v2_client-IsCoherent :
      (now : ℤ) (role : StoredRole) (b : AuthPlugin)
      → IsCoherent env b
      → IsCoherent env (get_mashery_v2_client env now role b).1
  unfolding get_mashery_v2_client
  get_mashery_v2_client-IsCoherent now role b h = ground (arith, h)

module _ {env : Env} {H : Type 0} where
  request_token-Keeps : (creds : Credentials) → Keeps {env = env} {H = H} (request_token creds)
  unfolding request_token
  request_token-Keeps creds = record {
    at = λ r h. (get_oauth_helper-IsCoherent env r.world.plugin h).0;
  }

  try-Keeps : {A : Type 0} (m : Step env H A) → Keeps m → Keeps (try m)
  try-Keeps {A} m k = record { at = λ r h. split (m r) (k.at r h) }
    where
      tried : Exit A × Req env H → Exit (Result A) × Req env H
      tried (x, s') = elim x [
        | ok a ↦ (ok (good a), s')
        | respond lr ↦ (respond lr, s')
        | fail e ↦ (ok (bad e), s')
        | panic ↦ (panic, s')
      ]

      split :
          (x : Exit A × Req env H)
          → IsCoherent env x.1.world.plugin
          → IsCoherent env (tried x).1.world.plugin
      split (ok a, r) h = h
      split (respond lr, r) h = h
      split (fail e, r) h = h
      split (panic, r) h = h

module _ {env : Env} {H : Type 0} ⦃rc : RoleContext H⦄ where
  -- What a renewal does with the answer of the authorization server.
  abbrev keep_token : StoredRole → Result Token → Step env H (Unit {0})
  keep_token role answer = do
    tkn ← lift answer
    now ← read_clock
    path ← get_path
    let usage =
        replace_access_token now tkn.access_token (unix (env.token_expiry_time tkn)) role.usage
    set_role (record role { usage = usage })
    write_path (role_usage_path path) (encode_usage usage)

  keep_token-Keeps :
      (role : StoredRole) (answer : Result Token)
      → Keeps {env = env} {H = H} (keep_token role answer)
  unfolding write_path
  keep_token-Keeps role answer = Keeps-of_plugin (keep_token role answer) (λ r. ground arith)

  renew_token-Keeps : (role : StoredRole) → Keeps {env = env} {H = H} (renew_token role)
  unfolding renew_token write_path
  renew_token-Keeps role =
      bind-Keeps (request_token (as_v3_credentials role)) (keep_token role)
        (request_token-Keeps (as_v3_credentials role)) (keep_token-Keeps role)

  pub ensure_access_token_valid-Keeps : Keeps {env = env} {H = H} ensure_access_token_valid
  unfolding ensure_access_token_valid
  ensure_access_token_valid-Keeps =
      bind-Keeps get_heap _ (Keeps-of_plugin get_heap (λ r. refl)) (λ h.
        bind-Keeps (role_or_error (rc.get_role h)) _
          (Keeps-of_plugin (role_or_error (rc.get_role h)) (λ r. ground arith))
          (λ role. bind-Keeps read_clock _ (Keeps-of_plugin read_clock (λ r. refl)) (λ now.
            if-Keeps (v3_token_needs_renew now role.usage) _ _ (renew_token-Keeps role)
              (Keeps-of_plugin (pure tt) (λ r. refl)))))

  get_role-Keeps : Keeps {env = env} {H = H} get_role
  get_role-Keeps = Keeps-of_plugin get_role (λ r. ground arith)

  v2_client_of_role-Keeps : Keeps {env = env} {H = H} v2_client_of_role
  unfolding v2_client_of_role
  v2_client_of_role-Keeps =
      bind-Keeps get_role _ get_role-Keeps
        (λ role. record { at = λ r h. get_mashery_v2_client-IsCoherent _ role r.world.plugin h })

module _ {env : Env} where
  pub retrieve_v3_access_token-Keeps : Keeps {env = env} retrieve_v3_access_token
  unfolding retrieve_v3_access_token
  retrieve_v3_access_token-Keeps = bind-Keeps get_role _ get_role-Keeps (λ role.
      bind-Keeps (request_token (as_v3_credentials role)) _
        (request_token-Keeps (as_v3_credentials role)) (λ answer. accepted role answer))
    where
      accepted : (role : StoredRole) (x : Result Token) → Keeps {env = env} (accept_token role x)
      accepted role x = Keeps-of_plugin (accept_token role x) (λ r. ground arith)

  -- A fetch function that leaves the plugin alone, with any client and token.
  abbrev KeepsFetch : FetchFunction env → Type 0
  KeepsFetch f = (client : V3Client) (token : String) → Keeps (f client token)

  after_response-Keeps :
      (retry : Step env ApiContainer (Result HttpResponse)) (x : Result HttpResponse)
      → Keeps retry
      → Keeps (after_response retry x)
  unfolding after_response
  after_response-Keeps retry (bad err) k = Keeps-of_plugin _ (λ r. refl)
  after_response-Keeps retry (good resp) k =
      if-Keeps (eqb resp.status_code 403) _ _
        (if-Keeps (is_inactive resp) _ _
          (bind-Keeps get_role _ get_role-Keeps (λ role. record { at = λ r h. k.at _ h }))
          (Keeps-of_plugin (pure (bad denied)) (λ r. refl)))
        (Keeps-of_plugin (pure (good resp)) (λ r. refl))

  -- A call with a client from the cache, and what the loop does with its answer.
  called-Keeps :
      (f : FetchFunction env) (retry : Step env ApiContainer (Result HttpResponse))
      (role : StoredRole) (client : V3Client)
      → KeepsFetch f
      → Keeps retry
      → Keeps (f client role.usage.v3_token >>= after_response retry)
  called-Keeps f retry role client kf k =
      bind-Keeps (f client role.usage.v3_token) (after_response retry)
        (kf client role.usage.v3_token) (λ x. after_response-Keeps retry x k)

  attempt-Keeps :
      (f : FetchFunction env) (retry : Step env ApiContainer (Result HttpResponse))
      → KeepsFetch f
      → Keeps retry
      → Keeps (attempt f retry)
  unfolding attempt
  attempt-Keeps f retry kf k = bind-Keeps get_role _ get_role-Keeps (λ role. record {
    at = λ r h.
        let now = env.now r.world.ticks in
        (called-Keeps f retry role (get_mashery_v3_client env now role r.world.plugin).0 kf k).at
          (record r {
            world = record (r.world) {
              ticks = suc r.world.ticks;
              plugin = (get_mashery_v3_client env now role r.world.plugin).1;
            };
          })
          (get_mashery_v3_client-IsCoherent env now role r.world.plugin h).0;
  })

  refreshed-Keeps :
      (f : FetchFunction env) (retry : Step env ApiContainer (Result HttpResponse))
      → KeepsFetch f
      → Keeps retry
      → (x : Result (Unit {0})) → Keeps (refreshed f retry x)
  refreshed-Keeps f retry kf k (bad e) = Keeps-of_plugin _ (λ r. refl)
  refreshed-Keeps f retry kf k (good u) = attempt-Keeps f retry kf k

  do_fetch-Keeps :
      (refresher : Step env ApiContainer (Unit {0})) (f : FetchFunction env) (rounds : ℕ)
      → Keeps refresher
      → KeepsFetch f
      → Keeps (do_fetch refresher f rounds)
  unfolding do_fetch
  do_fetch-Keeps refresher f zero kr kf = Keeps-of_plugin _ (λ r. refl)
  do_fetch-Keeps refresher f (suc n) kr kf =
      bind-Keeps (try refresher) _ (try-Keeps refresher kr)
        (refreshed-Keeps f (do_fetch refresher f n) kf (do_fetch-Keeps refresher f n kr kf))

  fetch-Keeps : (f : FetchFunction env) → KeepsFetch f → Keeps (fetch_with_error_handling f)
  unfolding fetch_with_error_handling do_fetch_with_error_handling
  fetch-Keeps f kf = do_fetch-Keeps ensure_access_token_valid f 3 ensure_access_token_valid-Keeps kf

  -- The end of a resource step, after it noted its method.
  finished-Keeps :
      (m : String) (x : Result HttpResponse) → Keeps {env = env} (carry_method m >> finish x)
  finished-Keeps m (good resp) = Keeps-of_plugin (carry_method m >> finish (good resp)) (λ r. refl)
  finished-Keeps m (bad err) = Keeps-of_plugin (carry_method m >> finish (bad err)) (λ r. refl)

  finish-Keeps : (x : Result HttpResponse) → Keeps {env = env} (finish x)
  finish-Keeps (good resp) = Keeps-of_plugin (finish (good resp)) (λ r. refl)
  finish-Keeps (bad err) = Keeps-of_plugin (finish (bad err)) (λ r. refl)

  pub fetch_v3_resource-Keeps :
      (path : String) (qs : List (String × String)) → Keeps {env = env} (fetch_v3_resource path qs)
  unfolding fetch_v3_resource
  fetch_v3_resource-Keeps path qs =
      bind-Keeps (fetch_with_error_handling (invoke (fetch_any path qs)))
        (λ x. carry_method "GET" >> finish x)
        (fetch-Keeps (invoke (fetch_any path qs)) (λ c t. Keeps-of_plugin _ (λ r. refl)))
        (finished-Keeps "GET")

  pub delete_v3_resource-Keeps : (path : String) → Keeps {env = env} (delete_v3_resource path)
  unfolding delete_v3_resource
  delete_v3_resource-Keeps path =
      bind-Keeps (fetch_with_error_handling (invoke (delete_any path)))
        (λ x. carry_method "DELETE" >> finish x)
        (fetch-Keeps (invoke (delete_any path)) (λ c t. Keeps-of_plugin _ (λ r. refl)))
        (finished-Keeps "DELETE")

  pub write_to_v3_resource-Keeps :
      (path : String) (meth : ℤ) (body : Fields)
      → Keeps {env = env} (write_to_v3_resource path meth body)
  unfolding write_to_v3_resource write_call
  write_to_v3_resource-Keeps path meth body =
      bind-Keeps (fetch_with_error_handling (write_call path meth body)) finish
        (fetch-Keeps (write_call path meth body)
          (λ c t. Keeps-of_plugin (write_call path meth body c t) (λ r. ground arith)))
        finish-Keeps

  pub v2_raw-Keeps : (q : V2Request) → Keeps {env = env} (execute_v2_call_to_raw_response q)
  unfolding execute_v2_call_to_raw_response
  v2_raw-Keeps q = bind-Keeps v2_client_of_role _ v2_client_of_role-Keeps (λ cl. answered cl)
    where
      answered : (cl : V2Client) → Keeps (call_remote {env = env} (env.v2_raw cl q) >>= carried)
      answered cl =
          Keeps-of_plugin (call_remote {env = env} (env.v2_raw cl q) >>= carried)
            (λ r. ground arith)

  pub v2_call-Keeps : (q : V2Request) → Keeps {env = env} (execute_v2_call q)
  unfolding execute_v2_call
  v2_call-Keeps q =
      bind-Keeps v2_client_of_role (λ cl. called cl) v2_client_of_role-Keeps
        (λ cl. Keeps-of_plugin (called cl) (λ r. ground arith))
    where
      called : V2Client → Step env V2Container (Unit {0})
      called cl = do
        answer' ← call_remote (env.v2_direct cl q)
        resp ← lift answer'
        h ← get_heap
        put_heap (record h { result = resp })

module _ {env : Env} {H : Type 0} ⦃cc : ConfigContext H⦄ where
  pub accept-Keeps : Keeps {env = env} {H = H} accept_backend_configuration
  unfolding accept_backend_configuration
  accept-Keeps = record {
    at = λ r h. (accept_configuration_update-IsCoherent env (cc.get_cfg r.heap) r.world.plugin).0;
  }
