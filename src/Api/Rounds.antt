-- ===== src/Api/Rounds.antt =====
-- How often the fetch loop of mashery/transformers_v3.go calls the API.
use hcvault_mashery_api_auth.Prelude.{
  ℕ, ◌+◌, ◌≤◌, ℤ, eqb_ℤ, String, Bool, true, false, List, arith, if◌then◌else◌,
}
use hcvault_mashery_api_auth.Value.{Fields, Result}
use hcvault_mashery_api_auth.Exec.{◌>>◌}
use hcvault_mashery_api_auth.Token.{ensure_access_token_valid}
use hcvault_mashery_api_auth.Env.{
  Env, HttpResponse, V3Client, V3Call, fetch_any, delete_any, post_any, put_any,
}
use hcvault_mashery_api_auth.Request.{Req, Step}
use hcvault_mashery_api_auth.Api.{
  ApiContainer, api_container, FetchFunction, do_fetch_with_error_handling,
  fetch_with_error_handling, invoke, write_call, carry_method, finish, fetch_v3_resource,
  delete_v3_resource, write_to_v3_resource, method_post, method_put,
}
use hcvault_mashery_api_auth.Api.Counts.{
  IsAtMost, IsCosting, bind-IsAtMost, none-IsAtMost, do_fetch-IsAtMost,
}
use hcvault_mashery_api_auth.Api.Renewals.{IsUncounted, ensure-IsAtMost}

-- What such a count makes of the calls behind the client library: a call of a resource counts as one
-- at most, a request for a token does not count.
pub record CountsCalls (env : Env) (calls : env.Remote → ℕ) : Type 0 where
  pub fetched :
      (client : V3Client) (token : String) (call : V3Call) (m : env.Remote)
      → calls (env.v3_call client token call m).1 ≤ calls m + 1
  pub granted : IsUncounted env calls

module _ {env : Env} {calls : env.Remote → ℕ} (counts : CountsCalls env calls) where
  invoke-IsAtMost :
      (call : V3Call) (client : V3Client) (token : String)
      → IsAtMost {env = env} calls 1 (invoke {env = env} call client token)
  invoke-IsAtMost call client token = record {
    at = λ r. counts.fetched client token call r.world.remote;
  }

  write_call-IsAtMost :
      (path : String) (meth : ℤ) (body : Fields) (client : V3Client) (token : String)
      → IsAtMost {env = env} calls 1 (write_call path meth body client token)
  unfolding write_call
  write_call-IsAtMost path meth body client token = record {
    at = λ r. split r (eqb_ℤ meth method_post) (eqb_ℤ meth method_put);
  }
    where
      written : Bool → Bool → Step env ApiContainer (Result HttpResponse)
      written post put =
          if post
          then (carry_method "POST" >> invoke (post_any path body) client token)
          else if put
          then (carry_method "PUT" >> invoke (put_any path body) client token)
          else (carry_method "POST" >> invoke (post_any path body) client token)

      split :
          (r : Req env ApiContainer) (post put : Bool)
          → calls (written post put r).1.world.remote ≤ calls r.world.remote + 1
      split r true put = counts.fetched client token (post_any path body) r.world.remote
      split r false true = counts.fetched client token (put_any path body) r.world.remote
      split r false false = counts.fetched client token (post_any path body) r.world.remote

  fetch-IsAtMost :
      (f : FetchFunction env)
      → IsCosting {env = env} calls 1 f
      → IsAtMost {env = env} calls 3 (fetch_with_error_handling f)
  unfolding fetch_with_error_handling do_fetch_with_error_handling
  fetch-IsAtMost f k =
      do_fetch-IsAtMost ensure_access_token_valid f 1 3 (ensure-IsAtMost counts.granted) k

  finished-IsAtMost :
      (m : String) (x : Result HttpResponse)
      → IsAtMost {env = env} calls 0 (carry_method {env = env} m >> finish x)
  finished-IsAtMost m x = none-IsAtMost 0 (carry_method m >> finish x) (λ r. ground arith)

  finish-IsAtMost : (x : Result HttpResponse) → IsAtMost {env = env} calls 0 (finish {env = env} x)
  finish-IsAtMost x = none-IsAtMost 0 (finish x) (λ r. ground arith)

  -- The fetch loop ends, and soon: with a count of the calls behind the client library by which a
  -- call of a resource is one at most and a request for a token none, reading, deleting and writing
  -- a resource of the V3 API each make at most three calls, whatever the API answers.
  pub CountsCalls-le :
      (path : String) (query : List (String × String)) (meth : ℤ) (body : Fields)
      (r : Req env ApiContainer)
      → (calls (fetch_v3_resource path query r).1.world.remote ≤ calls r.world.remote + 3)
        × (calls (delete_v3_resource path r).1.world.remote ≤ calls r.world.remote + 3)
        × (calls (write_to_v3_resource path meth body r).1.world.remote ≤ calls r.world.remote + 3)
  unfolding fetch_v3_resource delete_v3_resource write_to_v3_resource
  CountsCalls-le path query meth body r = (
    (bind-IsAtMost 3 0 3 (fetch_with_error_handling (invoke (fetch_any path query)))
          (λ x. carry_method "GET" >> finish x) (omega arith)
          (fetch-IsAtMost (invoke (fetch_any path query)) (invoke-IsAtMost (fetch_any path query)))
          (finished-IsAtMost "GET")).at
        r,
    (bind-IsAtMost 3 0 3 (fetch_with_error_handling (invoke (delete_any path)))
          (λ x. carry_method "DELETE" >> finish x) (omega arith)
          (fetch-IsAtMost (invoke (delete_any path)) (invoke-IsAtMost (delete_any path)))
          (finished-IsAtMost "DELETE")).at
        r,
    (bind-IsAtMost 3 0 3 (fetch_with_error_handling (write_call path meth body)) finish
          (omega arith)
          (fetch-IsAtMost (write_call path meth body) (write_call-IsAtMost path meth body))
          finish-IsAtMost).at
        r,
  )
