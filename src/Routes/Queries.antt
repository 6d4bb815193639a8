-- ===== src/Routes/Queries.antt =====
-- V2 requests of the two V2 paths: what their fields leave of the message that was posted.
use hcvault_mashery_api_auth.Prelude.{pos, ◌≡◌, refl, Option, arith}
use hcvault_mashery_api_auth.Value.{Fields, good}
use hcvault_mashery_api_auth.Exec.{ok}
use hcvault_mashery_api_auth.Request.{FieldData}
use hcvault_mashery_api_auth.V2.{verify_v2_operation_request, v2_request_of}
use hcvault_mashery_api_auth.Routes.{Conforms}
use hcvault_mashery_api_auth.Routes.Schemas.{path_proxy_v2_fields}
use hcvault_mashery_api_auth.Env.{V2Request}

module _ {S : Type 0} where
  -- Whatever a client posts to the V2 proxy, the request that is sent has the number 1, the method
  -- `object.query` and the version 2.0: the path declares none of the fields that these are read from.
  pub verify_v2_operation_request-proxied :
      (d : FieldData) (body : Option Fields) (s s' : S) (q : V2Request)
      → Conforms path_proxy_v2_fields d
      → verify_v2_operation_request d body s ≡ (ok (good q), s')
      → (q.id ≡ pos 1) × (q.method ≡ "object.query") × (q.version ≡ "2.0")
  unfolding verify_v2_operation_request v2_request_of path_proxy_v2_fields
  verify_v2_operation_request-proxied d body s s' q c e =
      ground
        (arith, c.undeclared "id" refl, c.undeclared "method" refl, c.undeclared "jsonrpc" refl)
