-- ===== src/Api/Fetch.antt =====
-- The fetch loop of mashery/transformers_v3.go and the test of status codes: what comes out of them.
use hcvault_mashery_api_auth.Prelude.{
  ℕ, zero, suc, ◌≡◌, refl, Bool, true, false, Option, none, some, arith, ltb, eqb, if◌then◌else◌,
}
use hcvault_mashery_api_auth.Value.{Result, good, bad, Blob}
use hcvault_mashery_api_auth.Exec.{ok, pure}
use hcvault_mashery_api_auth.Exec.Laws.{bind-eq-ok}
use hcvault_mashery_api_auth.Role.{reset_token}
use hcvault_mashery_api_auth.Env.{Env, HttpResponse}
use hcvault_mashery_api_auth.Plugin.{get_mashery_v3_client}
use hcvault_mashery_api_auth.Request.{Req, Step}
use hcvault_mashery_api_auth.RoleSteps.{get_role}
use hcvault_mashery_api_auth.Request.Chain.Laws.{Refuses}
use hcvault_mashery_api_auth.Api.{
  ApiContainer, api_container, try, FetchFunction, after_response, attempt, refreshed, do_fetch,
  bounce_error_codes, forget_and, is_inactive, denied,
}

module _ {env : Env} where
  -- An answer of the loop is no refusal of access.
  abbrev NotDenied : Step env ApiContainer (Result HttpResponse) → Type 0
  NotDenied m =
      (r r' : Req env ApiContainer) (resp : HttpResponse)
      → m r ≡ (ok (good resp), r')
      → eqb resp.status_code 403 ≡ false

  forget-NotDenied :
      (retry : Step env ApiContainer (Result HttpResponse))
      → NotDenied retry
      → NotDenied (forget_and retry)
  forget-NotDenied retry h r r' resp e =
      let (role, (u, e1, e2)) = bind-eq-ok get_role _ r e in
      h
        (record u {
          heap = record (u.heap) { role = some (record role { usage = reset_token role.usage }) };
        })
        r' resp e2

  after_response-NotDenied :
      (retry : Step env ApiContainer (Result HttpResponse)) (a : Result HttpResponse)
      → NotDenied retry
      → NotDenied (after_response retry a)
  unfolding after_response
  after_response-NotDenied retry (bad err) h r r' resp e = absurd (ground arith)
  after_response-NotDenied retry (good x) h r r' resp e =
      split (eqb x.status_code 403) (is_inactive x) refl e
    where
      split :
          (b c : Bool)
          → eqb x.status_code 403 ≡ b
          → (if b then if c then forget_and retry else pure (bad denied) else pure (good x)) r
            ≡ (ok (good resp), r')
          → eqb resp.status_code 403 ≡ false
      split true true q e' = forget-NotDenied retry h r r' resp e'
      split true false q e' = absurd (ground arith)
      split false c q e' = ground arith

  attempt-NotDenied :
      (f : FetchFunction env) (retry : Step env ApiContainer (Result HttpResponse))
      → NotDenied retry
      → NotDenied (attempt f retry)
  unfolding attempt
  attempt-NotDenied f retry h r r' resp e =
      let (role, (u, e1, e2)) = bind-eq-ok get_role _ r e in
      let used = get_mashery_v3_client env (env.now u.world.ticks) role u.world.plugin in
      let (a, (v, e3, e4)) =
        bind-eq-ok (f used.0 role.usage.v3_token) (λ a. after_response retry a)
          (record u { world = record (u.world) { ticks = suc u.world.ticks; plugin = used.1 } })
          e2 in
      after_response-NotDenied retry a h v r' resp e4

  refreshed-NotDenied :
      (f : FetchFunction env) (retry : Step env ApiContainer (Result HttpResponse))
      (x : Result (Unit {0}))
      → NotDenied retry
      → NotDenied (refreshed f retry x)
  refreshed-NotDenied f retry (bad err) h r r' resp e = absurd (ground arith)
  refreshed-NotDenied f retry (good x) h r r' resp e = attempt-NotDenied f retry h r r' resp e

  -- However many rounds there are and whatever refreshes the token, a response that the fetch loop
  -- returns without an error does not have the status 403.
  pub do_fetch-NotDenied :
      (refresher : Step env ApiContainer (Unit {0})) (f : FetchFunction env) (rounds : ℕ)
      (r r' : Req env ApiContainer) (resp : HttpResponse)
      → do_fetch refresher f rounds r ≡ (ok (good resp), r')
      → eqb resp.status_code 403 ≡ false
  unfolding do_fetch
  do_fetch-NotDenied refresher f zero r r' resp e = absurd (ground arith)
  do_fetch-NotDenied refresher f (suc rounds) r r' resp e =
      let (x, (u, e1, f1)) = bind-eq-ok (try refresher) _ r e in
      refreshed-NotDenied f (do_fetch refresher f rounds) x (do_fetch-NotDenied refresher f rounds)
        u r' resp f1

  -- A response passes the test of its status only where its body can be read and its status is at
  -- most 299, and then the request goes on unchanged.
  pub bounce_error_codes-eq-ok :
      (r r' : Req env ApiContainer)
      → bounce_error_codes r ≡ (ok tt, r')
      → (resp : HttpResponse) × (r.heap.response ≡ some resp)
        × (ltb 299 resp.status_code ≡ false)
        × ((body : Blob) × (resp.body ≡ good body))
        × (r' ≡ r)
  unfolding bounce_error_codes
  bounce_error_codes-eq-ok r r' e = split r.heap.response refl
    where
      split :
          (o : Option HttpResponse)
          → r.heap.response ≡ o
          → (resp : HttpResponse) × (r.heap.response ≡ some resp)
            × (ltb 299 resp.status_code ≡ false)
            × ((body : Blob) × (resp.body ≡ good body))
            × (r' ≡ r)
      split none q = absurd (ground arith)
      split (some resp) q = by_body resp.body refl
        where
          by_body :
              (b : Result Blob)
              → resp.body ≡ b
              → (resp : HttpResponse) × (r.heap.response ≡ some resp)
                × (ltb 299 resp.status_code ≡ false)
                × ((body : Blob) × (resp.body ≡ good body))
                × (r' ≡ r)
          by_body (bad err) p = absurd (ground arith)
          by_body (good b) p = (resp, q, ground arith, (b, p), ground arith)

  pub bounce_error_codes-Refuses : Refuses {S = Req env ApiContainer} bounce_error_codes
  unfolding bounce_error_codes
  bounce_error_codes-Refuses s p e = ground arith
