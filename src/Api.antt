-- ===== src/Api.antt =====
-- Calls of the Mashery API: the heap `APIResponseContainer` of mashery/transformers_v2.go, and the
-- fetch loop and the V3 resource steps of mashery/transformers_v3.go.
pub mod Render
pub mod Fetch
pub mod Rounds
pub mod Counts
pub mod Renewals
pub mod Puts
use hcvault_mashery_api_auth.Prelude.{
  ℕ, zero, suc, ◌+◌, ◌-◌, ◌*◌, ◌/◌, ◌%◌, ◌^◌, ◌≤◌, ◌<◌, ℤ, pos, negsuc, pos_part, neg_part, ◌+ℤ◌,
  ◌-ℤ◌, ◌≤ℤ◌, ◌<ℤ◌, ltb_ℤ, leb_ℤ, eqb_ℤ, wrap64, IsInt64, wrap64_of_IsInt64, String, ◌<>◌, ◌≡◌,
  refl, sym, ap, ◌∙◌, fun_ext, subst, ◌≢◌, ◌↔◌, ◌⊎◌, inl, inr, Bool, true, false, not, ◌&&◌, ◌||◌,
  Option, none, some, List, [], ◌∷◌, ◌++◌, map, arith, ◌==◌, eq_iff, eq_refl, ltb, leb, eqb,
  if◌then◌else◌, Bool-cases, Option-cases, length, ne_of_not_equal, not_equal_of_ne, append-ne_left,
  append-ne_right,
}
use hcvault_mashery_api_auth.Value.{
  Value, Fields, Err, new_error, Result, good, bad, Blob, error_response, arg_text, arg_number,
}
use hcvault_mashery_api_auth.Exec.{
  Exit, ok, respond, fail, panic, Exec, pure, stop, throw, crash, lift, deref, ◌>>=◌, ◌>>◌,
}
use hcvault_mashery_api_auth.Role.{StoredRole, reset_token}
use hcvault_mashery_api_auth.Env.{
  Env, HttpResponse, V3Client, V3Call, fetch_any, delete_any, post_any, put_any, header_get,
}
use hcvault_mashery_api_auth.Plugin.{get_mashery_v3_client}
use hcvault_mashery_api_auth.Request.{
  Req, Step, get_heap, put_heap, get_plugin, put_plugin, read_clock, call_remote,
}
use hcvault_mashery_api_auth.RoleSteps.{RoleContext, get_role, set_role, refuse_if}
use hcvault_mashery_api_auth.Token.{ensure_access_token_valid}

-- `APIResponseContainer[*transport.WrappedResponse]`
pub record ApiContainer : Type 0 where
  pub role : Option StoredRole
  pub response : Option HttpResponse
  pub method : String

instance abbrev pub api_container : RoleContext ApiContainer
api_container = record {
  get_role = λ h. h.role;
  carry_role = λ o h. record h { role = o };
  get-carry = λ o h. refl;
}

abbrev pub empty_api_container : ApiContainer
empty_api_container = record { role = none; response = none; method = "" }

-- An action whose error is a value for its caller.
abbrev pub try : {S A : Type 0} → Exec S A → Exec S (Result A)
try m s =
    let (x, s') = m s in
    elim x [
      | ok a ↦ (ok (good a), s')
      | respond lr ↦ (respond lr, s')
      | fail e ↦ (ok (bad e), s')
      | panic ↦ (panic, s')
    ]

-- `methodPOST` and `methodPUT`
abbrev pub method_post : ℤ
method_post = pos 0

abbrev pub method_put : ℤ
method_put = pos 1

abbrev pub inactive_code : String
inactive_code = "ERR_403_DEVELOPER_INACTIVE"

abbrev pub is_inactive : HttpResponse → Bool
is_inactive resp = header_get "X-Mashery-Error-Code" resp.header == inactive_code

abbrev pub denied : Err
denied = new_error "mashery denies access to the selected resource" []

abbrev pub impossible_to_retrieve : Err
impossible_to_retrieve = new_error "resource is impossible to retrieve" []

-- A `HttpFetchFunction`, which has the client and the access token of its context.
abbrev pub FetchFunction : Env → Type 0
FetchFunction env = V3Client → String → Step env ApiContainer (Result HttpResponse)

module _ {env : Env} where
  abbrev pub carry_method : String → Step env ApiContainer (Unit {0})
  carry_method m = do h ← get_heap; put_heap (record h { method = m })

  abbrev pub carry_response : Option HttpResponse → Step env ApiContainer (Unit {0})
  carry_response o = do h ← get_heap; put_heap (record h { response = o })

  -- The token is forgotten before the next round.
  abbrev pub forget_and :
      Step env ApiContainer (Result HttpResponse) → Step env ApiContainer (Result HttpResponse)
  forget_and retry = do
    role ← get_role
    set_role (record role { usage = reset_token role.usage })
    retry

  -- What the loop does with the answer: `retry` is the rest of the loop.
  unfoldable pub after_response :
      Step env ApiContainer (Result HttpResponse)
      → Result HttpResponse
      → Step env ApiContainer (Result HttpResponse)
  after_response retry (bad err) = pure (bad err)
  after_response retry (good resp) =
      if eqb resp.status_code 403
      then if is_inactive resp then forget_and retry else pure (bad denied)
      else pure (good resp)

  -- One round of the loop, after the token was refreshed.
  unfoldable pub attempt :
      FetchFunction env
      → Step env ApiContainer (Result HttpResponse)
      → Step env ApiContainer (Result HttpResponse)
  unfolding after_response get_mashery_v3_client
  attempt fetch_func retry = do
    role ← get_role
    now ← read_clock
    b ← get_plugin
    put_plugin (get_mashery_v3_client env now role b).1
    answer ← fetch_func (get_mashery_v3_client env now role b).0 role.usage.v3_token
    after_response retry answer

  abbrev pub refreshed :
      FetchFunction env
      → Step env ApiContainer (Result HttpResponse)
      → Result (Unit {0})
      → Step env ApiContainer (Result HttpResponse)
  refreshed fetch_func retry (bad err) = pure (bad err)
  refreshed fetch_func retry (good _) = attempt fetch_func retry

  -- The rounds that are left of the three.
  unfoldable pub do_fetch :
      Step env ApiContainer (Unit {0})
      → FetchFunction env
      → ℕ
      → Step env ApiContainer (Result HttpResponse)
  do_fetch token_refresher fetch_func zero = pure (bad impossible_to_retrieve)
  do_fetch token_refresher fetch_func (suc rounds) = do
    refresh ← try token_refresher
    refreshed fetch_func (do_fetch token_refresher fetch_func rounds) refresh

  unfoldable pub do_fetch_with_error_handling :
      Step env ApiContainer (Unit {0})
      → FetchFunction env
      → Step env ApiContainer (Result HttpResponse)
  unfolding do_fetch
  do_fetch_with_error_handling token_refresher fetch_func = do_fetch token_refresher fetch_func 3

  unfoldable pub fetch_with_error_handling :
      FetchFunction env → Step env ApiContainer (Result HttpResponse)
  unfolding do_fetch_with_error_handling
  fetch_with_error_handling = do_fetch_with_error_handling ensure_access_token_valid

  abbrev pub invoke : V3Call → FetchFunction env
  invoke call client token = call_remote (env.v3_call client token call)

  abbrev return_error : Option Err → Step env ApiContainer (Unit {0})
  return_error none = pure tt
  return_error (some err) = throw err

  -- The end of a resource step, for `resp, err`: the response is carried, its status is logged, which
  -- dereferences it, and the error is returned.
  abbrev pub leave : Option HttpResponse → Option Err → Step env ApiContainer (Unit {0})
  leave resp err = do carry_response resp; logged ← deref resp; return_error err

  -- An error comes with a response that is nil.
  abbrev pub finish : Result HttpResponse → Step env ApiContainer (Unit {0})
  finish (good resp) = leave (some resp) none
  finish (bad err) = leave none (some err)

  unfoldable pub fetch_v3_resource :
      String → List (String × String) → Step env ApiContainer (Unit {0})
  unfolding fetch_with_error_handling
  fetch_v3_resource path qs = do
    answer ← fetch_with_error_handling (invoke (fetch_any path qs))
    carry_method "GET"
    finish answer

  unfoldable pub delete_v3_resource : String → Step env ApiContainer (Unit {0})
  unfolding fetch_with_error_handling
  delete_v3_resource path = do
    answer ← fetch_with_error_handling (invoke (delete_any path))
    carry_method "DELETE"
    finish answer

  -- The fetch function of `writeToV3Resource`.
  unfoldable pub write_call : String → ℤ → Fields → FetchFunction env
  write_call path meth body client token =
      if eqb_ℤ meth method_post
      then (carry_method "POST" >> invoke (post_any path body) client token)
      else if eqb_ℤ meth method_put
      then (carry_method "PUT" >> invoke (put_any path body) client token)
      else (carry_method "POST" >> invoke (post_any path body) client token)

  unfoldable pub write_to_v3_resource : String → ℤ → Fields → Step env ApiContainer (Unit {0})
  unfolding fetch_with_error_handling write_call
  write_to_v3_resource path meth body = do
    answer ← fetch_with_error_handling (write_call path meth body)
    finish answer

  unfoldable pub bounce_error_codes : Step env ApiContainer (Unit {0})
  bounce_error_codes = do
    h ← get_heap
    resp ← deref h.response
    body ← lift resp.body
    let original = arg_text (env.show_blob body)
    if eqb resp.status_code 403
        then stop (
            error_response
              "access to this resource is denied by Mashery (original body: '%s' returned for method %s)"
              (original ∷ arg_text h.method ∷ []))
        else if eqb resp.status_code 404
        then stop (
            error_response
              "requested object is not found in Mashery (original body: '%s' returned for method %s)"
              (original ∷ arg_text h.method ∷ []))
        else refuse_if (ltb 299 resp.status_code)
            "unsupported status code %d (original body: '%s' returned for method %s)"
            (arg_number (pos resp.status_code) ∷ original ∷ arg_text h.method ∷ [])
