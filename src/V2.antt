-- ===== src/V2.antt =====
-- V2 calls: the request half of mashery/transformers_v2.go, mashery/path_role_v2.go and
-- mashery/path_proxy_v2.go.
pub mod Sound
use hcvault_mashery_api_auth.Prelude.{
  ℤ, pos, String, refl, true, Option, none, some, List, [], ◌∷◌, ◌==◌, if◌then◌else◌,
}
use hcvault_mashery_api_auth.Value.{
  Value, null, text, number, array, nil, cons, Fields, end, field, lookup, new_error, Result, good,
  bad, error_response, answer, arg_error,
}
use hcvault_mashery_api_auth.Exec.{Exec, pure, stop, throw, crash, lift, deref, ◌>>=◌, ◌>>◌}
use hcvault_mashery_api_auth.Role.{StoredRole}
use hcvault_mashery_api_auth.Env.{Env, V2Request, V2Result, V2Client, HttpResponse}
use hcvault_mashery_api_auth.Plugin.{get_mashery_v2_client}
use hcvault_mashery_api_auth.Request.{
  FieldData, Step, get_heap, put_heap, get_plugin, put_plugin, read_clock, call_remote,
}
use hcvault_mashery_api_auth.Request.Chain.{Transformer, simple_chain, mapping_run}
use hcvault_mashery_api_auth.RoleSteps.{
  RoleContext, RoleContainer, role_container, empty_container, get_role, read_role,
  block_usage_exceeding_limits, allow_only_v2_capable_role, decrease_remaining_usage_quota,
}
use hcvault_mashery_api_auth.Handler.{Handler, handle_role_operation}
use hcvault_mashery_api_auth.Api.{ApiContainer, api_container, empty_api_container, carry_response}
use hcvault_mashery_api_auth.Api.Render.{proxied_response, not_nil}

-- `APIResponseContainer[v2client.V2Result]`
pub record V2Container : Type 0 where
  pub role : Option StoredRole
  pub result : V2Result

instance abbrev pub v2_container : RoleContext V2Container
v2_container = record {
  get_role = λ h. h.role;
  carry_role = λ o h. record h { role = o };
  get-carry = λ o h. refl;
}

abbrev pub empty_v2_container : V2Container
empty_v2_container = record { role = none; result = record { result = null; error = null } }

abbrev pub default_v2_request : V2Request
default_v2_request = record { id = pos 1; method = "object.query"; version = "2.0"; params = none }

-- `dat[key]` where it is not nil; `dat` itself may be nil.
abbrev pub given : String → Option Fields → Option Value
given key none = none
given key (some f) = not_nil (lookup key f)

abbrev pub or_else {ℓ} : {A : Type ℓ} → Option A → Option A → Option A
or_else none b = b
or_else (some a) b = some a

-- `copyStringFieldIfDefined` and `copyIntFieldIfDefined`
abbrev pub copied_text : Option Value → String → String
copied_text (some (text s)) old = if s == "" then old else s
copied_text _ old = old

abbrev pub copied_number : Option Value → ℤ → ℤ
copied_number (some (number n)) old = n
copied_number _ old = old

abbrev query_params : Option Value → Option Value
query_params none = none
query_params (some v) = some (array (cons v nil))

-- The method may be empty where it is asserted, and is then not empty where it is copied again.
unfoldable pub v2_request_of : FieldData → Option Fields → String → V2Request
v2_request_of d body method = record {
  id = copied_number (d.get_ok "id") (pos 1);
  method = copied_text (d.get_ok "method") method;
  version = copied_text (d.get_ok "jsonrpc") "2.0";
  params = or_else (given "params" body) (query_params (d.get_ok "query"));
}

abbrev method_of : {S : Type 0} → Option Value → Exec S String
method_of none = pure "object.query"
method_of (some (text m)) = pure m
method_of (some _) = crash

unfoldable pub verify_v2_operation_request :
    {S : Type 0} → FieldData → Option Fields → Exec S (Result V2Request)
unfolding v2_request_of
verify_v2_operation_request d body = do
  method ← method_of (d.get_ok "method")
  pure (elim (v2_request_of d body method).params [
    | none ↦
        bad (new_error "input message does not contain `%s` or '%s' key" ("params" ∷ "query" ∷ []))
    | some _ ↦ good (v2_request_of d body method)
  ])

-- A request that is not valid is answered, and nothing else is done.
abbrev pub or_invalid : {S : Type 0} → Result V2Request → Exec S V2Request
or_invalid (bad err) = stop (error_response "invalid V2 request: %s" (arg_error err ∷ []))
or_invalid (good q) = pure q

module _ {env : Env} {H : Type 0} ⦃rc : RoleContext H⦄ where
  -- `GetMasheryV2Client(role)`
  unfoldable pub v2_client_of_role : Step env H V2Client
  unfolding get_mashery_v2_client
  v2_client_of_role = do
    role ← get_role
    now ← read_clock
    b ← get_plugin
    put_plugin (get_mashery_v2_client env now role b).1
    pure (get_mashery_v2_client env now role b).0

module _ {env : Env} where
  abbrev pub carried : Result HttpResponse → Step env ApiContainer (Unit {0})
  carried (good resp) = carry_response (some resp)
  carried (bad err) = do carry_response none; throw err

  unfoldable pub execute_v2_call_to_raw_response : V2Request → Step env ApiContainer (Unit {0})
  unfolding v2_client_of_role
  execute_v2_call_to_raw_response q = do
    cl ← v2_client_of_role
    resp ← call_remote (env.v2_raw cl q)
    carried resp

  unfoldable pub execute_v2_call : V2Request → Step env V2Container (Unit {0})
  unfolding v2_client_of_role
  execute_v2_call q = do
    cl ← v2_client_of_role
    answer' ← call_remote (env.v2_direct cl q)
    resp ← lift answer'
    h ← get_heap
    put_heap (record h { result = resp })

  unfoldable pub render_v2_proxied_response : Step env ApiContainer (Unit {0})
  unfolding proxied_response
  render_v2_proxied_response = do
    h ← get_heap
    resp ← deref h.response
    stop (proxied_response env resp "application/json")

  unfoldable pub render_v2_response : Step env V2Container (Unit {0})
  render_v2_response = do
    h ← get_heap
    stop (
        answer (record {
          body = field "result" h.result.result (field "error" h.result.error end);
          lease = none;
          warnings = [];
          headers = [];
        }))

  unfoldable pub execute_v2_write : Handler env
  unfolding verify_v2_operation_request handle_role_operation simple_chain
  execute_v2_write d body = do
    verified ← verify_v2_operation_request d body
    q ← or_invalid verified
    handle_role_operation empty_v2_container
        (simple_chain (
          read_role true
          ∷ block_usage_exceeding_limits
          ∷ allow_only_v2_capable_role
          ∷ decrease_remaining_usage_quota
          ∷ execute_v2_call q
          ∷ render_v2_response
          ∷ []))
        d body

  unfoldable pub proxy_v2_checks : List (Transformer env RoleContainer)
  proxy_v2_checks =
      read_role true
      ∷ allow_only_v2_capable_role
      ∷ block_usage_exceeding_limits
      ∷ decrease_remaining_usage_quota
      ∷ []

  unfoldable pub proxy_v2_request : Handler env
  unfolding verify_v2_operation_request handle_role_operation mapping_run proxy_v2_checks
  proxy_v2_request d body = do
    verified ← verify_v2_operation_request d body
    q ← or_invalid verified
    handle_role_operation empty_api_container
        (mapping_run (simple_chain proxy_v2_checks) (λ _. empty_container)
          (λ from to. record to { role = from.role })
          (execute_v2_call_to_raw_response q ∷ render_v2_proxied_response ∷ []))
        d body
