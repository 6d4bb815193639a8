-- ===== src/V3.antt =====
-- The V3 paths: mashery/path_role_v3.go and mashery/path_proxy_v3.go.
pub mod Exists
pub mod Sound
use hcvault_mashery_api_auth.Prelude.{
  ℕ, zero, suc, ◌+◌, ◌-◌, ◌*◌, ◌/◌, ◌%◌, ◌^◌, ◌≤◌, ◌<◌, ℤ, pos, negsuc, pos_part, neg_part, ◌+ℤ◌,
  ◌-ℤ◌, ◌≤ℤ◌, ◌<ℤ◌, ltb_ℤ, leb_ℤ, eqb_ℤ, wrap64, IsInt64, wrap64_of_IsInt64, String, ◌<>◌, ◌≡◌,
  refl, sym, ap, ◌∙◌, fun_ext, subst, ◌≢◌, ◌↔◌, ◌⊎◌, inl, inr, Bool, true, false, not, ◌&&◌, ◌||◌,
  Option, none, some, List, [], ◌∷◌, ◌++◌, map, arith, ◌==◌, eq_iff, eq_refl, ltb, leb, eqb,
  if◌then◌else◌, Bool-cases, Option-cases, length, ne_of_not_equal, not_equal_of_ne, append-ne_left,
  append-ne_right,
}
use Prim.Native.String.{len, slice}
use hcvault_mashery_api_auth.Value.{
  Value, text, texts, number, Fields, end, field, new_error, wrapped, external, error_response,
}
use hcvault_mashery_api_auth.Exec.{
  Exit, ok, respond, fail, panic, Exec, pure, stop, throw, crash, ◌>>=◌, ◌>>◌,
}
use hcvault_mashery_api_auth.Env.{Env, HttpResponse}
use hcvault_mashery_api_auth.Request.{
  FieldData, Req, World, Step, assert_text, storage_path_for_role,
}
use hcvault_mashery_api_auth.Request.Chain.{Transformer, simple_chain, mapping_run}
use hcvault_mashery_api_auth.RoleSteps.{
  RoleContainer, role_container, empty_container, read_role, block_usage_exceeding_limits,
  allow_only_v3_capable_role, decrease_remaining_usage_quota,
}
use hcvault_mashery_api_auth.Token.{ensure_access_token_valid}
use hcvault_mashery_api_auth.Handler.{Handler, start_request, handle_role_operation}
use hcvault_mashery_api_auth.Api.{
  ApiContainer, api_container, empty_api_container, fetch_v3_resource, delete_v3_resource,
  write_to_v3_resource, bounce_error_codes, method_post, method_put,
}
use hcvault_mashery_api_auth.Api.Render.{
  render_v3_list_response, render_v3_array_of_objects, render_v3_proxied_response,
  render_v3_single_object_response, render_v3_object_count_response, render_v3_response_to_empty,
}

-- `strings.HasSuffix` and `strings.TrimSuffix`
unfoldable pub has_suffix : String → String → Bool
has_suffix s t = leb (len t) (len s) && slice s (len s - len t) (len s) == t

unfoldable pub trim_suffix : String → String → String
unfolding has_suffix
trim_suffix s t = if has_suffix s t then slice s 0 (len s - len t) else s

-- `strings.Join(parts, ",")`
unfoldable pub join_commas : List String → String
join_commas [] = ""
join_commas (s ∷ []) = s
join_commas (s ∷ t ∷ rest) = s <> "," <> join_commas (t ∷ rest)

abbrev pub query_value : Env → Value → Option String
query_value env (text s) = some s
query_value env (number n) = some (env.show_number n)
query_value env (texts ss) = some (join_commas ss)
query_value env _ = none

-- The query, as the list of its keys in the order in which they are asked for.
unfoldable pub build_query_string : Env → FieldData → List String → List (String × String)
unfolding join_commas
build_query_string env d [] = []
build_query_string env d (k ∷ params) =
    let rest = build_query_string env d params in
    elim (d.get_ok k) [
      | none ↦ rest
      | some v ↦ elim (query_value env v) [ none ↦ rest | some s ↦ (k, s) ∷ rest ]
    ]

abbrev pub list_params : List String
list_params = "offset" ∷ "limit" ∷ "fields" ∷ "filter" ∷ "sort" ∷ []

abbrev pub proxy_method_get : ℤ
proxy_method_get = pos 0

abbrev pub proxy_method_post : ℤ
proxy_method_post = pos 1

abbrev pub proxy_method_put : ℤ
proxy_method_put = pos 2

abbrev pub proxy_method_delete : ℤ
proxy_method_delete = pos 3

-- A nil map reads as one with no keys.
abbrev pub body_of : Option Fields → Fields
body_of none = end
body_of (some f) = f

module _ {env : Env} where
  unfoldable pub base_v3_invocation_chain : List (Transformer env ApiContainer)
  base_v3_invocation_chain =
      read_role true
      ∷ block_usage_exceeding_limits
      ∷ allow_only_v3_capable_role
      ∷ ensure_access_token_valid
      ∷ decrease_remaining_usage_quota
      ∷ []

  -- The base chain with the steps that a handler appends, on a fresh heap.
  unfoldable pub invoke_v3 : List (Transformer env ApiContainer) → Handler env
  unfolding base_v3_invocation_chain handle_role_operation simple_chain
  invoke_v3 steps =
      handle_role_operation empty_api_container (simple_chain (base_v3_invocation_chain ++ steps))

  unfoldable pub execute_v3_list : Handler env
  unfolding invoke_v3 trim_suffix build_query_string
  execute_v3_list d body = do
    p ← assert_text (d.get "path")
    let path = "/" <> p
    invoke_v3
        (fetch_v3_resource (trim_suffix path "/") (build_query_string env d list_params)
          ∷ bounce_error_codes
          ∷ render_v3_list_response
          ∷ [])
        d body

  -- The path, the query and the rendering step of `executeV3Get`.
  unfoldable pub get_steps : FieldData → String → List (Transformer env ApiContainer)
  unfolding trim_suffix build_query_string has_suffix
  get_steps d path =
      if has_suffix path ";list"
      then fetch_v3_resource (trim_suffix path ";list") (build_query_string env d list_params)
        ∷ bounce_error_codes
        ∷ render_v3_array_of_objects
        ∷ []
      else if has_suffix path ";count"
      then fetch_v3_resource (trim_suffix path ";count")
          (build_query_string env d ("offset" ∷ "filter" ∷ []))
        ∷ bounce_error_codes
        ∷ render_v3_object_count_response
        ∷ []
      else fetch_v3_resource path (build_query_string env d ("fields" ∷ []))
        ∷ bounce_error_codes
        ∷ render_v3_single_object_response
        ∷ []

  unfoldable pub execute_v3_get : Handler env
  unfolding invoke_v3 get_steps
  execute_v3_get d body = do
    p ← assert_text (d.get "path")
    invoke_v3 (get_steps d ("/" <> p)) d body

  abbrev pub post_object : Option Fields → Exec (World env) Fields
  post_object none = throw (new_error "you need to post a JSON object on this path" [])
  post_object (some end) = throw (new_error "you need to post a JSON object on this path" [])
  post_object (some f) = pure f

  unfoldable pub execute_v3_write : ℤ → Handler env
  unfolding invoke_v3
  execute_v3_write meth d body = do
    p ← assert_text (d.get "path")
    object' ← post_object body
    invoke_v3
        (write_to_v3_resource ("/" <> p) meth object'
          ∷ bounce_error_codes
          ∷ render_v3_single_object_response
          ∷ [])
        d body

  unfoldable pub execute_v3_delete : Handler env
  unfolding invoke_v3
  execute_v3_delete d body = do
    p ← assert_text (d.get "path")
    invoke_v3
        (delete_v3_resource ("/" <> p) ∷ bounce_error_codes ∷ render_v3_response_to_empty ∷ []) d
        body

  -- `DoIfCLIWriteEnabled`
  unfoldable pub do_if_cli_write_enabled : Handler env → Handler env
  do_if_cli_write_enabled cb d body w =
      if w.plugin.cfg.cli_write_enabled
      then cb d body w
      else (respond (error_response "cli write operations are disabled for V3 API" []), w)

  -- The chain of `v3ObjectExists`. The quota is not reduced, and the path has no slash before it.
  unfoldable pub exists_chain : String → Transformer env ApiContainer
  unfolding mapping_run simple_chain
  exists_chain path =
      mapping_run
        (simple_chain
          (read_role true ∷ block_usage_exceeding_limits ∷ allow_only_v3_capable_role ∷ []))
        (λ _. empty_container) (λ from to. record to { role = from.role })
        (ensure_access_token_valid ∷ fetch_v3_resource path [] ∷ bounce_error_codes ∷ [])

  -- What `v3ObjectExists` makes of the end of the chain.
  unfoldable pub exists_answer : Exit (Unit {0}) × Req env ApiContainer → Exit Bool × World env
  exists_answer (ok _, r) = elim r.heap.response [
    | none ↦ (panic, r.world)
    | some resp ↦ (ok (leb resp.status_code 299), r.world)
  ]
  exists_answer (respond lr, r) =
      (fail (wrapped "query rejected" (external "the response's error")), r.world)
  exists_answer (fail err, r) = (fail err, r.world)
  exists_answer (panic, r) = (panic, r.world)

  unfoldable pub v3_object_exists : FieldData → Option Fields → Exec (World env) Bool
  unfolding exists_chain exists_answer storage_path_for_role
  v3_object_exists d body = do
    path ← assert_text (d.get "path")
    λ w. elim (storage_path_for_role env w.plugin d) [
      | none ↦ (panic, w)
      | some root ↦
          exists_answer (exists_chain path (start_request empty_api_container root d body w))
    ]

  unfoldable pub target_update_method : FieldData → Exec (World env) ℤ
  target_update_method fd = elim (fd.get_ok "target_method") [
    | none ↦ pure proxy_method_post
    | some (text flg) ↦
        pure (if env.to_lower flg == "put" then proxy_method_put else proxy_method_post)
    | some _ ↦ crash
  ]

  abbrev pub proxied : Transformer env ApiContainer → Handler env
  proxied fetch_func = invoke_v3 (fetch_func ∷ render_v3_proxied_response ∷ [])

  unfoldable pub proxy_v3_request : ℤ → Handler env
  unfolding invoke_v3 build_query_string
  proxy_v3_request meth_switch d body = do
    p ← assert_text (d.get "path")
    let path = "/" <> p
    if eqb_ℤ meth_switch proxy_method_get
        then proxied (fetch_v3_resource path (build_query_string env d list_params)) d body
        else if eqb_ℤ meth_switch proxy_method_post
        then proxied (write_to_v3_resource path method_post (body_of body)) d body
        else if eqb_ℤ meth_switch proxy_method_put
        then proxied (write_to_v3_resource path method_put (body_of body)) d body
        else if eqb_ℤ meth_switch proxy_method_delete
        then proxied (delete_v3_resource path) d body
        else throw (new_error "unrecognized method swtich: %d" (env.show_number meth_switch ∷ []))

  -- The write operations of both proxy paths.
  unfoldable pub proxy_v3_update : Handler env
  unfolding target_update_method proxy_v3_request
  proxy_v3_update d body = do meth ← target_update_method d; proxy_v3_request meth d body
