-- ===== src/System/Proxies.antt =====
-- The handlers of the V3 paths keep the plugin coherent.
use hcvault_mashery_api_auth.Prelude.{
  ℤ, eqb_ℤ, String, ◌<>◌, ◌≡◌, refl, sym, subst, Bool, true, false, Option, none, some, List, [],
  ◌∷◌, ◌++◌, arith, if◌then◌else◌,
}
use hcvault_mashery_api_auth.Value.{Value, Fields, error_response, new_error}
use hcvault_mashery_api_auth.Exec.{Exit, respond, panic, throw}
use hcvault_mashery_api_auth.Env.{Env}
use hcvault_mashery_api_auth.Plugin.Cache.{IsCoherent}
use hcvault_mashery_api_auth.Request.{Req, World, FieldData, assert_text, storage_path_for_role}
use hcvault_mashery_api_auth.Request.Chain.{Transformer, simple_chain}
use hcvault_mashery_api_auth.Request.Chain.Laws.{Each}
use hcvault_mashery_api_auth.Handler.{Handler, start_request}
use hcvault_mashery_api_auth.RoleSteps.{
  role_container, empty_container, read_role, block_usage_exceeding_limits,
  allow_only_v3_capable_role,
}
use hcvault_mashery_api_auth.Token.{ensure_access_token_valid}
use hcvault_mashery_api_auth.Exchange.Keys.{role_export_container}
use hcvault_mashery_api_auth.Api.{
  delete_v3_resource, write_to_v3_resource, method_post, method_put, api_container, ApiContainer,
  empty_api_container, bounce_error_codes, fetch_v3_resource,
}
use hcvault_mashery_api_auth.ConfigSteps.{pinning_container, config_container}
use hcvault_mashery_api_auth.Api.Render.{
  render_v3_list_response, render_v3_array_of_objects, render_v3_proxied_response,
  render_v3_single_object_response, render_v3_object_count_response, render_v3_response_to_empty,
}
use hcvault_mashery_api_auth.V2.{v2_container}
use hcvault_mashery_api_auth.V3.{
  trim_suffix, has_suffix, build_query_string, list_params, body_of, proxy_method_get,
  proxy_method_post, proxy_method_put, proxy_method_delete, v3_object_exists,
  do_if_cli_write_enabled, execute_v3_list, execute_v3_get, execute_v3_write, invoke_v3,
  base_v3_invocation_chain, execute_v3_delete, proxy_v3_request, proxy_v3_update, get_steps,
  exists_chain, exists_answer, proxied, target_update_method, post_object,
}
use hcvault_mashery_api_auth.System.Keeps.{
  if-KeepsWorld, Keeps, KeepsWorld, KeepsWorld-of_plugin, bind-KeepsWorld, simple_chain-Keeps,
  mapping_run-Keeps,
}
use hcvault_mashery_api_auth.System.Steps.{
  bounce-Keeps, list_response-Keeps, array-Keeps, proxied-Keeps, single-Keeps, count-Keeps,
  empty-Keeps,
}
use hcvault_mashery_api_auth.System.RoleSteps.{
  read_role-Keeps, exceeding-Keeps, decrease-Keeps, v3_capable-Keeps,
}
use hcvault_mashery_api_auth.System.Calls.{
  ensure_access_token_valid-Keeps, fetch_v3_resource-Keeps, delete_v3_resource-Keeps,
  write_to_v3_resource-Keeps,
}
use hcvault_mashery_api_auth.System.Handlers.{role_chain-KeepsWorld}

module _ {env : Env} (d : FieldData) (body : Option Fields) where
  -- Whatever the steps of an operation are that keep the plugin coherent, the operation does.
  pub invoke_v3-KeepsWorld :
      (steps : List (Transformer env ApiContainer))
      → Each (λ f. Keeps f) steps
      → KeepsWorld (invoke_v3 steps d body)
  unfolding invoke_v3 base_v3_invocation_chain
  invoke_v3-KeepsWorld steps k =
      role_chain-KeepsWorld {env = env} empty_api_container (base_v3_invocation_chain ++ steps) d
        body
        (
          read_role-Keeps true,
          (
            exceeding-Keeps,
            (v3_capable-Keeps, (ensure_access_token_valid-Keeps, (decrease-Keeps, k))),
          ),
        )

  assert_text-KeepsWorld : (v : Value) → KeepsWorld {env = env} (assert_text v)
  assert_text-KeepsWorld v = KeepsWorld-of_plugin (assert_text v) (λ w. ground arith)

  pub v3_list-KeepsWorld : KeepsWorld {env = env} (execute_v3_list d body)
  unfolding execute_v3_list
  v3_list-KeepsWorld =
      bind-KeepsWorld (assert_text (d.get "path")) _ (assert_text-KeepsWorld (d.get "path")) (λ p.
        invoke_v3-KeepsWorld
          (fetch_v3_resource (trim_suffix ("/" <> p) "/") (build_query_string env d list_params)
            ∷ bounce_error_codes
            ∷ render_v3_list_response
            ∷ [])
          (
            fetch_v3_resource-Keeps (trim_suffix ("/" <> p) "/")
                (build_query_string env d list_params),
            (bounce-Keeps, (list_response-Keeps, tt)),
          ))

  get_steps-KeepsWorld :
      (path : String) → KeepsWorld (invoke_v3 {env = env} (get_steps d path) d body)
  unfolding get_steps
  get_steps-KeepsWorld path = split (has_suffix path ";list") (has_suffix path ";count")
    where
      steps : Bool → Bool → List (Transformer env ApiContainer)
      steps l c =
          if l
          then fetch_v3_resource (trim_suffix path ";list") (build_query_string env d list_params)
            ∷ bounce_error_codes
            ∷ render_v3_array_of_objects
            ∷ []
          else if c
          then fetch_v3_resource (trim_suffix path ";count")
              (build_query_string env d ("offset" ∷ "filter" ∷ []))
            ∷ bounce_error_codes
            ∷ render_v3_object_count_response
            ∷ []
          else fetch_v3_resource path (build_query_string env d ("fields" ∷ []))
            ∷ bounce_error_codes
            ∷ render_v3_single_object_response
            ∷ []

      split : (l c : Bool) → KeepsWorld (invoke_v3 (steps l c) d body)
      split true c = invoke_v3-KeepsWorld (steps true c) (
        fetch_v3_resource-Keeps (trim_suffix path ";list") (build_query_string env d list_params),
        (bounce-Keeps, (array-Keeps, tt)),
      )
      split false true = invoke_v3-KeepsWorld (steps false true) (
        fetch_v3_resource-Keeps (trim_suffix path ";count")
            (build_query_string env d ("offset" ∷ "filter" ∷ [])),
        (bounce-Keeps, (count-Keeps, tt)),
      )
      split false false = invoke_v3-KeepsWorld (steps false false) (
        fetch_v3_resource-Keeps path (build_query_string env d ("fields" ∷ [])),
        (bounce-Keeps, (single-Keeps, tt)),
      )

  pub v3_get-KeepsWorld : KeepsWorld {env = env} (execute_v3_get d body)
  unfolding execute_v3_get
  v3_get-KeepsWorld =
      bind-KeepsWorld (assert_text (d.get "path")) _ (assert_text-KeepsWorld (d.get "path"))
        (λ p. get_steps-KeepsWorld ("/" <> p))

  pub v3_write-KeepsWorld : (meth : ℤ) → KeepsWorld {env = env} (execute_v3_write meth d body)
  unfolding execute_v3_write
  v3_write-KeepsWorld meth =
      bind-KeepsWorld (assert_text (d.get "path")) _ (assert_text-KeepsWorld (d.get "path")) (λ p.
        bind-KeepsWorld (post_object body) _
          (KeepsWorld-of_plugin (post_object body) (λ w. ground arith))
          (λ o.
            invoke_v3-KeepsWorld
              (write_to_v3_resource ("/" <> p) meth o
                ∷ bounce_error_codes
                ∷ render_v3_single_object_response
                ∷ [])
              (write_to_v3_resource-Keeps ("/" <> p) meth o, (bounce-Keeps, (single-Keeps, tt)))))

  pub v3_delete-KeepsWorld : KeepsWorld {env = env} (execute_v3_delete d body)
  unfolding execute_v3_delete
  v3_delete-KeepsWorld =
      bind-KeepsWorld (assert_text (d.get "path")) _ (assert_text-KeepsWorld (d.get "path")) (λ p.
        invoke_v3-KeepsWorld
          (delete_v3_resource ("/" <> p) ∷ bounce_error_codes ∷ render_v3_response_to_empty ∷ [])
          (delete_v3_resource-Keeps ("/" <> p), (bounce-Keeps, (empty-Keeps, tt))))

  pub guarded-KeepsWorld :
      (f : Handler env) → KeepsWorld (f d body) → KeepsWorld (do_if_cli_write_enabled f d body)
  unfolding do_if_cli_write_enabled
  guarded-KeepsWorld f k = record { at = λ w h. split w h w.plugin.cfg.cli_write_enabled }
    where
      split :
          (w : World env)
          → IsCoherent env w.plugin
          → (b : Bool)
          → IsCoherent env
              (if b then f d body w else (
                respond (error_response "cli write operations are disabled for V3 API" []),
                w,
              )).1.plugin
      split w h true = k.at w h
      split w h false = h

  exists_chain-Keeps : (path : String) → Keeps {env = env} (exists_chain path)
  unfolding exists_chain
  exists_chain-Keeps path =
      mapping_run-Keeps
        (simple_chain
          (read_role true ∷ block_usage_exceeding_limits ∷ allow_only_v3_capable_role ∷ []))
        (λ _. empty_container) (λ from to. record to { role = from.role })
        (ensure_access_token_valid ∷ fetch_v3_resource path [] ∷ bounce_error_codes ∷ [])
        (simple_chain-Keeps {env = env}
          (read_role true ∷ block_usage_exceeding_limits ∷ allow_only_v3_capable_role ∷ [])
          (read_role-Keeps true, (exceeding-Keeps, (v3_capable-Keeps, tt))))
        (ensure_access_token_valid-Keeps, (fetch_v3_resource-Keeps path [], (bounce-Keeps, tt)))

  exists_answer-plugin :
      (x : Exit (Unit {0}) × Req env ApiContainer) → (exists_answer x).1.plugin ≡ x.1.world.plugin
  unfolding exists_answer
  exists_answer-plugin x = ground arith

  exists_answer-IsCoherent :
      (x : Exit (Unit {0}) × Req env ApiContainer)
      → IsCoherent env x.1.world.plugin
      → IsCoherent env (exists_answer x).1.plugin
  exists_answer-IsCoherent x h = subst (λ b. IsCoherent env b) (sym (exists_answer-plugin x)) h

  pub v3_exists-KeepsWorld : KeepsWorld {env = env} (v3_object_exists d body)
  unfolding v3_object_exists
  v3_exists-KeepsWorld =
      bind-KeepsWorld (assert_text (d.get "path")) _ (assert_text-KeepsWorld (d.get "path"))
        (λ path. record { at = λ w h. by_root path w h (storage_path_for_role env w.plugin d) })
    where
      at_root : String → World env → Option String → Exit Bool × World env
      at_root path w o = elim o [
        | none ↦ (panic, w)
        | some root ↦
            exists_answer (exists_chain path (start_request empty_api_container root d body w))
      ]

      by_root :
          (path : String) (w : World env)
          → IsCoherent env w.plugin
          → (o : Option String) → IsCoherent env (at_root path w o).1.plugin
      by_root path w h none = h
      by_root path w h (some root) =
          exists_answer-IsCoherent
            (exists_chain path (start_request empty_api_container root d body w))
            ((exists_chain-Keeps path).at (start_request empty_api_container root d body w) h)

  -- The proxy, whatever it fetches.
  proxied-KeepsWorld : (f : Transformer env ApiContainer) → Keeps f → KeepsWorld (proxied f d body)
  proxied-KeepsWorld f k =
      invoke_v3-KeepsWorld (f ∷ render_v3_proxied_response ∷ []) (k, (proxied-Keeps, tt))

  pub v3_proxy-KeepsWorld : (meth : ℤ) → KeepsWorld {env = env} (proxy_v3_request meth d body)
  unfolding proxy_v3_request
  v3_proxy-KeepsWorld meth =
      bind-KeepsWorld (assert_text (d.get "path")) _ (assert_text-KeepsWorld (d.get "path")) (λ p.
        if-KeepsWorld (eqb_ℤ meth proxy_method_get) _ _
          (proxied-KeepsWorld (fetch_v3_resource ("/" <> p) (build_query_string env d list_params))
            (fetch_v3_resource-Keeps ("/" <> p) (build_query_string env d list_params)))
          (if-KeepsWorld (eqb_ℤ meth proxy_method_post) _ _
            (proxied-KeepsWorld (write_to_v3_resource ("/" <> p) method_post (body_of body))
              (write_to_v3_resource-Keeps ("/" <> p) method_post (body_of body)))
            (if-KeepsWorld (eqb_ℤ meth proxy_method_put) _ _
              (proxied-KeepsWorld (write_to_v3_resource ("/" <> p) method_put (body_of body))
                (write_to_v3_resource-Keeps ("/" <> p) method_put (body_of body)))
              (if-KeepsWorld (eqb_ℤ meth proxy_method_delete) _ _
                (proxied-KeepsWorld (delete_v3_resource ("/" <> p))
                  (delete_v3_resource-Keeps ("/" <> p)))
                (KeepsWorld-of_plugin
                  (throw (new_error "unrecognized method swtich: %d" (env.show_number meth ∷ [])))
                  (λ w. refl))))))

  pub v3_update-KeepsWorld : KeepsWorld {env = env} (proxy_v3_update d body)
  unfolding proxy_v3_update target_update_method
  v3_update-KeepsWorld =
      bind-KeepsWorld (target_update_method d) _
        (KeepsWorld-of_plugin (target_update_method d) (λ w. ground arith)) v3_proxy-KeepsWorld
