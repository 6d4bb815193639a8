-- ===== src/System/Handlers.antt =====
-- The handlers and the existence checks keep the plugin coherent.
use hcvault_mashery_api_auth.Prelude.{
  ℤ, pos, eqb_ℤ, refl, true, false, Option, none, List, [], ◌∷◌, arith,
}
use hcvault_mashery_api_auth.Value.{Fields, error_response}
use hcvault_mashery_api_auth.Exec.{stop}
use hcvault_mashery_api_auth.Env.{Env}
use hcvault_mashery_api_auth.Request.{FieldData}
use hcvault_mashery_api_auth.Request.Chain.{Transformer, simple_chain}
use hcvault_mashery_api_auth.Request.Chain.Laws.{Each}
use hcvault_mashery_api_auth.Handler.{handle_role_operation}
use hcvault_mashery_api_auth.RoleSteps.{
  role_container, empty_container, read_role, block_operation_on_imported_role,
  update_role_keys_from_request, save_role_keys, set_initial_role_usage, save_role_usage,
  forget_used_token,
}
use hcvault_mashery_api_auth.RoleSteps.Render.{render_role}
use hcvault_mashery_api_auth.Token.{
  empty_token_container, retrieve_v3_access_token, rehydrate_v3_access_token,
}
use hcvault_mashery_api_auth.Roles.{
  role_existence_check, handle_write_role_keys, handle_read_role_data, handle_update_role_data,
  write_chain, update_chain, delete_role, delete_then, handle_delete_role_data, list_roles,
}
use hcvault_mashery_api_auth.Grant.{
  retrieve_v2_signature, select_v2_rendering_func, select_v3_rendering_func, GrantRequest,
  issue_grant, read_role_token, delete_token, grant_version, grant_checks, token_checks,
  with_v3_token, with_v2_signature, read_grant_request_params,
}
use hcvault_mashery_api_auth.System.Keeps.{
  if-KeepsWorld, Keeps, KeepsWorld, KeepsWorld-of_plugin, bind-KeepsWorld, handle_role-KeepsWorld,
  simple_chain-Keeps, mapping_run-Keeps,
}
use hcvault_mashery_api_auth.System.Steps.{
  signature-Keeps, v2_rendering-Keeps, v3_rendering-Keeps, rehydrate-Keeps,
}
use hcvault_mashery_api_auth.System.RoleSteps.{
  read_role-Keeps, imported-Keeps, update_keys-Keeps, save_keys-Keeps, set_initial-Keeps,
  save_usage-Keeps, render_role-Keeps, force_proxy-Keeps, exceeding-Keeps, incapable-Keeps,
  decrease-Keeps, forget-Keeps,
}
use hcvault_mashery_api_auth.System.Calls.{
  ensure_access_token_valid-Keeps, retrieve_v3_access_token-Keeps,
}

module _ {env : Env} {H : Type 0} where
  -- A chain at the path of the role.
  pub role_chain-KeepsWorld :
      (c : H) (fs : List (Transformer env H)) (d : FieldData) (body : Option Fields)
      → Each (λ f. Keeps f) fs
      → KeepsWorld (handle_role_operation c (simple_chain fs) d body)
  role_chain-KeepsWorld c fs d body k =
      handle_role-KeepsWorld c (simple_chain fs) d body (simple_chain-Keeps fs k)

module _ {env : Env} where
  grant_checks-Keeps : (v : ℤ) → Keeps {env = env} (simple_chain (grant_checks v))
  unfolding grant_checks
  grant_checks-Keeps v = simple_chain-Keeps (grant_checks v) (
    read_role-Keeps true,
    (force_proxy-Keeps, (exceeding-Keeps, (incapable-Keeps v, (decrease-Keeps, tt)))),
  )

module _ {env : Env} (d : FieldData) (body : Option Fields) where
  pub write_role-KeepsWorld : KeepsWorld {env = env} (handle_write_role_keys d body)
  unfolding handle_write_role_keys write_chain
  write_role-KeepsWorld =
      role_chain-KeepsWorld {env = env} empty_container
        (read_role false
          ∷ block_operation_on_imported_role
          ∷ update_role_keys_from_request
          ∷ save_role_keys
          ∷ set_initial_role_usage
          ∷ save_role_usage
          ∷ [])
        d body
        (
          read_role-Keeps false,
          (
            imported-Keeps,
            (update_keys-Keeps, (save_keys-Keeps, (set_initial-Keeps, (save_usage-Keeps, tt)))),
          ),
        )

  pub update_role-KeepsWorld : KeepsWorld {env = env} (handle_update_role_data d body)
  unfolding handle_update_role_data update_chain
  update_role-KeepsWorld =
      role_chain-KeepsWorld {env = env} empty_container
        (read_role true
          ∷ block_operation_on_imported_role
          ∷ update_role_keys_from_request
          ∷ save_role_keys
          ∷ [])
        d body (read_role-Keeps true, (imported-Keeps, (update_keys-Keeps, (save_keys-Keeps, tt))))

  pub read_role_data-KeepsWorld : KeepsWorld {env = env} (handle_read_role_data d body)
  unfolding handle_read_role_data
  read_role_data-KeepsWorld =
      role_chain-KeepsWorld {env = env} empty_container (read_role true ∷ render_role ∷ []) d body
        (read_role-Keeps true, (render_role-Keeps, tt))

  pub delete_role-KeepsWorld : KeepsWorld {env = env} (handle_delete_role_data d body)
  unfolding handle_delete_role_data delete_role delete_then
  delete_role-KeepsWorld = KeepsWorld-of_plugin (handle_delete_role_data d body) (λ w. ground arith)

  pub list_roles-KeepsWorld : KeepsWorld {env = env} (list_roles d body)
  unfolding list_roles
  list_roles-KeepsWorld = KeepsWorld-of_plugin (list_roles d body) (λ w. ground arith)

  pub role_existence-KeepsWorld : KeepsWorld {env = env} (role_existence_check d)
  unfolding role_existence_check
  role_existence-KeepsWorld = KeepsWorld-of_plugin (role_existence_check d) (λ w. ground arith)

  grant_params-KeepsWorld : KeepsWorld {env = env} (read_grant_request_params d)
  unfolding read_grant_request_params
  grant_params-KeepsWorld = KeepsWorld-of_plugin (read_grant_request_params d) (λ w. ground arith)

  v2_grant-KeepsWorld :
      (g : GrantRequest)
      → KeepsWorld {env = env} (
          handle_role_operation
            (record { role = none; sig = "" })
            (with_v2_signature
              (grant_checks g.api_version)
              (retrieve_v2_signature ∷ select_v2_rendering_func g ∷ []))
            d
            body)
  unfolding with_v2_signature
  v2_grant-KeepsWorld g = handle_role-KeepsWorld _ _ d body (
      mapping_run-Keeps (simple_chain (grant_checks g.api_version)) (λ _. empty_container)
        (λ from to. record to { role = from.role })
        (retrieve_v2_signature ∷ select_v2_rendering_func g ∷ []) (grant_checks-Keeps g.api_version)
        (signature-Keeps, (v2_rendering-Keeps g, tt)))

  v3_grant-KeepsWorld :
      (g : GrantRequest)
      → KeepsWorld {env = env} (
          handle_role_operation empty_token_container
            (with_v3_token
              (grant_checks g.api_version)
              (retrieve_v3_access_token ∷ select_v3_rendering_func g ∷ []))
            d
            body)
  unfolding with_v3_token
  v3_grant-KeepsWorld g = handle_role-KeepsWorld empty_token_container _ d body (
      mapping_run-Keeps (simple_chain (grant_checks g.api_version)) (λ _. empty_container)
        (λ from to. record to { role = from.role })
        (retrieve_v3_access_token ∷ select_v3_rendering_func g ∷ [])
        (grant_checks-Keeps g.api_version)
        (retrieve_v3_access_token-Keeps, (v3_rendering-Keeps g, tt)))

  grant_version-KeepsWorld : (g : GrantRequest) → KeepsWorld {env = env} (grant_version g d body)
  unfolding grant_version
  grant_version-KeepsWorld g =
      if-KeepsWorld (eqb_ℤ g.api_version (pos 2)) _ _ (v2_grant-KeepsWorld g) (
        if-KeepsWorld (eqb_ℤ g.api_version (pos 3)) _ _ (v3_grant-KeepsWorld g)
          (KeepsWorld-of_plugin (stop (error_response "unsupported api version" [])) (λ w. refl)))

  pub issue_grant-KeepsWorld : KeepsWorld {env = env} (issue_grant d body)
  unfolding issue_grant
  issue_grant-KeepsWorld =
      bind-KeepsWorld (read_grant_request_params d) (λ g. grant_version g d body)
        grant_params-KeepsWorld grant_version-KeepsWorld

  read_token-KeepsWorld :
      (g : GrantRequest)
      → KeepsWorld {env = env} (
          handle_role_operation empty_token_container
            (with_v3_token token_checks
              (rehydrate_v3_access_token ∷ select_v3_rendering_func g ∷ []))
            d
            body)
  unfolding with_v3_token token_checks
  read_token-KeepsWorld g = handle_role-KeepsWorld empty_token_container _ d body (
      mapping_run-Keeps (simple_chain token_checks) (λ _. empty_container)
        (λ from to. record to { role = from.role })
        (rehydrate_v3_access_token ∷ select_v3_rendering_func g ∷ [])
        (simple_chain-Keeps {env = env} token_checks (
          read_role-Keeps true,
          (
            force_proxy-Keeps,
            (
              exceeding-Keeps,
              (incapable-Keeps (pos 3), (decrease-Keeps, (ensure_access_token_valid-Keeps, tt))),
            ),
          ),
        ))
        (rehydrate-Keeps, (v3_rendering-Keeps g, tt)))

  pub read_role_token-KeepsWorld : KeepsWorld {env = env} (read_role_token d body)
  unfolding read_role_token
  read_role_token-KeepsWorld =
      bind-KeepsWorld (read_grant_request_params d) _ grant_params-KeepsWorld read_token-KeepsWorld

  pub delete_token-KeepsWorld : KeepsWorld {env = env} (delete_token d body)
  unfolding delete_token
  delete_token-KeepsWorld =
      role_chain-KeepsWorld {env = env} empty_container
        (read_role true ∷ forget_used_token ∷ save_role_usage ∷ []) d body
        (read_role-Keeps true, (forget-Keeps, (save_usage-Keeps, tt)))
