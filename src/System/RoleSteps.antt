-- ===== src/System/RoleSteps.antt =====
-- The role steps that leave the plugin as it was.
use hcvault_mashery_api_auth.Prelude.{ℤ, String, refl, Bool, Option, arith}
use hcvault_mashery_api_auth.Value.{Value}
use hcvault_mashery_api_auth.Role.{StoredRole}
use hcvault_mashery_api_auth.Env.{Env}
use hcvault_mashery_api_auth.Request.{
  get_heap, get_fields, read_path, write_path, read_binary_path, write_binary_path,
}
use hcvault_mashery_api_auth.RoleSteps.{
  RoleContext, role_container, read_role, text_or, number_or, role_or_error,
  update_role_keys_from_request, block_operation_on_imported_role,
  block_operation_on_force_proxy_role, block_usage_exceeding_limits, save_role_usage,
  decrease_remaining_usage_quota, spend_use, block_role_incapable_of, do_block_role_incapable_of,
  block_non_exportable_role, allow_only_v2_capable_role, allow_only_v3_capable_role, save_role_keys,
  set_initial_role_usage, forget_used_token,
}
use hcvault_mashery_api_auth.RoleSteps.Render.{render_role}
use hcvault_mashery_api_auth.Token.{v3_token_container}
use hcvault_mashery_api_auth.Grant.{v2_signature_container}
use hcvault_mashery_api_auth.ConfigSteps.{pinning_container}
use hcvault_mashery_api_auth.Exchange.Keys.{retrieve_private_key, role_export_container}
use hcvault_mashery_api_auth.System.Keeps.{Keeps, Keeps-of_plugin, bind-Keeps}

module _ {env : Env} {H : Type 0} ⦃rc : RoleContext H⦄ where
  pub read_role-Keeps : (b : Bool) → Keeps {env = env} {H = H} (read_role b)
  unfolding read_role read_path
  read_role-Keeps b = Keeps-of_plugin (read_role b) (λ r. ground arith)

  text_or-Keeps :
      (o : Option Value) (default : String) → Keeps {env = env} {H = H} (text_or o default)
  text_or-Keeps o default = Keeps-of_plugin (text_or o default) (λ r. ground arith)

  number_or-Keeps :
      (o : Option Value) (default : ℤ) → Keeps {env = env} {H = H} (number_or o default)
  number_or-Keeps o default = Keeps-of_plugin (number_or o default) (λ r. ground arith)

  role_or_error-Keeps : (o : Option StoredRole) → Keeps {env = env} {H = H} (role_or_error o)
  role_or_error-Keeps o = Keeps-of_plugin (role_or_error o) (λ r. ground arith)

  pub update_keys-Keeps : Keeps {env = env} {H = H} update_role_keys_from_request
  unfolding update_role_keys_from_request
  update_keys-Keeps = bind-Keeps get_heap _ (Keeps-of_plugin get_heap (λ r. refl)) (λ h.
      bind-Keeps (role_or_error (rc.get_role h)) _ (role_or_error-Keeps (rc.get_role h)) (λ role.
        bind-Keeps get_fields _ (Keeps-of_plugin get_fields (λ r. refl)) (λ d.
          bind-Keeps (text_or (d.get_ok "area_id") role.keys.area_id) _
            (text_or-Keeps (d.get_ok "area_id") role.keys.area_id)
            (λ a1.
              bind-Keeps (number_or (d.get_ok "area_nid") role.keys.area_nid) _
                (number_or-Keeps (d.get_ok "area_nid") role.keys.area_nid)
                (λ a2.
                  bind-Keeps (text_or (d.get_ok "api_key") role.keys.api_key) _
                    (text_or-Keeps (d.get_ok "api_key") role.keys.api_key)
                    (λ a3.
                      bind-Keeps (text_or (d.get_ok "secret") role.keys.key_secret) _
                        (text_or-Keeps (d.get_ok "secret") role.keys.key_secret)
                        (λ a4.
                          bind-Keeps (text_or (d.get_ok "username") role.keys.username) _
                            (text_or-Keeps (d.get_ok "username") role.keys.username)
                            (λ a5.
                              bind-Keeps (text_or (d.get_ok "password") role.keys.password) _
                                (text_or-Keeps (d.get_ok "password") role.keys.password)
                                (λ a6.
                                  bind-Keeps (number_or (d.get_ok "qps") role.keys.max_qps) _
                                    (number_or-Keeps (d.get_ok "qps") role.keys.max_qps)
                                    (λ a7. Keeps-of_plugin _ (λ r. refl)))))))))))

  pub imported-Keeps : Keeps {env = env} {H = H} block_operation_on_imported_role
  unfolding block_operation_on_imported_role
  imported-Keeps = Keeps-of_plugin block_operation_on_imported_role (λ r. ground arith)

  pub force_proxy-Keeps : Keeps {env = env} {H = H} block_operation_on_force_proxy_role
  unfolding block_operation_on_force_proxy_role
  force_proxy-Keeps = Keeps-of_plugin block_operation_on_force_proxy_role (λ r. ground arith)

  pub exceeding-Keeps : Keeps {env = env} {H = H} block_usage_exceeding_limits
  unfolding block_usage_exceeding_limits
  exceeding-Keeps = Keeps-of_plugin block_usage_exceeding_limits (λ r. ground arith)

  pub save_usage-Keeps : Keeps {env = env} {H = H} save_role_usage
  unfolding save_role_usage write_path
  save_usage-Keeps = Keeps-of_plugin save_role_usage (λ r. ground arith)

  pub decrease-Keeps : Keeps {env = env} {H = H} decrease_remaining_usage_quota
  unfolding decrease_remaining_usage_quota spend_use write_path
  decrease-Keeps = Keeps-of_plugin decrease_remaining_usage_quota (λ r. ground arith)

  pub incapable-Keeps : (v : ℤ) → Keeps {env = env} {H = H} (block_role_incapable_of v)
  unfolding block_role_incapable_of do_block_role_incapable_of
  incapable-Keeps v = Keeps-of_plugin (block_role_incapable_of v) (λ r. ground arith)

  pub non_exportable-Keeps : Keeps {env = env} {H = H} block_non_exportable_role
  unfolding block_non_exportable_role
  non_exportable-Keeps = Keeps-of_plugin block_non_exportable_role (λ r. ground arith)

  pub v2_capable-Keeps : Keeps {env = env} {H = H} allow_only_v2_capable_role
  unfolding allow_only_v2_capable_role
  v2_capable-Keeps = Keeps-of_plugin allow_only_v2_capable_role (λ r. ground arith)

  pub v3_capable-Keeps : Keeps {env = env} {H = H} allow_only_v3_capable_role
  unfolding allow_only_v3_capable_role
  v3_capable-Keeps = Keeps-of_plugin allow_only_v3_capable_role (λ r. ground arith)

  pub save_keys-Keeps : Keeps {env = env} {H = H} save_role_keys
  unfolding save_role_keys write_path
  save_keys-Keeps = Keeps-of_plugin save_role_keys (λ r. ground arith)

  pub set_initial-Keeps : Keeps {env = env} {H = H} set_initial_role_usage
  unfolding set_initial_role_usage
  set_initial-Keeps = Keeps-of_plugin set_initial_role_usage (λ r. ground arith)

  pub forget-Keeps : Keeps {env = env} {H = H} forget_used_token
  unfolding forget_used_token
  forget-Keeps = Keeps-of_plugin forget_used_token (λ r. ground arith)

  pub render_role-Keeps : Keeps {env = env} {H = H} render_role
  unfolding render_role
  render_role-Keeps = Keeps-of_plugin render_role (λ r. ground arith)

  pub private_key-Keeps : Keeps {env = env} {H = H} retrieve_private_key
  unfolding retrieve_private_key read_binary_path write_binary_path
  private_key-Keeps = Keeps-of_plugin retrieve_private_key (λ r. ground arith)
