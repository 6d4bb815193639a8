-- ===== src/System/Paths.antt =====
-- Every path of the plugin keeps it coherent.
use hcvault_mashery_api_auth.Prelude.{
  String, ◌≡◌, refl, sym, ap, subst, Bool, true, false, Option, none, some, List, [], ◌∷◌, arith,
  if◌then◌else◌,
}
use mathlib.Core.List.{Memᴰ}
use mathlib.Core.List.Memᴰ.{head, tail}
use hcvault_mashery_api_auth.Value.{Fields}
use hcvault_mashery_api_auth.Exec.{pure}
use hcvault_mashery_api_auth.Config.{BackendConfiguration}
use hcvault_mashery_api_auth.Env.{Env}
use hcvault_mashery_api_auth.Request.{FieldData}
use hcvault_mashery_api_auth.Handler.{Handler}
use hcvault_mashery_api_auth.ConfigSteps.{PinSlot, leaf, issuer, root}
use hcvault_mashery_api_auth.Api.{method_post, method_put}
use hcvault_mashery_api_auth.V3.{
  execute_v3_write, execute_v3_delete, proxy_method_get, proxy_method_delete,
}
use hcvault_mashery_api_auth.Routes.{
  Operation, RoutePath, ExistenceCheck, Part, callback_in, same_operation,
}
use hcvault_mashery_api_auth.Routes.Paths.{
  always_exist, does_not_exist, role_exists, refuse_import, path_config, path_cert_config,
  path_roles_root, path_role, path_role_imp_exp_get_pem, path_role_imp_exp_export,
  path_role_imp_exp_import, path_role_grant, path_role_token, path_role_v2, path_role_v3,
  path_proxy_v2, path_proxy_v3, path_proxy_v3_with_explicit_method, all_paths,
}
use hcvault_mashery_api_auth.System.Keeps.{KeepsWorld, KeepsWorld-of_plugin}
use hcvault_mashery_api_auth.System.Handlers.{
  write_role-KeepsWorld, update_role-KeepsWorld, read_role_data-KeepsWorld, delete_role-KeepsWorld,
  list_roles-KeepsWorld, role_existence-KeepsWorld, issue_grant-KeepsWorld,
  read_role_token-KeepsWorld, delete_token-KeepsWorld,
}
use hcvault_mashery_api_auth.System.Settings.{
  pem_read-KeepsWorld, export-KeepsWorld, import-KeepsWorld, read_configuration-KeepsWorld,
  store_configuration-KeepsWorld, update_cert-KeepsWorld, reset_cert-KeepsWorld,
  v2_write-KeepsWorld, v2_proxy-KeepsWorld,
}
use hcvault_mashery_api_auth.System.Proxies.{
  v3_list-KeepsWorld, v3_get-KeepsWorld, v3_write-KeepsWorld, v3_delete-KeepsWorld,
  guarded-KeepsWorld, v3_exists-KeepsWorld, v3_proxy-KeepsWorld, v3_update-KeepsWorld,
}

module _ {env : Env} where
  -- All callbacks of a table of operations.
  abbrev pub OperationsKeep : List (Operation × Handler env) → Type 0
  OperationsKeep [] = Unit
  OperationsKeep ((op, f) ∷ rest) =
      ((d : FieldData) (body : Option Fields) → KeepsWorld (f d body)) × OperationsKeep rest

  abbrev pub CheckKeeps : Option (ExistenceCheck env) → Type 0
  CheckKeeps none = Unit
  CheckKeeps (some check) = (d : FieldData) (body : Option Fields) → KeepsWorld (check d body)

  pub record PathKeeps (p : RoutePath env) : Type 0 where
    pub operations_keep : OperationsKeep p.operations
    pub check_keeps : CheckKeeps p.existence_check

  abbrev EachPath : List (RoutePath env) → Type 0
  EachPath [] = Unit
  EachPath (p ∷ rest) = PathKeeps p × EachPath rest

  keeps :
      {p : RoutePath env} → OperationsKeep p.operations → CheckKeeps p.existence_check → PathKeeps p
  keeps o c = record { operations_keep = o; check_keeps = c }

  EachPath-Mem :
      (l : List (RoutePath env)) (p : RoutePath env) → EachPath l → Memᴰ p l → PathKeeps p
  EachPath-Mem [] p k m = elim m [ ]
  EachPath-Mem (q ∷ rest) p (k, ks) (head e) = subst PathKeeps (sym e) k
  EachPath-Mem (q ∷ rest) p (k, ks) (tail m) = EachPath-Mem rest p ks m

  pub callback_in-KeepsWorld :
      (l : List (Operation × Handler env)) (op : Operation) (f : Handler env)
      → OperationsKeep l
      → callback_in l op ≡ some f
      → (d : FieldData) (body : Option Fields) → KeepsWorld (f d body)
  unfolding callback_in
  callback_in-KeepsWorld [] op f k e = absurd (ground arith)
  callback_in-KeepsWorld ((o, g) ∷ rest) op f (k, ks) e =
      split (same_operation o op) e (callback_in-KeepsWorld rest op f ks)
    where
      some-inj : {x y : Handler env} → some x ≡ some y → x ≡ y
      some-inj q = ap (λ o. elim o [ none ↦ g | some x ↦ x ]) q

      split :
          (b : Bool)
          → (if b then some g else callback_in rest op) ≡ some f
          → (callback_in rest op ≡ some f
              → (d : FieldData) (body : Option Fields) → KeepsWorld (f d body))
          → (d : FieldData) (body : Option Fields) → KeepsWorld (f d body)
      split true q ih d body =
          subst (λ (h : Handler env). KeepsWorld (h d body)) (some-inj q) (k d body)
      split false q ih d body = ih q d body

  pub check-KeepsWorld :
      (o : Option (ExistenceCheck env)) (check : ExistenceCheck env)
      → CheckKeeps o
      → o ≡ some check
      → (d : FieldData) (body : Option Fields) → KeepsWorld (check d body)
  check-KeepsWorld none check k e d body = absurd (ground arith)
  check-KeepsWorld (some c) check k e d body =
      subst (λ (h : ExistenceCheck env). KeepsWorld (h d body))
        (ap (λ o. elim o [ none ↦ c | some x ↦ x ]) e) (k d body)

module _ {env : Env} (zero_cfg : BackendConfiguration) where
  always-KeepsWorld :
      (b : Bool) (d : FieldData) (body : Option Fields) → KeepsWorld {env = env} (pure b)
  always-KeepsWorld b d body = KeepsWorld-of_plugin (pure b) (λ w. refl)

  path_config-Keeps : PathKeeps {env = env} (path_config zero_cfg)
  unfolding path_config always_exist
  path_config-Keeps =
      keeps
        (
          λ d body. store_configuration-KeepsWorld d body zero_cfg,
          (read_configuration-KeepsWorld, tt),
        )
        (always-KeepsWorld true)

  path_cert_config-Keeps :
      (suffix : String) (slot : PinSlot)
      → PathKeeps {env = env} (path_cert_config zero_cfg suffix slot)
  unfolding path_cert_config always_exist
  path_cert_config-Keeps suffix slot =
      keeps
        (
          λ d body. update_cert-KeepsWorld d body zero_cfg slot,
          (λ d body. reset_cert-KeepsWorld d body zero_cfg slot, tt),
        )
        (always-KeepsWorld true)

  role_exists-KeepsWorld :
      (d : FieldData) (body : Option Fields) → KeepsWorld {env = env} (role_exists d body)
  role_exists-KeepsWorld d body = role_existence-KeepsWorld d body

  role_paths-Keep :
      PathKeeps {env = env} path_roles_root
      × PathKeeps {env = env} path_role
      × PathKeeps {env = env} path_role_imp_exp_get_pem
      × PathKeeps {env = env} path_role_imp_exp_export
      × PathKeeps {env = env} path_role_imp_exp_import
      × PathKeeps {env = env} path_role_grant
      × PathKeeps {env = env} path_role_token
  unfolding path_roles_root path_role path_role_imp_exp_get_pem path_role_imp_exp_export
      path_role_imp_exp_import path_role_grant path_role_token refuse_import
  role_paths-Keep = (
    keeps (list_roles-KeepsWorld, tt) tt,
    keeps
        (
          write_role-KeepsWorld,
          (read_role_data-KeepsWorld, (update_role-KeepsWorld, (delete_role-KeepsWorld, tt))),
        )
        role_exists-KeepsWorld,
    keeps (pem_read-KeepsWorld, tt) role_exists-KeepsWorld,
    keeps (export-KeepsWorld, tt) role_exists-KeepsWorld,
    keeps
        (λ d body. KeepsWorld-of_plugin (refuse_import d body) (λ w. refl), (import-KeepsWorld, tt))
        role_exists-KeepsWorld,
    keeps (issue_grant-KeepsWorld, tt) role_exists-KeepsWorld,
    keeps (read_role_token-KeepsWorld, (delete_token-KeepsWorld, tt)) role_exists-KeepsWorld,
  )

  path_role_v2-Keeps : (pattern : List Part) → PathKeeps {env = env} (path_role_v2 pattern)
  unfolding path_role_v2 does_not_exist
  path_role_v2-Keeps pattern = keeps (v2_write-KeepsWorld, tt) (always-KeepsWorld false)

  api_paths-Keep :
      PathKeeps {env = env} path_role_v3
      × PathKeeps {env = env} path_proxy_v2
      × PathKeeps {env = env} path_proxy_v3
      × PathKeeps {env = env} path_proxy_v3_with_explicit_method
  unfolding path_role_v3 path_proxy_v2 path_proxy_v3 path_proxy_v3_with_explicit_method
      does_not_exist
  api_paths-Keep = (
    keeps
        (
          v3_list-KeepsWorld,
          (
            v3_get-KeepsWorld,
            (
              λ d body.
                  guarded-KeepsWorld d body (execute_v3_write method_post)
                    (v3_write-KeepsWorld d body method_post),
              (
                λ d body.
                    guarded-KeepsWorld d body (execute_v3_write method_put)
                      (v3_write-KeepsWorld d body method_put),
                (
                  λ d body.
                      guarded-KeepsWorld d body execute_v3_delete (v3_delete-KeepsWorld d body),
                  tt,
                ),
              ),
            ),
          ),
        )
        v3_exists-KeepsWorld,
    keeps (v2_proxy-KeepsWorld, tt) (always-KeepsWorld false),
    keeps proxy_operations tt,
    keeps proxy_operations tt,
  )
    where
      proxy_operations : OperationsKeep {env = env} path_proxy_v3.operations
      proxy_operations = (
        λ d body. v3_proxy-KeepsWorld d body proxy_method_get,
        (
          v3_update-KeepsWorld,
          (v3_update-KeepsWorld, (λ d body. v3_proxy-KeepsWorld d body proxy_method_delete, tt)),
        ),
      )

  pub all_paths-Keep : (p : RoutePath env) → Memᴰ p (all_paths zero_cfg) → PathKeeps p
  unfolding all_paths
  all_paths-Keep p m =
      let (r1, r2, r3, r4, r5, r6, r7) = role_paths-Keep in
      let (a1, a2, a3, a4) = api_paths-Keep in
      EachPath-Mem (all_paths zero_cfg) p
        (
          path_config-Keeps,
          (
            path_cert_config-Keeps "leaf" leaf,
            (
              path_cert_config-Keeps "issuer" issuer,
              (
                path_cert_config-Keeps "root" root,
                (
                  r1,
                  (
                    r2,
                    (
                      r3,
                      (
                        r4,
                        (
                          r5,
                          (
                            r6,
                            (
                              r7,
                              (
                                path_role_v2-Keeps _,
                                (path_role_v2-Keeps _, (a1, (a2, (a3, (a4, tt))))),
                              ),
                            ),
                          ),
                        ),
                      ),
                    ),
                  ),
                ),
              ),
            ),
          ),
        )
        m
