-- ===== src/Grant/Tokens.antt =====
-- Reading the stored access token: what must have held when `readRoleToken` answers.
use hcvault_mashery_api_auth.Prelude.{
  pos, String, ◌≡◌, refl, sym, ap, ◌∙◌, subst, true, false, Option, some, List, [], ◌∷◌,
}
use hcvault_mashery_api_auth.Value.{Fields, answer, Payload}
use hcvault_mashery_api_auth.Exec.{ok, respond}
use hcvault_mashery_api_auth.Exec.Laws.{bind-eq-ok}
use hcvault_mashery_api_auth.Role.{StoredRole, expired, depleted}
use hcvault_mashery_api_auth.Env.{Env}
use hcvault_mashery_api_auth.Request.{
  FieldData, Req, World, storage_path_for_role, map_request_handler_context,
}
use hcvault_mashery_api_auth.Request.Chain.{Transformer, simple_chain, append_steps}
use hcvault_mashery_api_auth.Request.Chain.Laws.{
  Refuses, simple_chain-Refuses, simple_chain-append, mapping_run-eq-answer, bind-eq-answer,
}
use hcvault_mashery_api_auth.RoleSteps.{RoleContainer, role_container, empty_container}
use hcvault_mashery_api_auth.RoleSteps.Checks.{
  IsStored, IsCapable, read_role-Refuses, force_proxy-Refuses, exceeding-Refuses, incapable-Refuses,
  decrease-Refuses,
}
use hcvault_mashery_api_auth.Token.{
  V3TokenContainer, empty_token_container, ensure_access_token_valid, rehydrate_v3_access_token,
}
use hcvault_mashery_api_auth.Token.Laws.{token-Refuses}
use hcvault_mashery_api_auth.Handler.{Handler, handle_role_operation, start_request}
use hcvault_mashery_api_auth.Handler.Laws.{handle_role-eq-answer}
use hcvault_mashery_api_auth.Grant.{
  GrantRequest, read_grant_request_params, grant_checks, token_checks, with_v3_token,
  select_v3_rendering_func, read_role_token,
}
use hcvault_mashery_api_auth.Grant.Checks.{Passed, grant_checks-eq-ok}
use hcvault_mashery_api_auth.Grant.Sound.{params-Refuses, params-eq-ok}

module _ {env : Env} where
  token_checks-Refuses : Refuses (simple_chain (token_checks {env = env}))
  unfolding token_checks
  token_checks-Refuses = simple_chain-Refuses _ (
    read_role-Refuses true,
    (
      force_proxy-Refuses,
      (exceeding-Refuses, (incapable-Refuses (pos 3), (decrease-Refuses, (token-Refuses, tt)))),
    ),
  )

  -- The checks of a token are those of a grant for V3, and then the token is renewed.
  token_checks-append :
      token_checks
      ≡ append_steps (grant_checks {env = env} (pos 3)) (ensure_access_token_valid ∷ [])
  unfolding token_checks grant_checks append_steps
  token_checks-append = refl

  token_checks-eq-ok :
      (r q : Req env RoleContainer)
      → simple_chain token_checks r ≡ (ok tt, q)
      → (m : Req env RoleContainer) × Passed (pos 3) r m
  token_checks-eq-ok r q e =
      let (u, (m, first, rest)) =
        bind-eq-ok (simple_chain (grant_checks (pos 3)))
          (λ _. simple_chain (ensure_access_token_valid ∷ [])) r
          (ap (λ (f : Transformer env RoleContainer). f r)
              (sym (simple_chain-append (grant_checks (pos 3)) (ensure_access_token_valid ∷ [])))
            ∙ ap (λ (l : List (Transformer env RoleContainer)). simple_chain l r)
                (sym token_checks-append)
            ∙ e) in
      (m, grant_checks-eq-ok (pos 3) r m first)

  -- What must hold where the stored token of a role is given out.
  pub record TokenGiven (path : String) (w : World env) : Type 0 where
    pub role : StoredRole
    pub stored : IsStored env w.plugin path w.store role
    pub by_value : role.keys.force_proxy_mode ≡ false
    pub in_term : expired (env.now w.ticks) role.usage ≡ false
    pub has_uses : depleted role.usage ≡ false
    pub capable : IsCapable (pos 3) role.keys

  given :
      (path : String) (d : FieldData) (body : Option Fields) (w : World env)
      (m : Req env RoleContainer)
      → Passed
          (pos 3)
          (map_request_handler_context
            (λ _. empty_container)
            (start_request empty_token_container path d body w))
          m
      → TokenGiven path w
  unfolding map_request_handler_context
  given path d body w m k = record {
    role = k.role;
    stored = k.stored;
    by_value = k.by_value;
    in_term = k.in_term;
    has_uses = k.has_uses;
    capable = k.capable;
  }

  -- Whenever `readRoleToken` answers, the request named a role that is stored, that can be used by
  -- value, that is in term at the time of the check, whose quota is not used up, and that is V3
  -- capable, whatever version of the API the request asked for.
  pub read_role_token-TokenGiven :
      (d : FieldData) (body : Option Fields) (w w' : World env) (p : Payload)
      → read_role_token d body w ≡ (respond (answer p), w')
      → (path : String) × (storage_path_for_role env w.plugin d ≡ some path) × TokenGiven path w
  unfolding read_role_token with_v3_token
  read_role_token-TokenGiven d body w w' p e =
      let (g, (u, read, e')) =
        bind-eq-answer (read_grant_request_params d) (λ x. reading x d body) w w' p
          (params-Refuses d) e in
      let same = params-eq-ok d w u g read in
      let (path, found, (r', ran, _)) =
        handle_role-eq-answer empty_token_container (with_token g) d body w w' p
          (subst (λ x. reading g d body x ≡ (respond (answer p), w')) same e') in
      let (q, checked, _) =
        mapping_run-eq-answer (simple_chain token_checks) (λ _. empty_container)
          (λ from to. record to { role = from.role })
          (rehydrate_v3_access_token ∷ select_v3_rendering_func g ∷ [])
          (start_request empty_token_container path d body w) r' p token_checks-Refuses ran in
      let (m, k) = token_checks-eq-ok _ q checked in (path, found, given path d body w m k)
    where
      with_token : GrantRequest → Transformer env V3TokenContainer
      with_token g =
          with_v3_token token_checks (rehydrate_v3_access_token ∷ select_v3_rendering_func g ∷ [])

      reading : GrantRequest → Handler env
      reading g = handle_role_operation empty_token_container (with_token g)
