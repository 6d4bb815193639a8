-- ===== src/Grant/Sound.antt =====
-- No credentials by value without the checks: what must have held when `issueGrant` answers.
use hcvault_mashery_api_auth.Prelude.{
  ℤ, pos, eqb_ℤ, String, ◌≡◌, refl, sym, ap, ◌∙◌, subst, ◌⊎◌, Bool, true, false, Option, none, some,
  List, [], ◌∷◌, arith, if◌then◌else◌,
}
use hcvault_mashery_api_auth.Value.{Fields, answer, Payload, error_response}
use hcvault_mashery_api_auth.Exec.{Exit, ok, respond, stop}
use hcvault_mashery_api_auth.Role.{
  StoredRole, expired, depleted, has_usage_quota, reduce_remaining_quota,
}
use hcvault_mashery_api_auth.Role.Json.{encode_usage}
use hcvault_mashery_api_auth.Env.{Env}
use hcvault_mashery_api_auth.Request.{
  FieldData, Req, World, storage_path_for_role, persist, map_request_handler_context,
}
use hcvault_mashery_api_auth.Request.Chain.{Transformer, simple_chain, mapping_run}
use hcvault_mashery_api_auth.Request.Chain.Laws.{
  Each, Refuses, mapping_run-eq-answer, bind-eq-answer,
}
use hcvault_mashery_api_auth.RoleSteps.{
  RoleContainer, role_container, empty_container, role_usage_path,
}
use hcvault_mashery_api_auth.RoleSteps.Checks.{IsStored, IsCapable, Spent, carrying}
use hcvault_mashery_api_auth.Token.{
  V3TokenContainer, empty_token_container, retrieve_v3_access_token,
}
use hcvault_mashery_api_auth.Handler.{handle_role_operation, start_request}
use hcvault_mashery_api_auth.Handler.Laws.{
  handle_role-eq-answer, KeepsStore, simple_chain-KeepsStore,
}
use hcvault_mashery_api_auth.Grant.{
  GrantRequest, V2SignatureContainer, read_grant_request_params, grant_checks,
  retrieve_v2_signature, select_v2_rendering_func, select_v3_rendering_func, with_v2_signature,
  with_v3_token, grant_version, issue_grant,
}
use hcvault_mashery_api_auth.Grant.Checks.{ticked, grant_checks-eq-ok, grant_checks-Refuses}
use hcvault_mashery_api_auth.Grant.Storage.{
  retrieve_v2_signature-KeepsStore, v2_rendering-KeepsStore, retrieve_v3_access_token-KeepsStore,
  v3_rendering-KeepsStore,
}

-- A use of the role was paid for in the storage: without a quota the storage is as it was, with
-- one the reduced usage was written.
abbrev pub Paid : (env : Env) → String → StoredRole → env.Store → env.Store → Type 0
Paid env path role s s' =
    ((has_usage_quota role.usage ≡ false) × (s' ≡ s))
    ⊎ ((has_usage_quota role.usage ≡ true)
        × (persist env (role_usage_path path) (encode_usage (reduce_remaining_quota role.usage)) s
            ≡ (none, s')))

module _ {env : Env} where
  -- What must hold where credentials for this version of the API are given out by value.
  pub record Granted (v : ℤ) (path : String) (w w' : World env) : Type 0 where
    pub role : StoredRole
    pub stored : IsStored env w.plugin path w.store role
    pub by_value : role.keys.force_proxy_mode ≡ false
    pub in_term : expired (env.now w.ticks) role.usage ≡ false
    pub has_uses : depleted role.usage ≡ false
    pub capable : IsCapable v role.keys
    pub paid : Paid env path role w.store w'.store

  pub params-Refuses : (d : FieldData) → Refuses {S = World env} (read_grant_request_params d)
  unfolding read_grant_request_params
  params-Refuses d s p e = ground arith

  pub params-eq-ok :
      (d : FieldData) (w w' : World env) (g : GrantRequest)
      → read_grant_request_params d w ≡ (ok g, w')
      → w' ≡ w
  unfolding read_grant_request_params
  params-eq-ok d w w' g e = ground arith

  charge-Paid :
      (path : String) (role : StoredRole) (r q : Req env RoleContainer)
      → r.storage_path ≡ path
      → Spent role (ticked (carrying role r)) q
      → Paid env path role r.world.store q.world.store
  charge-Paid path role r q h e = ground arith

  module _ {To : Type 0} (importer : RoleContainer → To → To) where
    mapping_run-Granted :
        (v : ℤ) (own : List (Transformer env To)) (c : To) (path : String) (d : FieldData)
        (body : Option Fields) (w : World env) (p : Payload) (r' : Req env To)
        → Each (λ f. KeepsStore f) own
        → mapping_run
            (simple_chain (grant_checks v))
            (λ _. empty_container)
            importer
            own
            (start_request c path d body w)
          ≡ (respond (answer p), r')
        → Granted v path w r'.world
    unfolding map_request_handler_context
    mapping_run-Granted v own c path d body w p r' keeps e =
        let (q, checked, rest) =
          mapping_run-eq-answer (simple_chain (grant_checks v)) (λ _. empty_container) importer own
            (start_request c path d body w) r' p (grant_checks-Refuses v) e in
        let passed = grant_checks-eq-ok v _ q checked in
        let same_store =
          ap (λ (x : Exit (Unit {0}) × Req env To). x.1.world.store) (sym rest)
          ∙ simple_chain-KeepsStore own keeps _ in
        record {
          role = passed.role;
          stored = passed.stored;
          by_value = passed.by_value;
          in_term = passed.in_term;
          has_uses = passed.has_uses;
          capable = passed.capable;
          paid =
              subst (λ x. Paid env path passed.role w.store x) (sym same_store)
                (charge-Paid path passed.role
                  (map_request_handler_context (λ _. empty_container)
                    (start_request c path d body w))
                  q refl passed.charged);
        }

  -- Where `grant_version` answers for parameters, the role of the request was granted to.
  grant_version-Granted :
      (g : GrantRequest) (d : FieldData) (body : Option Fields) (w w' : World env) (p : Payload)
      → grant_version g d body w ≡ (respond (answer p), w')
      → (path : String) × (storage_path_for_role env w.plugin d ≡ some path)
        × Granted g.api_version path w w'
  unfolding grant_version
  grant_version-Granted g d body w w' p e =
      split (eqb_ℤ g.api_version (pos 2)) (eqb_ℤ g.api_version (pos 3)) e
    where
      no_signature : V2SignatureContainer
      no_signature = record { role = none; sig = "" }

      v2 : Transformer env V2SignatureContainer
      v2 =
          with_v2_signature (grant_checks g.api_version)
            (retrieve_v2_signature ∷ select_v2_rendering_func g ∷ [])

      v3 : Transformer env V3TokenContainer
      v3 =
          with_v3_token (grant_checks g.api_version)
            (retrieve_v3_access_token ∷ select_v3_rendering_func g ∷ [])

      split :
          (b c : Bool)
          → (if b
                then handle_role_operation no_signature v2 d body
                else if c
                then handle_role_operation empty_token_container v3 d body
                else stop (error_response "unsupported api version" []))
              w
            ≡ (respond (answer p), w')
          → (path : String) × (storage_path_for_role env w.plugin d ≡ some path)
            × Granted g.api_version path w w'
      split true c e' =
          let (path, found, (r', ran, same)) =
            handle_role-eq-answer no_signature v2 d body w w' p e' in
          (
            path,
            found,
            subst (λ x. Granted g.api_version path w x) (sym same)
                (mapping_run-Granted (λ from to. record to { role = from.role }) g.api_version
                  (retrieve_v2_signature ∷ select_v2_rendering_func g ∷ []) no_signature path d body
                  w p r' (retrieve_v2_signature-KeepsStore, (v2_rendering-KeepsStore g, tt)) ran),
          )
      split false true e' =
          let (path, found, (r', ran, same)) =
            handle_role-eq-answer empty_token_container v3 d body w w' p e' in
          (
            path,
            found,
            subst (λ x. Granted g.api_version path w x) (sym same)
                (mapping_run-Granted (λ from to. record to { role = from.role }) g.api_version
                  (retrieve_v3_access_token ∷ select_v3_rendering_func g ∷ []) empty_token_container
                  path d body w p r'
                  (retrieve_v3_access_token-KeepsStore, (v3_rendering-KeepsStore g, tt)) ran),
          )
      split false false e' = absurd (ground arith)

  -- Whenever `issueGrant` answers with credentials, the request named a role that is stored; the
  -- role can be used by value, its term has not ended at the time of the check, its quota is not used
  -- up, it is capable of the version of the API that was asked for, and the use was paid for: with a
  -- quota, the storage after the request is the one that the write of the reduced usage left, and
  -- without one the storage is as it was.
  pub issue_grant-Granted :
      (d : FieldData) (body : Option Fields) (w w' : World env) (p : Payload)
      → issue_grant d body w ≡ (respond (answer p), w')
      → (g : GrantRequest) × (read_grant_request_params d w ≡ (ok g, w))
        × ((path : String) × (storage_path_for_role env w.plugin d ≡ some path)
            × Granted g.api_version path w w')
  unfolding issue_grant
  issue_grant-Granted d body w w' p e =
      let (g, (u, read, e')) =
        bind-eq-answer (read_grant_request_params d) (λ x. grant_version x d body) w w' p
          (params-Refuses d) e in
      let same = params-eq-ok d w u g read in
      (
        g,
        subst (λ x. read_grant_request_params d w ≡ (ok g, x)) same read,
        grant_version-Granted g d body w w' p
            (subst (λ x. grant_version g d body x ≡ (respond (answer p), w')) same e'),
      )
