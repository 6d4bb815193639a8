-- ===== src/V2/Sound.antt =====
-- Queries of the V2 API: what must have held when one of them answers.
use hcvault_mashery_api_auth.Prelude.{
  String, ◌≡◌, sym, ap, ◌∙◌, subst, true, false, Option, some, List, [], ◌∷◌, ◌++◌, arith,
}
use hcvault_mashery_api_auth.Value.{Fields, answer, Payload}
use hcvault_mashery_api_auth.Exec.{ok, respond, Exec, ◌>>=◌, ◌>>◌}
use hcvault_mashery_api_auth.Exec.Laws.{bind_assoc}
use hcvault_mashery_api_auth.Role.{StoredRole, expired, depleted, is_v2_capable}
use hcvault_mashery_api_auth.Env.{Env, V2Request}
use hcvault_mashery_api_auth.Request.{
  FieldData, Req, World, storage_path_for_role, map_request_handler_context,
}
use hcvault_mashery_api_auth.Request.Chain.{Transformer, simple_chain, append_steps, mapping_run}
use hcvault_mashery_api_auth.Request.Chain.Laws.{
  Refuses, simple_chain-Refuses, simple_chain-append, simple_chain-eq-ok, bind-eq-answer,
  mapping_run-eq-answer,
}
use hcvault_mashery_api_auth.RoleSteps.{
  RoleContainer, role_container, empty_container, read_role, block_usage_exceeding_limits,
  allow_only_v2_capable_role, decrease_remaining_usage_quota,
}
use hcvault_mashery_api_auth.RoleSteps.Checks.{
  IsStored, read_role-eq-ok, exceeding-eq-ok, v2_capable-eq-ok, read_role-Refuses,
  exceeding-Refuses, v2_capable-Refuses, decrease-Refuses,
}
use hcvault_mashery_api_auth.Handler.{start_request, handle_role_operation}
use hcvault_mashery_api_auth.Handler.Laws.{handle_role-eq-answer}
use hcvault_mashery_api_auth.Api.{ApiContainer, api_container, empty_api_container}
use hcvault_mashery_api_auth.V2.{
  V2Container, v2_container, empty_v2_container, verify_v2_operation_request, or_invalid,
  execute_v2_call, render_v2_response, execute_v2_call_to_raw_response, render_v2_proxied_response,
  execute_v2_write, proxy_v2_checks, proxy_v2_request,
}

module _ {env : Env} where
  -- What must hold of the role where a query of the V2 API was let through.
  pub record Queried (path : String) (w : World env) : Type 0 where
    pub role : StoredRole
    pub stored : IsStored env w.plugin path w.store role
    pub in_term : expired (env.now w.ticks) role.usage ≡ false
    pub has_uses : depleted role.usage ≡ false
    pub capable : is_v2_capable role.keys ≡ true

  -- The steps of a query of the command line before the API is called.
  write_checks : List (Transformer env V2Container)
  write_checks =
      read_role true
      ∷ block_usage_exceeding_limits
      ∷ allow_only_v2_capable_role
      ∷ decrease_remaining_usage_quota
      ∷ []

  write_checks-Refuses : Refuses (simple_chain write_checks)
  unfolding write_checks
  write_checks-Refuses =
      simple_chain-Refuses _
        (read_role-Refuses true, (exceeding-Refuses, (v2_capable-Refuses, (decrease-Refuses, tt))))

  write_checks-eq-ok :
      (r q : Req env V2Container)
      → simple_chain write_checks r ≡ (ok tt, q)
      → Queried r.storage_path r.world
  unfolding write_checks
  write_checks-eq-ok r q e =
      let (r1, e1, rest1) = simple_chain-eq-ok _ _ r q e in
      let (role, stored, p1) = read_role-eq-ok r r1 e1 in
      let (r2, e2, rest2) = simple_chain-eq-ok _ _ r1 q rest1 in
      let (in_term, has_uses, p2) = exceeding-eq-ok r1 r2 role (ap (λ x. x.heap.role) p1) e2 in
      let (r3, e3, rest3) = simple_chain-eq-ok _ _ r2 q rest2 in
      let (capable, p3) =
        v2_capable-eq-ok r2 r3 role (ap (λ x. x.heap.role) p2 ∙ ap (λ x. x.heap.role) p1) e3 in
      record {
        role = role;
        stored = stored;
        in_term = subst (λ x. expired (env.now x.world.ticks) role.usage ≡ false) p1 in_term;
        has_uses = has_uses;
        capable = capable;
      }

  proxy_checks-Refuses : Refuses (simple_chain (proxy_v2_checks {env = env}))
  unfolding proxy_v2_checks
  proxy_checks-Refuses =
      simple_chain-Refuses _
        (read_role-Refuses true, (v2_capable-Refuses, (exceeding-Refuses, (decrease-Refuses, tt))))

  proxy_checks-eq-ok :
      (r q : Req env RoleContainer)
      → simple_chain proxy_v2_checks r ≡ (ok tt, q)
      → Queried r.storage_path r.world
  unfolding proxy_v2_checks
  proxy_checks-eq-ok r q e =
      let (r1, e1, rest1) = simple_chain-eq-ok _ _ r q e in
      let (role, stored, p1) = read_role-eq-ok r r1 e1 in
      let (r2, e2, rest2) = simple_chain-eq-ok _ _ r1 q rest1 in
      let (capable, p2) = v2_capable-eq-ok r1 r2 role (ap (λ x. x.heap.role) p1) e2 in
      let (r3, e3, rest3) = simple_chain-eq-ok _ _ r2 q rest2 in
      let (in_term, has_uses, p3) =
        exceeding-eq-ok r2 r3 role (ap (λ x. x.heap.role) (p2 ∙ p1)) e3 in
      record {
        role = role;
        stored = stored;
        in_term = subst (λ x. expired (env.now x.world.ticks) role.usage ≡ false) (p2 ∙ p1) in_term;
        has_uses = has_uses;
        capable = capable;
      }

  verify-Refuses :
      (d : FieldData) (body : Option Fields)
      → Refuses {S = World env} (verify_v2_operation_request d body >>= λ v. or_invalid v)
  unfolding verify_v2_operation_request
  verify-Refuses d body s p e = ground arith

  verify-eq-ok :
      (d : FieldData) (body : Option Fields) (w u : World env) (q : V2Request)
      → (verify_v2_operation_request d body >>= λ v. or_invalid v) w ≡ (ok q, u)
      → u ≡ w
  unfolding verify_v2_operation_request
  verify-eq-ok d body w u q e = ground arith

  -- A handler of a query answers only through its chain, in the world that it was called in.
  query-eq-answer :
      (d : FieldData) (body : Option Fields) (h : V2Request → Exec (World env) (Unit {0}))
      (w w' : World env) (p : Payload)
      → (verify_v2_operation_request d body >>= λ v. or_invalid v >>= h) w
        ≡ (respond (answer p), w')
      → (q : V2Request) × (h q w ≡ (respond (answer p), w'))
  query-eq-answer d body h w w' p e =
      let (q, (u, e1, e2)) =
        bind-eq-answer (verify_v2_operation_request d body >>= λ v. or_invalid v) h w w' p
          (verify-Refuses d body)
          (ap (λ (m : Exec (World env) (Unit {0})). m w)
              (bind_assoc (verify_v2_operation_request d body) (λ v. or_invalid v) h)
            ∙ e) in
      (q, subst (λ x. h q x ≡ (respond (answer p), w')) (verify-eq-ok d body w u q e1) e2)

  -- Whenever the V2 proxy answers with a response of the API, the request named a role that is
  -- stored; at the time of the check its term had not ended and its quota was not used up, and it is V2
  -- capable.
  pub proxy_v2_request-Queried :
      (d : FieldData) (body : Option Fields) (w w' : World env) (p : Payload)
      → proxy_v2_request d body w ≡ (respond (answer p), w')
      → (path : String) × (storage_path_for_role env w.plugin d ≡ some path) × Queried path w
  unfolding proxy_v2_request map_request_handler_context
  proxy_v2_request-Queried d body w w' p e =
      let (q, ran) = query-eq-answer d body (λ q. proxied q d body) w w' p e in
      let (path, found, (r', ended, _)) =
        handle_role-eq-answer empty_api_container (proxy_chain q) d body w w' p ran in
      let (s, checked, _) =
        mapping_run-eq-answer (simple_chain proxy_v2_checks) (λ _. empty_container)
          (λ from to. record to { role = from.role })
          (execute_v2_call_to_raw_response q ∷ render_v2_proxied_response ∷ [])
          (start_request empty_api_container path d body w) r' p proxy_checks-Refuses ended in
      (path, found, proxy_checks-eq-ok _ s checked)
    where
      proxy_chain : V2Request → Transformer env ApiContainer
      proxy_chain q =
          mapping_run (simple_chain proxy_v2_checks) (λ _. empty_container)
            (λ from to. record to { role = from.role })
            (execute_v2_call_to_raw_response q ∷ render_v2_proxied_response ∷ [])

      proxied : V2Request → FieldData → Option Fields → Exec (World env) (Unit {0})
      proxied q = handle_role_operation empty_api_container (proxy_chain q)

  appended :
      (q : V2Request)
      → simple_chain (write_checks ++ execute_v2_call q ∷ render_v2_response ∷ [])
        ≡ (simple_chain write_checks >> simple_chain (execute_v2_call q ∷ render_v2_response ∷ []))
  unfolding append_steps
  appended q = simple_chain-append write_checks (execute_v2_call q ∷ render_v2_response ∷ [])

  -- Whenever a V2 query from the command line answers with a result of the API, the request named a
  -- role that is stored; at the time of the check its term had not ended and its quota was not used up,
  -- and it is V2 capable.
  pub execute_v2_write-Queried :
      (d : FieldData) (body : Option Fields) (w w' : World env) (p : Payload)
      → execute_v2_write d body w ≡ (respond (answer p), w')
      → (path : String) × (storage_path_for_role env w.plugin d ≡ some path) × Queried path w
  unfolding execute_v2_write write_checks
  execute_v2_write-Queried d body w w' p e =
      let (q, ran) = query-eq-answer d body (λ q. written q d body) w w' p e in
      let (path, found, (r', ended, _)) =
        handle_role-eq-answer empty_v2_container (query_chain q) d body w w' p ran in
      let (u, (s, checked, _)) =
        bind-eq-answer (simple_chain write_checks)
          (λ _. simple_chain (execute_v2_call q ∷ render_v2_response ∷ [])) _ r' p
          write_checks-Refuses
          (ap
              (λ (m : Transformer env V2Container).
                m (start_request empty_v2_container path d body w))
              (sym (appended q))
            ∙ ended) in
      (path, found, write_checks-eq-ok _ s checked)
    where
      query_chain : V2Request → Transformer env V2Container
      query_chain q = simple_chain (write_checks ++ execute_v2_call q ∷ render_v2_response ∷ [])

      written : V2Request → FieldData → Option Fields → Exec (World env) (Unit {0})
      written q = handle_role_operation empty_v2_container (query_chain q)
