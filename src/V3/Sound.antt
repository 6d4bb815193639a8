-- ===== src/V3/Sound.antt =====
-- Calls of the V3 API: what must have held when one of them answers.
use hcvault_mashery_api_auth.Prelude.{
  String, ◌≡◌, sym, ap, ◌∙◌, subst, true, false, Option, some, List, ◌++◌,
}
use hcvault_mashery_api_auth.Value.{Fields, answer, Payload}
use hcvault_mashery_api_auth.Exec.{ok, respond, ◌>>◌}
use hcvault_mashery_api_auth.Role.{StoredRole, expired, depleted, is_v3_capable}
use hcvault_mashery_api_auth.Env.{Env}
use hcvault_mashery_api_auth.Request.{FieldData, Req, World, storage_path_for_role}
use hcvault_mashery_api_auth.Request.Chain.{Transformer, simple_chain, append_steps}
use hcvault_mashery_api_auth.Request.Chain.Laws.{
  Refuses, simple_chain-Refuses, simple_chain-append, simple_chain-eq-ok, bind-eq-answer,
}
use hcvault_mashery_api_auth.RoleSteps.Checks.{
  IsStored, read_role-eq-ok, exceeding-eq-ok, v3_capable-eq-ok, read_role-Refuses,
  exceeding-Refuses, v3_capable-Refuses, decrease-Refuses,
}
use hcvault_mashery_api_auth.Token.Laws.{token-Refuses}
use hcvault_mashery_api_auth.Handler.{start_request}
use hcvault_mashery_api_auth.Handler.Laws.{handle_role-eq-answer}
use hcvault_mashery_api_auth.Api.{ApiContainer, api_container, empty_api_container}
use hcvault_mashery_api_auth.V3.{base_v3_invocation_chain, invoke_v3}

module _ {env : Env} where
  base-Refuses : Refuses (simple_chain (base_v3_invocation_chain {env = env}))
  unfolding base_v3_invocation_chain
  base-Refuses = simple_chain-Refuses _ (
    read_role-Refuses true,
    (exceeding-Refuses, (v3_capable-Refuses, (token-Refuses, (decrease-Refuses, tt)))),
  )

  -- What must hold of the role where a call of the V3 API was let through.
  pub record Invoked (path : String) (w : World env) : Type 0 where
    pub role : StoredRole
    pub stored : IsStored env w.plugin path w.store role
    pub in_term : expired (env.now w.ticks) role.usage ≡ false
    pub has_uses : depleted role.usage ≡ false
    pub capable : is_v3_capable role.keys ≡ true

  base-eq-ok :
      (r q : Req env ApiContainer)
      → simple_chain base_v3_invocation_chain r ≡ (ok tt, q)
      → Invoked r.storage_path r.world
  unfolding base_v3_invocation_chain
  base-eq-ok r q e =
      let (r1, e1, rest1) = simple_chain-eq-ok _ _ r q e in
      let (role, stored, p1) = read_role-eq-ok r r1 e1 in
      let (r2, e2, rest2) = simple_chain-eq-ok _ _ r1 q rest1 in
      let (in_term, has_uses, p2) = exceeding-eq-ok r1 r2 role (ap (λ x. x.heap.role) p1) e2 in
      let (r3, e3, rest3) = simple_chain-eq-ok _ _ r2 q rest2 in
      let (capable, p3) =
        v3_capable-eq-ok r2 r3 role (ap (λ x. x.heap.role) p2 ∙ ap (λ x. x.heap.role) p1) e3 in
      record {
        role = role;
        stored = stored;
        in_term = subst (λ x. expired (env.now x.world.ticks) role.usage ≡ false) p1 in_term;
        has_uses = has_uses;
        capable = capable;
      }

  appended :
      (steps : List (Transformer env ApiContainer))
      → simple_chain (base_v3_invocation_chain ++ steps)
        ≡ (simple_chain base_v3_invocation_chain >> simple_chain steps)
  unfolding append_steps
  appended steps = simple_chain-append base_v3_invocation_chain steps

  -- Whenever an operation on the V3 API answers, whatever its own steps are, the request named a role
  -- that is stored; at the time of the check its term had not ended and its quota was not used up, and
  -- it is V3 capable.
  pub invoke_v3-Invoked :
      (steps : List (Transformer env ApiContainer)) (d : FieldData) (body : Option Fields)
      (w w' : World env) (p : Payload)
      → invoke_v3 steps d body w ≡ (respond (answer p), w')
      → (path : String) × (storage_path_for_role env w.plugin d ≡ some path) × Invoked path w
  unfolding invoke_v3
  invoke_v3-Invoked steps d body w w' p e =
      let (path, found, (r', ran, same)) =
        handle_role-eq-answer empty_api_container (simple_chain (base_v3_invocation_chain ++ steps))
          d body w w' p e in
      let both =
        ap
          (λ (m : Transformer env ApiContainer).
            m (start_request empty_api_container path d body w))
          (sym (appended steps))
        ∙ ran in
      let (u, (q, checked, rest)) =
        bind-eq-answer (simple_chain base_v3_invocation_chain) (λ _. simple_chain steps) _ r' p
          base-Refuses both in
      (path, found, base-eq-ok _ q checked)
