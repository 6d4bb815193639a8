-- ===== src/Grant/Checks.antt =====
-- No credentials by value without the checks: what must have held when `issueGrant` answers.
use hcvault_mashery_api_auth.Prelude.{suc, ℤ, ◌≡◌, ap, ◌∙◌, subst, true, false, []}
use hcvault_mashery_api_auth.Exec.{Exit, ok}
use hcvault_mashery_api_auth.Role.{StoredRole, expired, depleted}
use hcvault_mashery_api_auth.Env.{Env}
use hcvault_mashery_api_auth.Request.{Req}
use hcvault_mashery_api_auth.Request.Chain.{simple_chain}
use hcvault_mashery_api_auth.Request.Chain.Laws.{Refuses, simple_chain-Refuses, simple_chain-eq-ok}
use hcvault_mashery_api_auth.RoleSteps.{RoleContainer, role_container}
use hcvault_mashery_api_auth.RoleSteps.Checks.{
  IsStored, IsCapable, carrying, Spent, read_role-eq-ok, force_proxy-eq-ok, exceeding-eq-ok,
  incapable-eq-ok, decrease-eq-ok, read_role-Refuses, force_proxy-Refuses, exceeding-Refuses,
  incapable-Refuses, decrease-Refuses,
}
use hcvault_mashery_api_auth.Token.{v3_token_container}
use hcvault_mashery_api_auth.Grant.{v2_signature_container, grant_checks}

module _ {env : Env} where
  -- The clock was read once.
  abbrev pub ticked : {H : Type 0} → Req env H → Req env H
  ticked r = record r { world = record (r.world) { ticks = suc r.world.ticks } }

  ended : {H : Type 0} (r q : Req env H) → simple_chain [] r ≡ (ok tt, q) → r ≡ q
  unfolding simple_chain
  ended r q e = ap (λ (x : Exit (Unit {0}) × Req env _). x.1) e

  -- What the checks have established when they let a request through.
  pub record Passed (v : ℤ) (r q : Req env RoleContainer) : Type 0 where
    pub role : StoredRole
    pub stored : IsStored env r.world.plugin r.storage_path r.world.store role
    pub by_value : role.keys.force_proxy_mode ≡ false
    pub in_term : expired (env.now r.world.ticks) role.usage ≡ false
    pub has_uses : depleted role.usage ≡ false
    pub capable : IsCapable v role.keys
    pub charged : Spent role (ticked (carrying role r)) q

  pub grant_checks-eq-ok :
      (v : ℤ) (r q : Req env RoleContainer)
      → simple_chain (grant_checks v) r ≡ (ok tt, q)
      → Passed v r q
  unfolding grant_checks
  grant_checks-eq-ok v r q e =
      let (r1, e1, rest1) = simple_chain-eq-ok _ _ r q e in
      let (role, stored, p1) = read_role-eq-ok r r1 e1 in
      let (r2, e2, rest2) = simple_chain-eq-ok _ _ r1 q rest1 in
      let (by_value, p2) = force_proxy-eq-ok r1 r2 role (ap (λ x. x.heap.role) p1) e2 in
      let q2 = p2 ∙ p1 in
      let (r3, e3, rest3) = simple_chain-eq-ok _ _ r2 q rest2 in
      let (in_term, has_uses, p3) = exceeding-eq-ok r2 r3 role (ap (λ x. x.heap.role) q2) e3 in
      let q3 = p3 ∙ ap ticked q2 in
      let (r4, e4, rest4) = simple_chain-eq-ok _ _ r3 q rest3 in
      let (capable, p4) = incapable-eq-ok v r3 r4 role (ap (λ x. x.heap.role) q3) e4 in
      let q4 = p4 ∙ q3 in
      let (r5, e5, rest5) = simple_chain-eq-ok _ _ r4 q rest4 in
      let charged = decrease-eq-ok r4 r5 role (ap (λ x. x.heap.role) q4) e5 in
      record {
        role = role;
        stored = stored;
        by_value = by_value;
        in_term = subst (λ x. expired (env.now x.world.ticks) role.usage ≡ false) q2 in_term;
        has_uses = has_uses;
        capable = capable;
        charged =
            subst (λ x. Spent role x q) q4
              (subst (λ x. Spent role r4 x) (ended r5 q rest5) charged);
      }

  pub grant_checks-Refuses : (v : ℤ) → Refuses (simple_chain (grant_checks {env = env} v))
  unfolding grant_checks
  grant_checks-Refuses v = simple_chain-Refuses _ (
    read_role-Refuses true,
    (force_proxy-Refuses, (exceeding-Refuses, (incapable-Refuses v, (decrease-Refuses, tt)))),
  )
