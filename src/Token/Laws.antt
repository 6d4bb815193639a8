-- ===== src/Token/Laws.antt =====
-- The renewal of a token goes on, fails or panics; it never answers.
use hcvault_mashery_api_auth.Prelude.{
  ◌≢◌, Bool, true, false, Option, none, some, arith, if◌then◌else◌,
}
use hcvault_mashery_api_auth.Value.{answer}
use hcvault_mashery_api_auth.Exec.{respond, pure, ◌>>=◌}
use hcvault_mashery_api_auth.Role.{StoredRole, v3_token_needs_renew}
use hcvault_mashery_api_auth.Env.{Env}
use hcvault_mashery_api_auth.Request.{read_clock, write_path, Req}
use hcvault_mashery_api_auth.Request.Chain.Laws.{Refuses}
use hcvault_mashery_api_auth.RoleSteps.{RoleContext}
use hcvault_mashery_api_auth.Token.{ensure_access_token_valid, renew_token, role_or_error}

module _ {env : Env} {H : Type 0} ⦃rc : RoleContext H⦄ where
  renew-Refuses : (role : StoredRole) → Refuses {S = Req env H} (renew_token role)
  unfolding renew_token write_path
  renew-Refuses role s p e = ground arith

  pub token-Refuses : Refuses {S = Req env H} ensure_access_token_valid
  unfolding ensure_access_token_valid
  token-Refuses s p e = split (rc.get_role s.heap) e
    where
      with_role :
          (role : StoredRole) (b : Bool) (u : Req env H)
          → ((if b then renew_token role else pure tt) u).0 ≢ respond (answer p)
      with_role role true u q = renew-Refuses role u p q
      with_role role false u q = absurd (ground arith)

      split :
          (o : Option StoredRole)
          → ((role_or_error o >>= λ role. read_clock >>= λ now.
                if v3_token_needs_renew now role.usage then renew_token role else pure tt)
              s).0
            ≢ respond (answer p)
      split none q = absurd (ground arith)
      split (some role) q = with_role role _ _ q
