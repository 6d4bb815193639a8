-- ===== src/Grant/Passes.antt =====
-- A stored role that meets the checks of a grant passes them.
use hcvault_mashery_api_auth.Prelude.{suc, ℤ, String, ◌≡◌, refl, ◌∙◌, false, some, ◌==◌}
use hcvault_mashery_api_auth.Value.{text}
use hcvault_mashery_api_auth.Exec.{ok}
use hcvault_mashery_api_auth.Role.{StoredRole, expired, depleted}
use hcvault_mashery_api_auth.Env.{Env}
use hcvault_mashery_api_auth.Request.{Req}
use hcvault_mashery_api_auth.Request.Chain.{simple_chain}
use hcvault_mashery_api_auth.Request.Chain.Runs.{simple_chain-of_ok, simple_chain-nil}
use hcvault_mashery_api_auth.RoleSteps.{RoleContainer, role_container}
use hcvault_mashery_api_auth.RoleSteps.Checks.{IsStored, IsCapable, carrying}
use hcvault_mashery_api_auth.RoleSteps.Passes.{
  named, read_role-of_stored, force_proxy-of_role, exceeding-of_role, incapable-of_role, CanPay,
  decrease-of_role,
}
use hcvault_mashery_api_auth.Grant.{grant_checks}
use hcvault_mashery_api_auth.Grant.Checks.{ticked}

module _ {env : Env} where
  -- A request that passed the checks of a grant, for the same keys.
  pub record PassesAll (v : ℤ) (role : StoredRole) (r : Req env RoleContainer) : Type 0 where
    pub left : Req env RoleContainer
    pub passed : simple_chain (grant_checks v) r ≡ (ok tt, left)
    pub paying : StoredRole
    pub carried : left.heap.role ≡ some paying
    pub same_keys : paying.keys ≡ role.keys
    pub same_ticks : left.world.ticks ≡ suc r.world.ticks

  pub grant_checks-of_stored :
      (v : ℤ) (r : Req env RoleContainer) (role : StoredRole) (name : String)
      → (r.storage_path == "") ≡ false
      → r.fields.get "roleName" ≡ text name
      → IsStored env r.world.plugin r.storage_path r.world.store role
      → role.keys.force_proxy_mode ≡ false
      → expired (env.now r.world.ticks) role.usage ≡ false
      → depleted role.usage ≡ false
      → IsCapable v role.keys
      → CanPay role r
      → PassesAll v role r
  unfolding grant_checks
  grant_checks-of_stored v r role name p n s f e d c y =
      let role' = named r.world.plugin name role in
      let r1 = carrying role' r in
      let (q, ran, paid) = decrease-of_role (ticked r1) role' p refl y in
      record {
        left = q;
        passed =
            simple_chain-of_ok _ _ r r1 (read_role-of_stored r role name p n s)
            ∙ simple_chain-of_ok _ _ r1 r1 (force_proxy-of_role r1 role' refl f)
            ∙ simple_chain-of_ok _ _ r1 (ticked r1) (exceeding-of_role r1 role' refl e d)
            ∙ simple_chain-of_ok _ _ (ticked r1) (ticked r1)
                (incapable-of_role v (ticked r1) role' refl c)
            ∙ simple_chain-of_ok _ _ (ticked r1) q ran
            ∙ simple_chain-nil q;
        paying = paid.paying;
        carried = paid.carried;
        same_keys = paid.same_keys;
        same_ticks = paid.same_ticks;
      }
