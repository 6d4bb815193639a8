-- ===== src/RoleSteps/Passes.antt =====
-- When the role steps let a request go on, and what the request is then.
use hcvault_mashery_api_auth.Prelude.{
  suc, ℤ, String, ◌≡◌, refl, ◌⊎◌, inl, inr, Bool, true, false, none, some, arith, ◌==◌,
}
use hcvault_mashery_api_auth.Value.{text}
use hcvault_mashery_api_auth.Exec.{ok}
use hcvault_mashery_api_auth.Role.{StoredRole, expired, depleted, has_usage_quota}
use hcvault_mashery_api_auth.Env.{Env}
use hcvault_mashery_api_auth.Plugin.{AuthPlugin}
use hcvault_mashery_api_auth.Request.{Req, read_path, write_path}
use hcvault_mashery_api_auth.RoleSteps.{
  RoleContext, initial_role, read_role, block_operation_on_force_proxy_role,
  block_usage_exceeding_limits, block_role_incapable_of, decrease_remaining_usage_quota,
}
use hcvault_mashery_api_auth.RoleSteps.Checks.{IsStored, IsCapable, carrying, spent, spending}

-- The stored role as it is read for a request of this name.
abbrev pub named : AuthPlugin → String → StoredRole → StoredRole
named b name role = record (initial_role b name) { keys = role.keys; usage = role.usage }

module _ {env : Env} {H : Type 0} ⦃rc : RoleContext H⦄ where
  pub read_role-of_stored :
      (r : Req env H) (role : StoredRole) (name : String)
      → (r.storage_path == "") ≡ false
      → r.fields.get "roleName" ≡ text name
      → IsStored env r.world.plugin r.storage_path r.world.store role
      → read_role true r ≡ (ok tt, carrying (named r.world.plugin name role) r)
  unfolding read_role read_path
  read_role-of_stored r role name p n s = ground (arith, s.keys_stored, s.usage_stored)

  pub force_proxy-of_role :
      (r : Req env H) (role : StoredRole)
      → rc.get_role r.heap ≡ some role
      → role.keys.force_proxy_mode ≡ false
      → block_operation_on_force_proxy_role r ≡ (ok tt, r)
  unfolding block_operation_on_force_proxy_role
  force_proxy-of_role r role h e = ground arith

  pub exceeding-of_role :
      (r : Req env H) (role : StoredRole)
      → rc.get_role r.heap ≡ some role
      → expired (env.now r.world.ticks) role.usage ≡ false
      → depleted role.usage ≡ false
      → block_usage_exceeding_limits r
        ≡ (ok tt, record r { world = record (r.world) { ticks = suc r.world.ticks } })
  unfolding block_usage_exceeding_limits
  exceeding-of_role r role h e d = ground arith

  pub incapable-of_role :
      (v : ℤ) (r : Req env H) (role : StoredRole)
      → rc.get_role r.heap ≡ some role
      → IsCapable v role.keys
      → block_role_incapable_of v r ≡ (ok tt, r)
  unfolding block_role_incapable_of
  incapable-of_role v r role h c = ground arith

  -- The use of the role can be paid for: it costs nothing, or the storage takes the write.
  abbrev pub CanPay : StoredRole → Req env H → Type 0
  CanPay role r = (has_usage_quota role.usage ≡ false) ⊎ ((spending role r).0 ≡ none)

  -- A request that has paid goes on with the same keys, at the same time.
  pub record HasPaid (role : StoredRole) (r q : Req env H) : Type 0 where
    pub paying : StoredRole
    pub carried : rc.get_role q.heap ≡ some paying
    pub same_keys : paying.keys ≡ role.keys
    pub same_ticks : q.world.ticks ≡ r.world.ticks

  decrease_for_free :
      (r : Req env H) (role : StoredRole)
      → rc.get_role r.heap ≡ some role
      → has_usage_quota role.usage ≡ false
      → decrease_remaining_usage_quota r ≡ (ok tt, r)
  unfolding decrease_remaining_usage_quota
  decrease_for_free r role h e = ground arith

  decrease_and_store :
      (r : Req env H) (role : StoredRole)
      → (r.storage_path == "") ≡ false
      → rc.get_role r.heap ≡ some role
      → has_usage_quota role.usage ≡ true
      → (spending role r).0 ≡ none
      → decrease_remaining_usage_quota r ≡ (
        ok tt,
        record (carrying (spent role) r) {
          world = record (r.world) { store = (spending role r).1 };
        },
      )
  unfolding decrease_remaining_usage_quota write_path
  decrease_and_store r role p h e s = ground arith

  pub decrease-of_role :
      (r : Req env H) (role : StoredRole)
      → (r.storage_path == "") ≡ false
      → rc.get_role r.heap ≡ some role
      → CanPay role r
      → (q : Req env H) × (decrease_remaining_usage_quota r ≡ (ok tt, q)) × HasPaid role r q
  decrease-of_role r role p h c = by_quota (has_usage_quota role.usage) refl c
    where
      free :
          has_usage_quota role.usage ≡ false
          → (q : Req env H) × (decrease_remaining_usage_quota r ≡ (ok tt, q)) × HasPaid role r q
      free e = (
        r,
        decrease_for_free r role h e,
        record { paying = role; carried = h; same_keys = refl; same_ticks = refl },
      )

      by_quota :
          (b : Bool)
          → has_usage_quota role.usage ≡ b
          → CanPay role r
          → (q : Req env H) × (decrease_remaining_usage_quota r ≡ (ok tt, q)) × HasPaid role r q
      by_quota false e x = free e
      by_quota true e (inl x) = free x
      by_quota true e (inr x) = (
        _,
        decrease_and_store r role p h e x,
        record {
          paying = spent role;
          carried = rc.get-carry (some (spent role)) r.heap;
          same_keys = refl;
          same_ticks = refl;
        },
      )
