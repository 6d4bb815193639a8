-- ===== src/RoleSteps/Checks.antt =====
-- What the role steps have established when they let a request go on.
use hcvault_mashery_api_auth.Prelude.{
  suc, ℤ, pos, String, ◌≡◌, refl, ◌⊎◌, Bool, true, false, Option, none, some, arith,
}
use hcvault_mashery_api_auth.Value.{Value, text, Result, good, Err}
use hcvault_mashery_api_auth.Exec.{ok}
use hcvault_mashery_api_auth.Role.{
  RoleKeys, StoredRoleUsage, StoredRole, zero_usage, expired, depleted, is_v2_capable,
  is_v3_capable, has_usage_quota, reduce_remaining_quota,
}
use hcvault_mashery_api_auth.Role.Json.{decode_keys, decode_usage, encode_usage}
use hcvault_mashery_api_auth.Env.{Env}
use hcvault_mashery_api_auth.Plugin.{AuthPlugin}
use hcvault_mashery_api_auth.Request.{Req, read, read_path, write_path, persist}
use hcvault_mashery_api_auth.Request.Chain.Laws.{Refuses}
use hcvault_mashery_api_auth.RoleSteps.{
  RoleContext, initial_keys, initial_role, role_keys_path, role_usage_path, read_role,
  block_operation_on_force_proxy_role, block_usage_exceeding_limits, block_role_incapable_of,
  decrease_remaining_usage_quota, allow_only_v2_capable_role, allow_only_v3_capable_role,
}

-- The role of this name, as the storage has it under this path.
pub record IsStored (env : Env) (b : AuthPlugin) (path : String) (store : env.Store)
    (role : StoredRole) : Type 0 where
  pub keys_stored :
      read env decode_keys (role_keys_path path) initial_keys store ≡ good (true, role.keys)
  pub usage_stored :
      read env decode_usage (role_usage_path path) zero_usage store ≡ good (true, role.usage)

-- A role that can do what this version of the API wants.
abbrev pub IsCapable : ℤ → RoleKeys → Type 0
IsCapable api_level k =
    ((api_level ≡ pos 2) × (is_v2_capable k ≡ true))
    ⊎ ((api_level ≡ pos 3) × (is_v3_capable k ≡ true))

-- The usage after a use of the role.
abbrev pub spent : StoredRole → StoredRole
spent role = record role { usage = reduce_remaining_quota role.usage }

module _ {env : Env} {H : Type 0} ⦃rc : RoleContext H⦄ where
  -- The request with this role in its heap.
  abbrev pub carrying : StoredRole → Req env H → Req env H
  carrying role r = record r { heap = rc.carry_role (some role) r.heap }

  abbrev ReadRole : Req env H → Req env H → Type 0
  ReadRole r r' =
      (role : StoredRole) × IsStored env r.world.plugin r.storage_path r.world.store role
      × (r' ≡ carrying role r)

  read_role_cases :
      (r r' : Req env H) (v : Value) (k : Result (Bool × RoleKeys))
      (u : Result (Bool × StoredRoleUsage))
      → r.fields.get "roleName" ≡ v
      → read env decode_keys (role_keys_path r.storage_path) initial_keys r.world.store ≡ k
      → read env decode_usage (role_usage_path r.storage_path) zero_usage r.world.store ≡ u
      → read_role true r ≡ (ok tt, r')
      → ReadRole r r'
  unfolding read_role read_path
  read_role_cases r r' (text name) (good (true, keys)) (good (true, usage)) p q s e = (
    record (initial_role r.world.plugin name) { keys = keys; usage = usage },
    record { keys_stored = q; usage_stored = s },
    ground arith,
  )
  read_role_cases r r' v k u p q s e = absurd (ground arith)

  pub read_role-eq-ok : (r r' : Req env H) → read_role true r ≡ (ok tt, r') → ReadRole r r'
  read_role-eq-ok r r' e = read_role_cases r r' _ _ _ refl refl refl e

  pub force_proxy-eq-ok :
      (r r' : Req env H) (role : StoredRole)
      → rc.get_role r.heap ≡ some role
      → block_operation_on_force_proxy_role r ≡ (ok tt, r')
      → (role.keys.force_proxy_mode ≡ false) × (r' ≡ r)
  unfolding block_operation_on_force_proxy_role
  force_proxy-eq-ok r r' role h e = ground arith

  pub exceeding-eq-ok :
      (r r' : Req env H) (role : StoredRole)
      → rc.get_role r.heap ≡ some role
      → block_usage_exceeding_limits r ≡ (ok tt, r')
      → (expired (env.now r.world.ticks) role.usage ≡ false)
        × (depleted role.usage ≡ false)
        × (r' ≡ record r { world = record (r.world) { ticks = suc r.world.ticks } })
  unfolding block_usage_exceeding_limits
  exceeding-eq-ok r r' role h e = ground arith

  pub incapable-eq-ok :
      (v : ℤ) (r r' : Req env H) (role : StoredRole)
      → rc.get_role r.heap ≡ some role
      → block_role_incapable_of v r ≡ (ok tt, r')
      → IsCapable v role.keys × (r' ≡ r)
  unfolding block_role_incapable_of
  incapable-eq-ok v r r' role h e = ground arith

  pub v3_capable-eq-ok :
      (r r' : Req env H) (role : StoredRole)
      → rc.get_role r.heap ≡ some role
      → allow_only_v3_capable_role r ≡ (ok tt, r')
      → (is_v3_capable role.keys ≡ true) × (r' ≡ r)
  unfolding allow_only_v3_capable_role
  v3_capable-eq-ok r r' role h e = ground arith

  pub v2_capable-eq-ok :
      (r r' : Req env H) (role : StoredRole)
      → rc.get_role r.heap ≡ some role
      → allow_only_v2_capable_role r ≡ (ok tt, r')
      → (is_v2_capable role.keys ≡ true) × (r' ≡ r)
  unfolding allow_only_v2_capable_role
  v2_capable-eq-ok r r' role h e = ground arith

  -- The write of the usage of a role that was used.
  abbrev pub spending : StoredRole → Req env H → Option Err × env.Store
  spending role r =
      persist env (role_usage_path r.storage_path) (encode_usage (spent role).usage) r.world.store

  -- How a use of a role ends well: without a quota nothing happens, with one the reduced usage is
  -- stored.
  abbrev pub Spent : StoredRole → Req env H → Req env H → Type 0
  Spent role r r' =
      ((has_usage_quota role.usage ≡ false) × (r' ≡ r))
      ⊎ ((has_usage_quota role.usage ≡ true)
          × ((spending role r).0 ≡ none)
          × (r' ≡ record (carrying (spent role) r) {
            world = record (r.world) { store = (spending role r).1 };
          }))

  pub decrease-eq-ok :
      (r r' : Req env H) (role : StoredRole)
      → rc.get_role r.heap ≡ some role
      → decrease_remaining_usage_quota r ≡ (ok tt, r')
      → Spent role r r'
  unfolding decrease_remaining_usage_quota write_path
  decrease-eq-ok r r' role h e = ground (arith, rc.get-carry (some (spent role)) r.heap)

  pub read_role-Refuses : (b : Bool) → Refuses {S = Req env H} (read_role b)
  unfolding read_role read_path
  read_role-Refuses b s p e = ground arith

  pub force_proxy-Refuses : Refuses {S = Req env H} block_operation_on_force_proxy_role
  unfolding block_operation_on_force_proxy_role
  force_proxy-Refuses s p e = ground arith

  pub exceeding-Refuses : Refuses {S = Req env H} block_usage_exceeding_limits
  unfolding block_usage_exceeding_limits
  exceeding-Refuses s p e = ground arith

  pub incapable-Refuses : (v : ℤ) → Refuses {S = Req env H} (block_role_incapable_of v)
  unfolding block_role_incapable_of
  incapable-Refuses v s p e = ground arith

  pub v3_capable-Refuses : Refuses {S = Req env H} allow_only_v3_capable_role
  unfolding allow_only_v3_capable_role
  v3_capable-Refuses s p e = ground arith

  pub v2_capable-Refuses : Refuses {S = Req env H} allow_only_v2_capable_role
  unfolding allow_only_v2_capable_role
  v2_capable-Refuses s p e = ground arith

  pub decrease-Refuses : Refuses {S = Req env H} decrease_remaining_usage_quota
  unfolding decrease_remaining_usage_quota write_path
  decrease-Refuses s p e = ground arith
