-- ===== src/Lifecycle.antt =====
-- The life of a role, as its users see it: a role is absent, or has keys and a number of uses. The
-- moves of such a role, and the requests of the plugin that are to be such moves.
pub mod Refines
pub mod Entries
use hcvault_mashery_api_auth.Prelude.{
  ℕ, zero, suc, ◌+◌, ◌-◌, ◌*◌, ◌/◌, ◌%◌, ◌^◌, ◌≤◌, ◌<◌, ℤ, pos, negsuc, pos_part, neg_part, ◌+ℤ◌,
  ◌-ℤ◌, ◌≤ℤ◌, ◌<ℤ◌, ltb_ℤ, leb_ℤ, eqb_ℤ, wrap64, IsInt64, wrap64_of_IsInt64, String, ◌<>◌, ◌≡◌,
  refl, sym, ap, ◌∙◌, fun_ext, subst, ◌≢◌, ◌↔◌, ◌⊎◌, inl, inr, Bool, true, false, not, ◌&&◌, ◌||◌,
  Option, none, some, List, [], ◌∷◌, ◌++◌, map, arith, ◌==◌, eq_iff, eq_refl, ltb, leb, eqb,
  if◌then◌else◌, Bool-cases, Option-cases, length, ne_of_not_equal, not_equal_of_ne, append-ne_left,
  append-ne_right,
}
use hcvault_mashery_api_auth.Value.{Value, Fields, Payload, answer, Blob, good}
use hcvault_mashery_api_auth.Exec.{ok, respond}
use hcvault_mashery_api_auth.Role.{RoleKeys, StoredRoleUsage, zero_usage, has_usage_quota}
use hcvault_mashery_api_auth.Role.Json.{decode_keys, decode_usage, is_zero}
use hcvault_mashery_api_auth.Role.Usage.{uses_left}
use hcvault_mashery_api_auth.Env.{Env}
use hcvault_mashery_api_auth.Request.{FieldData, World, storage_path_for_role, read}
use hcvault_mashery_api_auth.RoleSteps.{
  initial_keys, default_qps_value, role_keys_path, role_usage_path,
}
use hcvault_mashery_api_auth.Routes.{Operation, Conforms, write_to}
use hcvault_mashery_api_auth.Routes.Schemas.{path_role_fields}
use hcvault_mashery_api_auth.Routes.Paths.{path_role}
use hcvault_mashery_api_auth.Roles.{handle_delete_role_data}
use hcvault_mashery_api_auth.Roles.Updated.{given_keys}
use hcvault_mashery_api_auth.Roles.Created.{IsAbsent}
use hcvault_mashery_api_auth.Grant.{issue_grant}

-- A role that is there; `none` uses are no quota.
pub record AbstractRole : Type 0 where
  pub keys : RoleKeys
  pub uses : Option ℕ

-- Keys as they are read back: a QPS of zero is not stored.
abbrev pub read_back : RoleKeys → RoleKeys
read_back k = record k { max_qps = if is_zero k.max_qps then default_qps_value else k.max_qps }

-- What a request asks of a role: to be written with these fields, to grant credentials, to go.
pub data RoleRequest : Type 0 where
  to_write : FieldData → RoleRequest
  to_grant to_delete : RoleRequest

-- What a request makes of a role. There is no grant of an absent role nor of one without a use left,
-- and no write of an imported one.
pub data RoleMoves : RoleRequest → Option AbstractRole → Option AbstractRole → Type 0 where
  created :
      (d : FieldData)
      → RoleMoves
          (to_write d)
          none
          (some (record { keys = read_back (given_keys d initial_keys); uses = none }))
  updated :
      (d : FieldData) (k : RoleKeys) (u : Option ℕ)
      → k.imported ≡ false
      → RoleMoves
          (to_write d)
          (some (record { keys = k; uses = u }))
          (some (record { keys = read_back (given_keys d k); uses = u }))
  used :
      (k : RoleKeys) (n : ℕ)
      → RoleMoves to_grant
          (some (record { keys = k; uses = some (suc n) }))
          (some (record { keys = k; uses = some n }))
  used_without_quota :
      (k : RoleKeys)
      → RoleMoves to_grant
          (some (record { keys = k; uses = none }))
          (some (record { keys = k; uses = none }))
  deleted : (a : Option AbstractRole) → RoleMoves to_delete a none

abbrev pub uses_of : StoredRoleUsage → Option ℕ
uses_of u = if has_usage_quota u then some (uses_left u) else none

-- The storage has this role under this path.
pub record Holds (env : Env) (path : String) (a : AbstractRole) (s : env.Store) : Type 0 where
  pub entry : Blob
  pub keys_entry : env.storage_get (role_keys_path path) s ≡ good (some entry)
  pub keys_stored : read env decode_keys (role_keys_path path) initial_keys s ≡ good (true, a.keys)
  pub usage : StoredRoleUsage
  pub usage_stored : read env decode_usage (role_usage_path path) zero_usage s ≡ good (true, usage)
  pub in_range : IsInt64 usage.remaining_num_uses
  pub uses_stored : uses_of usage ≡ a.uses

abbrev pub Represents : (env : Env) → String → Option AbstractRole → env.Store → Type 0
Represents env path none s = IsAbsent env path s
Represents env path (some a) s = Holds env path a s

-- The requests for the role at this path that go through: a write, a grant of credentials, a
-- deletion.
pub data Serves (env : Env) (choose : Option Bool → Operation) (path : String)
    : RoleRequest → World env → World env → Type 0 where
  writes :
      (d : FieldData) (body : Option Fields) (w w' : World env)
      → Conforms path_role_fields d
      → storage_path_for_role env w.plugin d ≡ some path
      → write_to choose path_role d body w ≡ (ok tt, w')
      → Serves env choose path (to_write d) w w'
  grants :
      (d : FieldData) (body : Option Fields) (w w' : World env) (p : Payload)
      → storage_path_for_role env w.plugin d ≡ some path
      → issue_grant d body w ≡ (respond (answer p), w')
      → Serves env choose path to_grant w w'
  deletes :
      (d : FieldData) (body : Option Fields) (w w' : World env)
      → storage_path_for_role env w.plugin d ≡ some path
      → handle_delete_role_data d body w ≡ (ok tt, w')
      → Serves env choose path to_delete w w'
