-- ===== src/RoleSteps.antt =====
-- The steps that read, check and write a role: mashery/transformers_role_rw.go.
pub mod Render
pub mod Checks
pub mod Passes
use hcvault_mashery_api_auth.Prelude.{
  ℕ, zero, suc, ◌+◌, ◌-◌, ◌*◌, ◌/◌, ◌%◌, ◌^◌, ◌≤◌, ◌<◌, ℤ, pos, negsuc, pos_part, neg_part, ◌+ℤ◌,
  ◌-ℤ◌, ◌≤ℤ◌, ◌<ℤ◌, ltb_ℤ, leb_ℤ, eqb_ℤ, wrap64, IsInt64, wrap64_of_IsInt64, String, ◌<>◌, ◌≡◌,
  refl, sym, ap, ◌∙◌, fun_ext, subst, ◌≢◌, ◌↔◌, ◌⊎◌, inl, inr, Bool, true, false, not, ◌&&◌, ◌||◌,
  Option, none, some, List, [], ◌∷◌, ◌++◌, map, arith, ◌==◌, eq_iff, eq_refl, ltb, leb, eqb,
  if◌then◌else◌, Bool-cases, Option-cases, length, ne_of_not_equal, not_equal_of_ne, append-ne_left,
  append-ne_right,
}
use hcvault_mashery_api_auth.Value.{
  Value, text, number, truth, Err, new_error, Response, error_response, arg_text, arg_number, Arg,
}
use hcvault_mashery_api_auth.Exec.{
  Exit, ok, respond, fail, panic, Exec, pure, stop, throw, crash, deref, ◌>>=◌, ◌>>◌,
}
use hcvault_mashery_api_auth.Time.{from_unix}
use hcvault_mashery_api_auth.Role.{
  RoleKeys, StoredRoleUsage, StoredRole, zero_keys, zero_usage, expired, depleted, has_usage_quota,
  reduce_remaining_quota, is_v2_capable, is_v3_capable, unbounded_usage, reset_token,
}
use hcvault_mashery_api_auth.Role.Json.{encode_keys, decode_keys, encode_usage, decode_usage}
use hcvault_mashery_api_auth.Env.{Env}
use hcvault_mashery_api_auth.Plugin.{AuthPlugin, roles_storage_root}
use hcvault_mashery_api_auth.Request.{
  FieldData, Req, Step, get_heap, put_heap, get_plugin, get_fields, get_path, read_clock,
  assert_text, read_path, write_path,
}

-- The interface `RoleContext` of a heap that carries a role. `none` is a nil pointer.
pub record RoleContext (H : Type 0) : Type 0 where
  pub get_role : H → Option StoredRole
  pub carry_role : Option StoredRole → H → H
  pub get-carry : (o : Option StoredRole) (h : H) → get_role (carry_role o h) ≡ o

-- `RoleContainer`
pub record RoleContainer : Type 0 where
  pub role : Option StoredRole

instance abbrev pub role_container : RoleContext RoleContainer
role_container = record {
  get_role = λ h. h.role;
  carry_role = λ o h. record h { role = o };
  get-carry = λ o h. refl;
}

abbrev pub empty_container : RoleContainer
empty_container = record { role = none }

abbrev pub key_suffix : String
key_suffix = "/key"

abbrev pub private_key_suffix : String
private_key_suffix = "/pk"

abbrev pub usage_suffix : String
usage_suffix = "/usage"

unfoldable pub role_keys_path : String → String
role_keys_path storage_path = storage_path <> key_suffix

unfoldable pub role_usage_path : String → String
role_usage_path storage_path = storage_path <> usage_suffix

unfoldable pub role_private_key_path : String → String
role_private_key_path storage_path = storage_path <> private_key_suffix

abbrev pub default_qps_value : ℤ
default_qps_value = pos 2

-- The keys that a role has before anything is read into it.
abbrev pub initial_keys : RoleKeys
initial_keys = record zero_keys { max_qps = default_qps_value; exportable = true }

-- `InitialRole`, for a role of this name.
unfoldable pub initial_role : AuthPlugin → String → StoredRole
unfolding roles_storage_root
initial_role b name = record {
  keys = initial_keys;
  usage = zero_usage;
  private_key = none;
  name = name;
  storage_path = roles_storage_root b <> name;
}

-- `ExpiryTimeString`
unfoldable pub expiry_time_string : Env → StoredRoleUsage → String
expiry_time_string env ar =
    if ltb_ℤ (pos 0) ar.explicit_term then env.show_time (from_unix ar.explicit_term) else "∞"

module _ {env : Env} {H : Type 0} ⦃rc : RoleContext H⦄ where
  -- `reqCtx.heap.GetRole()`, which the caller goes on to dereference.
  abbrev pub get_role : Step env H StoredRole
  get_role = do h ← get_heap; deref (rc.get_role h)

  -- What an assignment through the role's pointer does to the heap.
  abbrev pub set_role : StoredRole → Step env H Unit
  set_role role = do h ← get_heap; put_heap (rc.carry_role (some role) h)

  abbrev pub refuse_if : Bool → String → List Arg → Step env H Unit
  refuse_if test message args = if test then stop (error_response message args) else pure tt

  unfoldable pub read_role : Bool → Step env H Unit
  unfolding initial_role role_keys_path role_usage_path
  read_role require_role = do
    d ← get_fields
    b ← get_plugin
    path ← get_path
    name ← assert_text (d.get "roleName")
    (role_found, keys) ← read_path decode_keys (role_keys_path path) initial_keys
    refuse_if (not role_found && require_role) "role is not found" []
    (usage_found, usage) ← read_path decode_usage (role_usage_path path) zero_usage
    refuse_if (not usage_found && require_role) "role usage is not found" []
    set_role (record (initial_role b name) { keys = keys; usage = usage })

  -- `if v, ok := data.GetOk(field); ok { dest = v.(string) }`
  abbrev pub text_or : Option Value → String → Step env H String
  text_or none default = pure default
  text_or (some (text s)) default = pure s
  text_or (some _) default = crash

  abbrev pub number_or : Option Value → ℤ → Step env H ℤ
  number_or none default = pure default
  number_or (some (number n)) default = pure n
  number_or (some _) default = crash

  abbrev pub role_or_error : Option StoredRole → Step env H StoredRole
  role_or_error none =
      throw (new_error "updateRoleKeysFromRequest requires a non-nil role to operate" [])
  role_or_error (some role) = pure role

  unfoldable pub update_role_keys_from_request : Step env H Unit
  update_role_keys_from_request = do
    h ← get_heap
    role ← role_or_error (rc.get_role h)
    data' ← get_fields
    area_id ← text_or (data'.get_ok "area_id") role.keys.area_id
    area_nid ← number_or (data'.get_ok "area_nid") role.keys.area_nid
    api_key ← text_or (data'.get_ok "api_key") role.keys.api_key
    key_secret ← text_or (data'.get_ok "secret") role.keys.key_secret
    username ← text_or (data'.get_ok "username") role.keys.username
    password ← text_or (data'.get_ok "password") role.keys.password
    max_qps ← number_or (data'.get_ok "qps") role.keys.max_qps
    set_role (record role {
      keys = record (role.keys) {
        area_id = area_id;
        area_nid = area_nid;
        api_key = api_key;
        key_secret = key_secret;
        username = username;
        password = password;
        max_qps = max_qps;
      };
    })

  unfoldable pub block_operation_on_imported_role : Step env H Unit
  block_operation_on_imported_role = do
    role ← get_role
    refuse_if role.keys.imported "operation is not permitted on an imported role" []

  unfoldable pub block_operation_on_force_proxy_role : Step env H Unit
  block_operation_on_force_proxy_role = do
    role ← get_role
    refuse_if role.keys.force_proxy_mode
        "operation is not permitted as this role requires proxy mode" []

  unfoldable pub block_usage_exceeding_limits : Step env H Unit
  block_usage_exceeding_limits = do
    role ← get_role
    now ← read_clock
    if expired now role.usage
        then stop (
            error_response "this role has expired (granted until %s)"
              (arg_text (expiry_time_string env role.usage) ∷ []))
        else refuse_if (depleted role.usage) "this role has depleted its usage quota" []

  unfoldable pub save_role_usage : Step env H Unit
  unfolding role_usage_path
  save_role_usage = do
    role ← get_role
    path ← get_path
    write_path (role_usage_path path) (encode_usage role.usage)

  -- The body of the test: reduce the quota of the role, and store its usage.
  unfoldable pub spend_use : StoredRole → Step env H Unit
  unfolding role_usage_path
  spend_use role = do
    path ← get_path
    set_role (record role { usage = reduce_remaining_quota role.usage })
    write_path (role_usage_path path) (encode_usage (reduce_remaining_quota role.usage))

  unfoldable pub decrease_remaining_usage_quota : Step env H Unit
  unfolding spend_use
  decrease_remaining_usage_quota = do
    role ← get_role
    if has_usage_quota role.usage then spend_use role else pure tt

  abbrev refuse_incapable : Bool → ℤ → Step env H Unit
  refuse_incapable capable api_level =
      refuse_if (not capable) "role is not capable of api version %d" (arg_number api_level ∷ [])

  unfoldable pub do_block_role_incapable_of : StoredRole → ℤ → Step env H Unit
  do_block_role_incapable_of role api_level =
      if eqb_ℤ api_level (pos 2)
      then refuse_incapable (is_v2_capable role.keys) api_level
      else if eqb_ℤ api_level (pos 3)
      then refuse_incapable (is_v3_capable role.keys) api_level
      else stop (error_response "unsupported api version: %d" (arg_number api_level ∷ []))

  unfoldable pub block_role_incapable_of : ℤ → Step env H Unit
  unfolding do_block_role_incapable_of
  block_role_incapable_of api_level = do role ← get_role; do_block_role_incapable_of role api_level

  unfoldable pub block_non_exportable_role : Step env H Unit
  block_non_exportable_role = do
    role ← get_role
    refuse_if (not role.keys.exportable) "this role is not exportable" []

  unfoldable pub allow_only_v2_capable_role : Step env H Unit
  allow_only_v2_capable_role = do
    role ← get_role
    refuse_if (not (is_v2_capable role.keys)) "this role is not V2 capable" []

  unfoldable pub allow_only_v3_capable_role : Step env H Unit
  allow_only_v3_capable_role = do
    role ← get_role
    refuse_if (not (is_v3_capable role.keys)) "this role is not V3 capable" []

  unfoldable pub save_role_keys : Step env H Unit
  unfolding role_keys_path
  save_role_keys = do
    role ← get_role
    path ← get_path
    write_path (role_keys_path path) (encode_keys role.keys)

  unfoldable pub set_initial_role_usage : Step env H Unit
  set_initial_role_usage = do
    role ← get_role
    set_role (record role { usage = reset_token (unbounded_usage role.usage) })

  unfoldable pub forget_used_token : Step env H Unit
  forget_used_token = do role ← get_role; set_role (record role { usage = reset_token role.usage })
