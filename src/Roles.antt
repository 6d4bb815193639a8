-- ===== src/Roles.antt =====
-- The role paths: mashery/path_role.go and mashery/path_root.go.
pub mod Deletion
pub mod Imported
pub mod Updated
pub mod Created
use hcvault_mashery_api_auth.Prelude.{
  ℕ, zero, suc, ◌+◌, ◌-◌, ◌*◌, ◌/◌, ◌%◌, ◌^◌, ◌≤◌, ◌<◌, ℤ, pos, negsuc, pos_part, neg_part, ◌+ℤ◌,
  ◌-ℤ◌, ◌≤ℤ◌, ◌<ℤ◌, ltb_ℤ, leb_ℤ, eqb_ℤ, wrap64, IsInt64, wrap64_of_IsInt64, String, ◌<>◌, ◌≡◌,
  refl, sym, ap, ◌∙◌, fun_ext, subst, ◌≢◌, ◌↔◌, ◌⊎◌, inl, inr, Bool, true, false, not, ◌&&◌, ◌||◌,
  Option, none, some, List, [], ◌∷◌, ◌++◌, map, arith, ◌==◌, eq_iff, eq_refl, ltb, leb, eqb,
  if◌then◌else◌, Bool-cases, Option-cases, length, ne_of_not_equal, not_equal_of_ne, append-ne_left,
  append-ne_right,
}
use hcvault_mashery_api_auth.Value.{
  Fields, field, end, texts, Err, Blob, wrapped, Result, good, bad, Response, answer,
}
use hcvault_mashery_api_auth.Exec.{Exit, ok, respond, fail, panic, Exec, stop, ◌>>=◌}
use hcvault_mashery_api_auth.Env.{Env}
use hcvault_mashery_api_auth.Plugin.{roles_storage_root}
use hcvault_mashery_api_auth.Request.{FieldData, Req, World, storage_path_for_role}
use hcvault_mashery_api_auth.Request.Chain.{Transformer, simple_chain}
use hcvault_mashery_api_auth.RoleSteps.{
  RoleContainer, role_container, empty_container, key_suffix, usage_suffix, private_key_suffix,
  read_role, block_operation_on_imported_role, update_role_keys_from_request, save_role_keys,
  set_initial_role_usage, save_role_usage,
}
use hcvault_mashery_api_auth.RoleSteps.Render.{render_role}
use hcvault_mashery_api_auth.Handler.{Handler, handle_role_operation}

module _ {env : Env} where
  -- `checkObjectExistsInStorage`
  abbrev exists_answer : Result (Option Blob) → World env → Exit Bool × World env
  exists_answer (bad err) w = (fail (wrapped "existence check failed" err), w)
  exists_answer (good none) w = (ok false, w)
  exists_answer (good (some _)) w = (ok true, w)

  unfoldable pub role_existence_check : FieldData → Exec (World env) Bool
  unfolding storage_path_for_role
  role_existence_check d w = elim (storage_path_for_role env w.plugin d) [
    | none ↦ (panic, w)
    | some path ↦ exists_answer (env.storage_get (path <> key_suffix) w.store) w
  ]

  unfoldable pub write_chain : Transformer env RoleContainer
  unfolding simple_chain
  write_chain = simple_chain (
      read_role false
      ∷ block_operation_on_imported_role
      ∷ update_role_keys_from_request
      ∷ save_role_keys
      ∷ set_initial_role_usage
      ∷ save_role_usage
      ∷ [])

  unfoldable pub update_chain : Transformer env RoleContainer
  unfolding simple_chain
  update_chain = simple_chain (
      read_role true
      ∷ block_operation_on_imported_role
      ∷ update_role_keys_from_request
      ∷ save_role_keys
      ∷ [])

  unfoldable pub handle_write_role_keys : Handler env
  unfolding write_chain handle_role_operation
  handle_write_role_keys = handle_role_operation empty_container write_chain

  unfoldable pub handle_read_role_data : Handler env
  unfolding handle_role_operation simple_chain
  handle_read_role_data =
      handle_role_operation empty_container (simple_chain (read_role true ∷ render_role ∷ []))

  unfoldable pub handle_update_role_data : Handler env
  unfolding update_chain handle_role_operation
  handle_update_role_data = handle_role_operation empty_container update_chain

  abbrev pub deleted :
      String → Option Err × env.Store → Exec (World env) (Unit {0}) → Exec (World env) (Unit {0})
  deleted message (none, s) next w = next (record w { store = s })
  deleted message (some err, s) next w = (fail (wrapped message err), record w { store = s })

  -- `req.Storage.Delete` and the test of its error, before the rest of the deletion.
  unfoldable pub delete_then :
      String → String → Exec (World env) (Unit {0}) → Exec (World env) (Unit {0})
  delete_then message path next w = deleted message (env.storage_delete path w.store) next w

  -- The entries under the root of a role.
  unfoldable pub delete_role : String → Exec (World env) (Unit {0})
  unfolding delete_then
  delete_role root = delete_then "failed to delete role Usage" (root <> usage_suffix) (
      delete_then "failed to delete role private key" (root <> private_key_suffix)
        (delete_then "failed to delete role key data" (root <> key_suffix) (λ w. (ok tt, w))))

  unfoldable pub handle_delete_role_data : Handler env
  unfolding delete_role storage_path_for_role
  handle_delete_role_data d body w = elim (storage_path_for_role env w.plugin d) [
    | none ↦ (panic, w)
    | some root ↦ delete_role root w
  ]

  -- `logical.ListResponse` leaves an empty list out.
  abbrev listed : Result (List String) → Exec (World env) (Unit {0})
  listed (bad err) w = (fail err, w)
  listed (good names) w = (
    respond (
        answer (record {
          body = elim names [ [] ↦ end | n ∷ ns ↦ field "keys" (texts (n ∷ ns)) end ];
          lease = none;
          warnings = [];
          headers = [];
        })),
    w,
  )

  unfoldable pub list_roles : Handler env
  unfolding roles_storage_root
  list_roles d body w = listed (env.storage_list (roles_storage_root w.plugin) w.store) w
