-- ===== src/Tests/Lives.antt =====
-- The life of a role in memory: a write with a new secret.
use hcvault_mashery_api_auth.Prelude.{refl, Option, none, some, ◌∷◌, arith}
use hcvault_mashery_api_auth.Value.{json, text}
use hcvault_mashery_api_auth.Plugin.{roles_storage_root}
use hcvault_mashery_api_auth.Role.{has_usage_quota}
use hcvault_mashery_api_auth.Role.Json.{encode_keys, decode_keys, encode_usage, decode_usage}
use hcvault_mashery_api_auth.Request.{storage_path_for_role, read}
use hcvault_mashery_api_auth.RoleSteps.{role_keys_path, role_usage_path}
use hcvault_mashery_api_auth.Routes.{has_type}
use hcvault_mashery_api_auth.Routes.Schemas.{path_role_fields}
use hcvault_mashery_api_auth.Lifecycle.{
  AbstractRole, RoleMoves, to_write, Holds, Represents, Serves, writes,
}
use hcvault_mashery_api_auth.Lifecycle.Refines.{Serves-RoleMoves}
use hcvault_mashery_api_auth.Tests.{memory, memory-laws, a_world, a_store, some_keys, some_usage}
use hcvault_mashery_api_auth.Tests.Given.{checked_fields-Conforms}
use hcvault_mashery_api_auth.Tests.Writes.{
  choose, choose-laws, named_r, update_fields, updated, updated_run,
}

abbrev seen : AbstractRole
seen = record { keys = some_keys; uses = some 2 }

seen-Holds : Holds memory "u/role/r" seen a_store
unfolding read role_keys_path role_usage_path encode_keys decode_keys encode_usage decode_usage
    has_usage_quota
seen-Holds = record {
  entry = json (encode_keys some_keys);
  keys_entry = refl;
  keys_stored = refl;
  usage = some_usage;
  usage_stored = refl;
  in_range = omega arith;
  uses_stored = refl;
}

update-Serves : Serves memory choose "u/role/r" (to_write update_fields) a_world updated
unfolding storage_path_for_role roles_storage_root path_role_fields has_type
update-Serves =
    writes update_fields none a_world updated
      (checked_fields-Conforms path_role_fields (("secret", text "new") ∷ named_r)) refl updated_run

Serves-RoleMoves_example :
    (a' : Option AbstractRole) × RoleMoves (to_write update_fields) (some seen) a'
    × Represents memory "u/role/r" a' updated.store
Serves-RoleMoves_example =
    Serves-RoleMoves memory-laws "u/role/r" choose-laws (to_write update_fields) (some seen) a_world
      updated seen-Holds update-Serves
