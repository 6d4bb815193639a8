-- ===== src/Tests/Examples.antt =====
-- The theorems on data at concrete values.
use mathlib.Core.List.{Memᴰ}
use hcvault_mashery_api_auth.Plugin.Idle.{IsRecent, housekeeping_lem}
use hcvault_mashery_api_auth.Prelude.{◌↔◌}
use hcvault_mashery_api_auth.Env.{V2Client}
use hcvault_mashery_api_auth.Plugin.{new_v2_client}
use hcvault_mashery_api_auth.Prelude.{pos, ◌≡◌, refl, inl, true, false, none, some, arith}
use hcvault_mashery_api_auth.Role.{
  has_usage_quota, depleted, import_role, is_v2_capable, is_v3_capable,
}
use hcvault_mashery_api_auth.Role.Json.{
  encode_keys, decode_keys, encode_usage, decode_usage, encode_exchange, decode_exchange,
}
use hcvault_mashery_api_auth.Role.RoundTrip.{blank, decode-encode_keys, decode-encode_usage}
use hcvault_mashery_api_auth.Time.{add64}
use hcvault_mashery_api_auth.Exchange.Settings.{DesiredRoleExport, default_export, export_of}
use hcvault_mashery_api_auth.Exchange.Terms.{
  decode-encode_exchange, import-export_of-uses, import-export_of-only_v2, import-export_of-only_v3,
}
use hcvault_mashery_api_auth.Plugin.{
  find, Cached, tls_of, v2_signature_for, client_lookup_key, new_v3_client, get_mashery_v3_client,
  get_mashery_v2_client, housekeeping,
}
use hcvault_mashery_api_auth.Plugin.Cache.{
  IsCoherent, get_mashery_v3_client-IsCoherent, housekeeping_of_used_client,
  get_mashery_v2_client-signature,
}
use hcvault_mashery_api_auth.Env.{V3Client}
use hcvault_mashery_api_auth.Role.{RoleUsageTerm, RoleDataExchange, StoredRole, zero_usage}
use hcvault_mashery_api_auth.Plugin.{AuthPlugin}
use hcvault_mashery_api_auth.Tests.{memory, some_keys, some_usage, a_role, some_cfg, a_plugin}

decode-encode_keys_example :
    decode_keys (encode_keys (record some_keys { max_qps = pos 0 })) (blank (pos 2) true)
    ≡ some (record some_keys { max_qps = pos 2 })
decode-encode_keys_example = decode-encode_keys (record some_keys { max_qps = pos 0 }) (pos 2) true

decode-encode_usage_example : decode_usage (encode_usage some_usage) zero_usage ≡ some some_usage
decode-encode_usage_example = decode-encode_usage some_usage

abbrev a_term : RoleUsageTerm
a_term = record { explicit_term = pos 0; explicit_num_uses = pos 3 }

abbrev an_exchange : RoleDataExchange
an_exchange = record { role_data = some_keys; usage_term = some a_term }

decode-encode_exchange_example : decode_exchange (encode_exchange an_exchange) ≡ some an_exchange
decode-encode_exchange_example = decode-encode_exchange an_exchange

-- An export for V2 only, for five uses.
abbrev an_export : DesiredRoleExport
an_export = record default_export { desired_num_uses = pos 5; desired_only_v2 = true }

abbrev imported_role : StoredRole
imported_role = import_role (export_of (pos 1000000000000) an_export a_role) a_role

import-export_of-uses_example :
    (imported_role.usage.explicit_num_uses ≡ pos 5)
    × (imported_role.usage.remaining_num_uses ≡ pos 5)
    × (has_usage_quota imported_role.usage ≡ true)
    × (depleted imported_role.usage ≡ false)
import-export_of-uses_example =
    import-export_of-uses (pos 1000000000000) an_export a_role a_role (omega arith)

import-export_of-only_v2_example : is_v3_capable imported_role.keys ≡ false
import-export_of-only_v2_example =
    import-export_of-only_v2 (pos 1000000000000) an_export a_role a_role refl

import-export_of-only_v3_example :
    is_v2_capable
      (import_role
        (export_of (pos 9) (record default_export { desired_only_v3 = true }) a_role)
        a_role).keys
    ≡ false
import-export_of-only_v3_example =
    import-export_of-only_v3 (pos 9) (record default_export { desired_only_v3 = true }) a_role
      a_role refl

a_plugin-IsCoherent : IsCoherent memory a_plugin
a_plugin-IsCoherent = record { helper = inl refl; clients = tt }

get_mashery_v3_client-IsCoherent_example :
    IsCoherent memory (get_mashery_v3_client memory (pos 9) a_role a_plugin).1
    × (((get_mashery_v3_client memory (pos 9) a_role a_plugin).0).tls_config
        ≡ tls_of memory some_cfg)
    × ((get_mashery_v3_client memory (pos 9) a_role a_plugin).1.cfg ≡ some_cfg)
get_mashery_v3_client-IsCoherent_example =
    get_mashery_v3_client-IsCoherent memory (pos 9) a_role a_plugin a_plugin-IsCoherent

-- A plugin that has served this role's V3 client at the time zero.
abbrev used_plugin : AuthPlugin
used_plugin = (get_mashery_v3_client memory (pos 0) a_role a_plugin).1

abbrev a_client : Cached V3Client
a_client = record { client = new_v3_client memory some_cfg a_role; last_used = pos 0 }

housekeeping_of_used_client_example :
    find
      (client_lookup_key a_plugin a_role)
      (housekeeping memory
        (pos 1000000000000)
        (get_mashery_v3_client memory (pos 1000000000000) a_role used_plugin).1).v3_clients
    ≡ none
unfolding get_mashery_v3_client client_lookup_key add64
housekeeping_of_used_client_example =
    housekeeping_of_used_client memory (pos 1000000000000) a_role used_plugin a_client (refl, tt)
      refl refl

get_mashery_v2_client-signature_example :
    ((get_mashery_v2_client memory (pos 9) a_role a_plugin).0).signature
    ≡ v2_signature_for memory (pos 9) a_role
get_mashery_v2_client-signature_example =
    get_mashery_v2_client-signature memory (pos 9) a_role a_plugin

-- A V2 client that was used at 500 seconds, beside the V3 client of time zero.
abbrev both_used : AuthPlugin
both_used = (get_mashery_v2_client memory (pos 500000000000) a_role used_plugin).1

abbrev a_v2_client : Cached V2Client
a_v2_client = record {
  client = new_v2_client memory (pos 500000000000) a_role;
  last_used = pos 500000000000;
}

housekeeping_lem_example :
    (Memᴰ ("u::r", a_client) (housekeeping memory (pos 1000000000000) both_used).v3_clients
      ↔ IsRecent (pos 1000000000000) both_used.v3_clients ("u::r", a_client))
    × (Memᴰ ("u::r", a_v2_client) (housekeeping memory (pos 1000000000000) both_used).v2_clients
        ↔ IsRecent (pos 1000000000000) both_used.v2_clients ("u::r", a_v2_client))
housekeeping_lem_example =
    housekeeping_lem memory (pos 1000000000000) both_used ("u::r", a_client) ("u::r", a_v2_client)
      (omega arith) (omega arith)
