-- ===== src/Tests/Rounds.antt =====
-- The count of calls in memory, where the API counts the calls of resources.
use hcvault_mashery_api_auth.Prelude.{pos, ◌+◌, ◌≤◌, none, some, [], arith}
use hcvault_mashery_api_auth.Value.{end, good}
use hcvault_mashery_api_auth.Env.{Env}
use hcvault_mashery_api_auth.Request.{Req, World}
use hcvault_mashery_api_auth.Handler.{start_request}
use hcvault_mashery_api_auth.Api.{
  ApiContainer, empty_api_container, fetch_v3_resource, delete_v3_resource, write_to_v3_resource,
}
use hcvault_mashery_api_auth.Api.Rounds.{CountsCalls, CountsCalls-le}
use hcvault_mashery_api_auth.Tests.{memory, a_plugin, a_store, a_role, a_token, some_fields}

abbrev counting : Env
counting = record memory { retrieve_token = λ o c n. (good a_token, n) }

abbrev counted_world : World counting
counted_world = record { store = a_store; remote = 0; plugin = a_plugin; ticks = 0 }

abbrev counted_request : Req counting ApiContainer
counted_request =
    start_request (record empty_api_container { role = some a_role }) "u/role/r" some_fields none
      counted_world

counts : CountsCalls counting (λ n. n)
counts = record {
  fetched = λ client token call m. omega arith;
  granted = λ params creds m. omega arith;
}

CountsCalls-le_example :
    ((fetch_v3_resource "/services" [] counted_request).1.world.remote ≤ 0 + 3)
    × ((delete_v3_resource "/services" counted_request).1.world.remote ≤ 0 + 3)
    × ((write_to_v3_resource "/services" (pos 1) end counted_request).1.world.remote ≤ 0 + 3)
CountsCalls-le_example = CountsCalls-le counts "/services" [] (pos 1) end counted_request
