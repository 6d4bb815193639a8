-- ===== src/Lib.antt =====
-- The secrets engine of the repository: a plugin of HashiCorp Vault that keeps credentials of the
-- Mashery API in roles, gives out V2 signatures and V3 access tokens, proxies calls of the API, and
-- passes roles on between Vaults. This is a model of the Go package mashery/.
--
-- A path of the plugin is a handler, which runs a chain of steps over a request context; a step goes
-- on, answers, fails or panics, and what it wrote stays written. Steps reach the storage of Vault,
-- the clock, the plugin object (the configuration, the OAuth helper and the caches of API clients) and
-- the Mashery API. The files are:
--   Prelude, Value, Exec, Time: shared names; the values of Go's `interface{}`, errors and responses;
--     the effect of a step (Exec); int64 times and durations with their wrap-around.
--   Env: what the package uses of other code, as a record of parameters: the storage, the clock,
--     random bytes, the API behind its client library, RSA, X.509, PEM, gzip and text formats.
--     `StorageLaws` is what the storage documents, and `PinLaws` of ConfigSteps/Mounted what the
--     JSON form of a pin does; only theorems that name them rely on them.
--   Role, Config: mashery/data_structs.go, with the stored JSON form of roles in Role/Json.
--   Plugin: mashery/plugin.go; a client is the parameters that it was made of.
--   Request, Request/Chain: mashery/vaultstorage.go, mashery/chainofresponsibility.go and
--     mashery/cordriver.go. `World` is what requests share, `Req` a request with its heap.
--   RoleSteps, RoleSteps/Render: mashery/transformers_role_rw.go. Handler: the runners of plugin.go.
--   Token, Grant: the token half of mashery/transformers_v3.go, mashery/path_role_grant.go,
--     mashery/transformers_grant.go and mashery/path_role_token.go.
--   Api, Api/Render, V3: the rest of mashery/transformers_v3.go, mashery/path_role_v3.go and
--     mashery/path_proxy_v3.go. V2: mashery/transformers_v2.go and the V2 paths.
--   Duration: `ParseUserInputDuration` of mashery/parseutils.go. Roles: mashery/path_role.go and
--     mashery/path_root.go. ConfigSteps: mashery/path_config.go and the two
--     transformers_backendConfig files, with the printed settings in ConfigSteps/Shown.
--   Exchange: mashery/transformers_pki.go and mashery/path_role_impexp.go.
--   Routes: the tables by which the plugin describes itself to Vault, with the `makeNew` of
--     mashery/plugin.go: Routes/Schemas has the fields of each path, Routes/Paths the paths and the
--     secrets. What Vault does with them is a parameter: `Conforms` is what its framework documents
--     of the fields of a request, `WriteLaws` when a write creates and when it updates.
--   System: the plugin as a whole, which is made, mounted and then moved by the callbacks of
--     Routes/Paths, by the checks of existence and by the housekeeping, in any order.
--   Lifecycle: a role as its users see it, absent or with keys and a number of uses, the moves of such
--     a role, and what it means that the storage represents one.
--   The proofs stand below the module that they are about: Request/Chain/Laws, RoleSteps/Checks and
--     Handler/Laws read a chain that has run backwards, Request/Chain/Runs and RoleSteps/Passes
--     run one forwards, Exec/Safe a run that does not panic, Api/Counts what a run costs in calls, and
--     the modules below System what each step leaves of the plugin object; */Sound,
--     Grant/Quota, Plugin/Cache, ConfigSteps/Stored, Plugin/Idle, Roles/Updated, Routes/Reads,
--     Api/Rounds, Api/Puts, System/Coherent,
--     Lifecycle/Refines and their like have the results.
--   Tests: an environment in memory, whole requests in it, and the theorems at them.
--
-- A definition has the name of the Go function in snake case. The only loop with a bound is the
-- fetch loop of `doFetchWithErrorHandling`, which has three rounds in the source and here; all other
-- loops are over lists. One request runs at a time: interleavings of requests and the locks of the
-- plugin are not modelled. Nor are the response schemas and the descriptions and help of the tables,
-- the matching of a request's path against the patterns, which the framework does, logging but for
-- the dereferences in it, closing an evicted client, and the commands cmd/ and cmd.tlspin/. `Join`,
-- `AndThen` and `AndThenTo` stand in a comment of the source and are no code.
pub mod Prelude
pub mod Value
pub mod Exec
pub mod Time
pub mod Role
pub mod Config
pub mod Env
pub mod Plugin
pub mod Request
pub mod RoleSteps
pub mod Handler
pub mod Token
pub mod Grant
pub mod Api
pub mod V3
pub mod Duration
pub mod Roles
pub mod ConfigSteps
pub mod V2
pub mod Exchange
mod Tests
pub mod Routes
pub mod System
pub mod Lifecycle
