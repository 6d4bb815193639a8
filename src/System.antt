-- ===== src/System.antt =====
-- The plugin as a system: how requests, checks of existence and the housekeeping move the world from
-- the mount on. Nothing is said of which of them happen, or in what order.
pub mod Keeps
pub mod Steps
pub mod RoleSteps
pub mod Exchanges
pub mod Calls
pub mod Handlers
pub mod Settings
pub mod Proxies
pub mod Coherent
pub mod Paths
use hcvault_mashery_api_auth.Prelude.{suc, String, ◌≡◌, Option, none, some, List}
use mathlib.Core.List.{Memᴰ}
use hcvault_mashery_api_auth.Value.{Fields}
use hcvault_mashery_api_auth.Config.{BackendConfiguration}
use hcvault_mashery_api_auth.Env.{Env}
use hcvault_mashery_api_auth.Plugin.{make_new, housekeeping}
use hcvault_mashery_api_auth.Request.{FieldData, World}
use hcvault_mashery_api_auth.Handler.{Handler}
use hcvault_mashery_api_auth.ConfigSteps.{init_on_mount}
use hcvault_mashery_api_auth.Routes.{Operation, RoutePath, ExistenceCheck, callback_of}
use hcvault_mashery_api_auth.Routes.Paths.{all_paths}

module _ {env : Env} (zero_cfg : BackendConfiguration) where
  -- One move: an operation of one of the paths, the existence check of a path, or `Housekeeping`.
  pub data Moves : World env → World env → Type 0 where
    requested :
        (p : RoutePath env) (op : Operation) (f : Handler env) (d : FieldData)
        (body : Option Fields) (w : World env)
        → Memᴰ p (all_paths zero_cfg)
        → callback_of p op ≡ some f
        → Moves w (f d body w).1
    checked :
        (p : RoutePath env) (check : ExistenceCheck env) (d : FieldData) (body : Option Fields)
        (w : World env)
        → Memᴰ p (all_paths zero_cfg)
        → p.existence_check ≡ some check
        → Moves w (check d body w).1
    kept_house :
        (w : World env)
        → Moves w
            (record w { plugin = housekeeping env (env.now w.ticks) w.plugin; ticks = suc w.ticks })

  -- The worlds that a plugin comes to: it is made by `makeNew`, mounted, and moved any number of
  -- times.
  pub data Reachable : World env → Type 0 where
    mounted :
        (w : World env) (uuid : String)
        → w.plugin ≡ make_new zero_cfg uuid
        → Reachable (init_on_mount w).1
    moved : {w w' : World env} → Reachable w → Moves w w' → Reachable w'
