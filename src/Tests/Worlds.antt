-- ===== src/Tests/Worlds.antt =====
-- A world that a plugin in memory comes to: it is mounted, its configuration is written, the V3 proxy
-- is used, and the house is kept.
use hcvault_mashery_api_auth.Prelude.{refl, none, suc}
use mathlib.Core.List.{Memᴰ}
use mathlib.Core.List.Memᴰ.{head, tail}
use hcvault_mashery_api_auth.Plugin.{AuthPlugin, make_new, housekeeping}
use hcvault_mashery_api_auth.Plugin.Cache.{IsCoherent}
use hcvault_mashery_api_auth.Request.{World}
use hcvault_mashery_api_auth.ConfigSteps.{init_on_mount, store_configuration}
use hcvault_mashery_api_auth.V3.{proxy_v3_request, proxy_method_get}
use hcvault_mashery_api_auth.Routes.{RoutePath, callback_in, read_operation, update_operation}
use hcvault_mashery_api_auth.Routes.Paths.{all_paths, path_config, path_proxy_v3}
use hcvault_mashery_api_auth.System.{Reachable, requested, kept_house, mounted, moved}
use hcvault_mashery_api_auth.System.Coherent.{Reachable-IsCoherent}
use hcvault_mashery_api_auth.Tests.{memory, some_cfg, a_world, some_fields}
use hcvault_mashery_api_auth.Tests.Configs.{config_fields}

abbrev made : World memory
made = record a_world { plugin = make_new some_cfg "u" }

abbrev configured : World memory
configured = (store_configuration some_cfg config_fields none (init_on_mount made).1).1

abbrev used : World memory
used = (proxy_v3_request proxy_method_get some_fields none configured).1

abbrev swept : AuthPlugin
swept = housekeeping memory (memory.now used.ticks) used.plugin

config_listed : Memᴰ {A = RoutePath memory} (path_config some_cfg) (all_paths some_cfg)
unfolding all_paths
config_listed = head refl

proxy_listed : Memᴰ {A = RoutePath memory} path_proxy_v3 (all_paths some_cfg)
unfolding all_paths
proxy_listed = tail (
    tail (
      tail (
        tail (
          tail (tail (tail (tail (tail (tail (tail (tail (tail (tail (tail (head refl)))))))))))))))

swept-Reachable : Reachable some_cfg (record used { plugin = swept; ticks = suc used.ticks })
unfolding path_config path_proxy_v3 callback_in
swept-Reachable =
    moved
      (moved
        (moved (mounted made "u" refl) (
          requested (path_config some_cfg) update_operation (store_configuration some_cfg)
            config_fields none (init_on_mount made).1 config_listed refl))
        (requested path_proxy_v3 read_operation (proxy_v3_request proxy_method_get) some_fields none
          configured proxy_listed refl))
      (kept_house used)

Reachable-IsCoherent_example : IsCoherent memory swept
Reachable-IsCoherent_example = Reachable-IsCoherent some_cfg swept-Reachable
