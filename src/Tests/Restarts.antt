-- ===== src/Tests/Restarts.antt =====
-- A restart of a plugin in memory after its configuration was written.
use hcvault_mashery_api_auth.Prelude.{◌≡◌, refl, none, suc}
use hcvault_mashery_api_auth.Exec.{ok}
use hcvault_mashery_api_auth.Plugin.{make_new}
use hcvault_mashery_api_auth.ConfigSteps.{init_on_mount}
use hcvault_mashery_api_auth.ConfigSteps.Mounted.{
  PinLaws, writes_all, restarted, init_on_mount-config_write,
}
use hcvault_mashery_api_auth.Tests.{memory, memory-laws, some_cfg, a_world}
use hcvault_mashery_api_auth.Tests.Configs.{config_fields, stored, stored_run}

memory-PinLaws : PinLaws memory
memory-PinLaws = record { from-to_json = λ p. refl }

init_on_mount-config_write_example : init_on_mount (restarted some_cfg "u" stored) ≡ (
  ok tt,
  record stored {
    plugin = record (make_new some_cfg "u") { cfg = stored.plugin.cfg };
    ticks = suc stored.ticks;
  },
)
init_on_mount-config_write_example =
    init_on_mount-config_write memory-PinLaws memory-laws writes_all some_cfg config_fields none
      a_world stored stored_run
