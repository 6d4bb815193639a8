-- ===== src/Tests/Configs.antt =====
-- Writes of the configuration in memory, and the theorems on them.
use hcvault_mashery_api_auth.Prelude.{◌≡◌, refl, ◌||◌, none, some, ◌==◌, if◌then◌else◌}
use hcvault_mashery_api_auth.Value.{text, null}
use hcvault_mashery_api_auth.Exec.{ok}
use hcvault_mashery_api_auth.Plugin.{
  config_path, default_backend_configuration, accept_configuration_update,
}
use hcvault_mashery_api_auth.Request.{
  FieldData, World, persist, read, read_path, read_own, write_path, write_own,
}
use hcvault_mashery_api_auth.Request.Chain.{simple_chain}
use hcvault_mashery_api_auth.Handler.{handle_operation_with_container}
use hcvault_mashery_api_auth.ConfigSteps.{
  store_configuration, update_cert, reset_cert, pin_chain, read_back_end_config,
  save_back_end_config, accept_backend_configuration, parse_back_end_configuration,
  parse_config_fields, select_pin, parse_certificate_pin_configuration, parse_pin_fields,
  reset_certificate_pin, pin_at, set_pin, encode_config, decode_config,
}
use hcvault_mashery_api_auth.ConfigSteps.Stored.{IsStoredAt, store_configuration-IsStoredAt}
use hcvault_mashery_api_auth.Tests.{memory, memory-laws, some_cfg, a_plugin, a_world}

abbrev pub config_fields : FieldData
config_fields = record {
  get_ok = λ k. if k == "oaep_label" || k == "cn" then some (text "new") else none;
  get = λ k. null;
}

abbrev pub stored : World memory
stored = (store_configuration some_cfg config_fields none a_world).1

pub stored_run : store_configuration some_cfg config_fields none a_world ≡ (ok tt, stored)
unfolding store_configuration update_cert reset_cert pin_chain read_back_end_config
    save_back_end_config accept_backend_configuration parse_back_end_configuration
    parse_config_fields select_pin parse_certificate_pin_configuration parse_pin_fields
    reset_certificate_pin pin_at set_pin encode_config decode_config config_path
    default_backend_configuration accept_configuration_update persist read read_path read_own
    write_path write_own simple_chain handle_operation_with_container
stored_run = refl

store_configuration-IsStoredAt_example : IsStoredAt (config_path a_plugin) stored
store_configuration-IsStoredAt_example =
    store_configuration-IsStoredAt memory-laws some_cfg config_fields none a_world stored stored_run
