-- ===== src/Gateway/Admin/Routes.antt =====
-- The paths of the administration that `NewServer` of internal/gateway/server.go registers, and their
-- handlers; /admin/stats and /admin/ui, which change nothing, are left out.
use proxy2api.Config.{Config}
use proxy2api.Store.Gorm.{Gorm}
use proxy2api.Gateway.Forward.{Request}
use proxy2api.Gateway.Admit.{Server}
use proxy2api.Gateway.Messages.{AdminReply}
use proxy2api.Gateway.Admin.{AdminOutside}
use proxy2api.Gateway.Admin.Catalog.{
  handle_providers, handle_provider_action, handle_provider_keys, handle_api_keys, handle_rules,
  handle_schedules, handle_config_export, handle_config_import, handle_reload,
}
use proxy2api.Gateway.Admin.Ledger.{
  handle_login, handle_tenants, handle_users, handle_prices, handle_topup, handle_billing_txns,
  handle_audit,
}

pub data Route : Type 0 where
  to_login : Route
  to_providers : Route
  to_provider_action : Route
  to_provider_keys : Route
  to_api_keys : Route
  to_tenants : Route
  to_users : Route
  to_prices : Route
  to_topup : Route
  to_billing_txns : Route
  to_audit : Route
  to_rules : Route
  to_schedules : Route
  to_config_export : Route
  to_config_import : Route
  to_reload : Route

module _ (g : Gorm) (cfg : Config) (o : AdminOutside) where
  abbrev pub handle_admin : Route → Request → Server g → AdminReply × Server g
  handle_admin to_login r = handle_login g cfg o r
  handle_admin to_providers r = handle_providers g cfg o r
  handle_admin to_provider_action r = handle_provider_action g cfg o r
  handle_admin to_provider_keys r = handle_provider_keys g cfg o r
  handle_admin to_api_keys r = handle_api_keys g cfg o r
  handle_admin to_tenants r = handle_tenants g cfg o r
  handle_admin to_users r = handle_users g cfg o r
  handle_admin to_prices r = handle_prices g cfg o r
  handle_admin to_topup r = handle_topup g cfg o r
  handle_admin to_billing_txns r = handle_billing_txns g cfg o r
  handle_admin to_audit r = handle_audit g cfg o r
  handle_admin to_rules r = handle_rules g cfg o r
  handle_admin to_schedules r = handle_schedules g cfg o r
  handle_admin to_config_export r = handle_config_export g cfg o r
  handle_admin to_config_import r = handle_config_import g cfg o r
  handle_admin to_reload r = handle_reload g cfg o r
