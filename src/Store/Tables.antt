-- ===== src/Store/Tables.antt =====
-- `Store` of internal/store/store.go: the tables behind its connection.
use proxy2api.Base.{Bool, if◌then◌else◌, Str}
use proxy2api.Text.{is_empty, trim_space}
use proxy2api.Store.Gorm.{Gorm}
use proxy2api.Store.Rows.{
  Provider, ProviderKey, ApiKey, Rule, GroupSchedule, UsageRecord, Tenant, PriceRule, BillingTxn,
  AdminUser, AuditLog, Kv,
}

pub record Store (g : Gorm) : Type 0 where
  pub providers : g.Table Provider
  pub provider_keys : g.Table ProviderKey
  pub api_keys : g.Table ApiKey
  pub rules : g.Table Rule
  pub group_schedules : g.Table GroupSchedule
  pub usage_records : g.Table UsageRecord
  pub tenants : g.Table Tenant
  pub price_rules : g.Table PriceRule
  pub billing_txns : g.Table BillingTxn
  pub admin_users : g.Table AdminUser
  pub audit_logs : g.Table AuditLog
  pub kvs : g.Table Kv

-- `strings.TrimSpace(v) == ""`
abbrev pub is_blank : Str → Bool
is_blank v = is_empty (trim_space v)

unfoldable pub default_str : Str → Str → Str
default_str v d = if is_blank v then d else v
