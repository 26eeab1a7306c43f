-- ===== src/Store/Tenants.antt =====
-- The tenants of internal/store/store.go: their changes and `IsTenantEnabled`.
pub mod Access
pub mod Created
use proxy2api.Base.{
  ◌-◌, ◌/◌, ap, Bool, true, List, ltb, if◌then◌else◌, ℤ, pos, ltb_ℤ, eq_ℤ, Str, Result, ok, err,
  ◌>>=◌,
}
use proxy2api.Text.{str, eq_str, is_empty}
use proxy2api.Store.Gorm.{Gorm, done}
use proxy2api.Store.Rows.{Tenant, tenant_model}
use proxy2api.Store.Tables.{Store, is_blank}

abbrev pub has_name : Str → Tenant → Bool
has_name name t = eq_str t.name name

module _ (g : Gorm) where
  -- What becomes of the store after the statement that writes the tenants.
  abbrev pub saved : Store g → (ℤ → Result (ℤ × g.Table Tenant)) → ℤ → Result ℤ × Store g
  saved s write id = elim (write id) [
    | err e ↦ (err e, s)
    | ok (n, t) ↦ (ok n, record s { tenants = t })
  ]

  abbrev pub update_tenant : Tenant → Store g → ℤ → Result (ℤ × g.Table Tenant)
  update_tenant t s id = do
    updated ←
        g.updates (λ x. eq_ℤ x.id id) (λ x. record x { name = t.name; enabled = t.enabled })
          s.tenants
    ok (id, updated.1)

  abbrev pub create_tenant : Tenant → Store g → ℤ → Result (ℤ × g.Table Tenant)
  create_tenant t s id = do
    created ←
        g.upsert tenant_model (λ r x. eq_str x.name r.name)
          (λ x r. record x { enabled = r.enabled }) t s.tenants
    ok (created.0.id, created.1)

  unfoldable pub upsert_tenant : Tenant → Store g → Result ℤ × Store g
  upsert_tenant t s =
      if is_blank t.name
      then (err (str "tenant name required"), s)
      else if ltb_ℤ (pos 0) t.id
      then saved s (update_tenant t s) t.id
      else saved s (create_tenant t s) t.id

  abbrev pub default_name : Str → Str
  default_name name = if is_empty name then str "default" else name

  unfoldable pub is_tenant_enabled : Str → Store g → Bool
  is_tenant_enabled name s = elim (g.first (has_name (default_name name)) s.tenants) [
    | err e ↦ eq_str (default_name name) (str "default")
    | ok t ↦ t.enabled
  ]

  unfoldable pub list_tenants : Store g → Result (List Tenant)
  list_tenants s = g.find (λ a b. g.text_le a.name b.name) (λ t. true) s.tenants

  unfoldable pub delete_tenant : ℤ → Store g → Result (Unit {0}) × Store g
  delete_tenant id s =
      done s (λ t. record s { tenants = t }) (g.delete (λ t. eq_ℤ t.id id) s.tenants)
