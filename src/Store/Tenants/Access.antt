-- ===== src/Store/Tenants/Access.antt =====
-- Which tenants are enabled.
use proxy2api.Base.{◌≡◌, refl, ◌≢◌, true, false, any, In, Str, Result, ok, err}
use proxy2api.Text.{str, eq_str}
use proxy2api.Text.Laws.{eq_str_iff}
use proxy2api.Store.Gorm.{Gorm, GormLaws}
use proxy2api.Store.Rows.{Tenant}
use proxy2api.Store.Tables.{Store}
use proxy2api.Store.Tenants.{has_name, default_name, is_tenant_enabled}

module _ (g : Gorm) (laws : GormLaws g) where
  -- A name with no row is refused, unless it is that of the default tenant.
  pub tenant_missing :
      (name : Str) (s : Store g)
      → any (has_name (default_name g name)) (g.rows s.tenants) ≡ false
      → is_tenant_enabled g name s ≡ eq_str (default_name g name) (str "default")
  unfolding is_tenant_enabled
  tenant_missing name s h =
      rw ((laws.first_missing (has_name (default_name g name)) s.tenants h).1, is_tenant_enabled)

  -- A name other than the default one that is enabled has a row that says so.
  pub tenant_enabled-listed :
      (name : Str) (s : Store g)
      → is_tenant_enabled g name s ≡ true
      → default_name g name ≢ str "default"
      → (t : Tenant) × In t (g.rows s.tenants) × (t.name ≡ default_name g name) × (t.enabled ≡ true)
  unfolding is_tenant_enabled
  tenant_enabled-listed name s on other =
      found (g.first (has_name (default_name g name)) s.tenants) refl on
    where
      found :
          (r : Result Tenant)
          → g.first (has_name (default_name g name)) s.tenants ≡ r
          → elim r [ err e ↦ eq_str (default_name g name) (str "default") | ok t ↦ t.enabled ]
            ≡ true
          → (t : Tenant) × In t (g.rows s.tenants)
            × (t.name ≡ default_name g name)
            × (t.enabled ≡ true)
      found (err e) h on = absurd (other ((eq_str_iff _ _).0 on))
      found (ok t) h on =
          let (listed, named) = laws.first_row (has_name (default_name g name)) s.tenants t h in
          (t, listed, (eq_str_iff t.name (default_name g name)).0 named, on)
