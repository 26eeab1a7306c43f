-- ===== src/Store/ApiKeys.antt =====
-- The changes of the keys of users in internal/store/store.go.
pub mod Update
use proxy2api.Base.{◌-◌, ◌/◌, ap, ltb, if◌then◌else◌, ℤ, pos, ltb_ℤ, eq_ℤ, all, Result, err}
use proxy2api.Text.{str, eq_str, is_empty}
use proxy2api.Float.{one, is_nonpositive}
use proxy2api.Store.Gorm.{Gorm, update_row, insert_row, stored, done}
use proxy2api.Store.Rows.{ApiKey, api_key_model}
use proxy2api.Store.Tables.{Store, is_blank, default_str}

abbrev pub filled_api_key : ApiKey → ApiKey
filled_api_key k = record k {
  rate_multiplier = if is_nonpositive k.rate_multiplier then one else k.rate_multiplier;
}

-- An update writes all columns but the id.
abbrev pub with_api_key : ApiKey → ApiKey → ApiKey
with_api_key k x = record k { id = x.id; tenant_name = default_str k.tenant_name (str "default") }

abbrev pub named_tenant : ApiKey → ApiKey
named_tenant k = record k {
  tenant_name = if is_empty k.tenant_name then str "default" else k.tenant_name;
}

module _ (g : Gorm) where
  unfoldable pub upsert_api_key : ApiKey → Store g → Result ℤ × Store g
  upsert_api_key k0 s =
      let k = filled_api_key k0 in
      if is_blank k0.key_value
      then (err (str "key_value is required"), s)
      else if is_blank k0.name
      then (err (str "name is required"), s)
      else stored s (λ t. record s { api_keys = t })
          (if ltb_ℤ (pos 0) k.id
            then update_row g api_key_model k.id (with_api_key k) s.api_keys
            else insert_row g api_key_model (λ r x. eq_str x.key_value r.key_value)
                (λ x r. record r { id = x.id; key_value = x.key_value }) (named_tenant k)
                s.api_keys)

  unfoldable pub delete_api_key : ℤ → Store g → Result (Unit {0}) × Store g
  delete_api_key id s =
      done s (λ t. record s { api_keys = t }) (g.delete (λ k. eq_ℤ k.id id) s.api_keys)
