-- ===== src/Store/Providers.antt =====
-- The changes of providers and of their keys in internal/store/store.go.
use proxy2api.Base.{
  Bool, ◌&&◌, if◌then◌else◌, ℤ, pos, ltb_ℤ, leb_ℤ, eq_ℤ, Str, Result, ok, err, ◌>>=◌,
}
use proxy2api.Text.{str, eq_str, is_empty}
use proxy2api.Store.Gorm.{Gorm, update_row, insert_row, table_of, stored, done, transaction}
use proxy2api.Store.Rows.{Provider, provider_model, ProviderKey, provider_key_model}
use proxy2api.Store.Tables.{Store, is_blank}

abbrev pub or_one_if_low : ℤ → ℤ → ℤ
or_one_if_low n d = if leb_ℤ n (pos 0) then d else n

-- The values that `UpsertProvider` puts in place of missing ones.
abbrev pub filled_provider : Provider → Provider
filled_provider p = record p {
  weight = or_one_if_low p.weight (pos 1);
  group_name = if is_empty p.group_name then str "default" else p.group_name;
  recover_interval_sec = or_one_if_low p.recover_interval_sec (pos 60);
}

-- The columns that an update writes: all but the id.
abbrev pub with_provider : Provider → Provider → Provider
with_provider p x = record p { id = x.id }

abbrev pub merge_provider : Provider → Provider → Provider
merge_provider x p = record p { id = x.id; name = x.name }

-- `Updates(map[string]any{…})` of `UpsertProviderKey`
abbrev pub with_provider_key : ProviderKey → ProviderKey → ProviderKey
with_provider_key k x = record x {
  provider_name = k.provider_name;
  alias = k.alias;
  api_key = k.api_key;
  enabled = k.enabled;
}

abbrev pub same_provider_key : ProviderKey → ProviderKey → Bool
same_provider_key k x = eq_str x.provider_name k.provider_name && eq_str x.alias k.alias

module _ (g : Gorm) where
  unfoldable pub upsert_provider : Provider → Store g → Result (Unit {0}) × Store g
  upsert_provider p0 s =
      let p = filled_provider p0 in
      if is_blank p0.name
      then (err (str "provider name is required"), s)
      else if is_blank p0.base_url
      then (err (str "provider base_url is required"), s)
      else done s (λ t. record s { providers = t })
          (table_of (
            if ltb_ℤ (pos 0) p.id
            then update_row g provider_model p.id (with_provider p) s.providers
            else insert_row g provider_model (λ r x. eq_str x.name r.name) merge_provider p
                s.providers))

  -- The inner function of the transaction.
  abbrev pub delete_provider_body : Str → Store g → Result (Store g)
  delete_provider_body name s = do
    keys ← g.delete (λ k. eq_str k.provider_name name) s.provider_keys
    providers ← g.delete (λ p. eq_str p.name name) s.providers
    ok (record s { provider_keys = keys; providers = providers })

  unfoldable pub delete_provider : Str → Store g → Result (Unit {0}) × Store g
  delete_provider name s = transaction g (delete_provider_body name) s

  unfoldable pub set_provider_enabled : Str → Bool → Store g → Result (Unit {0}) × Store g
  set_provider_enabled name enabled s =
      done s (λ t. record s { providers = t })
        (do
          updated ←
              g.updates (λ p. eq_str p.name name) (λ p. record p { enabled = enabled }) s.providers
          ok updated.1)

  unfoldable pub upsert_provider_key : ProviderKey → Store g → Result ℤ × Store g
  upsert_provider_key k s =
      if is_blank k.provider_name
      then (err (str "provider_name is required"), s)
      else if is_blank k.alias
      then (err (str "alias is required"), s)
      else if is_blank k.api_key
      then (err (str "api_key is required"), s)
      else stored s (λ t. record s { provider_keys = t })
          (if ltb_ℤ (pos 0) k.id
            then update_row g provider_key_model k.id (with_provider_key k) s.provider_keys
            else insert_row g provider_key_model same_provider_key
                (λ x r. record x { api_key = r.api_key; enabled = r.enabled }) k s.provider_keys)

  unfoldable pub delete_provider_key : ℤ → Store g → Result (Unit {0}) × Store g
  delete_provider_key id s =
      done s (λ t. record s { provider_keys = t }) (g.delete (λ k. eq_ℤ k.id id) s.provider_keys)

  unfoldable pub set_provider_key_enabled : ℤ → Bool → Store g → Result (Unit {0}) × Store g
  set_provider_key_enabled id enabled s =
      done s (λ t. record s { provider_keys = t })
        (table_of (
          update_row g provider_key_model id (λ k. record k { enabled = enabled }) s.provider_keys))
