-- ===== src/Store/Tests.antt =====
-- The store's operations on a database of lists, and their theorems there.
use proxy2api.Base.{String, ◌≡◌, refl, ◌⊎◌, true, false, [], ◌∷◌, arith, ℤ, pos, In, Str, err}
use proxy2api.Text.{str, trim_space, trim_left, trim_right_rev}
use proxy2api.Text.Laws.{eq_str-ne}
use proxy2api.Float.{one}
use proxy2api.Store.Gorm.Listed.{listed, listed-GormLaws}
use proxy2api.Store.Rows.{ApiKey, PriceRule, Tenant}
use proxy2api.Store.Tables.{Store}
use proxy2api.Store.Billing.{topup_api_key_balance, deduct_api_key_balance}
use proxy2api.Store.Billing.Conservation.{IsPosted, rows_of, topup_posts}
use proxy2api.Store.Billing.Outcomes.{Deducted, deduct-Deducted}
use proxy2api.Store.Prices.{longer_first, resolve_model_price_micros}
use proxy2api.Store.Prices.Longest.{IsPrice, resolve_model_price_lem}
use proxy2api.Store.Tenants.{is_tenant_enabled, upsert_tenant}
use proxy2api.Store.Tenants.Created.{upsert_tenant_enables}
use proxy2api.Store.Tenants.Access.{tenant_enabled-listed}

abbrev key_u : ApiKey
key_u = record {
  id = pos 1;
  key_value = str "u";
  name = str "user";
  tenant_name = str "t";
  balance_micros = pos 100;
  max_rpm = pos 5;
  max_tpm = pos 1000;
  allowed_models = str "[]";
  rate_multiplier = one;
  enabled = true;
}

abbrev rule : String → ℤ → PriceRule
rule prefix price = record {
  id = pos 1;
  model_prefix = str prefix;
  price_per_1m_micros = price;
  enabled = true;
}

abbrev store : Store listed
unfolding listed
store = record {
  providers = [];
  provider_keys = [];
  api_keys = key_u ∷ [];
  rules = [];
  group_schedules = [];
  usage_records = [];
  tenants = record { id = pos 1; name = str "t"; enabled = true } ∷ [];
  price_rules = rule "*" (pos 1) ∷ rule "gpt-4" (pos 30) ∷ rule "gpt" (pos 5) ∷ [];
  billing_txns = [];
  admin_users = [];
  audit_logs = [];
  kvs = [];
}

topup_posts_example :
    IsPosted listed
      (str "u")
      (rows_of listed (str "u") store)
      (pos 7)
      (str "topup")
      []
      store
      (topup_api_key_balance listed (str "u") (pos 7) [] [] store).1
unfolding listed topup_api_key_balance trim_space trim_left trim_right_rev
topup_posts_example =
    topup_posts listed listed-GormLaws (str "u") (pos 7) [] [] store refl (ground arith)

deduct-Deducted_example :
    Deducted listed
      (str "u")
      (pos 30)
      (str "usage")
      []
      store
      (deduct_api_key_balance listed (str "u") (pos 30) [] [] store)
unfolding listed trim_space trim_left trim_right_rev
deduct-Deducted_example =
    deduct-Deducted listed listed-GormLaws (str "u") (pos 30) [] [] store (ground arith)
      (ground arith)

resolve_model_price_lem_example :
    IsPrice listed
      (str "gpt-4o")
      (pos 9)
      (listed.rows store.price_rules)
      (resolve_model_price_micros listed (str "gpt-4o") (pos 9) store)
    ⊎ ((resolve_model_price_micros listed (str "gpt-4o") (pos 9) store ≡ pos 9)
        × ((e : Str) × (listed.find
                (longer_first listed)
                (λ (r : PriceRule). r.enabled)
                store.price_rules
              ≡ err e)))
resolve_model_price_lem_example =
    resolve_model_price_lem listed listed-GormLaws (str "gpt-4o") (pos 9) store

tenant_enabled-listed_example :
    (t : Tenant) × In t (listed.rows store.tenants) × (t.name ≡ str "t") × (t.enabled ≡ true)
unfolding listed is_tenant_enabled
tenant_enabled-listed_example =
    tenant_enabled-listed listed listed-GormLaws (str "t") store refl (eq_str-ne _ _ refl)

abbrev closed : Tenant
closed = record { id = pos 0; name = str "new"; enabled = false }

upsert_tenant_enables_example :
    (r : Tenant) × In r (listed.rows (upsert_tenant listed closed store).1.tenants)
    × (r.name ≡ str "new")
    × (r.enabled ≡ true)
unfolding listed upsert_tenant trim_space trim_left trim_right_rev
upsert_tenant_enables_example =
    upsert_tenant_enables listed listed-GormLaws closed store (pos 2) refl refl refl refl
