-- ===== src/Store/Seed.antt =====
-- `SeedFromConfig` and `buildConditionJS` of internal/store/store.go. JSON, the verb %q of fmt, the
-- random tokens and the clock are parameters.
pub mod Once
mod Tests
use proxy2api.Base.{
  ℕ, ◌+◌, ◌-◌, ◌*◌, ◌/◌, ◌%◌, ap, Bool, true, false, not, ◌&&◌, ◌||◌, List, [], ◌∷◌, ◌++◌, map, ltb,
  if◌then◌else◌, ℤ, pos, ltb_ℤ, quot, any, all, Str, Result, ok, err, ◌>>=◌,
}
use proxy2api.Text.{str, eq_str, is_empty}
use proxy2api.Text.Numbers.{decimal}
use proxy2api.Dict.{Dict}
use proxy2api.Config
use proxy2api.Config.{Config, ApiKeyConfig, RoutingRule, TenantConfig, AdminConfig}
use proxy2api.Store.Gorm.{Gorm, Model, create_if, insert_row, table_of, transaction}
use proxy2api.Store.Gorm.Loops.{each, each_at}
use proxy2api.Store.Rows.{
  Provider, provider_model, ProviderKey, provider_key_model, ApiKey, api_key_model, Rule,
  rule_model, Tenant, tenant_model, PriceRule, price_rule_model, AdminUser, admin_user_model, Kv,
  kv_model,
}
use proxy2api.Store.Tables.{Store, is_blank, default_str}
use proxy2api.Store.Admins.{Tokens, sha256_hex, random_token, normalize_role}

-- `json.Marshal` of lists, maps and actions, `%q`, and for each administrator the readings of a new
-- token; `now_text` is the time of the seeding in RFC 3339.
pub record Encode : Type 0 where
  pub texts : List Str → Str
  pub text_map : Dict Str → Str
  pub action : Config.RuleAction → Str
  pub quote : Str → Str
  pub tokens : ℕ → Tokens
  pub now_text : Str

abbrev pub max_ℤ : ℤ → ℤ → ℤ
max_ℤ a b = if ltb_ℤ b a then a else b

abbrev pub seeded_provider : Encode → Config.Provider → Provider
seeded_provider o p = record {
  id = pos 0;
  name = p.name;
  base_url = p.base_url;
  weight = p.weight;
  models_json = o.texts p.models;
  model_map_json = o.text_map p.model_map;
  max_rpm = p.max_rpm;
  max_tpm = p.max_tpm;
  enabled = p.enabled;
  group_name = default_str p.group_name (str "default");
  recover_interval_sec = max_ℤ (pos 1) p.recover_interval_sec;
}

abbrev pub seeded_provider_key : (provider_name alias api_key : Str) → ProviderKey
seeded_provider_key provider_name alias api_key = record {
  id = pos 0;
  provider_name = provider_name;
  alias = alias;
  api_key = api_key;
  enabled = true;
  consecutive_errs = pos 0;
  cooldown_until = pos 0;
  last_status = [];
}

abbrev pub seeded_key : Encode → ApiKeyConfig → ApiKey
seeded_key o k = record {
  id = pos 0;
  key_value = k.key;
  name = k.name;
  tenant_name = default_str k.tenant (str "default");
  balance_micros = k.balance_micros;
  max_rpm = k.max_rpm;
  max_tpm = k.max_tpm;
  allowed_models = o.texts k.allowed_models;
  rate_multiplier = k.rate_multiplier;
  enabled = true;
}

-- The parts of a condition, joined.
abbrev pub join_parts : List Str → Str
join_parts [] = str "true"
join_parts (a ∷ []) = a
join_parts (a ∷ b ∷ parts) = str "(" ++ a ++ str ") && (" ++ b ++ str ")"

abbrev pub keys_part : Encode → List Str → List Str
keys_part o [] = []
keys_part o (k ∷ ks) = (o.texts (k ∷ ks) ++ str ".includes(ctx.api_key)") ∷ []

abbrev pub prefix_part : Encode → Str → List Str
prefix_part o prefix =
    if is_empty prefix then [] else (str "ctx.model.startsWith(" ++ o.quote prefix ++ str ")") ∷ []

unfoldable pub build_condition_js : Encode → RoutingRule → Str
build_condition_js o rule =
    join_parts (keys_part o rule.match_on.api_keys ++ prefix_part o rule.match_on.model_prefix)

abbrev pub seeded_rule : Encode → ℕ → RoutingRule → Rule
seeded_rule o idx r = record {
  id = pos 0;
  name = r.name;
  priority = pos (idx + 1);
  enabled = true;
  condition_js = build_condition_js o r;
  action_json = o.action r.action;
}

abbrev pub no_keys : List Str → Bool
no_keys [] = true
no_keys (k ∷ ks) = false

module _ (g : Gorm) (o : Encode) where
  -- A row that is inserted, or written over the one with the same key.
  abbrev pub seed_row :
      {R : Type 0} → Model R → (R → R → Bool) → (R → R → R) → R → g.Table R → Result (g.Table R)
  seed_row m same merge r t = table_of (insert_row g m same merge r t)

  unfoldable pub seed_upstream_key : Str → ℕ → Str → Store g → Result (Store g)
  seed_upstream_key name i k s = do
    t ←
        create_if g (not (is_blank k)) provider_key_model
          (seeded_provider_key name (107 ∷ decimal (i + 1)) k) s.provider_keys
    ok (record s { provider_keys = t })

  -- The body of the loop over the providers.
  unfoldable pub seed_provider : Config.Provider → Store g → Result (Store g)
  seed_provider p s = do
    ps ← create_if g true provider_model (seeded_provider o p) s.providers
    ks ←
        create_if g (no_keys p.upstream_keys && not (is_empty p.api_key)) provider_key_model
          (seeded_provider_key p.name (str "primary") p.api_key) s.provider_keys
    each_at 0 (seed_upstream_key p.name) p.upstream_keys
        (record s { providers = ps; provider_keys = ks })

  unfoldable pub seed_key : ApiKeyConfig → Store g → Result (Store g)
  seed_key k s = do
    t ← create_if g true api_key_model (seeded_key o k) s.api_keys
    ok (record s { api_keys = t })

  abbrev pub put_tenant : Str → Bool → Store g → Result (Store g)
  put_tenant name enabled s = do
    t ←
        seed_row tenant_model (λ n x. eq_str x.name n.name)
          (λ x n. record x { enabled = n.enabled })
          (record { id = pos 0; name = name; enabled = enabled }) s.tenants
    ok (record s { tenants = t })

  unfoldable pub seed_tenant : TenantConfig → Store g → Result (Store g)
  seed_tenant t s = if is_blank t.name then ok s else put_tenant t.name t.enabled s

  abbrev pub has_default : List TenantConfig → Bool
  has_default ts = any (λ t. not (is_blank t.name) && eq_str t.name (str "default")) ts

  unfoldable pub seed_default_tenant : List TenantConfig → Store g → Result (Store g)
  seed_default_tenant ts s = if has_default ts then ok s else put_tenant (str "default") true s

  abbrev pub put_admin : Tokens → AdminConfig → Store g → Result (Store g)
  put_admin tk a s = do
    t ←
        seed_row admin_user_model (λ n x. eq_str x.username n.username)
          (λ x n. record x { password_hash = n.password_hash; role = n.role; enabled = n.enabled })
          (record {
            id = pos 0;
            username = a.username;
            password_hash = sha256_hex tk a.password;
            role = normalize_role a.role;
            token = random_token tk;
            enabled = true;
          })
          s.admin_users
    ok (record s { admin_users = t })

  unfoldable pub seed_admin : ℕ → AdminConfig → Store g → Result (Store g)
  seed_admin i a s =
      if is_blank a.username || is_blank a.password then ok s else put_admin (o.tokens i) a s

  unfoldable pub seed_price : ℤ → Store g → Result (Store g)
  seed_price price s = do
    t ←
        seed_row price_rule_model (λ n x. eq_str x.model_prefix n.model_prefix)
          (λ x n. record x { price_per_1m_micros = n.price_per_1m_micros; enabled = n.enabled })
          (record {
            id = pos 0;
            model_prefix = str "*";
            price_per_1m_micros = price;
            enabled = true;
          })
          s.price_rules
    ok (record s { price_rules = t })

  unfoldable pub seed_rule : ℕ → RoutingRule → Store g → Result (Store g)
  seed_rule idx r s = do
    t ← create_if g true rule_model (seeded_rule o idx r) s.rules
    ok (record s { rules = t })

  unfoldable pub seed_mark : Store g → Result (Store g)
  seed_mark s = do
    t ←
        seed_row kv_model (λ n x. eq_str x.k n.k) (λ x n. record x { v = n.v })
          (record { k = str "seeded_at"; v = o.now_text }) s.kvs
    ok (record s { kvs = t })

  -- What follows the loop over the providers.
  unfoldable pub seed_rest : Config → Store g → Result (Store g)
  seed_rest cfg s = do
    s1 ← each seed_key cfg.keys s
    s2 ← each seed_tenant cfg.tenants s1
    s3 ← seed_default_tenant cfg.tenants s2
    s4 ← each_at 0 seed_admin cfg.admins s3
    s5 ← seed_price cfg.billing.default_price_per_million_micros s4
    s6 ← each_at 0 seed_rule cfg.rules s5
    seed_mark s6

  -- The inner function of the transaction.
  unfoldable pub seed_body : Config → Store g → Result (Store g)
  seed_body cfg s = do s1 ← each seed_provider cfg.providers s; seed_rest cfg s1

  -- A store with providers is left alone.
  abbrev pub seed_if_empty : Config → Store g → Result ℕ → Result (Unit {0}) × Store g
  seed_if_empty cfg s (err e) = (err e, s)
  seed_if_empty cfg s (ok n) = if ltb 0 n then (ok tt, s) else transaction g (seed_body cfg) s

  unfoldable pub seed_from_config : Config → Store g → Result (Unit {0}) × Store g
  seed_from_config cfg s = seed_if_empty cfg s (g.count (λ p. true) s.providers)
