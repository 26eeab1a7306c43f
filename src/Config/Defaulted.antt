-- ===== src/Config/Defaulted.antt =====
-- What the defaults replace.
use proxy2api.Base.{
  ◌≡◌, refl, ◌⊎◌, inl, inr, Bool, true, false, not, List, [], ◌∷◌, map, arith, ◌==◌, ℤ, pos, ltb_ℤ,
  length, Str,
}
use proxy2api.Text.{str, is_empty}
use proxy2api.Float.{is_nonpositive}
use proxy2api.Config.{
  Provider, ApiKeyConfig, Config, DbConfig, RedisConfig, GatewayConfig, fill_server, fill_billing,
  fill_db, fill_redis, fill_gateway, fill_provider, fill_key, or_one, fill_defaults,
}

-- A value that is there is kept, and another one is replaced by the default.
abbrev pub Kept : {A : Type 0} → Bool → (old new default : A) → Type 0
Kept there old new default = ((there ≡ true) × (new ≡ old)) ⊎ ((there ≡ false) × (new ≡ default))

abbrev pub TextKept : (old new default : Str) → Type 0
TextKept old new default = Kept (not (is_empty old)) old new default

abbrev pub NumberKept : (old new default : ℤ) → Type 0
NumberKept old new default = Kept (ltb_ℤ (pos 0) old) old new default

abbrev pub Each : {A : Type 0} → (A → A → Type 0) → List A → List A → Type 0
Each R [] [] = Unit
Each R [] (y ∷ ys) = ⊥
Each R (x ∷ xs) [] = ⊥
Each R (x ∷ xs) (y ∷ ys) = R x y × Each R xs ys

pub record DbKept (c d : DbConfig) : Type 0 where
  pub path : TextKept c.path d.path (str "data/proxy2api.db")
  pub driver : TextKept c.driver d.driver (str "sqlite")
  pub max_open_conns : NumberKept c.max_open_conns d.max_open_conns (pos 20)
  pub max_idle_conns : NumberKept c.max_idle_conns d.max_idle_conns (pos 10)
  pub conn_max_lifetime_sec : NumberKept c.conn_max_lifetime_sec d.conn_max_lifetime_sec (pos 600)
  pub dsn : d.dsn ≡ c.dsn

pub record RedisKept (c d : RedisConfig) : Type 0 where
  pub key_prefix : TextKept c.key_prefix d.key_prefix (str "proxy2api:")
  pub dial_timeout : NumberKept c.dial_timeout d.dial_timeout (pos 3)
  pub read_timeout : NumberKept c.read_timeout d.read_timeout (pos 2)
  pub others :
      (d.enabled ≡ c.enabled) × (d.addr ≡ c.addr) × (d.password ≡ c.password) × (d.db ≡ c.db)

pub record GatewayKept (c d : GatewayConfig) : Type 0 where
  pub timeout_seconds : NumberKept c.timeout_seconds d.timeout_seconds (pos 60)
  pub sticky_session_header :
      TextKept c.sticky_session_header d.sticky_session_header (str "session_id")
  pub provider_fail_threshold :
      NumberKept c.provider_fail_threshold d.provider_fail_threshold (pos 3)
  pub provider_cooldown_sec : NumberKept c.provider_cooldown_sec d.provider_cooldown_sec (pos 30)
  pub timezone : TextKept c.timezone d.timezone (str "UTC")
  pub reload_seconds : NumberKept c.reload_seconds d.reload_seconds (pos 10)

pub record ProviderKept (p q : Provider) : Type 0 where
  pub weight : NumberKept p.weight q.weight (pos 1)
  pub group_name : TextKept p.group_name q.group_name (str "default")
  pub recover_interval_sec : NumberKept p.recover_interval_sec q.recover_interval_sec (pos 60)
  pub others : q ≡ record p {
    weight = q.weight;
    group_name = q.group_name;
    recover_interval_sec = q.recover_interval_sec;
  }

pub record ApiKeyKept (k j : ApiKeyConfig) : Type 0 where
  pub rate_multiplier :
      Kept
        (not (is_nonpositive k.rate_multiplier))
        k.rate_multiplier
        j.rate_multiplier
        0x3ff0000000000000
  pub tenant : TextKept k.tenant j.tenant (str "default")
  pub others : j ≡ record k { rate_multiplier = j.rate_multiplier; tenant = j.tenant }

pub record IsDefaulted (c d : Config) : Type 0 where
  pub listen : TextKept c.server.listen d.server.listen (str ":8080")
  pub db : DbKept c.db d.db
  pub redis : RedisKept c.redis d.redis
  pub billing_enabled : d.billing.enabled ≡ c.billing.enabled
  pub price :
      NumberKept c.billing.default_price_per_million_micros
        d.billing.default_price_per_million_micros
        (pos 200000)
  pub gateway : GatewayKept c.gateway d.gateway
  pub providers : Each ProviderKept c.providers d.providers
  pub keys : Each ApiKeyKept c.keys d.keys
  pub tenants :
      Kept
        (not (length c.tenants == 0))
        c.tenants
        d.tenants
        (record { name = str "default"; enabled = true } ∷ [])
  pub admins :
      Kept
        (not (length c.admins == 0))
        c.admins
        d.admins
        (record { username = str "admin"; password = str "admin123"; role = str "owner" } ∷ [])
  pub others : (d.auth ≡ c.auth) × (d.security ≡ c.security) × (d.rules ≡ c.rules)

Each-map :
    {A : Type 0} (R : A → A → Type 0) (f : A → A)
    → ((x : A) → R x (f x))
    → (xs : List A) → Each R xs (map f xs)
Each-map R f h [] = tt
Each-map R f h (x ∷ xs) = (h x, Each-map R f h xs)

or_one-Kept :
    {A : Type 0} (d : A) (xs : List A) → Kept (not (length xs == 0)) xs (or_one d xs) (d ∷ [])
or_one-Kept d [] = inr (refl, refl)
or_one-Kept d (x ∷ xs) = inl (ground arith, refl)

fill_db-DbKept : (c : DbConfig) → DbKept c (fill_db c)
unfolding fill_db
fill_db-DbKept c = record {
  path = ground arith;
  driver = ground arith;
  max_open_conns = ground arith;
  max_idle_conns = ground arith;
  conn_max_lifetime_sec = ground arith;
  dsn = refl;
}

fill_redis-RedisKept : (c : RedisConfig) → RedisKept c (fill_redis c)
unfolding fill_redis
fill_redis-RedisKept c = record {
  key_prefix = ground arith;
  dial_timeout = ground arith;
  read_timeout = ground arith;
  others = (refl, refl, refl, refl);
}

fill_gateway-GatewayKept : (c : GatewayConfig) → GatewayKept c (fill_gateway c)
unfolding fill_gateway
fill_gateway-GatewayKept c = record {
  timeout_seconds = ground arith;
  sticky_session_header = ground arith;
  provider_fail_threshold = ground arith;
  provider_cooldown_sec = ground arith;
  timezone = ground arith;
  reload_seconds = ground arith;
}

fill_provider-ProviderKept : (p : Provider) → ProviderKept p (fill_provider p)
unfolding fill_provider
fill_provider-ProviderKept p = record {
  weight = ground arith;
  group_name = ground arith;
  recover_interval_sec = ground arith;
  others = refl;
}

fill_key-ApiKeyKept : (k : ApiKeyConfig) → ApiKeyKept k (fill_key k)
unfolding fill_key
fill_key-ApiKeyKept k = record {
  rate_multiplier = ground arith;
  tenant = ground arith;
  others = refl;
}

-- Of the settings that have a default, in the configuration and in each of its providers and keys, a
-- text that is not empty, a number that is positive, a multiplier that is not zero or negative and a
-- list of tenants or administrators with an element are kept; the others are replaced by fixed
-- values, such as 60 seconds for the timeout of the gateway and 200000 for the price. All other
-- settings stay, and so do the number and the order of providers and keys.
pub fill_defaults-IsDefaulted : (c : Config) → IsDefaulted c (fill_defaults c)
unfolding fill_defaults fill_server fill_billing
fill_defaults-IsDefaulted c = record {
  listen = ground arith;
  db = fill_db-DbKept c.db;
  redis = fill_redis-RedisKept c.redis;
  billing_enabled = refl;
  price = ground arith;
  gateway = fill_gateway-GatewayKept c.gateway;
  providers = Each-map ProviderKept fill_provider fill_provider-ProviderKept c.providers;
  keys = Each-map ApiKeyKept fill_key fill_key-ApiKeyKept c.keys;
  tenants = or_one-Kept _ c.tenants;
  admins = or_one-Kept _ c.admins;
  others = (refl, refl, refl);
}
