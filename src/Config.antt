-- ===== src/Config.antt =====
-- The configuration: the structs of internal/config/config.go, `fillDefaults`, `validate` and
-- `Load`. Reading the file and decoding its YAML are parameters.
pub mod Filled
pub mod Defaulted
pub mod Fixtures
mod Tests
use proxy2api.Base.{
  ◌-◌, ◌/◌, ap, Bool, true, not, ◌||◌, List, [], ◌∷◌, map, leb, ◌==◌, if◌then◌else◌, ℤ, pos, leb_ℤ,
  length, any, all, Str, Result, ok, err, ◌>>=◌,
}
use proxy2api.Text.{str, is_empty}
use proxy2api.Dict.{Dict}
use proxy2api.Float.{Float64, one, is_nonpositive}

pub record ServerConfig : Type 0 where
  pub listen : Str

pub record AuthConfig : Type 0 where
  pub admin_key : Str

pub record DbConfig : Type 0 where
  pub driver : Str
  pub path : Str
  pub dsn : Str
  pub max_open_conns : ℤ
  pub max_idle_conns : ℤ
  pub conn_max_lifetime_sec : ℤ

pub record RedisConfig : Type 0 where
  pub enabled : Bool
  pub addr : Str
  pub password : Str
  pub db : ℤ
  pub key_prefix : Str
  pub dial_timeout : ℤ
  pub read_timeout : ℤ

pub record BillingConfig : Type 0 where
  pub enabled : Bool
  pub default_price_per_million_micros : ℤ

pub record SecurityConfig : Type 0 where
  pub admin_hmac_secret : Str
  pub ip_allowlist : List Str
  pub ip_denylist : List Str

pub record GatewayConfig : Type 0 where
  pub timeout_seconds : ℤ
  pub sticky_session_header : Str
  pub provider_fail_threshold : ℤ
  pub provider_cooldown_sec : ℤ
  pub timezone : Str
  pub reload_seconds : ℤ

pub record Provider : Type 0 where
  pub name : Str
  pub base_url : Str
  pub api_key : Str
  pub upstream_keys : List Str
  pub weight : ℤ
  pub models : List Str
  pub model_map : Dict Str
  pub max_rpm : ℤ
  pub max_tpm : ℤ
  pub require_path_auth : Bool
  pub enabled : Bool
  pub group_name : Str
  pub recover_interval_sec : ℤ

pub record ApiKeyConfig : Type 0 where
  pub key : Str
  pub name : Str
  pub tenant : Str
  pub balance_micros : ℤ
  pub max_rpm : ℤ
  pub max_tpm : ℤ
  pub allowed_models : List Str
  pub rate_multiplier : Float64

pub record RuleMatch : Type 0 where
  pub api_keys : List Str
  pub model_prefix : Str

pub record RuleAction : Type 0 where
  pub force_provider : Str
  pub deny : Bool
  pub rate_multiplier : Float64

pub record RoutingRule : Type 0 where
  pub name : Str
  pub match_on : RuleMatch
  pub action : RuleAction

pub record TenantConfig : Type 0 where
  pub name : Str
  pub enabled : Bool

pub record AdminConfig : Type 0 where
  pub username : Str
  pub password : Str
  pub role : Str

pub record Config : Type 0 where
  pub server : ServerConfig
  pub auth : AuthConfig
  pub db : DbConfig
  pub redis : RedisConfig
  pub billing : BillingConfig
  pub security : SecurityConfig
  pub gateway : GatewayConfig
  pub providers : List Provider
  pub keys : List ApiKeyConfig
  pub rules : List RoutingRule
  pub tenants : List TenantConfig
  pub admins : List AdminConfig

abbrev pub or_text : Str → Str → Str
or_text s d = if is_empty s then d else s

abbrev pub or_int : ℤ → ℤ → ℤ
or_int n d = if leb_ℤ n (pos 0) then d else n

unfoldable pub fill_server : ServerConfig → ServerConfig
fill_server c = record { listen = or_text c.listen (str ":8080") }

unfoldable pub fill_billing : BillingConfig → BillingConfig
fill_billing c = record c {
  default_price_per_million_micros = or_int c.default_price_per_million_micros (pos 200000);
}

unfoldable pub fill_db : DbConfig → DbConfig
fill_db c = record c {
  path = or_text c.path (str "data/proxy2api.db");
  driver = or_text c.driver (str "sqlite");
  max_open_conns = or_int c.max_open_conns (pos 20);
  max_idle_conns = or_int c.max_idle_conns (pos 10);
  conn_max_lifetime_sec = or_int c.conn_max_lifetime_sec (pos 600);
}

unfoldable pub fill_redis : RedisConfig → RedisConfig
fill_redis c = record c {
  key_prefix = or_text c.key_prefix (str "proxy2api:");
  dial_timeout = or_int c.dial_timeout (pos 3);
  read_timeout = or_int c.read_timeout (pos 2);
}

unfoldable pub fill_gateway : GatewayConfig → GatewayConfig
fill_gateway c = record c {
  timeout_seconds = or_int c.timeout_seconds (pos 60);
  sticky_session_header = or_text c.sticky_session_header (str "session_id");
  provider_fail_threshold = or_int c.provider_fail_threshold (pos 3);
  provider_cooldown_sec = or_int c.provider_cooldown_sec (pos 30);
  timezone = or_text c.timezone (str "UTC");
  reload_seconds = or_int c.reload_seconds (pos 10);
}

unfoldable pub fill_provider : Provider → Provider
fill_provider p = record p {
  weight = or_int p.weight (pos 1);
  group_name = or_text p.group_name (str "default");
  recover_interval_sec = or_int p.recover_interval_sec (pos 60);
}

unfoldable pub fill_key : ApiKeyConfig → ApiKeyConfig
fill_key k = record k {
  rate_multiplier = if is_nonpositive k.rate_multiplier then one else k.rate_multiplier;
  tenant = or_text k.tenant (str "default");
}

abbrev pub default_tenant : TenantConfig
default_tenant = record { name = str "default"; enabled = true }

abbrev pub default_admin : AdminConfig
default_admin = record { username = str "admin"; password = str "admin123"; role = str "owner" }

abbrev pub or_one : {A : Type 0} → A → List A → List A
or_one d [] = d ∷ []
or_one d (x ∷ xs) = x ∷ xs

unfoldable pub fill_defaults : Config → Config
fill_defaults c = record c {
  server = fill_server c.server;
  db = fill_db c.db;
  redis = fill_redis c.redis;
  billing = fill_billing c.billing;
  gateway = fill_gateway c.gateway;
  providers = map fill_provider c.providers;
  keys = map fill_key c.keys;
  tenants = or_one default_tenant c.tenants;
  admins = or_one default_admin c.admins;
}

unfoldable pub validate : Config → Result (Unit {0})
validate c =
    if length c.providers == 0
    then err (str "at least one provider is required")
    else if length c.keys == 0
    then err (str "at least one api key is required")
    else if any (λ p. is_empty p.name || is_empty p.base_url) c.providers
    then err (str "provider name and base_url are required")
    else if any (λ k. is_empty k.key) c.keys
    then err (str "api key value cannot be empty")
    else ok tt

unfoldable pub load :
    (read_file : Str → Result Str) (unmarshal : Str → Result Config) → Str → Result Config
load read_file unmarshal path = do
  raw ← read_file path
  cfg ← unmarshal raw
  checked ← validate (fill_defaults cfg)
  ok (fill_defaults cfg)
