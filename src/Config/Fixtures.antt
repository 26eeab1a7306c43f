-- ===== src/Config/Fixtures.antt =====
-- The data of the tests: a configuration that leaves everything to the defaults, but for a provider
-- and a key.
use proxy2api.Base.{true, false, [], ◌∷◌, pos, negsuc}
use proxy2api.Text.{str}
use proxy2api.Config.{Config, Provider, ApiKeyConfig}

abbrev pub provider : Provider
provider = record {
  name = str "p";
  base_url = str "http://up";
  api_key = [];
  upstream_keys = [];
  weight = pos 0;
  models = [];
  model_map = [];
  max_rpm = pos 0;
  max_tpm = pos 0;
  require_path_auth = false;
  enabled = true;
  group_name = [];
  recover_interval_sec = negsuc 4;
}

abbrev pub key : ApiKeyConfig
key = record {
  key = str "u";
  name = [];
  tenant = [];
  balance_micros = pos 0;
  max_rpm = pos 0;
  max_tpm = pos 0;
  allowed_models = [];
  rate_multiplier = 0;
}

abbrev pub small : Config
small = record {
  server = record { listen = [] };
  auth = record { admin_key = [] };
  db = record {
    driver = [];
    path = [];
    dsn = [];
    max_open_conns = pos 0;
    max_idle_conns = pos 0;
    conn_max_lifetime_sec = pos 0;
  };
  redis = record {
    enabled = false;
    addr = [];
    password = [];
    db = pos 0;
    key_prefix = [];
    dial_timeout = pos 0;
    read_timeout = pos 0;
  };
  billing = record { enabled = true; default_price_per_million_micros = pos 0 };
  security = record { admin_hmac_secret = []; ip_allowlist = []; ip_denylist = [] };
  gateway = record {
    timeout_seconds = pos 0;
    sticky_session_header = [];
    provider_fail_threshold = pos 0;
    provider_cooldown_sec = pos 0;
    timezone = [];
    reload_seconds = pos 0;
  };
  providers = provider ∷ [];
  keys = key ∷ [];
  rules = [];
  tenants = [];
  admins = [];
}
