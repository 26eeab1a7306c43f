-- ===== src/Store/Seed/Tests.antt =====
-- A store that is seeded, a login, and an import.
use proxy2api.Base.{◌≡◌, refl, ◌⊎◌, true, false, [], ◌∷◌, pos, Str, ok, err}
use proxy2api.Text.{str, trim_space, trim_left, trim_right_rev}
use proxy2api.Text.Numbers.{hex}
use proxy2api.Config.{Config}
use proxy2api.Config.Fixtures.{small, provider}
use proxy2api.Store.Gorm.Listed.{listed, listed-GormLaws}
use proxy2api.Store.Tables.{Store}
use proxy2api.Store.Rows.{AdminUser, Rule}
use proxy2api.Store.Admins.{Tokens, admin_login, sha256_hex, random_token}
use proxy2api.Store.Admins.Login.{IsLoggedIn, admin_login-IsLoggedIn}
use proxy2api.Store.Routing.{replace_rules_and_schedules}
use proxy2api.Store.Routing.Replaced.{IsReplaced, replace-IsReplaced}
use proxy2api.Store.Seed.{
  Encode, seed_upstream_key, seed_provider, seed_key, seed_tenant, seed_default_tenant, seed_admin,
  seed_price, seed_rule, seed_mark, seed_rest, seed_body, seed_from_config,
}
use proxy2api.Store.Seed.Once.{seed_once}

abbrev tokens : Tokens
tokens = record { sha256 = λ s. s; random_bytes = ok (1 ∷ 2 ∷ []); now_nano = pos 0 }

abbrev encode : Encode
encode = record {
  texts = λ ts. str "[]";
  text_map = λ m. str "{}";
  action = λ a. str "{}";
  quote = λ s. s;
  tokens = λ i. tokens;
  now_text = str "1970-01-01T00:00:00Z";
}

abbrev empty_store : Store listed
unfolding listed
empty_store = record {
  providers = [];
  provider_keys = [];
  api_keys = [];
  rules = [];
  group_schedules = [];
  usage_records = [];
  tenants = [];
  price_rules = [];
  billing_txns = [];
  admin_users = [];
  audit_logs = [];
  kvs = [];
}

abbrev full : Config
full = record small {
  providers = record provider { upstream_keys = str "k-1" ∷ [] ∷ [] } ∷ [];
  tenants = record { name = str "t"; enabled = true } ∷ [];
  admins = record { username = str "root"; password = str "pw"; role = str "Owner" } ∷ [];
  rules =
      record {
        name = str "no";
        match_on = record { api_keys = []; model_prefix = str "x" };
        action = record { force_provider = []; deny = true; rate_multiplier = 0 };
      }
      ∷ [];
}

seed_once_example :
    (seed_from_config listed encode small (seed_from_config listed encode full empty_store).1).1
    ≡ (seed_from_config listed encode full empty_store).1
unfolding listed seed_from_config seed_body seed_provider seed_upstream_key seed_rest seed_key
    seed_tenant seed_default_tenant seed_admin seed_price seed_rule seed_mark trim_space trim_left
    trim_right_rev
seed_once_example =
    seed_once listed listed-GormLaws encode encode full small
      (record provider { upstream_keys = str "k-1" ∷ [] ∷ [] }) [] refl empty_store refl

abbrev user : AdminUser
user = record {
  id = pos 1;
  username = str "root";
  password_hash = str "7077";
  role = str "owner";
  token = str "old";
  enabled = true;
}

abbrev after_login : AdminUser
after_login = record user { token = str "adm_0102" }

abbrev with_user : Store listed
unfolding listed
with_user = record empty_store { admin_users = user ∷ [] }

admin_login-IsLoggedIn_example :
    IsLoggedIn listed tokens
      (str "root")
      (str "pw")
      after_login
      with_user
      (admin_login listed tokens (str "root") (str "pw") with_user).1
unfolding listed admin_login sha256_hex random_token hex
admin_login-IsLoggedIn_example =
    admin_login-IsLoggedIn listed listed-GormLaws tokens (str "root") (str "pw") with_user
      after_login refl

abbrev rule : Rule
rule = record {
  id = pos 7;
  name = str "r";
  priority = pos 0;
  enabled = false;
  condition_js = str "true";
  action_json = str "{}";
}

replace-IsReplaced_example :
    (((replace_rules_and_schedules listed (rule ∷ []) [] empty_store).0 ≡ ok tt)
      × IsReplaced listed
          (rule ∷ [])
          []
          empty_store
          (replace_rules_and_schedules listed (rule ∷ []) [] empty_store).1)
    ⊎ ((e : Str) × (replace_rules_and_schedules listed (rule ∷ []) [] empty_store
          ≡ (err e, empty_store)))
replace-IsReplaced_example = replace-IsReplaced listed listed-GormLaws (rule ∷ []) [] empty_store
