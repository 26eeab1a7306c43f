-- ===== src/Gateway/Admin/Tests.antt =====
-- Requests to the administration.
use proxy2api.Base.{◌≡◌, refl, ◌⊎◌, inl, true, none, some, [], ◌∷◌, arith, pos, negsuc, ok}
use proxy2api.Text.{str, trim_space, trim_left, trim_right_rev}
use proxy2api.Text.Numbers.{format_int}
use proxy2api.Float.{one}
use proxy2api.Dict.{lookup}
use proxy2api.Config.{Config}
use proxy2api.Config.Fixtures.{small}
use proxy2api.Store.Gorm.Listed.{listed, listed-GormLaws}
use proxy2api.Store.Rows.{ApiKey}
use proxy2api.Store.Tables.{Store, default_str}
use proxy2api.Store.ApiKeys.{upsert_api_key}
use proxy2api.Store.Lists.{
  list_providers, list_provider_keys, list_api_keys, list_rules, list_schedules,
}
use proxy2api.Gateway.Snapshot.{reload_snapshot}
use proxy2api.Gateway.Forward.{header_get, canonical, Request}
use proxy2api.Gateway.Admit.{Server, pass}
use proxy2api.Gateway.Messages.{ApiKeyRequest, AdminJson, written}
use proxy2api.Gateway.Admin.{AdminOutside, read_id_query}
use proxy2api.Gateway.Admin.Ids.{read_id_query-format_int}
use proxy2api.Gateway.Admin.Access.{verify_admin_hmac, require_admin}
use proxy2api.Gateway.Admin.Catalog.{handle_api_keys}
use proxy2api.Gateway.Admin.Routes.{to_rules, to_users, handle_admin}
use proxy2api.Gateway.Admin.Authorized.{HasCredential, IsSigned, IsRefused, handle_admin-IsSigned}
use proxy2api.Gateway.Admin.Roles.{HasRole, handle_admin-HasRole}
use proxy2api.Gateway.Admin.KeyUpdate.{handle_api_keys-resets}

abbrev cfg : Config
cfg = record small { auth = record { admin_key = str "secret" } }

abbrev update : ApiKeyRequest
update = record {
  id = pos 1;
  key_value = str "u";
  name = str "user";
  max_rpm = pos 10;
  max_tpm = pos 10;
  allowed_models = [];
  rate_multiplier = one;
  enabled = true;
}

abbrev admin_json : AdminJson
admin_json = record {
  provider = λ b. none;
  provider_key = λ b. none;
  api_key = λ b. some update;
  rule = λ b. none;
  schedule = λ b. none;
  import_of = λ b. none;
  login = λ b. none;
  tenant = λ b. none;
  user = λ b. none;
  price = λ b. none;
  topup = λ b. none;
  valid = λ b. true;
  texts = λ ts. str "[]";
  text_map = λ m. str "{}";
  tenant_detail = λ r. none;
  user_detail = λ role enabled. none;
  price_detail = λ r. none;
  topup_detail = λ r. none;
}

abbrev outside : AdminOutside
outside = record {
  json = record { texts = λ t. []; text_map = λ t. []; action = λ t. none };
  admin_json = admin_json;
  tokens = record { sha256 = λ s. s; random_bytes = ok []; now_nano = pos 0 };
  query = λ raw name. [];
  hmac_sha256 = λ secret message. message;
  now_unix = pos 0;
}

abbrev key_row : ApiKey
key_row = record {
  id = pos 1;
  key_value = str "u";
  name = str "user";
  tenant_name = str "t";
  balance_micros = pos 100;
  max_rpm = pos 5;
  max_tpm = pos 1000;
  allowed_models = str "[]";
  rate_multiplier = one;
  enabled = true;
}

abbrev store : Store listed
unfolding listed
store = record {
  providers = [];
  provider_keys = [];
  api_keys = key_row ∷ [];
  rules = [];
  group_schedules = [];
  usage_records = [];
  tenants = [];
  price_rules = [];
  billing_txns = [];
  admin_users = [];
  audit_logs = [];
  kvs = [];
}

abbrev server : Server listed
server = record {
  store = store;
  snapshot = record { providers = []; keys = []; rules = []; schedules = [] };
  user_limiter = [];
  channel_limiter = [];
  sticky = [];
  stats = [];
}

abbrev post : Request
post = record {
  method = str "POST";
  path = str "/admin/api-keys";
  raw_query = [];
  headers = (str "X-Admin-Key", str "secret" ∷ []) ∷ [];
  body = ok [];
}

handle_admin-IsSigned_example :
    IsRefused listed server (handle_admin listed cfg outside to_rules post server)
    ⊎ (HasCredential listed cfg post store × IsSigned cfg outside post)
handle_admin-IsSigned_example =
    handle_admin-IsSigned listed listed-GormLaws cfg outside to_rules post server (λ e. absurd cc)
      (λ e. absurd cc)

handle_admin-HasRole_example :
    ((handle_admin listed cfg outside to_users post server).1 ≡ server)
    ⊎ HasRole listed cfg post store (str "owner" ∷ [])
handle_admin-HasRole_example =
    handle_admin-HasRole listed listed-GormLaws cfg post outside to_users (str "owner" ∷ []) server
      refl

abbrev reset : ApiKey
reset = record key_row {
  tenant_name = str "default";
  balance_micros = pos 0;
  max_rpm = pos 10;
  max_tpm = pos 10;
}

handle_api_keys-resets_example :
    (reset.balance_micros ≡ pos 0) × (reset.tenant_name ≡ str "default")
unfolding listed handle_api_keys require_admin verify_admin_hmac upsert_api_key reload_snapshot
    list_providers list_provider_keys list_api_keys list_rules list_schedules lookup trim_space
    trim_left trim_right_rev header_get canonical default_str
handle_api_keys-resets_example =
    handle_api_keys-resets listed listed-GormLaws cfg outside post update server (written (pos 1))
      refl refl refl refl reset (inl refl) refl

-- The query of a request for the id -12.
abbrev asks : AdminOutside
asks = record outside { query = λ raw name. format_int (negsuc 11) }

read_id_query-format_int_example : read_id_query asks post ≡ pass (negsuc 11)
read_id_query-format_int_example =
    read_id_query-format_int asks post (negsuc 11)
      (record { above = omega arith; below = omega arith }) refl
