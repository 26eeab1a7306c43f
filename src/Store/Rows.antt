-- ===== src/Store/Rows.antt =====
-- The rows of internal/store/store.go, with the default values of their tags. `id` is the primary
-- key; `created_at` and `updated_at` are left out, since only gorm reads and writes them.
use proxy2api.Base.{Bool, true, ◌||◌, ◌==◌, if◌then◌else◌, ℤ, pos, eq_ℤ, Str}
use proxy2api.Text.{str, is_empty}
use proxy2api.Float.{Float64, one}
use proxy2api.Store.Gorm.{Model}

-- The value of a `default:` tag for a zero value.
abbrev pub or_text : Str → Str → Str
or_text s d = if is_empty s then d else s

abbrev pub or_int : ℤ → ℤ → ℤ
or_int n d = if eq_ℤ n (pos 0) then d else n

-- +0.0 and -0.0 are zero.
abbrev pub or_float : Float64 → Float64 → Float64
or_float x d = if x == 0 || x == 0x8000000000000000 then d else x

pub record Provider : Type 0 where
  pub id : ℤ
  pub name : Str
  pub base_url : Str
  pub weight : ℤ
  pub models_json : Str
  pub model_map_json : Str
  pub max_rpm : ℤ
  pub max_tpm : ℤ
  pub enabled : Bool
  pub group_name : Str
  pub recover_interval_sec : ℤ

-- `Enabled` has the tag `default:true`, so a new row is never disabled.
abbrev pub provider_model : Model Provider
provider_model = record {
  id = λ r. r.id;
  with_id = λ n r. record r { id = n };
  with_defaults = λ r. record r {
    weight = or_int r.weight (pos 1);
    models_json = or_text r.models_json (str "[]");
    model_map_json = or_text r.model_map_json (str "{}");
    enabled = true;
    group_name = or_text r.group_name (str "default");
    recover_interval_sec = or_int r.recover_interval_sec (pos 60);
  };
}

pub record ProviderKey : Type 0 where
  pub id : ℤ
  pub provider_name : Str
  pub alias : Str
  pub api_key : Str
  pub enabled : Bool
  pub consecutive_errs : ℤ
  pub cooldown_until : ℤ
  pub last_status : Str

abbrev pub provider_key_model : Model ProviderKey
provider_key_model = record {
  id = λ r. r.id;
  with_id = λ n r. record r { id = n };
  with_defaults = λ r. record r { enabled = true };
}

pub record ApiKey : Type 0 where
  pub id : ℤ
  pub key_value : Str
  pub name : Str
  pub tenant_name : Str
  pub balance_micros : ℤ
  pub max_rpm : ℤ
  pub max_tpm : ℤ
  pub allowed_models : Str
  pub rate_multiplier : Float64
  pub enabled : Bool

abbrev pub api_key_model : Model ApiKey
api_key_model = record {
  id = λ r. r.id;
  with_id = λ n r. record r { id = n };
  with_defaults = λ r. record r {
    tenant_name = or_text r.tenant_name (str "default");
    allowed_models = or_text r.allowed_models (str "[]");
    rate_multiplier = or_float r.rate_multiplier one;
    enabled = true;
  };
}

pub record Rule : Type 0 where
  pub id : ℤ
  pub name : Str
  pub priority : ℤ
  pub enabled : Bool
  pub condition_js : Str
  pub action_json : Str

abbrev pub rule_model : Model Rule
rule_model = record {
  id = λ r. r.id;
  with_id = λ n r. record r { id = n };
  with_defaults = λ r. record r { priority = or_int r.priority (pos 100); enabled = true };
}

pub record GroupSchedule : Type 0 where
  pub id : ℤ
  pub group_name : Str
  pub weekday_mask : Str
  pub start_hhmm : Str
  pub end_hhmm : Str
  pub multiplier : Float64
  pub enabled : Bool

abbrev pub schedule_model : Model GroupSchedule
schedule_model = record {
  id = λ r. r.id;
  with_id = λ n r. record r { id = n };
  with_defaults = λ r. record r {
    weekday_mask = or_text r.weekday_mask (str "1,2,3,4,5,6,7");
    start_hhmm = or_text r.start_hhmm (str "00:00");
    end_hhmm = or_text r.end_hhmm (str "23:59");
    multiplier = or_float r.multiplier one;
    enabled = true;
  };
}

pub record UsageRecord : Type 0 where
  pub id : ℤ
  pub at_unix : ℤ
  pub api_key : Str
  pub provider : Str
  pub provider_key : Str
  pub model : Str
  pub prompt_tokens : ℤ
  pub completion_tokens : ℤ
  pub total_tokens : ℤ

abbrev pub usage_model : Model UsageRecord
usage_model = record {
  id = λ r. r.id;
  with_id = λ n r. record r { id = n };
  with_defaults = λ r. r;
}

pub record Tenant : Type 0 where
  pub id : ℤ
  pub name : Str
  pub enabled : Bool

abbrev pub tenant_model : Model Tenant
tenant_model = record {
  id = λ r. r.id;
  with_id = λ n r. record r { id = n };
  with_defaults = λ r. record r { enabled = true };
}

pub record PriceRule : Type 0 where
  pub id : ℤ
  pub model_prefix : Str
  pub price_per_1m_micros : ℤ
  pub enabled : Bool

abbrev pub price_rule_model : Model PriceRule
price_rule_model = record {
  id = λ r. r.id;
  with_id = λ n r. record r { id = n };
  with_defaults = λ r. record r { enabled = true };
}

pub record BillingTxn : Type 0 where
  pub id : ℤ
  pub api_key : Str
  pub delta_micros : ℤ
  pub reason : Str
  pub ref : Str

abbrev pub billing_txn_model : Model BillingTxn
billing_txn_model = record {
  id = λ r. r.id;
  with_id = λ n r. record r { id = n };
  with_defaults = λ r. r;
}

pub record AdminUser : Type 0 where
  pub id : ℤ
  pub username : Str
  pub password_hash : Str
  pub role : Str
  pub token : Str
  pub enabled : Bool

abbrev pub admin_user_model : Model AdminUser
admin_user_model = record {
  id = λ r. r.id;
  with_id = λ n r. record r { id = n };
  with_defaults = λ r. record r { role = or_text r.role (str "viewer"); enabled = true };
}

pub record AuditLog : Type 0 where
  pub id : ℤ
  pub actor : Str
  pub action : Str
  pub target : Str
  pub detail_json : Str

abbrev pub audit_log_model : Model AuditLog
audit_log_model = record {
  id = λ r. r.id;
  with_id = λ n r. record r { id = n };
  with_defaults = λ r. record r { detail_json = or_text r.detail_json (str "{}") };
}

-- `KV`, whose primary key is its text `k`; the number that a `Model` asks for is not used.
pub record Kv : Type 0 where
  pub k : Str
  pub v : Str

abbrev pub kv_model : Model Kv
kv_model = record { id = λ r. pos 1; with_id = λ n r. r; with_defaults = λ r. r }
