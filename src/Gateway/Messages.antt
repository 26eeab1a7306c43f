-- ===== src/Gateway/Messages.antt =====
-- The requests of internal/gateway/admin.go, decoded, and its replies. Decoding and encoding JSON are
-- parameters.
use proxy2api.Base.{ℕ, Bool, Option, List, ℤ, Str, Result}
use proxy2api.Dict.{Dict}
use proxy2api.Float.{Float64}
use proxy2api.Store.Rows.{
  Provider, ProviderKey, ApiKey, Rule, GroupSchedule, Tenant, PriceRule, BillingTxn, AdminUser,
  AuditLog,
}
use proxy2api.Store.Routing.{RuntimeConfigExport}

pub record ProviderRequest : Type 0 where
  pub id : ℤ
  pub name : Str
  pub base_url : Str
  pub weight : ℤ
  pub models : List Str
  pub model_map : Dict Str
  pub max_rpm : ℤ
  pub max_tpm : ℤ
  pub enabled : Bool
  pub group_name : Str
  pub recover_interval_sec : ℤ

pub record ProviderKeyRequest : Type 0 where
  pub id : ℤ
  pub provider_name : Str
  pub alias : Str
  pub api_key : Str
  pub enabled : Bool

pub record ApiKeyRequest : Type 0 where
  pub id : ℤ
  pub key_value : Str
  pub name : Str
  pub max_rpm : ℤ
  pub max_tpm : ℤ
  pub allowed_models : List Str
  pub rate_multiplier : Float64
  pub enabled : Bool

-- `action` is the raw text of the JSON.
pub record RuleRequest : Type 0 where
  pub id : ℤ
  pub name : Str
  pub priority : ℤ
  pub enabled : Bool
  pub condition_js : Str
  pub action : Str

pub record ScheduleRequest : Type 0 where
  pub id : ℤ
  pub group_name : Str
  pub weekday_mask : Str
  pub start_hhmm : Str
  pub end_hhmm : Str
  pub multiplier : Float64
  pub enabled : Bool

pub record ImportRequest : Type 0 where
  pub rules : List Rule
  pub schedules : List GroupSchedule

pub record LoginRequest : Type 0 where
  pub username : Str
  pub password : Str

pub record TenantRequest : Type 0 where
  pub id : ℤ
  pub name : Str
  pub enabled : Bool

pub record UserRequest : Type 0 where
  pub id : ℤ
  pub username : Str
  pub password : Str
  pub role : Str
  pub enabled : Bool

pub record PriceRequest : Type 0 where
  pub id : ℤ
  pub model_prefix : Str
  pub price_per_1m_micros : ℤ
  pub enabled : Bool

pub record TopupRequest : Type 0 where
  pub api_key : Str
  pub amount_micros : ℤ
  pub reason : Str
  pub ref : Str

-- `json.NewDecoder(r.Body).Decode(&req)`, `none` for an error; `json.Marshal`; `json.Valid`.
pub record AdminJson : Type 0 where
  pub provider : Result Str → Option ProviderRequest
  pub provider_key : Result Str → Option ProviderKeyRequest
  pub api_key : Result Str → Option ApiKeyRequest
  pub rule : Result Str → Option RuleRequest
  pub schedule : Result Str → Option ScheduleRequest
  -- `json.Unmarshal`
  pub import_of : Str → Option ImportRequest
  pub login : Result Str → Option LoginRequest
  pub tenant : Result Str → Option TenantRequest
  pub user : Result Str → Option UserRequest
  pub price : Result Str → Option PriceRequest
  pub topup : Result Str → Option TopupRequest
  pub valid : Str → Bool
  pub texts : List Str → Str
  pub text_map : Dict Str → Str
  pub tenant_detail : TenantRequest → Option Str
  pub user_detail : (role : Str) → (enabled : Bool) → Option Str
  pub price_detail : PriceRequest → Option Str
  pub topup_detail : TopupRequest → Option Str

-- The JSON of a reply with status 200.
pub data AdminBody : Type 0 where
  providers : List Provider → AdminBody
  provider_keys : List ProviderKey → AdminBody
  api_keys : List ApiKey → AdminBody
  rules : List Rule → AdminBody
  schedules : List GroupSchedule → AdminBody
  config : RuntimeConfigExport → AdminBody
  tenants : List Tenant → AdminBody
  admin_users : List AdminUser → AdminBody
  price_rules : List PriceRule → AdminBody
  billing_txns : List BillingTxn → AdminBody
  audit_logs : List AuditLog → AdminBody
  accepted : AdminBody
  written : (id : ℤ) → AdminBody
  deleted : (id : ℤ) → AdminBody
  disabled : (id : ℤ) → AdminBody
  deleted_provider : (name : Str) → AdminBody
  switched : (name : Str) → (enabled : Bool) → AdminBody
  logged_in : (token role : Str) → AdminBody

pub data AdminReply : Type 0 where
  refused : ℕ → Str → AdminReply
  answered : AdminBody → AdminReply
