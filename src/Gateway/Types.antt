-- ===== src/Gateway/Types.antt =====
-- The data of internal/gateway/types.go. A map is a `Dict`; an instant is a number of nanoseconds
-- since 1970, and so is a duration.
use proxy2api.Base.{ℕ, Bool, List, ℤ, Str}
use proxy2api.Dict.{Dict}
use proxy2api.Float.{Float64}

pub record ProviderKeyState : Type 0 where
  pub id : ℤ
  pub alias : Str
  pub api_key : Str
  pub enabled : Bool
  pub consecutive_errs : ℤ
  pub cooldown_until : ℤ
  pub last_status : Str

pub record ProviderState : Type 0 where
  pub name : Str
  pub base_url : Str
  pub weight : ℤ
  pub models : List Str
  pub model_map : Dict Str
  pub max_rpm : ℤ
  pub max_tpm : ℤ
  pub enabled : Bool
  pub group_name : Str
  pub recover_interval : ℤ
  pub keys : List ProviderKeyState

pub record GatewayKey : Type 0 where
  pub key : Str
  pub name : Str
  pub tenant_name : Str
  pub balance_micros : ℤ
  pub max_rpm : ℤ
  pub max_tpm : ℤ
  pub allowed_models : List Str
  pub rate_multiplier : Float64
  pub enabled : Bool

pub record RuleAction : Type 0 where
  pub force_provider : Str
  pub deny : Bool
  pub rate_multiplier : Float64

pub record RuleState : Type 0 where
  pub id : ℤ
  pub name : Str
  pub priority : ℤ
  pub enabled : Bool
  pub condition : Str
  pub action : RuleAction

-- A weekday counts from Sunday, 0; the mask lists the days that are set.
pub record GroupSchedule : Type 0 where
  pub group_name : Str
  pub weekday_mask : List ℕ
  pub start_minute : ℕ
  pub end_minute : ℕ
  pub multiplier : Float64
  pub enabled : Bool

pub record StickyBind : Type 0 where
  pub provider : Str
  pub updated : ℕ

-- `runtimeSnapshot`; its field `priceDefaultMicros` is never read or written.
pub record Snapshot : Type 0 where
  pub providers : Dict ProviderState
  pub keys : Dict GatewayKey
  pub rules : List RuleState
  pub schedules : List GroupSchedule
