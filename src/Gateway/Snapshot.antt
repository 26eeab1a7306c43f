-- ===== src/Gateway/Snapshot.antt =====
-- `reloadSnapshot` of internal/gateway/server.go. The decoding of JSON columns is a parameter: what
-- `json.Unmarshal` leaves in the variable, errors ignored, and for the action of a rule the error.
pub mod Keyed
use proxy2api.Base.{
  ◌-◌, ◌*◌, ◌/◌, ap, not, Option, none, some, List, [], ◌∷◌, map, ltb, if◌then◌else◌, ℤ, pos, ◌*ℤ◌,
  ltb_ℤ, mul64, keep, all, Str, Result, ok, err, ◌>>=◌,
}
use proxy2api.Text.{str, eq_str}
use proxy2api.Dict.{Dict, insert}
use proxy2api.Store.Gorm.{Gorm}
use proxy2api.Store.Rows
use proxy2api.Store.Rows.{Provider, ProviderKey, ApiKey, Rule}
use proxy2api.Store.Tables.{Store}
use proxy2api.Store.Lists.{
  list_providers, list_provider_keys, list_api_keys, list_rules, list_schedules,
}
use proxy2api.Gateway.Types.{
  ProviderKeyState, ProviderState, GatewayKey, RuleAction, RuleState, GroupSchedule, Snapshot,
}
use proxy2api.Gateway.Schedule.{parse_weekday_mask, parse_hhmm}

pub record Json : Type 0 where
  pub texts : Str → List Str
  pub text_map : Str → Dict Str
  pub action : Str → Option RuleAction

abbrev pub max_ℤ : ℤ → ℤ → ℤ
max_ℤ a b = if ltb_ℤ b a then a else b

-- `time.Duration(n) * time.Second`
abbrev pub seconds : ℤ → ℤ
seconds n = mul64 n (pos 1000000000)

-- `time.Unix(c, 0)`
abbrev pub from_unix : ℤ → ℤ
from_unix c = c *ℤ pos 1000000000

abbrev pub key_state : ProviderKey → ProviderKeyState
key_state pk = record {
  id = pk.id;
  alias = pk.alias;
  api_key = pk.api_key;
  enabled = pk.enabled;
  consecutive_errs = pk.consecutive_errs;
  cooldown_until = from_unix pk.cooldown_until;
  last_status = pk.last_status;
}

-- `byProviderKey[name]`: the keys of a provider, in the order of the list.
abbrev pub keys_of : Str → List ProviderKey → List ProviderKey
keys_of name = keep (λ pk. eq_str pk.provider_name name)

abbrev pub provider_state : Json → List ProviderKey → Provider → ProviderState
provider_state json pkeys p = record {
  name = p.name;
  base_url = p.base_url;
  weight = p.weight;
  models = json.texts p.models_json;
  model_map = json.text_map p.model_map_json;
  max_rpm = p.max_rpm;
  max_tpm = p.max_tpm;
  enabled = p.enabled;
  group_name = p.group_name;
  recover_interval = seconds (max_ℤ (pos 1) p.recover_interval_sec);
  keys = map key_state (keys_of p.name pkeys);
}

abbrev pub add_providers :
    Json → List ProviderKey → List Provider → Dict ProviderState → Dict ProviderState
add_providers json pkeys [] m = m
add_providers json pkeys (p ∷ ps) m =
    add_providers json pkeys ps (insert p.name (provider_state json pkeys p) m)

abbrev pub gateway_key : Json → ApiKey → GatewayKey
gateway_key json k = record {
  key = k.key_value;
  name = k.name;
  tenant_name = k.tenant_name;
  balance_micros = k.balance_micros;
  max_rpm = k.max_rpm;
  max_tpm = k.max_tpm;
  allowed_models = json.texts k.allowed_models;
  rate_multiplier = k.rate_multiplier;
  enabled = k.enabled;
}

abbrev pub add_keys : Json → List ApiKey → Dict GatewayKey → Dict GatewayKey
add_keys json [] m = m
add_keys json (k ∷ ks) m = add_keys json ks (insert k.key_value (gateway_key json k) m)

-- A rule that is disabled, or has an action that is no JSON, is skipped.
abbrev pub rule_states : Json → List Rule → List RuleState
rule_states json [] = []
rule_states json (r ∷ rs) =
    let rest = rule_states json rs in
    if not r.enabled then rest else elim (json.action r.action_json) [
      | none ↦ rest
      | some action ↦
          record {
            id = r.id;
            name = r.name;
            priority = r.priority;
            enabled = r.enabled;
            condition = r.condition_js;
            action = action;
          }
          ∷ rest
    ]

abbrev pub schedule_state : Rows.GroupSchedule → GroupSchedule
schedule_state sc = record {
  group_name = sc.group_name;
  weekday_mask = parse_weekday_mask sc.weekday_mask;
  start_minute = parse_hhmm sc.start_hhmm;
  end_minute = parse_hhmm sc.end_hhmm;
  multiplier = sc.multiplier;
  enabled = sc.enabled;
}

-- What the loops build from the five lists.
abbrev pub snapshot_of :
    Json
    → List Provider
    → List ProviderKey
    → List ApiKey
    → List Rule
    → List Rows.GroupSchedule
    → Snapshot
snapshot_of json ps pkeys ks rs scs = record {
  providers = add_providers json pkeys ps [];
  keys = add_keys json ks [];
  rules = rule_states json rs;
  schedules = map schedule_state scs;
}

unfoldable pub reload_snapshot : (g : Gorm) → Json → Store g → Result Snapshot
reload_snapshot g json s = do
  providers ← list_providers g s
  provider_keys ← list_provider_keys g s []
  api_keys ← list_api_keys g s
  rules ← list_rules g s
  schedules ← list_schedules g s
  ok (snapshot_of json providers provider_keys api_keys rules schedules)
