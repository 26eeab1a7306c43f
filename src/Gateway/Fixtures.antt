-- ===== src/Gateway/Fixtures.antt =====
-- The data of the tests: two providers, a key, a rule, a schedule, and simple stand-ins for what is
-- outside of the program.
use proxy2api.Base.{
  String, Bool, true, false, Option, none, some, [], ◌∷◌, map, ◌==◌, if◌then◌else◌, ℤ, pos,
  pos_part, Str,
}
use proxy2api.Text.{str, eq_str}
use proxy2api.Float.{FloatOps, one}
use proxy2api.Gateway.Types.{
  ProviderKeyState, ProviderState, GatewayKey, RuleState, GroupSchedule, Snapshot,
}
use proxy2api.Gateway.Rules.{Js, RuleContext}
use proxy2api.Gateway.Select.{Chance}

abbrev pub good_key : ProviderKeyState
good_key = record {
  id = pos 1;
  alias = str "first";
  api_key = str "sk-1";
  enabled = true;
  consecutive_errs = pos 0;
  cooldown_until = pos 0;
  last_status = str "ok";
}

abbrev pub resting_key : ProviderKeyState
resting_key = record good_key { alias = str "second"; cooldown_until = pos 900000000000 }

abbrev pub provider : String → ℤ → ProviderState
provider name weight = record {
  name = str name;
  base_url = str "http://up";
  weight = weight;
  models = str "m" ∷ [];
  model_map = [];
  max_rpm = pos 10;
  max_tpm = pos 1000;
  enabled = true;
  group_name = [];
  recover_interval = pos 60000000000;
  keys = good_key ∷ resting_key ∷ [];
}

abbrev pub a : ProviderState
a = provider "a" (pos 2)

abbrev pub b : ProviderState
b = provider "b" (pos 3)

abbrev pub user_key : GatewayKey
user_key = record {
  key = str "u";
  name = str "user";
  tenant_name = str "default";
  balance_micros = pos 100;
  max_rpm = pos 5;
  max_tpm = pos 1000;
  allowed_models = str "m" ∷ [];
  rate_multiplier = one;
  enabled = true;
}

-- Its condition holds for the model that it names.
abbrev pub rule_b : RuleState
rule_b = record {
  id = pos 1;
  name = str "to b";
  priority = pos 1;
  enabled = true;
  condition = str "m";
  action = record { force_provider = str "b"; deny = false; rate_multiplier = 0 };
}

abbrev pub overnight : GroupSchedule
overnight = record {
  group_name = str "default";
  weekday_mask = 0 ∷ 1 ∷ [];
  start_minute = 1320;
  end_minute = 360;
  multiplier = 0x4000000000000000;
  enabled = true;
}

abbrev pub snap : Snapshot
snap = record {
  providers = (str "a", a) ∷ (str "b", b) ∷ [];
  keys = (str "u", user_key) ∷ [];
  rules = [];
  schedules = overnight ∷ [];
}

-- Products with one are exact; integers below 2 ^ 52 stand for themselves.
abbrev pub fo : FloatOps
fo = record {
  mul = λ x y. if y == one then x else y;
  of_int = λ n. pos_part n;
  to_int = λ x. pos x;
}

abbrev pub model_is : Str → Option RuleContext → Option Bool
model_is expr none = none
model_is expr (some ctx) = some (eq_str ctx.model expr)

abbrev pub js : Js
js = record {
  Vm = Option RuleContext;
  Value = Bool;
  new_vm = none;
  set_ctx = λ ctx vm. some (some ctx);
  run_string = model_is;
  to_boolean = λ v. v;
}

abbrev pub chance : Chance
chance = record {
  readings = record { now = 1000; first_nano = 1001; second_nano = 1002; bound_at = 1003 };
  intn = λ n. 0;
  range = map (λ e. e.1);
}
