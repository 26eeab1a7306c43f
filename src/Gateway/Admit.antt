-- ===== src/Gateway/Admit.antt =====
-- The tests of `handleProxy` of internal/gateway/server.go, in its order, up to its first change of
-- the state of `Server`, and that state. The limiters are the ones in memory. Where the program
-- reads a clock, throws dice, or ranges over a map, the reading is an argument.
pub mod LetIn
use proxy2api.Base.{
  ℕ, suc, ◌-◌, ◌*◌, ◌/◌, ap, Bool, not, ◌&&◌, List, map, ltb, leb, ◌==◌, if◌then◌else◌, ℤ, pos,
  ltb_ℤ, leb_ℤ, quot, mul64, length, all, All, In, Str, Result, ok, err,
}
use proxy2api.Text.{str, is_empty, eq_str}
use proxy2api.Dict.{Dict, lookup, insert}
use proxy2api.Float.{Float64, FloatOps}
use proxy2api.Config.{Config}
use proxy2api.Store.Gorm.{Gorm}
use proxy2api.Store.Tables.{Store}
use proxy2api.Store.Rows.{ApiKey, UsageRecord}
use proxy2api.Store.Billing.{find_api_key_by_value, deduct_api_key_balance}
use proxy2api.Store.Prices.{resolve_model_price_micros}
use proxy2api.Store.Lists.{add_usage}
use proxy2api.Gateway.Types.{ProviderState, ProviderKeyState, GatewayKey, StickyBind, Snapshot}
use proxy2api.Gateway.Limiter.{MinuteLimiter, allow}
use proxy2api.Gateway.Pick.{supports_model}
use proxy2api.Gateway.Rules.{Js, Verdict, RuleContext, apply_rules}
use proxy2api.Gateway.Schedule.{schedule_multiplier}
use proxy2api.Gateway.Select.{Chance, Selected, select_provider_and_key}
use proxy2api.Gateway.Snapshot.{Json, max_ℤ, reload_snapshot}
use proxy2api.Gateway.Health.{mark_provider_key_success, mark_provider_key_failure}
use proxy2api.Gateway.Auth.{authenticate_user}
use proxy2api.Gateway.Forward.{
  Header, header_get, BodyJson, Network, Request, OutRequest, Reply, failed, relayed, Usage,
  ParsedRequest, parse_request, Forwarded, forward,
}

pub record Server (g : Gorm) : Type 0 where
  pub store : Store g
  pub snapshot : Snapshot
  pub user_limiter : MinuteLimiter
  pub channel_limiter : MinuteLimiter
  pub sticky : Dict StickyBind
  pub stats : Dict ℤ

-- What the program does not decide: the engines and formats that it calls, and the readings of this
-- request. `now_unix` is the second in which the usage is recorded.
pub record Outside : Type 1 where
  pub fo : FloatOps
  pub js : Js
  pub json : Json
  pub body_json : BodyJson
  pub net : Network
  pub text_of : ℕ → Str
  pub chance : Chance
  pub user_clock : ℕ
  pub channel_clock : ℕ
  pub weekday : ℕ
  pub minute : ℕ
  pub failed_at : ℕ
  pub now_unix : ℤ

-- A test passed, or the reply that ends the request.
pub data Guard (A : Type 0) : Type 0 where
  pass : A → Guard A
  refuse : ℕ → Str → Guard A

infixl 5 ◌>>=◌
abbrev pub ◌>>=◌ : {A B : Type 0} → Guard A → (A → Guard B) → Guard B
pass a >>= f = f a
refuse code e >>= f = refuse code e

abbrev pub or_refuse : {A : Type 0} → ℕ → Result A → Guard A
or_refuse code (ok a) = pass a
or_refuse code (err e) = refuse code e

abbrev pub refuse_if : Bool → ℕ → Str → Guard (Unit {0})
refuse_if b code e = if b then refuse code e else pass tt

pub record Admitted : Type 0 where
  pub token : Str
  pub key_cfg : GatewayKey
  pub body : Str
  pub model : Str
  pub forced : Str
  pub estimated_token : ℤ

-- `int64(tokens) * price / 1_000_000`
abbrev pub cost : ℤ → ℤ → ℤ
cost tokens price = quot (mul64 tokens price) 1000000

-- `int(float64(n) * mul)`
abbrev pub scaled : FloatOps → ℤ → Float64 → ℤ
scaled fo n mul = fo.to_int (fo.mul (fo.of_int n) mul)

abbrev pub at_least_one : ℤ → ℤ
at_least_one n = if leb_ℤ n (pos 0) then pos 1 else n

module _ (g : Gorm) (cfg : Config) (o : Outside) where
  abbrev pub price : Store g → Str → ℤ
  price s model = resolve_model_price_micros g model cfg.billing.default_price_per_million_micros s

  -- The balance that the estimated cost needs.
  abbrev pub check_balance : Store g → Str → ℤ → Guard (Unit {0})
  check_balance s token estimated_cost =
      if ltb_ℤ (pos 0) estimated_cost
      then elim (find_api_key_by_value g token s) [
        | err e ↦ refuse 401 (str "api key not found")
        | ok live ↦
            refuse_if (ltb_ℤ live.balance_micros estimated_cost) 402 (str "insufficient balance")
      ]
      else pass tt

  abbrev pub user_of : Request → Server g → Result (Str × GatewayKey)
  user_of r s = authenticate_user g (header_get r.headers (str "Authorization")) s.snapshot s.store

  abbrev pub model_refused : GatewayKey → Str → Bool
  model_refused k model =
      not (length k.allowed_models == 0) && not (supports_model k.allowed_models model)

  abbrev pub verdict : Request → Server g → Str → GatewayKey → Str → Verdict
  verdict r s token k model =
      apply_rules o.fo o.js s.snapshot.rules
        (record { api_key = token; model = model; path = r.path }) k.rate_multiplier

  -- The tests of the rules and of the balance.
  unfoldable pub admit_model :
      Server g → Str → GatewayKey → Str → ParsedRequest → Verdict → Guard Admitted
  admit_model s token key_cfg body info v = do
    ruled ← refuse_if v.denied 403 (str "request denied by routing rule")
    let tokens = at_least_one (scaled o.fo (pos info.estimated_token) v.multiplier)
    paid ←
        (if cfg.billing.enabled
          then check_balance s.store token (cost tokens (price s.store info.model))
          else pass tt)
    pass (record {
      token = token;
      key_cfg = key_cfg;
      body = body;
      model = info.model;
      forced = v.force_provider;
      estimated_token = tokens;
    })

  -- All tests before the first change of a state.
  unfoldable pub admit : Request → Server g → Guard Admitted
  admit r s = do
    posted ←
        refuse_if (not (eq_str r.method (str "POST"))) 405
          (str "only POST is allowed on proxy endpoints")
    (token, key_cfg) ← or_refuse 401 (user_of r s)
    body ← or_refuse 400 r.body
    let info = parse_request o.body_json body
    allowed ←
        refuse_if (model_refused key_cfg info.model) 403 (str "model not allowed for this api key")
    admit_model s token key_cfg body info (verdict r s token key_cfg info.model)
