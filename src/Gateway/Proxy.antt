-- ===== src/Gateway/Proxy.antt =====
-- `handleProxy` of internal/gateway/server.go: what follows its tests, in its order. A request is
-- one step.
pub mod Sent
pub mod Unbilled
pub mod Charge
pub mod Billed
pub mod Relayed
pub mod Codes
pub mod Fixtures
mod Tests
use proxy2api.Base.{
  suc, ◌+◌, ◌-◌, ◌/◌, ap, Bool, true, false, not, Option, none, some, List, ◌++◌, ltb,
  if◌then◌else◌, ℤ, pos, ltb_ℤ, add64, keep, all, Str, ok, err,
}
use proxy2api.Text.{str, is_empty, eq_str}
use proxy2api.Dict.{Dict, lookup, insert}
use proxy2api.Float.{Float64, FloatOps}
use proxy2api.Config.{Config}
use proxy2api.Store.Gorm.{Gorm}
use proxy2api.Store.Tables.{Store}
use proxy2api.Store.Rows.{ApiKey, UsageRecord}
use proxy2api.Store.Billing.{find_api_key_by_value, deduct_api_key_balance}
use proxy2api.Store.Prices.{resolve_model_price_micros}
use proxy2api.Store.Lists.{add_usage}
use proxy2api.Gateway.Types.{ProviderState, ProviderKeyState, GatewayKey, StickyBind, Snapshot}
use proxy2api.Gateway.Limiter.{MinuteLimiter, allow}
use proxy2api.Gateway.Pick.{supports_model}
use proxy2api.Gateway.Rules.{Js, Verdict, RuleContext, apply_rules}
use proxy2api.Gateway.Schedule.{schedule_multiplier}
use proxy2api.Gateway.Select.{Chance, Selected, select_provider_and_key}
use proxy2api.Gateway.Snapshot.{Json, max_ℤ, reload_snapshot}
use proxy2api.Gateway.Health.{mark_provider_key_success, mark_provider_key_failure}
use proxy2api.Gateway.Auth.{authenticate_user}
use proxy2api.Gateway.Forward.{
  Header, header_get, BodyJson, Network, Request, OutRequest, Reply, failed, relayed, Usage,
  ParsedRequest, parse_request, Forwarded, forward,
}
use proxy2api.Gateway.Admit.{
  Server, Outside, Guard, pass, refuse, Admitted, cost, scaled, price, admit,
}

-- What a request leads to: the reply, what was sent to a provider, and the server after it.
pub record Handled (g : Gorm) : Type 0 where
  pub reply : Reply
  pub sent : Option OutRequest
  pub server : Server g

abbrev pub not_negative : ℤ → ℤ
not_negative n = if ltb_ℤ n (pos 0) then pos 0 else n

module _ (g : Gorm) (cfg : Config) (o : Outside) where
  -- `_ = s.reloadSnapshot()`: an error keeps the snapshot.
  abbrev pub reloaded : Server g → Server g
  reloaded s = elim (reload_snapshot g o.json s.store) [
    | err e ↦ s
    | ok snap ↦ record s { snapshot = snap }
  ]

  abbrev pub count_of : Option ℤ → ℤ
  count_of none = pos 0
  count_of (some n) = n

  -- `incStat`
  unfoldable pub inc_stat : Str → Server g → Server g
  inc_stat key s = record s {
    stats = insert key (add64 (count_of (lookup key s.stats)) (pos 1)) s.stats;
  }

  -- The charge for a request that was relayed; the error of a deduction is only logged.
  abbrev pub charge : Admitted → ℤ → Server g → Server g
  charge a micros s =
      if ltb_ℤ (pos 0) micros
      then reloaded (record s {
        store = (deduct_api_key_balance g a.token micros (str "usage") a.model s.store).1;
      })
      else s

  abbrev pub total_tokens : Admitted → Usage → ℤ
  total_tokens a u = max_ℤ a.estimated_token u.total

  abbrev pub charged : Admitted → Usage → Server g → ℤ
  charged a u s =
      if cfg.billing.enabled then cost (total_tokens a u) (price g cfg o s.store a.model) else pos 0

  abbrev pub usage_of : Admitted → ProviderState → ProviderKeyState → Usage → UsageRecord
  usage_of a p k u = record {
    id = pos 0;
    at_unix = o.now_unix;
    api_key = a.token;
    provider = p.name;
    provider_key = k.alias;
    model = a.model;
    prompt_tokens = u.prompt;
    completion_tokens = u.completion;
    total_tokens = total_tokens a u;
  }

  -- After the reply of the provider has been relayed.
  unfoldable pub settle : Admitted → ProviderState → ProviderKeyState → Usage → Server g → Server g
  settle a p k u s =
      let s1 = reloaded (record s { store = mark_provider_key_success g k s.store }) in
      let micros = charged a u s1 in
      let s2 = charge a micros s1 in
      let s3 = record s2 { store = (add_usage g (usage_of a p k u) s2.store).1 } in
      let s4 = inc_stat (str "proxy_ok") s3 in
      if ltb_ℤ (pos 0) micros then inc_stat (str "billing_charged") s4 else s4

  -- After an error of the provider.
  unfoldable pub give_up : ProviderState → ProviderKeyState → Str → Server g → Server g
  give_up p k e s = inc_stat (str "proxy_error") (
      reloaded (record s {
        store =
            mark_provider_key_failure g cfg.gateway.provider_fail_threshold
              cfg.gateway.provider_cooldown_sec p k e o.failed_at s.store;
      }))

  abbrev pub finish : Admitted → ProviderState → ProviderKeyState → Server g → Forwarded → Handled g
  finish a p k s f = elim f.outcome [
    | err e ↦ record { reply = failed 502 e; sent = f.sent; server = give_up p k e s }
    | ok (reply, u) ↦ record { reply = reply; sent = f.sent; server = settle a p k u s }
  ]

  -- After the limiter of the provider's key.
  abbrev pub after_channel :
      Request
      → Admitted
      → ProviderState
      → ProviderKeyState
      → Server g
      → Bool × MinuteLimiter
      → Handled g
  after_channel r a p k s (false, limiter) = record {
    reply = failed 429 (str "provider rate limit exceeded");
    sent = none;
    server = record s { channel_limiter = limiter };
  }
  after_channel r a p k s (true, limiter) =
      finish a p k (record s { channel_limiter = limiter })
        (forward o.body_json o.net o.text_of r a.body a.model p k)

  -- From the choice of the provider on.
  unfoldable pub dispatch :
      Request → Admitted → ProviderState → ProviderKeyState → Server g → Handled g
  dispatch r a p k s =
      let mul = schedule_multiplier o.fo s.snapshot.schedules p.group_name o.weekday o.minute in
      after_channel r a p k s (
        allow o.channel_clock (str "provider:" ++ p.name ++ str ":" ++ k.alias) (pos 1)
          a.estimated_token (not_negative (scaled o.fo p.max_rpm mul))
          (not_negative (scaled o.fo p.max_tpm mul)) s.channel_limiter)

  abbrev pub route : Request → Admitted → Server g → Selected × Dict StickyBind → Handled g
  route r a s (err e, sticky) = record {
    reply = failed 503 e;
    sent = none;
    server = record s { sticky = sticky };
  }
  route r a s (ok (p, k), sticky) = dispatch r a p k (record s { sticky = sticky })

  -- After the limiter of the user.
  abbrev pub after_user : Request → Server g → Admitted → Bool × MinuteLimiter → Handled g
  after_user r s a (false, limiter) = record {
    reply = failed 429 (str "user rate limit exceeded");
    sent = none;
    server = record s { user_limiter = limiter };
  }
  after_user r s a (true, limiter) =
      route r a (record s { user_limiter = limiter })
        (select_provider_and_key s.snapshot o.chance a.model a.forced
          (header_get r.headers cfg.gateway.sticky_session_header) s.sticky)

  -- From the user's limits on.
  unfoldable pub proceed : Request → Server g → Admitted → Handled g
  proceed r s a = after_user r s a (
      allow o.user_clock (str "user:" ++ a.key_cfg.key) (pos 1) a.estimated_token a.key_cfg.max_rpm
        a.key_cfg.max_tpm s.user_limiter)

  abbrev pub handled : Request → Server g → Guard Admitted → Handled g
  handled r s (refuse code e) = record { reply = failed code e; sent = none; server = s }
  handled r s (pass a) = proceed r s a

  unfoldable pub handle_proxy : Request → Server g → Handled g
  handle_proxy r s = handled r s (admit g cfg o r s)
