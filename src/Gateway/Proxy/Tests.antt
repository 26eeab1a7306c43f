-- ===== src/Gateway/Proxy/Tests.antt =====
-- Requests to the proxy, from the header to the reply.
use proxy2api.Base.{
  ◌≡◌, refl, ap, ◌↔◌, inl, inr, true, some, [], ◌+ℤ◌, ◌*ℤ◌, quot, wrap64, add64, mul64, ok, err,
}
use proxy2api.Text.{str, trim_space, trim_left, trim_right_rev, split2, equal_fold}
use proxy2api.Store.Billing.{find_api_key_by_value}
use proxy2api.Gateway.Proxy.Relayed.{Served, handle_proxy-IsBilled}
use proxy2api.Dict.{lookup, insert}
use proxy2api.Store.Gorm.Listed.{listed, listed-GormLaws}
use proxy2api.Store.Tenants.{is_tenant_enabled}
use proxy2api.Store.Prices.{resolve_model_price_micros}
use proxy2api.Store.Lists.{
  list_providers, list_provider_keys, list_api_keys, list_rules, list_schedules,
}
use proxy2api.Gateway.Types.{Snapshot}
use proxy2api.Gateway.Fixtures.{good_key, user_key, snap, chance}
use proxy2api.Gateway.Limiter.{allow}
use proxy2api.Gateway.Pick.{supports_model, weighted_provider_pick, total_weight, pick_from}
use proxy2api.Gateway.Keys.{has_live_key, pick_provider_key}
use proxy2api.Gateway.Rules.{apply_rules, rules_loop}
use proxy2api.Gateway.Schedule.{schedule_multiplier}
use proxy2api.Gateway.Select.{select_provider_and_key, select_bound, select_weighted}
use proxy2api.Gateway.Select.Sound.{RangesOver}
use proxy2api.Gateway.Snapshot.{reload_snapshot}
use proxy2api.Gateway.Snapshot.Keyed.{reload_snapshot-IsKeyed}
use proxy2api.Gateway.Select.Sticky.{IsKeyed}
use proxy2api.Config.Fixtures.{small}
use proxy2api.Gateway.Auth.{authenticate_user}
use proxy2api.Gateway.Auth.Bearer.{Carries, authenticate_user_iff}
use proxy2api.Gateway.Forward.{
  header_get, header_add, header_set, canonical, copy_headers, out_headers, OutRequest,
  parse_request, estimate_tokens, maybe_rewrite_model, relay, forward, out_request,
}
use proxy2api.Gateway.Admit.{admit_model, admit}
use proxy2api.Gateway.Proxy.{proceed, dispatch, handle_proxy}
use proxy2api.Gateway.Proxy.Sent.{IsSent, handle_proxy-IsSent}
use proxy2api.Gateway.Proxy.Unbilled.{SameMoney, handle_proxy-SameMoney}
use proxy2api.Gateway.Proxy.Fixtures.{
  store, headers, json, outside, server, request, answer_ok, rich, priced, one_row,
}

authenticate_user_iff_example :
    (authenticate_user listed (str "bearer u") snap store ≡ ok (str "u", user_key)) ↔ (
      Carries (str "bearer u") (str "u")
      × (lookup (str "u") snap.keys ≡ some user_key)
      × (user_key.enabled ≡ true)
      × (is_tenant_enabled listed (str "default") store ≡ true))
authenticate_user_iff_example =
    authenticate_user_iff listed (str "bearer u") snap store (str "u") user_key

let_in : authenticate_user listed (str "bearer u") snap store ≡ ok (str "u", user_key)
unfolding listed authenticate_user is_tenant_enabled lookup trim_space trim_left trim_right_rev
    split2 equal_fold
let_in = refl

abbrev reloaded : Snapshot
reloaded = record { providers = []; keys = []; rules = []; schedules = [] }

reload_snapshot-IsKeyed_example : IsKeyed reloaded
unfolding listed reload_snapshot list_providers list_provider_keys list_api_keys list_rules
    list_schedules
reload_snapshot-IsKeyed_example = reload_snapshot-IsKeyed listed json store reloaded refl

abbrev out : OutRequest
out = record {
  method = str "POST";
  url = str "http://up/v1/chat";
  headers = out_headers headers good_key;
  body = str "{}";
}

ranges : RangesOver snap chance
ranges p (inl e) = (str "a", inl (ap (λ x. (str "a", x)) e))
ranges p (inr (inl e)) = (str "b", inr (inl (ap (λ x. (str "b", x)) e)))
ranges p (inr (inr x)) = elim x [ ]

handle_proxy-IsSent_example : IsSent listed small (outside answer_ok) request server out
unfolding handle_proxy admit authenticate_user trim_space header_get lookup canonical split2
    equal_fold is_tenant_enabled listed supports_model parse_request admit_model apply_rules
    rules_loop quot add64 mul64 wrap64 ◌*ℤ◌ ◌+ℤ◌ insert copy_headers estimate_tokens forward
    header_add header_set maybe_rewrite_model out_request relay has_live_key pick_provider_key allow
    pick_from total_weight weighted_provider_pick dispatch proceed schedule_multiplier select_bound
    select_provider_and_key select_weighted resolve_model_price_micros trim_left trim_right_rev
handle_proxy-IsSent_example =
    handle_proxy-IsSent listed small (outside answer_ok) request server out ranges refl

handle_proxy-SameMoney_example :
    SameMoney store
      (handle_proxy listed small (outside (err (str "timeout"))) request server).server.store
unfolding handle_proxy admit authenticate_user trim_space header_get lookup canonical split2
    equal_fold is_tenant_enabled listed supports_model parse_request admit_model apply_rules
    rules_loop quot add64 mul64 wrap64 ◌*ℤ◌ ◌+ℤ◌ insert copy_headers estimate_tokens forward
    header_add header_set maybe_rewrite_model out_request relay has_live_key pick_provider_key allow
    pick_from total_weight weighted_provider_pick dispatch proceed schedule_multiplier select_bound
    select_provider_and_key select_weighted resolve_model_price_micros trim_left trim_right_rev
handle_proxy-SameMoney_example =
    handle_proxy-SameMoney listed small (outside (err (str "timeout"))) request server 502
      (str "timeout") refl

handle_proxy-IsBilled_example :
    Served listed priced
      (outside answer_ok)
      request
      rich
      (str "hi")
      (handle_proxy listed priced (outside answer_ok) request rich).server.store
unfolding handle_proxy admit authenticate_user trim_space header_get lookup canonical split2
    equal_fold is_tenant_enabled listed supports_model parse_request admit_model apply_rules
    rules_loop quot add64 mul64 wrap64 ◌*ℤ◌ ◌+ℤ◌ insert copy_headers estimate_tokens forward
    header_add header_set maybe_rewrite_model out_request relay has_live_key pick_provider_key allow
    pick_from total_weight weighted_provider_pick dispatch proceed schedule_multiplier select_bound
    select_provider_and_key select_weighted resolve_model_price_micros trim_left trim_right_rev
    find_api_key_by_value
handle_proxy-IsBilled_example =
    handle_proxy-IsBilled listed priced (outside answer_ok) listed-GormLaws request rich one_row 200
      [] (str "hi") refl
