-- ===== src/Gateway/Tests.antt =====
-- Runs of the gateway's parts, and their theorems at concrete inputs.
use proxy2api.Base.{
  ◌+◌, ◌*◌, ◌≡◌, refl, ◌↔◌, true, some, [], ◌∷◌, arith, pos, ◌<ℤ◌, keep, any, In, ok,
}
use proxy2api.Text.{str, eq_str, trim_space, split}
use proxy2api.Float.{one}
use proxy2api.Gateway.Types.{ProviderKeyState, ProviderState}
use proxy2api.Gateway.Fixtures.{good_key, a, b, rule_b, overnight, fo, js}
use proxy2api.Gateway.Pick.{weighted_provider_pick}
use proxy2api.Gateway.Pick.Share.{weighted_pick_share, weighted_pick_total}
use proxy2api.Gateway.Keys.{has_live_key, pick_provider_key}
use proxy2api.Gateway.Keys.Live.{pick_provider_key_iff, pick_provider_key-live}
use proxy2api.Gateway.Schedule.{parse_weekday_mask, parse_hhmm, in_mask, schedule_multiplier}
use proxy2api.Gateway.Schedule.Parse.{
  format_hhmm, parse_hhmm-format_hhmm, day_text, parse_weekday_mask_lem,
}
use proxy2api.Gateway.Schedule.Active.{
  group_of, is_active, product, schedule_multiplier-product, overnight_never,
}
use proxy2api.Gateway.Rules.{apply_rules}
use proxy2api.Gateway.Rules.Decision.{verdict_of, apply_rules-verdict_of}

weighted_pick_share_example : weighted_provider_pick (λ n. 3) (a ∷ b ∷ []) ≡ some b
weighted_pick_share_example =
    weighted_pick_share (λ n. 3) b (a ∷ []) [] (ground arith) (ground arith) (ground arith)

weighted_pick_total_example :
    (p : ProviderState) × (weighted_provider_pick (λ n. 0) (a ∷ b ∷ []) ≡ some p)
weighted_pick_total_example = weighted_pick_total (λ n. 0) a (b ∷ []) (λ n h. h)

pick_provider_key_iff_example :
    (has_live_key a 1000 ≡ true) ↔ ((k : ProviderKeyState) × (pick_provider_key a 1000 1001 ≡ ok k))
pick_provider_key_iff_example = pick_provider_key_iff a 1000 1001

pick_provider_key-live_example :
    In good_key a.keys × (good_key.enabled ≡ true) × (good_key.cooldown_until <ℤ pos 1000)
unfolding pick_provider_key
pick_provider_key-live_example = pick_provider_key-live a 1000 1001 good_key refl

parse_hhmm-format_hhmm_example : parse_hhmm (format_hhmm 9 30) ≡ 9 * 60 + 30
parse_hhmm-format_hhmm_example = parse_hhmm-format_hhmm 9 30 (omega arith) (omega arith)

-- The third byte of a time of day is not read.
loose_time : parse_hhmm (str "09x30") ≡ 570
unfolding parse_hhmm
loose_time = refl

parse_weekday_mask_lem_example :
    in_mask 0 (parse_weekday_mask (str "1, 7"))
    ≡ any (λ p. eq_str (trim_space p) (day_text 0)) (split b',' (str "1, 7"))
parse_weekday_mask_lem_example = parse_weekday_mask_lem (str "1, 7") 0 (omega arith)

schedule_multiplier-product_example :
    schedule_multiplier fo (overnight ∷ []) [] 0 1400
    ≡ product fo one (keep (is_active (group_of []) 0 1400) (overnight ∷ []))
schedule_multiplier-product_example = schedule_multiplier-product fo (overnight ∷ []) [] 0 1400

overnight_never_example :
    schedule_multiplier fo (overnight ∷ []) [] 0 1400 ≡ schedule_multiplier fo [] [] 0 1400
overnight_never_example = overnight_never fo [] [] overnight [] 0 1400 (omega arith)

apply_rules-verdict_of_example :
    apply_rules fo js (rule_b ∷ []) (record { api_key = str "u"; model = str "m"; path = [] }) one
    ≡ verdict_of fo js
        (record { api_key = str "u"; model = str "m"; path = [] })
        (rule_b ∷ [])
        []
        one
apply_rules-verdict_of_example =
    apply_rules-verdict_of fo js (record { api_key = str "u"; model = str "m"; path = [] })
      (rule_b ∷ []) one
