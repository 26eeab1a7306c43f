-- ===== src/Store/Prices.antt =====
-- The price rules of internal/store/store.go: their changes, and `ResolveModelPriceMicros`.
pub mod Longest
use proxy2api.Base.{
  ◌-◌, ◌*◌, ◌/◌, ap, Bool, true, ◌||◌, List, [], ◌∷◌, ltb, leb, if◌then◌else◌, ℤ, pos, ltb_ℤ, eq_ℤ,
  length, all, Str, Result, ok, err,
}
use proxy2api.Text.{str, eq_str, has_prefix}
use proxy2api.Store.Gorm.{Gorm, update_row, insert_row, stored, done}
use proxy2api.Store.Rows.{PriceRule, price_rule_model}
use proxy2api.Store.Tables.{Store, is_blank}

-- `length(model_prefix) desc`
abbrev pub longer_first : Gorm → PriceRule → PriceRule → Bool
longer_first g a b = leb (g.text_length b.model_prefix) (g.text_length a.model_prefix)

abbrev pub applies : Str → PriceRule → Bool
applies model it = eq_str it.model_prefix (str "*") || has_prefix model it.model_prefix

-- The loop.
abbrev pub first_price : Str → ℤ → List PriceRule → ℤ
first_price model fallback [] = fallback
first_price model fallback (it ∷ items) =
    if applies model it then it.price_per_1m_micros else first_price model fallback items

abbrev pub price_of : Str → ℤ → Result (List PriceRule) → ℤ
price_of model fallback (err e) = fallback
price_of model fallback (ok items) = first_price model fallback items

unfoldable pub resolve_model_price_micros : (g : Gorm) → Str → ℤ → Store g → ℤ
resolve_model_price_micros g model fallback s =
    price_of model fallback (g.find (longer_first g) (λ r. r.enabled) s.price_rules)

module _ (g : Gorm) where
  unfoldable pub upsert_price_rule : PriceRule → Store g → Result ℤ × Store g
  upsert_price_rule p s =
      if is_blank p.model_prefix
      then (err (str "model_prefix required"), s)
      else stored s (λ t. record s { price_rules = t })
          (if ltb_ℤ (pos 0) p.id
            then update_row g price_rule_model p.id (λ x. record p { id = x.id }) s.price_rules
            else insert_row g price_rule_model (λ n x. eq_str x.model_prefix n.model_prefix)
                (λ x n. record n { id = x.id; model_prefix = x.model_prefix }) p s.price_rules)

  unfoldable pub list_price_rules : Store g → Result (List PriceRule)
  list_price_rules s = g.find (longer_first g) (λ r. true) s.price_rules

  unfoldable pub delete_price_rule : ℤ → Store g → Result (Unit {0}) × Store g
  delete_price_rule id s =
      done s (λ t. record s { price_rules = t }) (g.delete (λ r. eq_ℤ r.id id) s.price_rules)
