-- ===== src/Store/Billing.antt =====
-- The balances of internal/store/store.go: `FindAPIKeyByValue`, `TopupAPIKeyBalance`,
-- `DeductAPIKeyBalance` and `ListBillingTxns`. The database adds to a balance; that the sum fits its
-- column is not stated.
pub mod Ledger
pub mod Conservation
pub mod Outcomes
use proxy2api.Base.{
  ◌+◌, ◌-◌, ◌/◌, ap, Bool, true, not, ◌&&◌, ◌||◌, List, ltb, leb, ◌==◌, if◌then◌else◌, ℤ, pos,
  pos_part, ◌+ℤ◌, ◌-ℤ◌, ltb_ℤ, leb_ℤ, eq_ℤ, take, Str, Result, ok, err, ◌>>=◌,
}
use proxy2api.Text.{str, eq_str, is_empty}
use proxy2api.Store.Gorm.{Gorm, transaction}
use proxy2api.Store.Rows.{ApiKey, BillingTxn, billing_txn_model}
use proxy2api.Store.Tables.{Store, default_str}

abbrev pub has_key : Str → ApiKey → Bool
has_key key k = eq_str k.key_value key

abbrev pub txn : Str → ℤ → (reason ref : Str) → BillingTxn
txn key delta reason ref = record {
  id = pos 0;
  api_key = key;
  delta_micros = delta;
  reason = reason;
  ref = ref;
}

-- A limit that is not between 1 and `most` is replaced.
abbrev pub limit_or : ℤ → ℤ → ℤ → ℤ
limit_or most usual limit = if leb_ℤ limit (pos 0) || ltb_ℤ most limit then usual else limit

module _ (g : Gorm) where
  unfoldable pub find_api_key_by_value : Str → Store g → Result ApiKey
  find_api_key_by_value key s = g.first (has_key key) s.api_keys

  -- The inner function of the transaction.
  abbrev pub topup_body : Str → ℤ → (reason ref : Str) → Store g → Result (Store g)
  topup_body key delta reason ref s = do
    updated ←
        g.updates (has_key key) (λ k. record k { balance_micros = k.balance_micros +ℤ delta })
          s.api_keys
    created ←
        g.create billing_txn_model (txn key delta (default_str reason (str "topup")) ref)
          s.billing_txns
    ok (record s { api_keys = updated.1; billing_txns = created.1 })

  unfoldable pub topup_api_key_balance :
      Str → ℤ → (reason ref : Str) → Store g → Result (Unit {0}) × Store g
  topup_api_key_balance key delta reason ref s =
      if eq_ℤ delta (pos 0) then (ok tt, s) else transaction g (topup_body key delta reason ref) s

  abbrev pub can_pay : Str → ℤ → ApiKey → Bool
  can_pay key delta k = has_key key k && leb_ℤ delta k.balance_micros

  abbrev pub deduct_body : Str → ℤ → (reason ref : Str) → Store g → Result (Store g)
  deduct_body key delta reason ref s = do
    updated ←
        g.updates (can_pay key delta) (λ k. record k { balance_micros = k.balance_micros -ℤ delta })
          s.api_keys
    if updated.0 == 0 then err (str "insufficient balance") else do
      created ←
          g.create billing_txn_model
            (txn key (pos 0 -ℤ delta) (default_str reason (str "usage")) ref) s.billing_txns
      ok (record s { api_keys = updated.1; billing_txns = created.1 })

  unfoldable pub deduct_api_key_balance :
      Str → ℤ → (reason ref : Str) → Store g → Result (Unit {0}) × Store g
  deduct_api_key_balance key delta reason ref s =
      if leb_ℤ delta (pos 0) then (ok tt, s) else transaction g (deduct_body key delta reason ref) s

  unfoldable pub list_billing_txns : Str → ℤ → Store g → Result (List BillingTxn)
  list_billing_txns key limit s = do
    out ←
        g.find (λ a b. leb_ℤ b.id a.id) (λ t. if is_empty key then true else eq_str t.api_key key)
          s.billing_txns
    ok (take (pos_part (limit_or (pos 200) (pos 100) limit)) out)
