-- ===== src/Store/Billing/Ledger.antt =====
-- The balances and the billing records move together.
use proxy2api.Base.{
  ℕ, zero, suc, ◌≡◌, refl, ◌≢◌, inl, inr, Bool, true, false, List, [], ◌∷◌, ◌++◌, map, arith,
  if◌then◌else◌, Bool-cases, ℤ, pos, ◌+ℤ◌, int_laws, length, keep, Str,
}
use proxy2api.Text.{eq_str}
use proxy2api.Text.Laws.{eq_str-ne, eq_str_iff}
use proxy2api.Store.Rows.{ApiKey, BillingTxn}
use proxy2api.Store.Billing.{has_key}

-- The balance that the rows hold for a key.
abbrev pub balance : Str → List ApiKey → ℤ
balance key [] = pos 0
balance key (k ∷ ks) = if has_key key k then k.balance_micros +ℤ balance key ks else balance key ks

-- The sum of the billing records of a key.
abbrev pub billed : Str → List BillingTxn → ℤ
billed key [] = pos 0
billed key (t ∷ ts) =
    if eq_str t.api_key key then t.delta_micros +ℤ billed key ts else billed key ts

pub billed-append :
    (key : Str) (ts us : List BillingTxn) → billed key (ts ++ us) ≡ billed key ts +ℤ billed key us
billed-append key [] us = omega int_laws
billed-append key (t ∷ ts) us = grind (int_laws, billed-append key ts us)

-- How many rows a test lets through.
abbrev pub count : (ApiKey → Bool) → List ApiKey → ℕ
count p ks = length (keep p ks)

-- `n` times `d`.
abbrev pub times : ℕ → ℤ → ℤ
times zero d = pos 0
times (suc n) d = d +ℤ times n d

-- An update that adds `d` to the balance of the rows that pass `p`, which are rows of `key`.
module _ (key : Str) (d : ℤ) (p : ApiKey → Bool) (f : ApiKey → ApiKey)
    (own : (k : ApiKey) → p k ≡ true → has_key key k ≡ true)
    (adds : (k : ApiKey) → f k ≡ record k { balance_micros = k.balance_micros +ℤ d }) where
  abbrev touched : ApiKey → ApiKey
  touched k = if p k then f k else k

  touched_key : (j : Str) (k : ApiKey) → has_key j (touched k) ≡ has_key j k
  touched_key j k = ground (arith, adds k)

  balance-touched :
      (ks : List ApiKey) → balance key (map touched ks) ≡ balance key ks +ℤ times (count p ks) d
  balance-touched [] = omega int_laws
  balance-touched (k ∷ ks) = elim (Bool-cases (p k)) [
    | inl e ↦ rw (e, adds k, own k e, balance-touched ks) (omega int_laws)
    | inr e ↦ rw (e, balance-touched ks) (grind int_laws)
  ]

  balance-touched_ne :
      (j : Str) (ks : List ApiKey) → key ≢ j → balance j (map touched ks) ≡ balance j ks
  balance-touched_ne j [] ne = refl
  balance-touched_ne j (k ∷ ks) ne = elim (Bool-cases (p k)) [
    | inl e ↦
        let other : has_key j k ≡ false =
          ground (arith, own k e, eq_str_iff k.key_value key, eq_str_iff k.key_value j) in
        rw (e, adds k, other) (balance-touched_ne j ks ne)
    | inr e ↦ rw (e, balance-touched_ne j ks ne)
  ]

  -- The balance of any key after the update.
  pub balance-touched_any :
      (j : Str) (ks : List ApiKey)
      → balance j (map touched ks)
        ≡ (if eq_str key j then balance j ks +ℤ times (count p ks) d else balance j ks)
  balance-touched_any j ks = elim (Bool-cases (eq_str key j)) [
    | inl same ↦ rw (same, ← (eq_str_iff key j).0 same) (balance-touched ks)
    | inr other ↦ rw other (balance-touched_ne j ks (eq_str-ne key j other))
  ]
