-- ===== src/Store/Billing/Conservation.antt =====
-- What a top-up and a deduction do to the balances and to the billing records.
use proxy2api.Base.{
  ℕ, ◌≤◌, ◌≡◌, refl, ap, ◌∙◌, ◌≢◌, inl, inr, Bool, true, false, List, [], ◌∷◌, ◌++◌, map, arith,
  ◌==◌, if◌then◌else◌, Bool-cases, ℤ, pos, ◌+ℤ◌, ◌-ℤ◌, ◌≤ℤ◌, leb_ℤ, eq_ℤ, int_laws, eq_of_parts,
  +ℤ-zero, Str, Result, ok, err, ◌>>=◌,
}
use proxy2api.Text.{str, eq_str, is_empty, trim_space}
use proxy2api.Store.Gorm.{Gorm, GormLaws, transaction-eq-ok}
use proxy2api.Store.Rows.{ApiKey, BillingTxn, billing_txn_model}
use proxy2api.Store.Tables.{Store, default_str}
use proxy2api.Store.Billing.{has_key, txn, topup_body, topup_api_key_balance, can_pay, deduct_body}
use proxy2api.Store.Billing.Ledger.{
  balance, billed, billed-append, count, times, balance-touched_any,
}

module _ (g : Gorm) where
  abbrev pub balance_of : Str → Store g → ℤ
  balance_of key s = balance key (g.rows s.api_keys)

  abbrev pub billed_of : Str → Store g → ℤ
  billed_of key s = billed key (g.rows s.billing_txns)

  -- A row of the key has got `d`.
  abbrev pub credited : Str → ℤ → ApiKey → ApiKey
  credited key d k =
      if has_key key k then record k { balance_micros = k.balance_micros +ℤ d } else k

  -- The rows of the key, `n` of them, have got `d`, and the other keys are as they were; one record
  -- of `d` has been added, and the others are as they were.
  pub record IsPosted (key : Str) (n : ℕ) (d : ℤ) (why ref : Str) (s s' : Store g) : Type 0 where
    pub keys : g.rows s'.api_keys ≡ map (credited key d) (g.rows s.api_keys)
    pub balances :
        (j : Str)
        → balance_of j s' ≡ (if eq_str key j then balance_of j s +ℤ times n d else balance_of j s)
    pub next : ℤ
    pub txns :
        g.rows s'.billing_txns
        ≡ g.rows s.billing_txns
          ++ (record { id = next; api_key = key; delta_micros = d; reason = why; ref = ref } ∷ [])
    pub bills :
        (j : Str) → billed_of j s' ≡ (if eq_str key j then billed_of j s +ℤ d else billed_of j s)

  -- How many rows there are for a key: at most one, by the unique index.
  abbrev pub rows_of : Str → Store g → ℕ
  rows_of key s = count (has_key key) (g.rows s.api_keys)

module _ (g : Gorm) (laws : GormLaws g) where
  billed-create :
      (key j : Str) (d : ℤ) (reason ref : Str) (s : Store g) (r : BillingTxn)
      (t : g.Table BillingTxn)
      → g.create billing_txn_model (txn key d reason ref) s.billing_txns ≡ ok (r, t)
      → billed j (g.rows t) ≡ (if eq_str key j then billed_of g j s +ℤ d else billed_of g j s)
  billed-create key j d reason ref s r t h =
      let (next, _, grown) = laws.create_rows billing_txn_model _ s.billing_txns r t h in
      rw (grown, billed-append) (grind int_laws)

  -- The two statements of a body, together.
  post :
      (key : Str) (d : ℤ) (reason ref : Str) (p : ApiKey → Bool) (f : ApiKey → ApiKey) (s : Store g)
      (n : ℕ) (keys : g.Table ApiKey) (r : BillingTxn) (txns : g.Table BillingTxn)
      → ((k : ApiKey) → p k ≡ true → has_key key k ≡ true)
      → ((k : ApiKey) → f k ≡ record k { balance_micros = k.balance_micros +ℤ d })
      → map (λ k. if p k then f k else k) (g.rows s.api_keys)
        ≡ map (credited g key d) (g.rows s.api_keys)
      → g.updates p f s.api_keys ≡ ok (n, keys)
      → g.create billing_txn_model (txn key d reason ref) s.billing_txns ≡ ok (r, txns)
      → IsPosted g key
          (count p (g.rows s.api_keys))
          d
          reason
          ref
          s
          (record s { api_keys = keys; billing_txns = txns })
  post key d reason ref p f s n keys r txns own adds same_rows e1 e2 =
      let rows = (laws.updates_rows p f s.api_keys n keys e1).1 in
      let (next, _, grown) = laws.create_rows billing_txn_model _ s.billing_txns r txns e2 in
      record {
        keys = rows ∙ same_rows;
        next = next;
        txns = grown;
        balances = λ j. rw rows (balance-touched_any key d p f own adds j (g.rows s.api_keys));
        bills = λ j. billed-create key j d reason ref s r txns e2;
      }

  topup_body-IsPosted :
      (key : Str) (d : ℤ) (reason ref : Str) (s s' : Store g)
      → topup_body g key d reason ref s ≡ ok s'
      → IsPosted g key (rows_of g key s) d (default_str reason (str "topup")) ref s s'
  topup_body-IsPosted key d reason ref s s' h = go _ _ refl refl h
    where
      topped : ApiKey → ApiKey
      topped k = record k { balance_micros = k.balance_micros +ℤ d }

      row : BillingTxn
      row = txn key d (default_str reason (str "topup")) ref

      go :
          (u : Result (ℕ × g.Table ApiKey)) (c : Result (BillingTxn × g.Table BillingTxn))
          → g.updates (has_key key) topped s.api_keys ≡ u
          → g.create billing_txn_model row s.billing_txns ≡ c
          → (u >>= λ updated.
              c >>= λ created. ok (record s { api_keys = updated.1; billing_txns = created.1 }))
            ≡ ok s'
          → IsPosted g key (rows_of g key s) d (default_str reason (str "topup")) ref s s'
      go (err e) c e1 e2 h = cc
      go (ok (n, keys)) (err e) e1 e2 h = cc
      go (ok (n, keys)) (ok (r, txns)) e1 e2 h =
          let same : record s { api_keys = keys; billing_txns = txns } ≡ s' = cc in
          rw (← same) (
            post key d (default_str reason (str "topup")) ref (has_key key) topped s n keys r txns
              (λ k e. e) (λ k. refl) refl e1 e2)

  -- A top-up of an amount other than zero that succeeds adds the amount to each row of the key, at
  -- most one by the unique index, and adds one record of it, also where there is no row, with the
  -- given reason, or `topup` for a blank one; the rows of the other keys and the other records are
  -- as they were.
  pub topup_posts :
      (key : Str) (delta : ℤ) (reason ref : Str) (s : Store g)
      → (topup_api_key_balance g key delta reason ref s).0 ≡ ok tt
      → delta ≢ pos 0
      → IsPosted g key
          (rows_of g key s)
          delta
          (if is_empty (trim_space reason) then str "topup" else reason)
          ref
          s
          (topup_api_key_balance g key delta reason ref s).1
  unfolding topup_api_key_balance default_str
  topup_posts key delta reason ref s h ne =
      let some_delta : eq_ℤ delta (pos 0) ≡ false = ground (arith, eq_of_parts delta (pos 0)) in
      rw some_delta (
        topup_body-IsPosted key delta reason ref s _
          (transaction-eq-ok g (topup_body g key delta reason ref) s (rw some_delta at h)))

module _ (key : Str) (delta : ℤ) where
  count-can_pay-le :
      (g : Gorm) (ks : List ApiKey) → count (can_pay g key delta) ks ≤ count (has_key key) ks
  count-can_pay-le g [] = omega arith
  count-can_pay-le g (k ∷ ks) = ground (arith, count-can_pay-le g ks)

  balance-no_rows : (ks : List ApiKey) → count (has_key key) ks ≡ 0 → balance key ks ≡ pos 0
  balance-no_rows [] h = refl
  balance-no_rows (k ∷ ks) h = ground (arith, balance-no_rows ks)

  covered :
      (g : Gorm) (ks : List ApiKey)
      → count (has_key key) ks ≤ 1
      → count (can_pay g key delta) ks ≢ 0
      → (count (can_pay g key delta) ks ≡ 1) × (delta ≤ℤ balance key ks)
  covered g [] u n = absurd (n refl)
  covered g (k ∷ ks) u n = elim (Bool-cases (has_key key k)) [
    | inl own ↦
        let alone : count (has_key key) ks ≡ 0 = ground arith in
        let none_left : count (can_pay g key delta) ks ≡ 0 = omega (arith, count-can_pay-le g ks) in
        let sum : balance key (k ∷ ks) ≡ k.balance_micros =
          rw (own, balance-no_rows ks alone) (+ℤ-zero k.balance_micros) in
        rw (sum, own) (ground (arith, alone, none_left))
    | inr other ↦ ground (arith, covered g ks)
  ]

  abbrev charge_row : ApiKey → ApiKey
  charge_row k = record k { balance_micros = k.balance_micros -ℤ delta }

  pub same_sum :
      (k : ApiKey)
      → charge_row k ≡ record k { balance_micros = k.balance_micros +ℤ (pos 0 -ℤ delta) }
  same_sum k = ap (λ (b : ℤ). record k { balance_micros = b }) (omega int_laws)

  other_rows :
      (g : Gorm) (ks : List ApiKey)
      → count (has_key key) ks ≡ 0
      → map (λ k. if can_pay g key delta k then charge_row k else k) ks
        ≡ map (credited g key (pos 0 -ℤ delta)) ks
  other_rows g [] h = refl
  other_rows g (k ∷ ks) h =
      let other : has_key key k ≡ false = ground arith in
      rw (other, other_rows g ks (ground arith)) refl

  -- The one row of the key is the one that can pay.
  paying_rows :
      (g : Gorm) (ks : List ApiKey)
      → count (has_key key) ks ≤ 1
      → count (can_pay g key delta) ks ≢ 0
      → map (λ k. if can_pay g key delta k then charge_row k else k) ks
        ≡ map (credited g key (pos 0 -ℤ delta)) ks
  paying_rows g [] u n = refl
  paying_rows g (k ∷ ks) u n = elim (Bool-cases (has_key key k)) [
    | inl own ↦
        let alone : count (has_key key) ks ≡ 0 = ground arith in
        let none_left : count (can_pay g key delta) ks ≡ 0 = omega (arith, count-can_pay-le g ks) in
        let pays : leb_ℤ delta k.balance_micros ≡ true = ground (arith, own, none_left) in
        rw (own, pays, other_rows g ks alone)
          (ap (λ x. x ∷ map (credited g key (pos 0 -ℤ delta)) ks) (same_sum k))
    | inr other ↦ rw (other, paying_rows g ks (ground arith) (ground arith)) refl
  ]

module _ (g : Gorm) (laws : GormLaws g) where
  pub deduct_body-IsPosted :
      (key : Str) (delta : ℤ) (reason ref : Str) (s s' : Store g)
      → rows_of g key s ≤ 1
      → deduct_body g key delta reason ref s ≡ ok s'
      → IsPosted g key 1 (pos 0 -ℤ delta) (default_str reason (str "usage")) ref s s'
        × (delta ≤ℤ balance_of g key s)
  deduct_body-IsPosted key delta reason ref s s' unique h = go _ _ refl refl h
    where
      row : BillingTxn
      row = txn key (pos 0 -ℤ delta) (default_str reason (str "usage")) ref

      go :
          (u : Result (ℕ × g.Table ApiKey)) (c : Result (BillingTxn × g.Table BillingTxn))
          → g.updates (can_pay g key delta) (charge_row key delta) s.api_keys ≡ u
          → g.create billing_txn_model row s.billing_txns ≡ c
          → (u >>= λ updated.
              if updated.0 == 0
              then err (str "insufficient balance")
              else c >>= λ created.
                  ok (record s { api_keys = updated.1; billing_txns = created.1 }))
            ≡ ok s'
          → IsPosted g key 1 (pos 0 -ℤ delta) (default_str reason (str "usage")) ref s s'
            × (delta ≤ℤ balance_of g key s)
      go (err e) c e1 e2 h = cc
      go (ok (n, keys)) (err e) e1 e2 h = absurd (ground arith)
      go (ok (n, keys)) (ok (r, txns)) e1 e2 h =
          let some_row : n ≢ 0 = ground arith in
          let n_count =
            (laws.updates_rows (can_pay g key delta) (charge_row key delta) s.api_keys n keys
              e1).0 in
          let (one_row, enough) =
            covered key delta g (g.rows s.api_keys) unique (λ z. some_row (n_count ∙ z)) in
          let same : record s { api_keys = keys; billing_txns = txns } ≡ s' = ground arith in
          (
            rw (← same, ← one_row)
                (post g laws key (pos 0 -ℤ delta) (default_str reason (str "usage")) ref
                  (can_pay g key delta) (charge_row key delta) s n keys r txns (λ k e. ground arith)
                  (same_sum key delta)
                  (paying_rows key delta g (g.rows s.api_keys) unique (λ z. some_row (n_count ∙ z)))
                  e1 e2),
            enough,
          )
