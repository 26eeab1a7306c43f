-- ===== src/Gateway/Proxy/Charge.antt =====
-- What the end of a request that is relayed charges, and the record of its usage.
use proxy2api.Base.{
  ℕ, ◌≤◌, ◌≡◌, refl, sym, ap, ◌∙◌, ◌⊎◌, inl, inr, Bool, true, false, [], ◌∷◌, ◌++◌, arith, ◌==◌,
  if◌then◌else◌, Bool-cases, ℤ, pos, ◌-ℤ◌, ◌≤ℤ◌, ◌<ℤ◌, ltb_ℤ, leb_ℤ, quot, mul64, Str, Result, ok,
  err, ◌>>=◌, >>=-eq-ok,
}
use mathlib.Core.Path.{subst}
use proxy2api.Text.{str, is_empty, trim_space}
use proxy2api.Config.{Config}
use proxy2api.Store.Gorm.{Gorm, GormLaws, new_row, transaction, transaction-cases}
use proxy2api.Store.Tables.{Store, default_str}
use proxy2api.Store.Rows.{UsageRecord, usage_model, ApiKey, billing_txn_model}
use proxy2api.Store.Billing.{deduct_api_key_balance, deduct_body, txn}
use proxy2api.Store.Billing.Conservation.{IsPosted, rows_of, balance_of}
use proxy2api.Store.Billing.Outcomes.{Deducted, deduct-Deducted}
use proxy2api.Store.Prices.{resolve_model_price_micros}
use proxy2api.Store.Lists.{update_provider_key_health, add_usage}
use proxy2api.Gateway.Types.{ProviderState, ProviderKeyState}
use proxy2api.Gateway.Health.{mark_provider_key_success}
use proxy2api.Gateway.Forward.{Usage}
use proxy2api.Gateway.Admit.{Server, Outside, Admitted, price}
use proxy2api.Gateway.Proxy.{settle, reloaded, inc_stat, charge, charged, usage_of}
use proxy2api.Gateway.Proxy.Unbilled.{reloaded-store}

-- The balances and the ledger are the same.
abbrev pub SameLedger : {g : Gorm} → Store g → Store g → Type 0
SameLedger s t = (t.api_keys ≡ s.api_keys) × (t.billing_txns ≡ s.billing_txns)

module _ (g : Gorm) (cfg : Config) (o : Outside) where
  -- The larger of the estimated tokens and of those that the provider reports.
  abbrev pub larger : Admitted → Usage → ℤ
  larger a u = if ltb_ℤ u.total a.estimated_token then a.estimated_token else u.total

  -- The charge for a request: its tokens at the price of its model, where billing is on.
  abbrev pub charge_of : Admitted → Usage → Store g → ℤ
  charge_of a u s =
      if cfg.billing.enabled
      then quot (mul64 (larger a u) (price g cfg o s a.model)) 1000000
      else pos 0

  -- The deduction of the charge is an error, in a store with the same balances and ledger.
  abbrev pub Declined : Str → Str → ℤ → Store g → Type 0
  Declined token model m s =
      (t : Store g) × (e : Str) × SameLedger s t
      × ((deduct_api_key_balance g token m (str "usage") model t).0 ≡ err e)

  -- The key has paid the charge, or nothing is paid, since the charge is not positive or declined.
  abbrev pub Paid : Str → Str → ℤ → Store g → Store g → Type 0
  Paid token model m s s' =
      (IsPosted g token 1 (pos 0 -ℤ m) (str "usage") model s s'
        × (pos 0 <ℤ m)
        × (m ≤ℤ balance_of g token s))
      ⊎ (SameLedger s s' × ((m ≤ℤ pos 0) ⊎ Declined token model m s))

  -- One usage record is added, or the statement for it fails.
  abbrev pub Recorded : UsageRecord → Store g → Store g → Type 0
  Recorded r s s' =
      ((next : ℤ) × (g.rows s'.usage_records
          ≡ g.rows s.usage_records ++ new_row usage_model next r ∷ []))
      ⊎ ((s'.usage_records ≡ s.usage_records)
          × ((e : Str) × (g.create usage_model r s.usage_records ≡ err e)))

  abbrev pub after_charge : Admitted → ℤ → Store g → Store g
  after_charge a m s =
      if ltb_ℤ (pos 0) m then (deduct_api_key_balance g a.token m (str "usage") a.model s).1 else s

  charge-store :
      (a : Admitted) (m : ℤ) (s : Server g)
      → (charge g cfg o a m s).store ≡ after_charge a m s.store
  charge-store a m s = paid (ltb_ℤ (pos 0) m)
    where
      paid :
          (b : Bool)
          → (if b
              then reloaded g cfg o (record s {
                store = (deduct_api_key_balance g a.token m (str "usage") a.model s.store).1;
              })
              else s).store
            ≡ (if b
                then (deduct_api_key_balance g a.token m (str "usage") a.model s.store).1
                else s.store)
      paid true = reloaded-store g cfg o (record s {
        store = (deduct_api_key_balance g a.token m (str "usage") a.model s.store).1;
      })
      paid false = refl

  either_store :
      (b : Bool) (x y : Server g) (t : Store g)
      → x.store ≡ t
      → y.store ≡ t
      → (if b then x else y).store ≡ t
  either_store true x y t h k = h
  either_store false x y t h k = k

  pub settle-store :
      (a : Admitted) (p : ProviderState) (k : ProviderKeyState) (u : Usage) (s : Server g)
      → (settle g cfg o a p k u s).store
        ≡ (add_usage g (usage_of g cfg o a p k u) (
            after_charge a
              (charge_of a u (mark_provider_key_success g k s.store))
              (mark_provider_key_success g k s.store))).1
  unfolding settle inc_stat
  settle-store a p k u s =
      let st = mark_provider_key_success g k s.store in
      let s1 = reloaded g cfg o (record s { store = st }) in
      let e1 : s1.store ≡ st = reloaded-store g cfg o (record s { store = st }) in
      let e2 : (charge g cfg o a (charge_of a u s1.store) s1).store
          ≡ after_charge a (charge_of a u st) st =
        charge-store a (charge_of a u s1.store) s1
        ∙ ap (λ x. after_charge a (charge_of a u x) x) e1 in
      let e3 = ap (λ x. (add_usage g (usage_of g cfg o a p k u) x).1) e2 in
      either_store (ltb_ℤ (pos 0) (charged g cfg o a u s1)) _ _ _ e3 e3

  pub success-keeps :
      (k : ProviderKeyState) (s : Store g)
      → SameLedger s (mark_provider_key_success g k s)
        × ((mark_provider_key_success g k s).usage_records ≡ s.usage_records)
        × ((mark_provider_key_success g k s).price_rules ≡ s.price_rules)
  unfolding mark_provider_key_success update_provider_key_health
  success-keeps k s = ground arith

  -- The price is that of the rules in the table.
  pub charge_of-same :
      (a : Admitted) (u : Usage) (s t : Store g)
      → t.price_rules ≡ s.price_rules
      → charge_of a u t ≡ charge_of a u s
  unfolding resolve_model_price_micros
  charge_of-same a u s t h = rw h refl

  pub add_usage-Recorded :
      (r : UsageRecord) (laws : GormLaws g) (s : Store g)
      → Recorded r s (add_usage g r s).1 × SameLedger s (add_usage g r s).1
  unfolding add_usage
  add_usage-Recorded r laws s = created (g.create usage_model r s.usage_records) refl
    where
      created :
          (m : Result (UsageRecord × g.Table UsageRecord))
          → g.create usage_model r s.usage_records ≡ m
          → Recorded r s (add_usage g r s).1 × SameLedger s (add_usage g r s).1
      created (err e) h = rw (add_usage, h) (inr (refl, (e, refl)), (refl, refl))
      created (ok (made, t)) h =
          let (next, row, grown) = laws.create_rows usage_model r s.usage_records made t h in
          rw (add_usage, h) (inl (next, grown), (refl, refl))

  deduct_body-usage :
      (key : Str) (m : ℤ) (reason ref : Str) (s s' : Store g)
      → deduct_body g key m reason ref s ≡ ok s'
      → s'.usage_records ≡ s.usage_records
  deduct_body-usage key m reason ref s s' h =
      let (updated, ran, h1) = >>=-eq-ok (g.updates _ _ s.api_keys) _ h in
      counted updated h1 (Bool-cases (updated.0 == 0))
    where
      counted :
          (updated : ℕ × g.Table ApiKey)
          → (if updated.0 == 0 then err (str "insufficient balance") else do
            created ←
                g.create billing_txn_model
                  (txn key (pos 0 -ℤ m) (default_str reason (str "usage")) ref)
                  s.billing_txns
            ok (record s { api_keys = updated.1; billing_txns = created.1 }))
            ≡ ok s'
          → ((updated.0 == 0) ≡ true) ⊎ ((updated.0 == 0) ≡ false)
          → s'.usage_records ≡ s.usage_records
      counted updated h1 (inl e) = absurd (ground arith)
      counted updated h1 (inr e) =
          let (created, ran, h2) =
            >>=-eq-ok (g.create billing_txn_model _ s.billing_txns) _ (rw e at h1) in
          let same : record s { api_keys = updated.1; billing_txns = created.1 } ≡ s' = cc in
          ap (λ x. x.usage_records) (sym same)

  deduct-usage :
      (key : Str) (m : ℤ) (reason ref : Str) (s : Store g)
      → (deduct_api_key_balance g key m reason ref s).1.usage_records ≡ s.usage_records
  unfolding deduct_api_key_balance
  deduct-usage key m reason ref s = elim (Bool-cases (leb_ℤ m (pos 0))) [
    | inl e ↦ rw e refl
    | inr e ↦ rw e (ran (transaction-cases g (deduct_body g key m reason ref) s))
  ]
    where
      ran :
          ((s' : Store g) × (deduct_body g key m reason ref s ≡ ok s')
              × (transaction g (deduct_body g key m reason ref) s ≡ (ok tt, s')))
            ⊎ ((e : Str) × (transaction g (deduct_body g key m reason ref) s ≡ (err e, s)))
          → (transaction g (deduct_body g key m reason ref) s).1.usage_records ≡ s.usage_records
      ran (inl (s', body, out)) = rw out (deduct_body-usage key m reason ref s s' body)
      ran (inr (e, out)) = rw out refl

  pub after_charge-Paid :
      (laws : GormLaws g) (a : Admitted) (m : ℤ) (s : Store g)
      → rows_of g a.token s ≤ 1
      → Paid a.token a.model m s (after_charge a m s)
        × ((after_charge a m s).usage_records ≡ s.usage_records)
  after_charge-Paid laws a m s unique = elim (Bool-cases (ltb_ℤ (pos 0) m)) [
    | inr e ↦ rw e (inr ((refl, refl), inl (ground arith)), refl)
    | inl e ↦ rw e (
      paid (deduct_api_key_balance g a.token m (str "usage") a.model s) refl
          (either_way
            (deduct-Deducted g laws a.token m (str "usage") a.model s unique (ground arith)))
          (ground arith),
      deduct-usage a.token m (str "usage") a.model s,
    )
  ]
    where
      same_why : (b : Bool) → (if b then str "usage" else str "usage") ≡ str "usage"
      same_why true = refl
      same_why false = refl

      either_way :
          Deducted g a.token m
            (if is_empty (trim_space (str "usage")) then str "usage" else str "usage")
            a.model
            s
            (deduct_api_key_balance g a.token m (str "usage") a.model s)
          → Deducted g a.token m
              (str "usage")
              a.model
              s
              (deduct_api_key_balance g a.token m (str "usage") a.model s)
      either_way d =
          subst
            (λ why.
              Deducted g a.token m why a.model s
                (deduct_api_key_balance g a.token m (str "usage") a.model s))
            (same_why (is_empty (trim_space (str "usage")))) d

      paid :
          (r : Result (Unit {0}) × Store g)
          → deduct_api_key_balance g a.token m (str "usage") a.model s ≡ r
          → Deducted g a.token m (str "usage") a.model s r
          → pos 0 <ℤ m
          → Paid a.token a.model m s r.1
      paid (ok tt, s') q (posted, covered) some_charge = inl (posted, some_charge, covered)
      paid (err e, s') q same some_charge =
          inr (rw same (refl, refl), inr (s, e, (refl, refl), ap (λ x. x.0) q))
