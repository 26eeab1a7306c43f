-- ===== src/Gateway/Proxy/Billed.antt =====
-- What the end of a request that is relayed costs, and the record of its usage.
use proxy2api.Base.{◌≤◌, ◌≡◌, sym, ap, ◌∙◌, ◌⊎◌, inl, inr, [], ◌∷◌, ◌++◌, ℤ, pos, ◌≤ℤ◌, Str}
use mathlib.Core.Path.{subst}
use proxy2api.Config.{Config}
use proxy2api.Store.Gorm.{Gorm, GormLaws, new_row}
use proxy2api.Store.Tables.{Store}
use proxy2api.Store.Rows.{UsageRecord, usage_model}
use proxy2api.Store.Billing.Conservation.{rows_of}
use proxy2api.Gateway.Types.{ProviderState, ProviderKeyState}
use proxy2api.Gateway.Health.{mark_provider_key_success}
use proxy2api.Gateway.Forward.{Usage}
use proxy2api.Gateway.Admit.{Server, Outside, Admitted}
use proxy2api.Gateway.Proxy.{settle, usage_of}
use proxy2api.Gateway.Proxy.Charge.{
  SameLedger, larger, charge_of, Declined, Paid, Recorded, after_charge, settle-store,
  success-keeps, charge_of-same, add_usage-Recorded, after_charge-Paid,
}

module _ (g : Gorm) (cfg : Config) (o : Outside) where
  -- What is recorded of a request that `p` has answered with the key `k`.
  abbrev pub usage_row : Admitted → ProviderState → ProviderKeyState → Usage → UsageRecord
  usage_row a p k u = record {
    id = pos 0;
    at_unix = o.now_unix;
    api_key = a.token;
    provider = p.name;
    provider_key = k.alias;
    model = a.model;
    prompt_tokens = u.prompt;
    completion_tokens = u.completion;
    total_tokens = larger g cfg o a u;
  }

  pub record IsBilled (a : Admitted) (p : ProviderState) (k : ProviderKeyState) (u : Usage)
      (s s' : Store g) : Type 0 where
    pub paid : Paid g cfg o a.token a.model (charge_of g cfg o a u s) s s'
    pub recorded : Recorded g cfg o (usage_row a p k u) s s'

  Declined-moved :
      (token model : Str) (m : ℤ) (s s1 : Store g)
      → SameLedger s s1
      → (m ≤ℤ pos 0) ⊎ Declined g cfg o token model m s1
      → (m ≤ℤ pos 0) ⊎ Declined g cfg o token model m s
  Declined-moved token model m s s1 (keys1, txns1) (inl free) = inl free
  Declined-moved token model m s s1 (keys1, txns1) (inr (t, e, (keys, txns), q)) =
      inr (t, e, (keys ∙ keys1, txns ∙ txns1), q)

  Paid-moved :
      (token model : Str) (m : ℤ) (s s1 s2 s3 : Store g)
      → SameLedger s s1
      → Paid g cfg o token model m s1 s2
      → SameLedger s2 s3
      → Paid g cfg o token model m s s3
  Paid-moved token model m s s1 s2 s3 (keys1, txns1) (inl (posted, some_charge, covered))
        (keys3, txns3) =
      inl (
        record {
          keys = rw (keys3, ← keys1) posted.keys;
          next = posted.next;
          txns = rw (txns3, ← txns1) posted.txns;
          balances = λ j. rw (keys3, ← keys1) (posted.balances j);
          bills = λ j. rw (txns3, ← txns1) (posted.bills j);
        },
        some_charge,
        rw (← keys1) covered,
      )
  Paid-moved token model m s s1 s2 s3 (keys1, txns1) (inr ((keys2, txns2), why)) (keys3, txns3) =
      inr (
        (keys3 ∙ keys2 ∙ keys1, txns3 ∙ txns2 ∙ txns1),
        Declined-moved token model m s s1 (keys1, txns1) why,
      )

  -- What is paid and recorded stays so when tables that are the same take each other's place.
  IsBilled-steps :
      (a : Admitted) (p : ProviderState) (k : ProviderKeyState) (u : Usage) (s s1 s2 s3 : Store g)
      → SameLedger s s1
      → s1.usage_records ≡ s.usage_records
      → Paid g cfg o a.token a.model (charge_of g cfg o a u s) s1 s2
      → s2.usage_records ≡ s1.usage_records
      → Recorded g cfg o (usage_of g cfg o a p k u) s2 s3
      → SameLedger s2 s3
      → IsBilled a p k u s s3
  IsBilled-steps a p k u s s1 s2 s3 (keys1, txns1) same1 pay same2 record3 (keys3, txns3) = record {
    paid =
        Paid-moved a.token a.model (charge_of g cfg o a u s) s s1 s2 s3 (keys1, txns1) pay
          (keys3, txns3);
    recorded = elim record3 [
      | inl (next, grown) ↦ inl (
        next,
        grown
            ∙ ap (λ t. g.rows t ++ new_row usage_model next (usage_of g cfg o a p k u) ∷ [])
                (same2 ∙ same1),
      )
      | inr (same3, (e, failed_create)) ↦ inr (
        same3 ∙ same2 ∙ same1,
        (
          e,
          sym (ap (λ t. g.create usage_model (usage_of g cfg o a p k u) t) (same2 ∙ same1))
              ∙ failed_create,
        ),
      )
    ];
  }

  pub settle-IsBilled :
      (laws : GormLaws g) (a : Admitted) (p : ProviderState) (k : ProviderKeyState) (u : Usage)
      (s : Server g)
      → ((key : Str) → rows_of g key s.store ≤ 1)
      → IsBilled a p k u s.store (settle g cfg o a p k u s).store
  settle-IsBilled laws a p k u s unique =
      let st = mark_provider_key_success g k s.store in
      let (ledger, usage, prices) = success-keeps g cfg o k s.store in
      let m = charge_of g cfg o a u st in
      let (pay, usage2) = after_charge-Paid g cfg o laws a m st (rw ledger.0 (unique a.token)) in
      let (record3, ledger3) =
        add_usage-Recorded g cfg o (usage_of g cfg o a p k u) laws (after_charge g cfg o a m st) in
      rw (settle-store g cfg o a p k u s) (
        IsBilled-steps a p k u s.store st (after_charge g cfg o a m st) _ ledger usage
          (subst (λ n. Paid g cfg o a.token a.model n st (after_charge g cfg o a m st))
            (charge_of-same g cfg o a u s.store st prices) pay)
          usage2 record3 ledger3)
