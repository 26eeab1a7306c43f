-- ===== src/Store/Billing/Outcomes.antt =====
-- The outcomes of a deduction: paid in full and recorded, or refused with nothing changed.
use proxy2api.Base.{
  ◌≤◌, ◌≡◌, refl, sym, ap, ◌∙◌, inl, inr, false, arith, if◌then◌else◌, Bool-cases, ℤ, pos, ◌-ℤ◌,
  ◌≤ℤ◌, ◌<ℤ◌, leb_ℤ, eq_ℤ, Str, Result, ok, err,
}
use proxy2api.Text.{str, is_empty, trim_space}
use proxy2api.Store.Gorm.{Gorm, GormLaws, transaction-eq-ok, transaction-eq-err}
use proxy2api.Store.Tables.{Store, default_str}
use proxy2api.Store.Billing.{topup_body, topup_api_key_balance, deduct_body, deduct_api_key_balance}
use proxy2api.Store.Billing.Conservation.{balance_of, IsPosted, rows_of, deduct_body-IsPosted}

module _ (g : Gorm) where
  -- A top-up that fails has changed nothing.
  topup_atomic :
      (key : Str) (delta : ℤ) (reason ref : Str) (s : Store g) (e : Str)
      → (topup_api_key_balance g key delta reason ref s).0 ≡ err e
      → (topup_api_key_balance g key delta reason ref s).1 ≡ s
  unfolding topup_api_key_balance
  topup_atomic key delta reason ref s e h = elim (Bool-cases (eq_ℤ delta (pos 0))) [
    | inl z ↦ absurd (ground arith)
    | inr nz ↦ rw nz (transaction-eq-err g (topup_body g key delta reason ref) s e (rw nz at h))
  ]

  deduct_atomic :
      (key : Str) (delta : ℤ) (reason ref : Str) (s : Store g) (e : Str)
      → (deduct_api_key_balance g key delta reason ref s).0 ≡ err e
      → (deduct_api_key_balance g key delta reason ref s).1 ≡ s
  unfolding deduct_api_key_balance
  deduct_atomic key delta reason ref s e h = elim (Bool-cases (leb_ℤ delta (pos 0))) [
    | inl z ↦ absurd (ground arith)
    | inr nz ↦ rw nz (transaction-eq-err g (deduct_body g key delta reason ref) s e (rw nz at h))
  ]

  deducted_body :
      (key : Str) (delta : ℤ) (reason ref : Str) (s s' : Store g)
      → pos 0 <ℤ delta
      → deduct_api_key_balance g key delta reason ref s ≡ (ok tt, s')
      → deduct_body g key delta reason ref s ≡ ok s'
  unfolding deduct_api_key_balance
  deducted_body key delta reason ref s s' some_delta h =
      let positive : leb_ℤ delta (pos 0) ≡ false = ground arith in
      let committed = rw positive at h in
      transaction-eq-ok g (deduct_body g key delta reason ref) s
        (ap (λ (r : Result (Unit {0}) × Store g). r.0) committed)
      ∙ ap (λ (r : Result (Unit {0}) × Store g). ok r.1) committed

-- An outcome of a deduction of a positive amount.
abbrev pub Deducted :
    (g : Gorm) → Str → ℤ → (why ref : Str) → Store g → Result (Unit {0}) × Store g → Type 0
Deducted g key delta why ref s (ok _, s') =
    IsPosted g key 1 (pos 0 -ℤ delta) why ref s s' × (delta ≤ℤ balance_of g key s)
Deducted g key delta why ref s (err _, s') = s' ≡ s

-- A deduction of a positive amount from a key with at most one row either succeeds, and then the
-- balance covered it and has gone down by it, one record of minus the amount has been added, with the
-- given reason, or `usage` for a blank one, and the rows of the other keys and the other records are
-- as they were; or it fails and has changed nothing.
pub deduct-Deducted :
    (g : Gorm) (laws : GormLaws g) (key : Str) (delta : ℤ) (reason ref : Str) (s : Store g)
    → rows_of g key s ≤ 1
    → pos 0 <ℤ delta
    → Deducted g key delta
        (if is_empty (trim_space reason) then str "usage" else reason)
        ref
        s
        (deduct_api_key_balance g key delta reason ref s)
unfolding default_str
deduct-Deducted g laws key delta reason ref s unique some_delta =
    outcome (deduct_api_key_balance g key delta reason ref s) refl
  where
    outcome :
        (r : Result (Unit {0}) × Store g)
        → deduct_api_key_balance g key delta reason ref s ≡ r
        → Deducted g key delta (default_str reason (str "usage")) ref s r
    outcome (err e, s') h =
        ap (λ (r : Result (Unit {0}) × Store g). r.1) (sym h)
        ∙ deduct_atomic g key delta reason ref s e (ap (λ (r : Result (Unit {0}) × Store g). r.0) h)
    outcome (ok tt, s') h =
        deduct_body-IsPosted g laws key delta reason ref s s' unique
          (deducted_body g key delta reason ref s s' some_delta h)

-- A deduction of a positive amount from a key with at most one row, whose balance does not cover it,
-- is an error and changes nothing, whatever the database does.
deduct_refuses :
    (g : Gorm) (laws : GormLaws g) (key : Str) (delta : ℤ) (reason ref : Str) (s : Store g)
    → rows_of g key s ≤ 1
    → pos 0 <ℤ delta
    → balance_of g key s <ℤ delta
    → (e : Str) × (deduct_api_key_balance g key delta reason ref s ≡ (err e, s))
unfolding default_str
deduct_refuses g laws key delta reason ref s unique some_delta short =
    refused (deduct_api_key_balance g key delta reason ref s)
      (deduct-Deducted g laws key delta reason ref s unique some_delta)
  where
    refused :
        (r : Result (Unit {0}) × Store g)
        → Deducted g key delta (default_str reason (str "usage")) ref s r
        → (e : Str) × (r ≡ (err e, s))
    refused (ok u, s') (posted, enough) = absurd (omega arith)
    refused (err e, s') same = (e, ap (λ (x : Store g). (err e, x)) same)
