-- ===== src/Store/Tenants/Created.antt =====
-- What becomes of a tenant that is new.
use proxy2api.Base.{
  ◌≡◌, refl, sym, ap, ◌∙◌, ◌≢◌, inl, inr, true, false, List, [], ◌∷◌, ◌++◌, arith, ℤ, pos, ltb_ℤ,
  any, In, Str, Result, ok, err, ◌>>=◌,
}
use proxy2api.Text.{eq_str}
use proxy2api.Store.Gorm.{Gorm, GormLaws, new_row}
use proxy2api.Store.Rows.{Tenant, tenant_model}
use proxy2api.Store.Tables.{Store, is_blank}
use proxy2api.Store.Tenants.{create_tenant, saved, upsert_tenant}

In-append-last : {A : Type 0} (x : A) (xs : List A) → In x (xs ++ x ∷ [])
In-append-last x [] = inl refl
In-append-last x (y ∷ xs) = inr (In-append-last x xs)

refused : (e : Str) (n : ℤ) → err e ≢ ok n
refused e n h = ground arith

module _ (g : Gorm) (laws : GormLaws g) where
  -- A tenant with no positive id and a name that is not blank and not taken, whose creation succeeds, is
  -- enabled, also where the row that was asked for is not: the default value of the column
  -- replaces it.
  pub upsert_tenant_enables :
      (t : Tenant) (s : Store g) (n : ℤ)
      → is_blank t.name ≡ false
      → ltb_ℤ (pos 0) t.id ≡ false
      → any (λ x. eq_str x.name t.name) (g.rows s.tenants) ≡ false
      → (upsert_tenant g t s).0 ≡ ok n
      → (r : Tenant) × In r (g.rows (upsert_tenant g t s).1.tenants)
        × (r.name ≡ t.name)
        × (r.enabled ≡ true)
  unfolding upsert_tenant
  upsert_tenant_enables t s n named new free h =
      rw (named, new)
        (go
          (g.upsert tenant_model (λ r x. eq_str x.name r.name)
            (λ x r. record x { enabled = r.enabled }) t s.tenants)
          refl (rw (named, new) at h))
    where
      go :
          (m : Result (Tenant × g.Table Tenant))
          → g.upsert tenant_model
              (λ r x. eq_str x.name r.name)
              (λ x r. record x { enabled = r.enabled })
              t
              s.tenants
            ≡ m
          → (saved g s (create_tenant g t s) t.id).0 ≡ ok n
          → (r : Tenant) × In r (g.rows (saved g s (create_tenant g t s) t.id).1.tenants)
            × (r.name ≡ t.name)
            × (r.enabled ≡ true)
      go (err e) e1 h = absurd (
          refused e n (
            ap
              (λ (m : Result (Tenant × g.Table Tenant)).
                (saved g s (λ id. (m >>= λ c. ok (c.0.id, c.1))) t.id).0)
              (sym e1)
            ∙ h))
      go (ok (r, tbl)) e1 h =
          let (next, grown) = laws.upsert_rows _ _ _ t s.tenants r tbl e1 in
          let made : (saved g s (create_tenant g t s) t.id).1.tenants ≡ tbl =
            ap
              (λ (m : Result (Tenant × g.Table Tenant)).
                (saved g s (λ id. (m >>= λ c. ok (c.0.id, c.1))) t.id).1.tenants)
              e1 in
          rw (made, grown, free)
            (
              new_row tenant_model next t,
              In-append-last _ (g.rows s.tenants),
              ground arith,
              ground arith,
            )
