-- ===== src/Store/ApiKeys/Update.antt =====
-- What an update of the key of a user writes.
use proxy2api.Base.{
  ◌≡◌, refl, ap, ◌∙◌, ◌⊎◌, inl, inr, true, false, arith, if◌then◌else◌, Bool-cases, ℤ, pos, ltb_ℤ,
  eq_ℤ, In, In-map_of, eq_ℤ_refl, ok, >>=-eq-ok,
}
use proxy2api.Text.{str}
use proxy2api.Store.Gorm.{Gorm, GormLaws, update_row, stored-eq-ok}
use proxy2api.Store.Rows.{ApiKey, api_key_model}
use proxy2api.Store.Tables.{Store, is_blank, default_str}
use proxy2api.Store.ApiKeys.{filled_api_key, with_api_key, upsert_api_key}

module _ (g : Gorm) (laws : GormLaws g) (k : ApiKey) (s : Store g) where
  updated_rows :
      (id : ℤ) (t : g.Table ApiKey)
      → update_row g api_key_model k.id (with_api_key (filled_api_key k)) s.api_keys ≡ ok (id, t)
      → (x : ApiKey) → In x (g.rows t)
      → x.id ≡ k.id
      → (x.balance_micros ≡ k.balance_micros)
        × (x.tenant_name ≡ default_str k.tenant_name (str "default"))
  updated_rows id t h x listed same =
      let (updated, ran, ended) =
        >>=-eq-ok (g.updates (λ y. eq_ℤ y.id k.id) (with_api_key (filled_api_key k)) s.api_keys) _
          h in
      let (counted, rows) =
        laws.updates_rows (λ y. eq_ℤ y.id k.id) (with_api_key (filled_api_key k)) s.api_keys
          updated.0 updated.1 ran in
      let here : updated.1 ≡ t = cc in
      let (y, was, became) =
        In-map_of (λ y. if eq_ℤ y.id k.id then with_api_key (filled_api_key k) y else y) x
          (g.rows s.api_keys) (rw rows at (rw (← here) at listed)) in
      written y became (Bool-cases (eq_ℤ y.id k.id))
    where
      written :
          (y : ApiKey)
          → (if eq_ℤ y.id k.id then with_api_key (filled_api_key k) y else y) ≡ x
          → (eq_ℤ y.id k.id ≡ true) ⊎ (eq_ℤ y.id k.id ≡ false)
          → (x.balance_micros ≡ k.balance_micros)
            × (x.tenant_name ≡ default_str k.tenant_name (str "default"))
      written y became (inl e) =
          let now : with_api_key (filled_api_key k) y ≡ x = rw e at became in
          rw (← now) (refl, refl)
      written y became (inr e) =
          let now : y ≡ x = rw e at became in
          let again : eq_ℤ y.id k.id ≡ true =
            ap (λ (z : ApiKey). eq_ℤ z.id k.id) now ∙ ap (λ n. eq_ℤ n k.id) same ∙ eq_ℤ_refl k.id in
          absurd cc

  -- After an update that succeeds, each row of its id has the balance and the tenant that the
  -- update gives, with the default tenant for a blank one.
  pub upsert_api_key-written :
      ltb_ℤ (pos 0) k.id ≡ true
      → (id : ℤ) → (upsert_api_key g k s).0 ≡ ok id
      → (x : ApiKey) → In x (g.rows (upsert_api_key g k s).1.api_keys)
      → x.id ≡ k.id
      → (x.balance_micros ≡ k.balance_micros)
        × (x.tenant_name ≡ default_str k.tenant_name (str "default"))
  unfolding upsert_api_key
  upsert_api_key-written given id h x listed same = elim (Bool-cases (is_blank k.key_value)) [
    | inl e ↦ absurd (ground arith)
    | inr e ↦ elim (Bool-cases (is_blank k.name)) [
      | inl e1 ↦ absurd (ground arith)
      | inr e1 ↦
          let (t, ran, out) =
            stored-eq-ok s (λ t. record s { api_keys = t })
              (update_row g api_key_model k.id (with_api_key (filled_api_key k)) s.api_keys) id
              (rw (e, e1, given) at h) in
          updated_rows id t ran x (rw out at (rw (e, e1, given) at listed)) same
    ]
  ]
