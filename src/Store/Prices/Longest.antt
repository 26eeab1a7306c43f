-- ===== src/Store/Prices/Longest.antt =====
-- The price is that of the longest prefix.
use proxy2api.Base.{
  ◌≤◌, ◌≡◌, refl, sym, ap, ◌∙◌, ◌⊎◌, inl, inr, Bool, true, false, ◌&&◌, List, [], ◌∷◌, arith, ltb,
  Bool-cases, ℤ, any, All, In, All-In, any-false, In-keep, In-keep_of, Str, Result, ok, err,
}
use mathlib.Core.Bool.{false≢true}
use proxy2api.Store.Gorm.{Gorm, GormLaws, IsOrder, Ordered, Holds}
use proxy2api.Store.Rows.{PriceRule}
use proxy2api.Store.Tables.{Store}
use proxy2api.Store.Prices.{
  longer_first, applies, first_price, price_of, resolve_model_price_micros,
}

longer_first-IsOrder : (g : Gorm) → IsOrder (longer_first g)
longer_first-IsOrder g = record { total = λ x y h. ground arith; trans = λ x y z h k. ground arith }

module _ (g : Gorm) (model : Str) (fallback : ℤ) where
  abbrev pub is_usable : PriceRule → Bool
  is_usable r = r.enabled && applies model r

  -- The price of a rule that is enabled and applies, where none such is longer; or the fallback,
  -- where none is enabled and applies.
  abbrev pub IsPrice : List PriceRule → ℤ → Type 0
  IsPrice rules price =
      ((r : PriceRule) × In r rules
        × (is_usable r ≡ true)
        × (price ≡ r.price_per_1m_micros)
        × (any
              (λ q.
                is_usable q && ltb (g.text_length r.model_prefix) (g.text_length q.model_prefix))
              rules
            ≡ false))
      ⊎ ((price ≡ fallback) × (any is_usable rules ≡ false))

  -- The loop over an ordered list.
  IsFirst : List PriceRule → Type 0
  IsFirst items =
      ((r : PriceRule) × In r items
        × (applies model r ≡ true)
        × (first_price model fallback items ≡ r.price_per_1m_micros)
        × ((q : PriceRule)
            → In q items
            → applies model q ≡ true
            → g.text_length q.model_prefix ≤ g.text_length r.model_prefix))
      ⊎ ((first_price model fallback items ≡ fallback)
          × ((q : PriceRule) → In q items → applies model q ≡ false))

  ahead :
      (it : PriceRule) (items : List PriceRule)
      → All (λ y. longer_first g it y ≡ true) items
      → (q : PriceRule) → In q (it ∷ items)
      → g.text_length q.model_prefix ≤ g.text_length it.model_prefix
  ahead it items a q (inl same) = rw same (omega arith)
  ahead it items a q (inr i) =
      let h = All-In (λ y. longer_first g it y ≡ true) items a i in ground arith

  skip-IsFirst :
      (it : PriceRule) (items : List PriceRule)
      → applies model it ≡ false
      → IsFirst items
      → IsFirst (it ∷ items)
  unfolding IsFirst
  skip-IsFirst it items e (inl (r, i, a, p, longest)) = inl (
    r,
    inr i,
    a,
    rw e p,
    λ q j b. elim j [
      | inl same ↦ absurd (false≢true (sym e ∙ ap (applies model) (sym same) ∙ b))
      | inr k ↦ longest q k b
    ],
  )
  skip-IsFirst it items e (inr (p, nothing)) =
      inr (rw e p, λ q j. elim j [ inl same ↦ ap (applies model) same ∙ e | inr k ↦ nothing q k ])

  price-IsFirst : (items : List PriceRule) → Ordered (longer_first g) items → IsFirst items
  unfolding IsFirst
  price-IsFirst [] o = inr (refl, λ q i. absurd i)
  price-IsFirst (it ∷ items) o = elim (Bool-cases (applies model it)) [
    | inl e ↦ inl (it, inl refl, e, rw e, λ q i b. ahead it items o.0 q i)
    | inr e ↦ skip-IsFirst it items e (price-IsFirst items o.1)
  ]

  IsFirst-IsPrice :
      (rules items : List PriceRule)
      → Holds (λ r. r.enabled) rules items
      → IsFirst items
      → IsPrice rules (first_price model fallback items)
  unfolding IsFirst
  IsFirst-IsPrice rules items held (inl (r, i, a, p, longest)) =
      let (listed, on) = In-keep (λ r. r.enabled) r rules ((held r).0 i) in
      (inl (
        r,
        listed,
        ground arith,
        p,
        any-false _ rules
            (λ q j. ground (arith, In-keep_of (λ r. r.enabled) q rules j, (held q).1, longest q)),
      ))
  IsFirst-IsPrice rules items held (inr (p, nothing)) =
      (inr (
        p,
        any-false _ rules
            (λ q j. ground (arith, In-keep_of (λ r. r.enabled) q rules j, (held q).1, nothing q)),
      ))

-- The price of a model is that of an enabled rule with a prefix of the model, or with `*`, and no
-- such rule has a longer prefix, by the length of the database; where no enabled rule applies, or
-- where the query fails, it is the fallback.
pub resolve_model_price_lem :
    (g : Gorm) (laws : GormLaws g) (model : Str) (fallback : ℤ) (s : Store g)
    → IsPrice g model fallback
        (g.rows s.price_rules)
        (resolve_model_price_micros g model fallback s)
      ⊎ ((resolve_model_price_micros g model fallback s ≡ fallback)
          × ((e : Str) × (g.find (longer_first g) (λ r. r.enabled) s.price_rules ≡ err e)))
unfolding resolve_model_price_micros
resolve_model_price_lem g laws model fallback s =
    answer (g.find (longer_first g) (λ r. r.enabled) s.price_rules) refl
  where
    answer :
        (found : Result (List PriceRule))
        → g.find (longer_first g) (λ r. r.enabled) s.price_rules ≡ found
        → IsPrice g model fallback (g.rows s.price_rules) (price_of model fallback found)
          ⊎ ((price_of model fallback found ≡ fallback)
              × ((e : Str) × (g.find (longer_first g) (λ r. r.enabled) s.price_rules ≡ err e)))
    answer (err e) h = inr (refl, (e, h))
    answer (ok items) h =
        let (held, ordered) = laws.find_rows _ _ s.price_rules items h in
        inl (
          IsFirst-IsPrice g model fallback (g.rows s.price_rules) items held
            (price-IsFirst g model fallback items (ordered (longer_first-IsOrder g))))
