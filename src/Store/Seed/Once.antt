-- ===== src/Store/Seed/Once.antt =====
-- A store is seeded once.
use proxy2api.Base.{
  ℕ, ◌<◌, ◌≡◌, refl, sym, ap, ◌∙◌, ◌⊎◌, inl, inr, true, not, ◌&&◌, ◌||◌, List, [], ◌∷◌, arith, ltb,
  ltb→lt, lt→ltb, Bool-cases, length, keep, length-append, Str, Result, ok, err, ◌>>=◌, >>=-eq-ok,
}
use proxy2api.Config
use proxy2api.Config.{Config, ApiKeyConfig, RoutingRule, TenantConfig, AdminConfig}
use proxy2api.Store.Gorm.{Gorm, GormLaws, create_if, transaction, transaction-cases}
use proxy2api.Store.Gorm.Loops.{each, each_at, each-inv, each_at-inv}
use proxy2api.Text.{str, is_empty}
use proxy2api.Store.Rows.{provider_model, provider_key_model}
use proxy2api.Store.Tables.{Store, is_blank}
use proxy2api.Store.Seed.{
  Encode, seeded_provider, seeded_provider_key, no_keys, seed_upstream_key, seed_provider, seed_key,
  seed_tenant, has_default, seed_default_tenant, seed_admin, seed_price, seed_rule, seed_mark,
  seed_rest, seed_body, seed_if_empty, seed_from_config,
}

keep_all : {A : Type 0} (xs : List A) → keep (λ x. true) xs ≡ xs
keep_all [] = refl
keep_all (x ∷ xs) = ap (λ ys. x ∷ ys) (keep_all xs)

-- The store has a provider.
abbrev HasProvider : (g : Gorm) → Store g → Type 0
HasProvider g s = 0 < length (g.rows s.providers)

-- A statement on another table keeps the providers.
kept :
    (g : Gorm) {T : Type 0} (m : Result T) (put : T → Store g) (s s' : Store g)
    → ((t : T) → HasProvider g s → HasProvider g (put t))
    → (m >>= λ t. ok (put t)) ≡ ok s'
    → HasProvider g s
    → HasProvider g s'
kept g m put s s' keeps h p =
    let (t, ran, ended) = >>=-eq-ok m (λ t. ok (put t)) h in
    let same : put t ≡ s' = cc in rw (← same) (keeps t p)

module _ (g : Gorm) (laws : GormLaws g) (o : Encode) where
  seed_provider-grows :
      (p : Config.Provider) (s s' : Store g) → seed_provider g o p s ≡ ok s' → HasProvider g s'
  unfolding seed_provider seed_upstream_key
  seed_provider-grows p s s' h =
      let (ps, made, h1) =
        >>=-eq-ok (create_if g true provider_model (seeded_provider o p) s.providers) _ h in
      let (ks, primary, h2) =
        >>=-eq-ok
          (create_if g (no_keys p.upstream_keys && not (is_empty p.api_key)) provider_key_model
            (seeded_provider_key p.name (str "primary") p.api_key) s.provider_keys)
          _ h1 in
      let (created, ran, ended) =
        >>=-eq-ok (g.create provider_model (seeded_provider o p) s.providers) _ made in
      let (next, row, grown) = laws.create_rows _ _ s.providers created.0 created.1 ran in
      let same : created.1 ≡ ps = cc in
      each_at-inv (HasProvider g) (seed_upstream_key g o p.name)
        (λ i k s1 s2 step. kept g _ (λ t. record s1 { provider_keys = t }) s1 s2 (λ t q. q) step) 0
        p.upstream_keys (record s { providers = ps; provider_keys = ks }) s' h2
        (rw (← same, grown, length-append) (omega arith))

  seed_tenant-keeps :
      (t : TenantConfig) (s s' : Store g)
      → seed_tenant g o t s ≡ ok s'
      → HasProvider g s
      → HasProvider g s'
  unfolding seed_tenant
  seed_tenant-keeps t s s' h p = elim (Bool-cases (is_blank t.name)) [
    | inl e ↦ let same : s ≡ s' = ground arith in rw (← same) p
    | inr e ↦ kept g _ (λ x. record s { tenants = x }) s s' (λ x q. q) (rw e at h) p
  ]

  seed_default_tenant-keeps :
      (ts : List TenantConfig) (s s' : Store g)
      → seed_default_tenant g o ts s ≡ ok s'
      → HasProvider g s
      → HasProvider g s'
  unfolding seed_default_tenant
  seed_default_tenant-keeps ts s s' h p = elim (Bool-cases (has_default g o ts)) [
    | inl e ↦ let same : s ≡ s' = ground arith in rw (← same) p
    | inr e ↦ kept g _ (λ x. record s { tenants = x }) s s' (λ x q. q) (rw e at h) p
  ]

  seed_admin-keeps :
      (i : ℕ) (a : AdminConfig) (s s' : Store g)
      → seed_admin g o i a s ≡ ok s'
      → HasProvider g s
      → HasProvider g s'
  unfolding seed_admin
  seed_admin-keeps i a s s' h p = elim (Bool-cases (is_blank a.username || is_blank a.password)) [
    | inl e ↦ let same : s ≡ s' = ground arith in rw (← same) p
    | inr e ↦ kept g _ (λ x. record s { admin_users = x }) s s' (λ x q. q) (rw e at h) p
  ]

  seed_rest-keeps :
      (cfg : Config) (s s' : Store g)
      → seed_rest g o cfg s ≡ ok s'
      → HasProvider g s
      → HasProvider g s'
  unfolding seed_rest seed_key seed_price seed_rule seed_mark
  seed_rest-keeps cfg s s' h p =
      let (s1, keys, h1) = >>=-eq-ok (each (seed_key g o) cfg.keys s) _ h in
      let (s2, tenants, h2) = >>=-eq-ok (each (seed_tenant g o) cfg.tenants s1) _ h1 in
      let (s3, default, h3) = >>=-eq-ok (seed_default_tenant g o cfg.tenants s2) _ h2 in
      let (s4, admins, h4) = >>=-eq-ok (each_at 0 (seed_admin g o) cfg.admins s3) _ h3 in
      let (s5, price, h5) = >>=-eq-ok (seed_price g o _ s4) _ h4 in
      let (s6, rules, h6) = >>=-eq-ok (each_at 0 (seed_rule g o) cfg.rules s5) _ h5 in
      let p1 =
        each-inv (HasProvider g) (seed_key g o)
          (λ k x y step. kept g _ (λ t. record x { api_keys = t }) x y (λ t q. q) step) cfg.keys s
          s1 keys p in
      let p2 =
        each-inv (HasProvider g) (seed_tenant g o) seed_tenant-keeps cfg.tenants s1 s2 tenants p1 in
      let p3 = seed_default_tenant-keeps cfg.tenants s2 s3 default p2 in
      let p4 =
        each_at-inv (HasProvider g) (seed_admin g o) seed_admin-keeps 0 cfg.admins s3 s4 admins
          p3 in
      let p5 = kept g _ (λ t. record s4 { price_rules = t }) s4 s5 (λ t q. q) price p4 in
      let p6 =
        each_at-inv (HasProvider g) (seed_rule g o)
          (λ i r x y step. kept g _ (λ t. record x { rules = t }) x y (λ t q. q) step) 0 cfg.rules
          s5 s6 rules p5 in
      kept g _ (λ t. record s6 { kvs = t }) s6 s' (λ t q. q) h6 p6

  seed_body-HasProvider :
      (cfg : Config) (p : Config.Provider) (ps : List Config.Provider)
      → cfg.providers ≡ p ∷ ps
      → (s s' : Store g) → seed_body g o cfg s ≡ ok s'
      → HasProvider g s'
  unfolding seed_body
  seed_body-HasProvider cfg p ps e s s' h =
      let (s1, loop, rest) = >>=-eq-ok (each (seed_provider g o) cfg.providers s) _ h in
      let (s0, first, others) =
        >>=-eq-ok (seed_provider g o p s) _
          (sym (ap (λ qs. each (seed_provider g o) qs s) e) ∙ loop) in
      seed_rest-keeps cfg s1 s' rest (
        each-inv (HasProvider g) (seed_provider g o)
          (λ q x y step old. seed_provider-grows q x y step) ps s0 s1 others
          (seed_provider-grows p s s0 first))

  -- What a seeding that succeeds leaves has a provider: the one that was there, or the first of the
  -- configuration.
  seed_from_config-HasProvider :
      (cfg : Config) (p : Config.Provider) (ps : List Config.Provider)
      → cfg.providers ≡ p ∷ ps
      → (s : Store g) → (seed_from_config g o cfg s).0 ≡ ok tt
      → HasProvider g (seed_from_config g o cfg s).1
  unfolding seed_from_config
  seed_from_config-HasProvider cfg p ps e s h = counted (g.count (λ p. true) s.providers) refl h
    where
      ran :
          ((s' : Store g) × (seed_body g o cfg s ≡ ok s')
              × (transaction g (seed_body g o cfg) s ≡ (ok tt, s')))
            ⊎ ((x : Str) × (transaction g (seed_body g o cfg) s ≡ (err x, s)))
          → (transaction g (seed_body g o cfg) s).0 ≡ ok tt
          → HasProvider g (transaction g (seed_body g o cfg) s).1
      ran (inl (s', body, out)) k = rw out (seed_body-HasProvider cfg p ps e s s' body)
      ran (inr (x, out)) k = let no : err x ≡ ok tt = rw out at k in absurd cc

      counted :
          (m : Result ℕ)
          → g.count (λ p. true) s.providers ≡ m
          → (seed_if_empty g o cfg s m).0 ≡ ok tt
          → HasProvider g (seed_if_empty g o cfg s m).1
      counted (err x) q k = absurd cc
      counted (ok n) q k =
          let count : n ≡ length (g.rows s.providers) =
            laws.count_rows (λ p. true) s.providers n q
            ∙ ap length (keep_all (g.rows s.providers)) in
          elim (Bool-cases (ltb 0 n)) [
            | inl t ↦ rw t (rw (← count) (ltb→lt 0 n t))
            | inr f ↦ rw f (ran (transaction-cases g (seed_body g o cfg) s) (rw f at k))
          ]

-- A store with a provider is left as it is.
seed_from_config-again :
    (g : Gorm) (laws : GormLaws g) (o : Encode) (cfg : Config) (s : Store g)
    → HasProvider g s
    → (seed_from_config g o cfg s).1 ≡ s
unfolding seed_from_config
seed_from_config-again g laws o cfg s has = counted (g.count (λ p. true) s.providers) refl
  where
    counted :
        (m : Result ℕ) → g.count (λ p. true) s.providers ≡ m → (seed_if_empty g o cfg s m).1 ≡ s
    counted (err x) q = refl
    counted (ok n) q =
        let count : n ≡ length (g.rows s.providers) =
          laws.count_rows (λ p. true) s.providers n q ∙ ap length (keep_all (g.rows s.providers)) in
        let positive : ltb 0 n ≡ true = lt→ltb 0 n (rw count has) in rw positive refl

-- After a seeding with a provider in the configuration that succeeds, a later seeding changes
-- nothing, whatever the configuration, the tokens and the time are then.
pub seed_once :
    (g : Gorm) (laws : GormLaws g) (o o' : Encode) (cfg cfg' : Config) (p : Config.Provider)
    (ps : List Config.Provider)
    → cfg.providers ≡ p ∷ ps
    → (s : Store g) → (seed_from_config g o cfg s).0 ≡ ok tt
    → (seed_from_config g o' cfg' (seed_from_config g o cfg s).1).1 ≡ (seed_from_config g o cfg s).1
seed_once g laws o o' cfg cfg' p ps e s h =
    seed_from_config-again g laws o' cfg' (seed_from_config g o cfg s).1
      (seed_from_config-HasProvider g laws o cfg p ps e s h)
