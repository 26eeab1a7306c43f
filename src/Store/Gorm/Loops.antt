-- ===== src/Store/Gorm/Loops.antt =====
-- Loops of statements, and what they leave in a table.
use proxy2api.Base.{
  ℕ, suc, ◌≡◌, refl, ap, ◌∙◌, Bool, true, false, List, [], ◌∷◌, ◌++◌, map, arith, if◌then◌else◌, ℤ,
  keep, Result, ok, ◌>>=◌, >>=-eq-ok,
}
use mathlib.Core.List.{append_assoc, append-nil, map-append}
use proxy2api.Store.Gorm.{Gorm, GormLaws, Model, new_row, create_if}

-- A loop whose body may fail.
abbrev pub each : {A S : Type 0} → (A → S → Result S) → List A → S → Result S
each f [] s = ok s
each f (x ∷ xs) s = do s' ← f x s; each f xs s'

-- The same with the index of the item.
abbrev pub each_at : {A S : Type 0} → ℕ → (ℕ → A → S → Result S) → List A → S → Result S
each_at i f [] s = ok s
each_at i f (x ∷ xs) s = do s' ← f i x s; each_at (suc i) f xs s'

pub each_at-inv :
    {A S : Type 0} (P : S → Type 0) (f : ℕ → A → S → Result S)
    → ((i : ℕ) (x : A) (s s' : S) → f i x s ≡ ok s' → P s → P s')
    → (i : ℕ) (xs : List A) (s s' : S) → each_at i f xs s ≡ ok s'
    → P s
    → P s'
each_at-inv P f kept i [] s s' h p = let same : s ≡ s' = cc in rw (← same) p
each_at-inv P f kept i (x ∷ xs) s s' h p =
    let (s1, first, rest) = >>=-eq-ok (f i x s) _ h in
    each_at-inv P f kept (suc i) xs s1 s' rest (kept i x s s1 first p)

-- What the body keeps, the loop keeps.
pub each-inv :
    {A S : Type 0} (P : S → Type 0) (f : A → S → Result S)
    → ((x : A) (s s' : S) → f x s ≡ ok s' → P s → P s')
    → (xs : List A) (s s' : S) → each f xs s ≡ ok s'
    → P s
    → P s'
each-inv P f kept [] s s' h p = let same : s ≡ s' = cc in rw (← same) p
each-inv P f kept (x ∷ xs) s s' h p =
    let (s1, first, rest) = >>=-eq-ok (f x s) _ h in
    each-inv P f kept xs s1 s' rest (kept x s s1 first p)

abbrev pub flat : {A B : Type 0} → (A → List B) → List A → List B
flat item [] = []
flat item (x ∷ xs) = item x ++ flat item xs

-- What the body appends for each item, the loop appends in order.
pub each-append :
    {A B S : Type 0} (out : S → List B) (item : A → List B) (f : A → S → Result S)
    → ((x : A) (s s' : S) → f x s ≡ ok s' → out s' ≡ out s ++ item x)
    → (xs : List A) (s s' : S) → each f xs s ≡ ok s'
    → out s' ≡ out s ++ flat item xs
each-append out item f step [] s s' h = let same : s ≡ s' = cc in rw (← same, append-nil)
each-append out item f step (x ∷ xs) s s' h =
    let (s1, first, rest) = >>=-eq-ok (f x s) _ h in
    each-append out item f step xs s1 s' rest
    ∙ ap (λ ys. ys ++ flat item xs) (step x s s1 first)
    ∙ append_assoc (out s) (item x) (flat item xs)

pub flat-keep :
    {A B : Type 0} (p : A → Bool) (h : A → B) (xs : List A)
    → flat (λ x. if p x then h x ∷ [] else []) xs ≡ map h (keep p xs)
flat-keep p h [] = refl
flat-keep p h (x ∷ xs) = ground (arith, flat-keep p h xs)

module _ (g : Gorm) (laws : GormLaws g) {R : Type 0} (m : Model R) (view : R → R) where
  -- A row that is created under a condition, seen without what the database adds to it.
  pub create_if-append :
      (b : Bool) (r made : R)
      → ((next : ℤ) → view (new_row m next r) ≡ made)
      → (t t' : g.Table R) → create_if g b m r t ≡ ok t'
      → map view (g.rows t') ≡ map view (g.rows t) ++ (if b then made ∷ [] else [])
  create_if-append false r made law t t' h = let same : t ≡ t' = cc in rw (← same, append-nil)
  create_if-append true r made law t t' h =
      let (created, found, h1) = >>=-eq-ok (g.create m r t) _ h in
      let same : created.1 ≡ t' = cc in
      let (next, _, grown) = laws.create_rows m r t created.0 created.1 found in
      rw (← same, grown, map-append) (ap (λ y. map view (g.rows t) ++ y ∷ []) (law next))
