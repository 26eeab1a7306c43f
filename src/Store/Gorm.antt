-- ===== src/Store/Gorm.antt =====
-- What the store uses of gorm and of the database behind it, as an interface: tables with their
-- rows, statements that give an error or a result, and the documented effect of a statement that
-- succeeds. Any statement may fail. gorm itself keeps `created_at` and `updated_at`, which the
-- program does not read, so rows leave them out.
pub mod Listed
pub mod Loops
use proxy2api.Base.{
  ℕ, zero, suc, ◌+◌, ◌-◌, ◌≡◌, refl, ap, ◌↔◌, ◌⊎◌, inl, inr, Bool, true, false, not, none, List, [],
  ◌∷◌, ◌++◌, map, arith, if◌then◌else◌, ℤ, pos, eq_ℤ, length, keep, any, all, All, In, Str, Result,
  ok, err, ◌>>=◌,
}

-- What gorm reads from the struct of a row: its primary key, and the `default:` tags, whose values
-- replace the zero values of a new row.
pub record Model (R : Type 0) : Type 0 where
  pub id : R → ℤ
  pub with_id : ℤ → R → R
  pub with_defaults : R → R

-- A new row, with the defaults, and with the next key if it has none.
abbrev pub new_row : {R : Type 0} → Model R → ℤ → R → R
new_row m next r =
    let r' = m.with_defaults r in if eq_ℤ (m.id r) (pos 0) then m.with_id next r' else r'

pub record Gorm : Type 1 where
  pub Table : Type 0 → Type 0
  pub rows : {R : Type 0} → Table R → List R
  -- `Where(p).Order(le).Find`
  pub find : {R : Type 0} → (R → R → Bool) → (R → Bool) → Table R → Result (List R)
  -- `Where(p).First`
  pub first : {R : Type 0} → (R → Bool) → Table R → Result R
  -- `Where(p).Count`
  pub count : {R : Type 0} → (R → Bool) → Table R → Result ℕ
  -- `Where(p).Updates(f)`, with `RowsAffected`
  pub updates : {R : Type 0} → (R → Bool) → (R → R) → Table R → Result (ℕ × Table R)
  -- `Create`, with the row as gorm leaves it
  pub create : {R : Type 0} → Model R → R → Table R → Result (R × Table R)
  -- `Clauses(OnConflict{same, merge}).Create`
  pub upsert :
      {R : Type 0} → Model R → (R → R → Bool) → (R → R → R) → R → Table R → Result (R × Table R)
  -- `Where(p).Delete`
  pub delete : {R : Type 0} → (R → Bool) → Table R → Result (Table R)
  -- `length(column)` of the database: characters in SQLite and PostgreSQL, bytes in MySQL
  pub text_length : Str → ℕ
  -- the order of texts in an `ORDER BY`, a collation of the database
  pub text_le : Str → Str → Bool
  -- the commit of a transaction
  pub commit : {S : Type 0} → S → Result (Unit {0})

-- `xs` holds the rows that pass the test.
abbrev pub Holds : {R : Type 0} → (R → Bool) → List R → List R → Type 0
Holds {R} p rows xs = (x : R) → In x xs ↔ In x (keep p rows)

-- No row stands before one that has to come first.
abbrev pub Ordered : {R : Type 0} → (R → R → Bool) → List R → Type 0
Ordered le [] = Unit
Ordered le (x ∷ xs) = All (λ y. le x y ≡ true) xs × Ordered le xs

-- A sort key: any two rows are comparable, and the order is transitive.
pub record IsOrder {R : Type 0} (le : R → R → Bool) : Type 0 where
  pub total : (x y : R) → le x y ≡ false → le y x ≡ true
  pub trans : (x y z : R) → le x y ≡ true → le y z ≡ true → le x z ≡ true

pub record GormLaws (g : Gorm) : Type 1 where
  pub find_rows :
      {R : Type 0} (le : R → R → Bool) (p : R → Bool) (t : g.Table R) (xs : List R)
      → g.find le p t ≡ ok xs
      → Holds p (g.rows t) xs × (IsOrder le → Ordered le xs)
  pub first_row :
      {R : Type 0} (p : R → Bool) (t : g.Table R) (x : R)
      → g.first p t ≡ ok x
      → In x (g.rows t) × (p x ≡ true)
  pub first_missing :
      {R : Type 0} (p : R → Bool) (t : g.Table R)
      → any p (g.rows t) ≡ false
      → (e : Str) × (g.first p t ≡ err e)
  pub count_rows :
      {R : Type 0} (p : R → Bool) (t : g.Table R) (n : ℕ)
      → g.count p t ≡ ok n
      → n ≡ length (keep p (g.rows t))
  pub updates_rows :
      {R : Type 0} (p : R → Bool) (f : R → R) (t : g.Table R) (n : ℕ) (t' : g.Table R)
      → g.updates p f t ≡ ok (n, t')
      → (n ≡ length (keep p (g.rows t)))
        × (g.rows t' ≡ map (λ x. if p x then f x else x) (g.rows t))
  pub create_rows :
      {R : Type 0} (m : Model R) (r : R) (t : g.Table R) (r' : R) (t' : g.Table R)
      → g.create m r t ≡ ok (r', t')
      → (next : ℤ) × (r' ≡ new_row m next r) × (g.rows t' ≡ g.rows t ++ new_row m next r ∷ [])
  pub upsert_rows :
      {R : Type 0} (m : Model R) (same : R → R → Bool) (merge : R → R → R) (r : R) (t : g.Table R)
      (r' : R) (t' : g.Table R)
      → g.upsert m same merge r t ≡ ok (r', t')
      → (next : ℤ) × (g.rows t' ≡ (
          if any (same r) (g.rows t)
          then map (λ x. if same r x then merge x (new_row m next r) else x) (g.rows t)
          else g.rows t ++ new_row m next r ∷ []))
  pub delete_rows :
      {R : Type 0} (p : R → Bool) (t t' : g.Table R)
      → g.delete p t ≡ ok t'
      → g.rows t' ≡ keep (λ x. not (p x)) (g.rows t)

-- `db.Transaction(body)`: an error of the body or of the commit leaves everything as it was.
abbrev pub after_commit : {S : Type 0} → S → S → Result (Unit {0}) → Result (Unit {0}) × S
after_commit s s' (ok _) = (ok tt, s')
after_commit s s' (err e) = (err e, s)

abbrev pub transaction : (g : Gorm) {S : Type 0} → (S → Result S) → S → Result (Unit {0}) × S
transaction g body s = elim (body s) [
  | err e ↦ (err e, s)
  | ok s' ↦ after_commit s s' (g.commit s')
]

pub transaction-eq-ok :
    (g : Gorm) {S : Type 0} (body : S → Result S) (s : S)
    → (transaction g body s).0 ≡ ok tt
    → body s ≡ ok (transaction g body s).1
transaction-eq-ok g body s h = ground arith

-- A transaction that fails has changed nothing.
pub transaction-eq-err :
    (g : Gorm) {S : Type 0} (body : S → Result S) (s : S) (e : Str)
    → (transaction g body s).0 ≡ err e
    → (transaction g body s).1 ≡ s
transaction-eq-err g body s e h = ground arith

-- A transaction succeeds with what its body leaves, or fails and leaves all as it was.
pub transaction-cases :
    (g : Gorm) {S : Type 0} (body : S → Result S) (s : S)
    → ((s' : S) × (body s ≡ ok s') × (transaction g body s ≡ (ok tt, s')))
      ⊎ ((e : Str) × (transaction g body s ≡ (err e, s)))
transaction-cases g {S} body s = ran (body s) refl
  where
    ran :
        (m : Result S)
        → body s ≡ m
        → ((s' : S) × (body s ≡ ok s') × (transaction g body s ≡ (ok tt, s')))
          ⊎ ((e : Str) × (transaction g body s ≡ (err e, s)))
    ran (err e) h = inr (e, ground arith)
    ran (ok s') h = committed (g.commit s') refl
      where
        committed :
            (c : Result (Unit {0}))
            → g.commit s' ≡ c
            → ((t : S) × (body s ≡ ok t) × (transaction g body s ≡ (ok tt, t)))
              ⊎ ((e : Str) × (transaction g body s ≡ (err e, s)))
        committed (ok u) q = inl (s', h, ground arith)
        committed (err e) q = inr (e, ground arith)

-- The row of an id, written anew: `Where("id = ?", id).Updates(f)`.
abbrev pub update_row :
    (g : Gorm) {R : Type 0} → Model R → ℤ → (R → R) → g.Table R → Result (ℤ × g.Table R)
update_row g m id f t = do updated ← g.updates (λ x. eq_ℤ (m.id x) id) f t; ok (id, updated.1)

-- A row that is inserted, or merged into the one that it conflicts with.
abbrev pub insert_row :
    (g : Gorm) {R : Type 0}
    → Model R
    → (R → R → Bool)
    → (R → R → R)
    → R
    → g.Table R
    → Result (ℤ × g.Table R)
insert_row g m same merge r t = do
  created ← g.upsert m same merge r t
  ok (m.id created.0, created.1)

abbrev pub table_of : {A T : Type 0} → Result (A × T) → Result T
table_of (err e) = err e
table_of (ok (a, t)) = ok t

-- A statement by itself: its error leaves the state as it was.
abbrev pub stored : {S T A : Type 0} → S → (T → S) → Result (A × T) → Result A × S
stored s put (err e) = (err e, s)
stored s put (ok (a, t)) = (ok a, put t)

pub stored-eq-ok :
    {S T A : Type 0} (s : S) (put : T → S) (m : Result (A × T)) (a : A)
    → (stored s put m).0 ≡ ok a
    → (t : T) × (m ≡ ok (a, t)) × (stored s put m ≡ (ok a, put t))
stored-eq-ok s put (err e) a h = cc
stored-eq-ok s put (ok (x, t)) a h = let same : x ≡ a = cc in (t, rw same refl, rw same refl)

abbrev pub done : {S T : Type 0} → S → (T → S) → Result T → Result (Unit {0}) × S
done s put (err e) = (err e, s)
done s put (ok t) = (ok tt, put t)

-- `Create` under a condition.
abbrev pub create_if : (g : Gorm) {R : Type 0} → Bool → Model R → R → g.Table R → Result (g.Table R)
create_if g false m r t = ok t
create_if g true m r t = do created ← g.create m r t; ok created.1
