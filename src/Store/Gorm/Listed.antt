-- ===== src/Store/Gorm/Listed.antt =====
-- A database that keeps its rows in lists and whose statements do not fail: it meets the laws.
use proxy2api.Base.{
  ◌+◌, ◌≡◌, refl, ◌↔◌, inl, inr, Bool, true, false, not, List, [], ◌∷◌, ◌++◌, map, arith, leb,
  if◌then◌else◌, Bool-cases, ℤ, pos, length, keep, any, All, In, Str, Result, ok, err,
}
use proxy2api.Store.Gorm.{new_row, Gorm, GormLaws, Ordered, IsOrder}

module _ {R : Type 0} (le : R → R → Bool) where
  place : R → List R → List R
  place x [] = x ∷ []
  place x (y ∷ ys) = if le x y then x ∷ y ∷ ys else y ∷ place x ys

  sort : List R → List R
  sort [] = []
  sort (x ∷ xs) = place x (sort xs)

  In-place : (a x : R) (xs : List R) → In a (place x xs) ↔ In a (x ∷ xs)
  unfolding place
  In-place a x [] = ground arith
  In-place a x (y ∷ ys) = ground (arith, In-place a x ys)

  In-sort : (a : R) (xs : List R) → In a (sort xs) ↔ In a xs
  unfolding sort
  In-sort a [] = ground arith
  In-sort a (x ∷ xs) = ground (arith, In-place a x (sort xs), In-sort a xs)

  module _ (order : IsOrder le) where
    All-trans :
        (x y : R) (ys : List R)
        → le x y ≡ true
        → All (λ z. le y z ≡ true) ys
        → All (λ z. le x z ≡ true) ys
    All-trans x y [] h a = tt
    All-trans x y (z ∷ zs) h a = (order.trans x y z h a.0, All-trans x y zs h a.1)

    All-place :
        (x y : R) (ys : List R)
        → le y x ≡ true
        → All (λ z. le y z ≡ true) ys
        → All (λ z. le y z ≡ true) (place x ys)
    unfolding place
    All-place x y [] h a = (h, tt)
    All-place x y (z ∷ zs) h a = elim (Bool-cases (le x z)) [
      | inl e ↦ rw e (h, a)
      | inr e ↦ rw e (a.0, All-place x y zs h a.1)
    ]

    Ordered-place : (x : R) (ys : List R) → Ordered le ys → Ordered le (place x ys)
    unfolding place
    Ordered-place x [] o = (tt, tt)
    Ordered-place x (y ∷ ys) o = elim (Bool-cases (le x y)) [
      | inl e ↦ rw e ((e, All-trans x y ys e o.0), o)
      | inr e ↦ rw e (All-place x y ys (order.total x y e) o.0, Ordered-place x ys o.1)
    ]

    Ordered-sort : (xs : List R) → Ordered le (sort xs)
    unfolding sort
    Ordered-sort [] = tt
    Ordered-sort (x ∷ xs) = Ordered-place x (sort xs) (Ordered-sort xs)

abbrev first_of_list : {R : Type 0} → List R → Result R
first_of_list [] = err (114 ∷ [])
first_of_list (x ∷ xs) = ok x

abbrev next_id : {R : Type 0} → List R → ℤ
next_id rows = pos (length rows + 1)

unfoldable pub listed : Gorm
unfolding place sort
listed = record {
  Table = List;
  rows = λ t. t;
  find = λ le p t. ok (sort le (keep p t));
  first = λ p t. first_of_list (keep p t);
  count = λ p t. ok (length (keep p t));
  updates = λ p f t. ok (length (keep p t), map (λ x. if p x then f x else x) t);
  create = λ m r t. ok (new_row m (next_id t) r, t ++ new_row m (next_id t) r ∷ []);
  upsert = λ m same merge r t. ok (
    new_row m (next_id t) r,
    if any (same r) t
        then map (λ x. if same r x then merge x (new_row m (next_id t) r) else x) t
        else t ++ new_row m (next_id t) r ∷ [],
  );
  delete = λ p t. ok (keep (λ x. not (p x)) t);
  text_length = length;
  text_le = λ s t. leb (length s) (length t);
  commit = λ s. ok tt;
}

first_of_list-In :
    {R : Type 0} (p : R → Bool) (t : List R) (x : R)
    → first_of_list (keep p t) ≡ ok x
    → In x t × (p x ≡ true)
first_of_list-In p [] x h = cc
first_of_list-In p (y ∷ ys) x h = ground (arith, first_of_list-In p ys x)

first_of_list-none :
    {R : Type 0} (p : R → Bool) (t : List R)
    → any p t ≡ false
    → (e : Str) × (first_of_list (keep p t) ≡ err e)
first_of_list-none p [] h = (114 ∷ [], refl)
first_of_list-none p (y ∷ ys) h = elim (Bool-cases (p y)) [
  | inl e ↦ absurd (ground arith)
  | inr e ↦ rw e (first_of_list-none p ys (rw e at h))
]

pub listed-GormLaws : GormLaws listed
unfolding listed
listed-GormLaws = record {
  find_rows = λ le p t xs h.
      let same : sort le (keep p t) ≡ xs = cc in
      rw (← same) (λ x. In-sort le x (keep p t), λ order. Ordered-sort le order (keep p t));
  first_row = first_of_list-In;
  first_missing = first_of_list-none;
  count_rows = λ p t n h. cc;
  updates_rows = λ p f t n t' h. (cc, cc);
  create_rows = λ m r t r' t' h. (next_id t, cc, cc);
  upsert_rows = λ m same merge r t r' t' h. (next_id t, cc);
  delete_rows = λ p t t' h. cc;
}
