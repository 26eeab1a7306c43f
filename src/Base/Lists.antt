-- ===== src/Base/Lists.antt =====
-- Lists measured by native numbers, Boolean search, and predicates that hold of every item.
use Prim.Native.Nat.{ℕ, zero, suc, ◌+◌, ◌<◌}
use mathlib.Core.Path.{◌≡◌, refl, sym, ap}
use mathlib.Core.Logic.{◌⊎◌, inl, inr}
use mathlib.Core.Bool.{Bool, true, false, ◌||◌, ◌&&◌}
use mathlib.Core.Option.{Option, none, some}
use mathlib.Core.List.{List, [], ◌∷◌, ◌++◌, map}
use native.Mathlib.Omega.{arith}
use proxy2api.Base.Tests.{if◌then◌else◌, Bool-cases}

module _ {ℓ} {A : Type ℓ} where
  abbrev pub length : List A → ℕ
  length [] = 0
  length (x ∷ xs) = suc (length xs)

  abbrev pub get_elem? : List A → ℕ → Option A
  get_elem? [] i = none
  get_elem? (x ∷ xs) zero = some x
  get_elem? (x ∷ xs) (suc i) = get_elem? xs i

  abbrev pub take : ℕ → List A → List A
  take zero xs = []
  take (suc n) [] = []
  take (suc n) (x ∷ xs) = x ∷ take n xs

  abbrev pub drop : ℕ → List A → List A
  drop zero xs = xs
  drop (suc n) [] = []
  drop (suc n) (x ∷ xs) = drop n xs

  -- The items that pass a test, in order.
  abbrev pub keep : (A → Bool) → List A → List A
  keep p [] = []
  keep p (x ∷ xs) = if p x then x ∷ keep p xs else keep p xs

  abbrev pub any : (A → Bool) → List A → Bool
  any p [] = false
  any p (x ∷ xs) = p x || any p xs

  abbrev pub all : (A → Bool) → List A → Bool
  all p [] = true
  all p (x ∷ xs) = p x && all p xs

  pub length-append : (xs ys : List A) → length (xs ++ ys) ≡ length xs + length ys
  length-append [] ys = omega arith
  length-append (x ∷ xs) ys = omega (arith, length-append xs ys)

module _ {ℓ κ} {A : Type ℓ} where
  abbrev pub All : (A → Type κ) → List A → Type κ
  All P [] = Unit
  All P (x ∷ xs) = P x × All P xs

-- `a` stands in the list.
abbrev pub In : {A : Type 0} → A → List A → Type 0
In a [] = ⊥
In a (x ∷ xs) = (a ≡ x) ⊎ In a xs

module _ {A : Type 0} where
  pub In-keep : (p : A → Bool) (a : A) (xs : List A) → In a (keep p xs) → In a xs × (p a ≡ true)
  In-keep p a [] i = elim i [ ]
  In-keep p a (x ∷ xs) i = ground (arith, In-keep p a xs)

  pub In-keep_of : (p : A → Bool) (a : A) (xs : List A) → In a xs → p a ≡ true → In a (keep p xs)
  In-keep_of p a [] i h = elim i [ ]
  In-keep_of p a (x ∷ xs) i h = ground (arith, In-keep_of p a xs)

  pub In-get_elem? : (a : A) (xs : List A) (i : ℕ) → get_elem? xs i ≡ some a → In a xs
  In-get_elem? a [] i h = cc
  In-get_elem? a (x ∷ xs) zero h = inl (cc)
  In-get_elem? a (x ∷ xs) (suc i) h = inr (In-get_elem? a xs i h)

  pub get_elem?-lt : (xs : List A) (i : ℕ) → i < length xs → (a : A) × (get_elem? xs i ≡ some a)
  get_elem?-lt [] i h = elim h [ ]
  get_elem?-lt (x ∷ xs) zero h = (x, refl)
  get_elem?-lt (x ∷ xs) (suc i) h = get_elem?-lt xs i (omega arith)

  -- The Boolean search finds exactly an item that passes.
  pub any_sound : (p : A → Bool) (xs : List A) → any p xs ≡ true → (a : A) × In a xs × (p a ≡ true)
  any_sound p [] h = cc
  any_sound p (x ∷ xs) h = elim (Bool-cases (p x)) [
    | inl e ↦ (x, inl refl, e)
    | inr e ↦ let (a, i, q) = any_sound p xs (rw e at h) in (a, inr i, q)
  ]

  pub any_complete : (p : A → Bool) (a : A) (xs : List A) → In a xs → p a ≡ true → any p xs ≡ true
  any_complete p a [] i h = elim i [ ]
  any_complete p a (x ∷ xs) i h = ground (arith, any_complete p a xs)

  pub All-In : (P : A → Type 0) {a : A} (xs : List A) → All P xs → In a xs → P a
  All-In P [] h i = elim i [ ]
  All-In P (x ∷ xs) h (inl same) = rw same h.0
  All-In P (x ∷ xs) h (inr i) = All-In P xs h.1 i

  pub any-false :
      (p : A → Bool) (xs : List A) → ((a : A) → In a xs → p a ≡ false) → any p xs ≡ false
  any-false p [] h = refl
  any-false p (x ∷ xs) h = rw (h x (inl refl)) (any-false p xs (λ a i. h a (inr i)))

module _ {A B : Type 0} (f : A → B) where
  pub In-map : (a : A) (xs : List A) → In a xs → In (f a) (map f xs)
  In-map a [] h = absurd h
  In-map a (x ∷ xs) (inl e) = inl (ap f e)
  In-map a (x ∷ xs) (inr h) = inr (In-map a xs h)

  pub In-map_of : (b : B) (xs : List A) → In b (map f xs) → (a : A) × In a xs × (f a ≡ b)
  In-map_of b [] h = absurd h
  In-map_of b (x ∷ xs) (inl e) = (x, inl refl, sym e)
  In-map_of b (x ∷ xs) (inr h) = let (a, i, e) = In-map_of b xs h in (a, inr i, e)
