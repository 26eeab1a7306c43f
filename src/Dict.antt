-- ===== src/Dict.antt =====
-- A Go map with text keys, as an association list: a read of a missing key is `none`, a write
-- replaces the entry or adds one. The order of the entries stands for no order of the program:
-- where the code ranges over a map, the order is an argument.
use proxy2api.Base.{
  ◌≡◌, refl, ◌⊎◌, Option, none, some, List, [], ◌∷◌, arith, if◌then◌else◌, In, Str,
}
use proxy2api.Text.{eq_str}
use proxy2api.Text.Laws.{eq_str_iff}

abbrev pub Dict {ℓ} : Type ℓ → Type ℓ
Dict V = List (Str × V)

module _ {ℓ} {V : Type ℓ} where
  unfoldable pub lookup : Str → Dict V → Option V
  lookup k [] = none
  lookup k ((j, v) ∷ m) = if eq_str j k then some v else lookup k m

  unfoldable pub insert : Str → V → Dict V → Dict V
  insert k v [] = (k, v) ∷ []
  insert k v ((j, w) ∷ m) = if eq_str j k then (k, v) ∷ m else (j, w) ∷ insert k v m

  pub lookup-insert :
      (k j : Str) (v : V) (m : Dict V)
      → lookup j (insert k v m) ≡ (if eq_str k j then some v else lookup j m)
  unfolding lookup insert
  lookup-insert k j v [] = refl
  lookup-insert k j v ((i, w) ∷ m) =
      ground (arith, eq_str_iff k j, eq_str_iff i k, eq_str_iff i j, lookup-insert k j v m)

module _ {V : Type 0} where
  -- A value that is found stands in the map.
  pub In-lookup : (k : Str) (v : V) (m : Dict V) → lookup k m ≡ some v → In (k, v) m
  unfolding lookup
  In-lookup k v [] h = cc
  In-lookup k v ((j, w) ∷ m) h = ground (arith, eq_str_iff j k, In-lookup k v m)

  -- No key is listed twice.
  abbrev pub Unique : Dict V → Type 0
  Unique [] = Unit
  Unique ((k, v) ∷ m) = (lookup k m ≡ none) × Unique m

  pub insert-Unique : (k : Str) (v : V) (m : Dict V) → Unique m → Unique (insert k v m)
  unfolding lookup insert
  insert-Unique k v [] h = (refl, tt)
  insert-Unique k v ((j, w) ∷ m) h =
      ground (arith, eq_str_iff j k, eq_str_iff k j, insert-Unique k v m h.1, lookup-insert k j v m)

  -- In a map with no key twice, an entry is what its key is looked up to.
  pub lookup-In : (k : Str) (v : V) (m : Dict V) → Unique m → In (k, v) m → lookup k m ≡ some v
  unfolding lookup
  lookup-In k v [] h i = elim i [ ]
  lookup-In k v ((j, w) ∷ m) h i = ground (arith, eq_str_iff j k, lookup-In k v m h.1)

  -- An entry of an updated map is the new one or an old one.
  pub In-insert :
      (k j : Str) (v w : V) (m : Dict V)
      → In (j, w) (insert k v m)
      → ((j ≡ k) × (w ≡ v)) ⊎ In (j, w) m
  unfolding insert
  In-insert k j v w [] i = ground arith
  In-insert k j v w ((i', w') ∷ m) i = ground (arith, In-insert k j v w m)
