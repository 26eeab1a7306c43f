-- ===== src/Gateway/Pick/Share.antt =====
-- The weighted choice: each provider owns as many of the random numbers as its weight.
use proxy2api.Base.{
  ℕ, ◌+◌, ◌^◌, ◌≤◌, ◌<◌, ◌≡◌, refl, ap, ◌∙◌, inl, inr, false, none, some, List, [], ◌∷◌, ◌++◌,
  arith, Bool-cases, Option-cases, ℤ, pos, pos_part, ◌+ℤ◌, leb_ℤ, add64, add64-id, length, In,
  In-get_elem?, get_elem?-lt,
}
use proxy2api.Gateway.Types.{ProviderState}
use proxy2api.Gateway.Pick.{weight_of, total_weight, pick_from, last, weighted_provider_pick}

-- The sum of the weights, with no wrap-around.
abbrev pub weights : List ProviderState → ℕ
weights [] = 0
weights (it ∷ its) = pos_part (weight_of it) + weights its

pub weights-append : (xs ys : List ProviderState) → weights (xs ++ ys) ≡ weights xs + weights ys
weights-append [] ys = omega arith
weights-append (it ∷ xs) ys = omega (arith, weights-append xs ys)

add64_weight :
    (n : ℕ) (it : ProviderState)
    → n + pos_part (weight_of it) < 2 ^ 63
    → add64 (pos n) (weight_of it) ≡ pos (n + pos_part (weight_of it))
add64_weight n it h =
    rw (add64-id (pos n) (weight_of it) (unfold ◌+ℤ◌ in ground arith)) (unfold ◌+ℤ◌ in ground arith)

total_weight-weights :
    (n : ℕ) (its : List ProviderState)
    → n + weights its < 2 ^ 63
    → total_weight (pos n) its ≡ pos (n + weights its)
unfolding total_weight
total_weight-weights n [] h = ground arith
total_weight-weights n (it ∷ its) h =
    rw (add64_weight n it (omega arith))
      (total_weight-weights (n + pos_part (weight_of it)) its (omega arith) ∙ ap pos (omega arith))

pick_from-append :
    (r n : ℕ) (it : ProviderState) (pre post : List ProviderState)
    → n + weights (pre ++ it ∷ post) < 2 ^ 63
    → n + weights pre ≤ r
    → r < n + weights pre + pos_part (weight_of it)
    → pick_from r (pos n) (pre ++ it ∷ post) ≡ some it
unfolding pick_from
pick_from-append r n it [] post small lo hi = rw (add64_weight n it (omega arith)) (ground arith)
pick_from-append r n it (x ∷ pre) post small lo hi =
    rw (add64_weight n x (omega arith))
      (ground (arith, pick_from-append r (n + pos_part (weight_of x)) it pre post))

total_weight-pos :
    (its : List ProviderState) → weights its < 2 ^ 63 → total_weight (pos 0) its ≡ pos (weights its)
total_weight-pos its h = total_weight-weights 0 its (omega arith) ∙ ap pos (omega arith)

weights-pos : (it : ProviderState) → 0 < pos_part (weight_of it)
weights-pos it = ground arith

not_low : (n : ℕ) → 0 < n → leb_ℤ (pos n) (pos 0) ≡ false
not_low n h = ground arith

weighted_pick_long :
    (intn : ℤ → ℕ) (x y : ProviderState) (its : List ProviderState) (it : ProviderState)
    → weights (x ∷ y ∷ its) < 2 ^ 63
    → pick_from (intn (pos (weights (x ∷ y ∷ its)))) (pos 0) (x ∷ y ∷ its) ≡ some it
    → weighted_provider_pick intn (x ∷ y ∷ its) ≡ some it
unfolding weighted_provider_pick
weighted_pick_long intn x y its it small h = rw (
  total_weight-pos (x ∷ y ∷ its) small,
  not_low (weights (x ∷ y ∷ its)) (omega (arith, weights-pos x)),
  h,
)

-- Each provider owns an interval of the random numbers, and its length is the weight: among the
-- providers `pre ++ it ∷ post`, with a sum of weights below 2 ^ 63, every number from the weights of
-- `pre` on, and below those with the weight of `it`, picks `it`.
pub weighted_pick_share :
    (intn : ℤ → ℕ) (it : ProviderState) (pre post : List ProviderState)
    → weights (pre ++ it ∷ post) < 2 ^ 63
    → weights pre ≤ intn (pos (weights (pre ++ it ∷ post)))
    → intn (pos (weights (pre ++ it ∷ post))) < weights pre + pos_part (weight_of it)
    → weighted_provider_pick intn (pre ++ it ∷ post) ≡ some it
weighted_pick_share intn it [] [] small lo hi = unfold weighted_provider_pick in refl
weighted_pick_share intn it [] (y ∷ post) small lo hi =
    weighted_pick_long intn it y post it small
      (pick_from-append _ 0 it [] (y ∷ post) (omega arith) (omega arith) (omega arith))
weighted_pick_share intn it (x ∷ []) post small lo hi =
    weighted_pick_long intn x it post it small
      (pick_from-append _ 0 it (x ∷ []) post (omega arith) (omega arith) (omega arith))
weighted_pick_share intn it (x ∷ y ∷ pre) post small lo hi =
    weighted_pick_long intn x y (pre ++ it ∷ post) it small
      (pick_from-append _ 0 it (x ∷ y ∷ pre) post (omega arith) (omega arith) (omega arith))

pick_from-In :
    (r : ℕ) (acc : ℤ) (its : List ProviderState) (p : ProviderState)
    → pick_from r acc its ≡ some p
    → In p its
unfolding pick_from
pick_from-In r acc [] p h = cc
pick_from-In r acc (it ∷ its) p h = ground (arith, pick_from-In r (add64 acc (weight_of it)) its p)

last-In : (its : List ProviderState) (p : ProviderState) → last its ≡ some p → In p its
last-In [] p h = cc
last-In (it ∷ []) p h = inl (cc)
last-In (it ∷ x ∷ its) p h = inr (last-In (x ∷ its) p h)

last-some :
    (it : ProviderState) (its : List ProviderState)
    → (p : ProviderState) × (last (it ∷ its) ≡ some p)
last-some it [] = (it, refl)
last-some it (x ∷ its) = last-some x its

weighted_pick-nil : (intn : ℤ → ℕ) → weighted_provider_pick intn [] ≡ none
unfolding weighted_provider_pick total_weight
weighted_pick-nil intn = refl

-- Whatever the random numbers and the weights, a provider that is picked is one of the list.
pub weighted_pick-In :
    (intn : ℤ → ℕ) (its : List ProviderState) (p : ProviderState)
    → weighted_provider_pick intn its ≡ some p
    → In p its
unfolding weighted_provider_pick
weighted_pick-In intn [] p h = cc (weighted_pick-nil intn)
weighted_pick-In intn (it ∷ []) p h = inl (cc)
weighted_pick-In intn (it ∷ x ∷ its) p h = ground (
  arith,
  In-get_elem? p (it ∷ x ∷ its) (intn (pos (length (it ∷ x ∷ its)))),
  pick_from-In (intn (total_weight (pos 0) (it ∷ x ∷ its))) (pos 0) (it ∷ x ∷ its) p,
  last-In (it ∷ x ∷ its) p,
)

-- With a random number below its bound, a list that is not empty gives a provider: no panic.
pub weighted_pick_total :
    (intn : ℤ → ℕ) (it : ProviderState) (its : List ProviderState)
    → ((n : ℕ) → 0 < n → intn (pos n) < n)
    → (p : ProviderState) × (weighted_provider_pick intn (it ∷ its) ≡ some p)
unfolding weighted_provider_pick
weighted_pick_total intn it [] law = (it, refl)
weighted_pick_total intn it (x ∷ its) law =
    elim (Bool-cases (leb_ℤ (total_weight (pos 0) (it ∷ x ∷ its)) (pos 0))) [
      | inl low ↦ rw low (get_elem?-lt (it ∷ x ∷ its) _ (law (length (it ∷ x ∷ its)) (omega arith)))
      | inr high ↦
          rw high
            (elim (Option-cases
              (pick_from (intn (total_weight (pos 0) (it ∷ x ∷ its))) (pos 0) (it ∷ x ∷ its))) [
                | inl missed ↦ rw missed (last-some it (x ∷ its))
                | inr (p, found) ↦ (p, rw found)
              ])
    ]
