-- ===== src/Text/Laws.antt =====
-- Laws of the text functions, and tests of them.
use proxy2api.Base.{
  ℕ, ◌≡◌, refl, sym, ap, ◌∙◌, ◌≢◌, ◌↔◌, inl, inr, true, false, not, none, some, [], ◌∷◌, ◌++◌,
  arith, ◌==◌, ==_iff, Bool-cases, Option-cases, all, Str,
}
use mathlib.Core.Bool.{false≢true}
use proxy2api.Text.{
  str, eq_str, has_prefix, trim_space, split, split2, before_last, to_lower, equal_fold, trim,
}

pub eq_str_refl : (s : Str) → eq_str s s ≡ true
eq_str_refl [] = refl
eq_str_refl (x ∷ s) = ground (arith, eq_str_refl s)

pub eq_str_sound : (s t : Str) → eq_str s t ≡ true → s ≡ t
eq_str_sound [] [] h = refl
eq_str_sound [] (y ∷ t) h = cc
eq_str_sound (x ∷ s) [] h = cc
eq_str_sound (x ∷ s) (y ∷ t) h = ground (arith, eq_str_sound s t)

pub eq_str_iff : (s t : Str) → (eq_str s t ≡ true) ↔ (s ≡ t)
eq_str_iff s t = (eq_str_sound s t, λ e. rw e (eq_str_refl t))

pub has_prefix_append : (p s : Str) → has_prefix (p ++ s) p ≡ true
unfolding has_prefix
has_prefix_append [] [] = refl
has_prefix_append [] (x ∷ s) = refl
has_prefix_append (x ∷ p) s = ground (arith, has_prefix_append p s)

pub has_prefix_self : (p : Str) → has_prefix p p ≡ true
unfolding has_prefix
has_prefix_self [] = refl
has_prefix_self (x ∷ p) = ground (arith, has_prefix_self p)

trim_tests :
    (trim_space (str "  a b\t ") ≡ str "a b")
    × (trim_space (0xc2 ∷ 0xa0 ∷ 97 ∷ 0xe3 ∷ 0x80 ∷ 0x80 ∷ 32 ∷ []) ≡ str "a")
    × (trim_space (str " \n ") ≡ [])
unfolding trim_space
trim_tests = (refl, refl, refl)

split_tests :
    (split b',' (str "1, 2,") ≡ str "1" ∷ str " 2" ∷ [] ∷ [])
    × (split2 b' ' (str "Bearer a b") ≡ some (str "Bearer", str "a b"))
    × (split2 b' ' (str "Bearer") ≡ none)
    × (before_last b':' (str "a:b:80") ≡ some (str "a:b"))
    × (trim (λ c. c == b'[') (str "[[::1[") ≡ str "::1")
unfolding split split2 before_last trim
split_tests = (refl, refl, refl, refl, refl)

fold_tests :
    (equal_fold (str "bEARER") (str "Bearer") ≡ true)
    × (to_lower (str "OwNer") ≡ str "owner")
    × (to_lower (97 ∷ 100 ∷ 109 ∷ 0xc4 ∷ 0xb0 ∷ 110 ∷ []) ≡ str "admin")
unfolding equal_fold to_lower
fold_tests = (refl, refl, refl)

pub eq_str-ne : (s t : Str) → eq_str s t ≡ false → s ≢ t
eq_str-ne s t h e = false≢true (sym h ∙ (eq_str_iff s t).1 e)

pub split2-append :
    (sep : ℕ) (s t : Str)
    → all (λ c. not (c == sep)) s ≡ true
    → split2 sep (s ++ sep ∷ t) ≡ some (s, t)
unfolding split2
split2-append sep [] t h = ground arith
split2-append sep (c ∷ s) t h =
    let other : (c == sep) ≡ false = ground arith in
    rw (other, split2-append sep s t (ground arith)) refl

pub split2-eq-some :
    (sep : ℕ) (s l r : Str)
    → split2 sep s ≡ some (l, r)
    → (s ≡ l ++ sep ∷ r) × (all (λ c. not (c == sep)) l ≡ true)
unfolding split2
split2-eq-some sep [] l r h = absurd cc
split2-eq-some sep (c ∷ s) l r h = elim (Bool-cases (c == sep)) [
  | inl e ↦
      let found : some ([], s) ≡ some (l, r) = rw e at h in
      let same_l : [] ≡ l = cc in
      let same_r : s ≡ r = cc in rw (← same_l, ← same_r, (==_iff c sep).0 e) (refl, refl)
  | inr e ↦ elim (Option-cases (split2 sep s)) [
    | inl missing ↦ let found = (rw (e, missing) at h) in absurd cc
    | inr ((l', r'), q) ↦
        let found : some (c ∷ l', r') ≡ some (l, r) = rw (e, q) at h in
        let same_l : c ∷ l' ≡ l = cc in
        let same_r : r' ≡ r = cc in
        let (whole, plain) = split2-eq-some sep s l' r' q in
        rw (← same_l, ← same_r) (ap (λ x. c ∷ x) whole, ground arith)
  ]
]
