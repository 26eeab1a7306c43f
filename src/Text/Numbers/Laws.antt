-- ===== src/Text/Numbers/Laws.antt =====
-- A number that is printed is read back.
use proxy2api.Base.{
  ℕ, zero, suc, ◌+◌, ◌-◌, ◌*◌, ◌/◌, ◌%◌, ◌^◌, ◌<◌, ◌≡◌, refl, sym, ap, ◌∙◌, inl, inr, Bool, true,
  false, ◌&&◌, some, [], ◌∷◌, ◌++◌, arith, ltb, leb, ◌==◌, lt→ltb, Bool-cases, ℤ, pos, negsuc,
  sub_ℕ, IsInt64, Str,
}
use mathlib.Core.List.{reverse, reverse-append, reverse-reverse}
use proxy2api.Text.{is_empty, trim_space, trim_left, trim_right_rev}
use proxy2api.Text.Numbers.{
  digits, decimal, format_int, is_digit, read_digits, read_number, parse_int,
}

read_digits-append :
    (acc : ℕ) (s : Str) (c m : ℕ)
    → is_digit c ≡ true
    → read_digits acc s ≡ some m
    → read_digits acc (s ++ c ∷ []) ≡ some (m * 10 + (c - 48))
unfolding read_digits
read_digits-append acc [] c m h k = let same : acc ≡ m = cc in rw (h, same) refl
read_digits-append acc (d ∷ s) c m h k = elim (Bool-cases (is_digit d)) [
  | inl e ↦ rw e (read_digits-append (acc * 10 + (d - 48)) s c m h (rw e at k))
  | inr e ↦ absurd (ground arith)
]

pick : (fuel n : ℕ) → Bool → Str
pick fuel n b = elim b [ true ↦ (48 + n) ∷ [] | false ↦ digits fuel (n / 10) ++ (48 + n % 10) ∷ [] ]

digits-small : (fuel n : ℕ) → ltb n 10 ≡ true → digits (suc fuel) n ≡ (48 + n) ∷ []
unfolding digits pick
digits-small fuel n h = ap (pick fuel n) h

digits-big :
    (fuel n : ℕ)
    → ltb n 10 ≡ false
    → digits (suc fuel) n ≡ digits fuel (n / 10) ++ (48 + n % 10) ∷ []
unfolding digits pick
digits-big fuel n h = ap (pick fuel n) h

-- The digits of `n` for fuel that is more than `n`.
read_digits-digits : (fuel n : ℕ) → n < fuel → read_digits 0 (digits fuel n) ≡ some n
unfolding read_digits
read_digits-digits zero n h = absurd (omega arith)
read_digits-digits (suc fuel) n h = elim (Bool-cases (ltb n 10)) [
  | inl e ↦
      let digit : is_digit (48 + n) ≡ true = ground arith in
      let value : 0 * 10 + ((48 + n) - 48) ≡ n = omega arith in
      rw (digits-small fuel n e, digit, value) refl
  | inr e ↦
      let value : n / 10 * 10 + ((48 + n % 10) - 48) ≡ n = omega arith in
      rw (digits-big fuel n e) (
        read_digits-append 0 (digits fuel (n / 10)) (48 + n % 10) (n / 10) (ground arith)
          (read_digits-digits fuel (n / 10) (ground arith))
        ∙ ap some value)
]

-- The digits begin and end with a digit.
digits-cons :
    (fuel n : ℕ) → n < fuel → (c : ℕ) × (s : Str) × (digits fuel n ≡ c ∷ s) × (is_digit c ≡ true)
digits-cons zero n h = absurd (omega arith)
digits-cons (suc fuel) n h = elim (Bool-cases (ltb n 10)) [
  | inl e ↦ (48 + n, [], digits-small fuel n e, ground arith)
  | inr e ↦
      let (c, s, first, digit) = digits-cons fuel (n / 10) (ground arith) in
      (
        c,
        s ++ (48 + n % 10) ∷ [],
        digits-big fuel n e ∙ ap (λ t. t ++ (48 + n % 10) ∷ []) first,
        digit,
      )
]

digits-end :
    (fuel n : ℕ)
    → n < fuel
    → (c : ℕ) × (s : Str) × (digits fuel n ≡ s ++ c ∷ []) × (is_digit c ≡ true)
digits-end zero n h = absurd (omega arith)
digits-end (suc fuel) n h = elim (Bool-cases (ltb n 10)) [
  | inl e ↦ (48 + n, [], digits-small fuel n e, ground arith)
  | inr e ↦ (48 + n % 10, digits fuel (n / 10), digits-big fuel n e, ground arith)
]

read_number-decimal : (n : ℕ) → read_number (decimal n) ≡ some n
unfolding read_number decimal
read_number-decimal n =
    let (c, s, first, digit) = digits-cons (suc n) n (omega arith) in
    let whole = read_digits-digits (suc n) n (omega arith) in
    ap read_number first ∙ ap (read_digits 0) (sym first) ∙ whole

-- A 64-bit integer that is printed is read back.
pub parse_int-format_int : (a : ℤ) → IsInt64 a → parse_int (format_int a) ≡ some a
unfolding parse_int format_int decimal
parse_int-format_int (pos n) h =
    let (c, s, first, digit) = digits-cons (suc n) n (omega arith) in
    let read : read_number (c ∷ s) ≡ some n = ap read_number (sym first) ∙ read_number-decimal n in
    let minus : (c == 45) ≡ false = ground arith in
    let plus : (c == 43) ≡ false = ground arith in
    let small : ltb n (2 ^ 63) ≡ true = lt→ltb n (2 ^ 63) h.below in
    rw (first, minus, plus, read, small) refl
parse_int-format_int (negsuc n) h =
    let small : leb (suc n) (2 ^ 63) ≡ true = ground (arith, h.above) in
    let negative : sub_ℕ 0 (suc n) ≡ negsuc n = ground arith in
    rw (read_number-decimal (suc n), small) (ap some negative)

-- A byte that no white space has: an ASCII character from `+` on.
abbrev is_plain : ℕ → Bool
is_plain c = leb 43 c && leb c 126

trim_left-plain : (c : ℕ) (s : Str) → is_plain c ≡ true → trim_left (c ∷ s) ≡ c ∷ s
unfolding trim_left
trim_left-plain c [] h = ground arith
trim_left-plain c (a ∷ []) h = ground arith
trim_left-plain c (a ∷ b ∷ s) h = ground arith

trim_right-plain : (c : ℕ) (s : Str) → is_plain c ≡ true → trim_right_rev (c ∷ s) ≡ c ∷ s
unfolding trim_right_rev
trim_right-plain c [] h = ground arith
trim_right-plain c (a ∷ []) h = ground arith
trim_right-plain c (a ∷ b ∷ s) h = ground arith

trim_space-plain :
    (c : ℕ) (s : Str) (d : ℕ) (t text : Str)
    → is_plain c ≡ true
    → is_plain d ≡ true
    → text ≡ c ∷ s
    → text ≡ t ++ d ∷ []
    → trim_space text ≡ text
unfolding trim_space
trim_space-plain c s d t text hc hd first last =
    let left : trim_left text ≡ text = rw first (trim_left-plain c s hc) in
    let back : reverse text ≡ d ∷ reverse t = ap reverse last ∙ reverse-append t (d ∷ []) in
    let right : trim_right_rev (reverse text) ≡ reverse text =
      rw back (trim_right-plain d (reverse t) hd) in
    ap (λ u. reverse (trim_right_rev (reverse u))) left ∙ ap reverse right ∙ reverse-reverse text

-- A number that is printed has no white space around it.
pub trim_space-format_int : (a : ℤ) → trim_space (format_int a) ≡ format_int a
unfolding format_int decimal
trim_space-format_int (pos n) =
    let (c, s, first, digit) = digits-cons (suc n) n (omega arith) in
    let (d, t, last, digit2) = digits-end (suc n) n (omega arith) in
    trim_space-plain c s d t (digits (suc n) n) (ground arith) (ground arith) first last
trim_space-format_int (negsuc n) =
    let (d, t, last, digit) = digits-end (suc (suc n)) (suc n) (omega arith) in
    trim_space-plain 45 (digits (suc (suc n)) (suc n)) d (45 ∷ t)
      (45 ∷ digits (suc (suc n)) (suc n)) refl (ground arith) refl (ap (λ u. 45 ∷ u) last)

pub format_int-some : (a : ℤ) → is_empty (format_int a) ≡ false
unfolding format_int decimal
format_int-some (pos n) =
    let (c, s, first, digit) = digits-cons (suc n) n (omega arith) in ap is_empty first
format_int-some (negsuc n) = refl
