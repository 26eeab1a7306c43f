-- ===== src/Text/Numbers.antt =====
-- Numbers as text: `strconv.FormatInt` and `ParseInt` in base ten, and `hex.EncodeToString`.
pub mod Laws
use proxy2api.Base.{
  ℕ, zero, suc, ◌+◌, ◌-◌, ◌*◌, ◌/◌, ◌%◌, ◌^◌, String, ap, Bool, true, false, ◌&&◌, Option, none,
  some, [], ◌∷◌, ◌++◌, ltb, leb, ◌==◌, if◌then◌else◌, ℤ, pos, negsuc, sub_ℕ, In, Str, err,
}

-- The digits of a number below 10 ^ fuel.
unfoldable pub digits : ℕ → ℕ → Str
digits zero n = []
digits (suc fuel) n = elim (ltb n 10) [
  | true ↦ (48 + n) ∷ []
  | false ↦ digits fuel (n / 10) ++ (48 + n % 10) ∷ []
]

unfoldable pub decimal : ℕ → Str
decimal n = digits (suc n) n

unfoldable pub format_int : ℤ → Str
format_int (pos n) = decimal n
format_int (negsuc n) = 45 ∷ decimal (suc n)

abbrev pub is_digit : ℕ → Bool
is_digit c = leb 48 c && leb c 57

unfoldable pub read_digits : ℕ → Str → Option ℕ
read_digits acc [] = some acc
read_digits acc (c ∷ cs) = if is_digit c then read_digits (acc * 10 + (c - 48)) cs else none

unfoldable pub read_number : Str → Option ℕ
read_number [] = none
read_number (c ∷ cs) = read_digits 0 (c ∷ cs)

abbrev pub nonneg64 : Option ℕ → Option ℤ
nonneg64 none = none
nonneg64 (some n) = if ltb n (2 ^ 63) then some (pos n) else none

abbrev pub neg64 : Option ℕ → Option ℤ
neg64 none = none
neg64 (some n) = if leb n (2 ^ 63) then some (sub_ℕ 0 n) else none

-- `strconv.ParseInt(s, 10, 64)`: `none` where it gives an error.
unfoldable pub parse_int : Str → Option ℤ
parse_int [] = none
parse_int (c ∷ s) =
    if c == 45
    then neg64 (read_number s)
    else if c == 43
    then nonneg64 (read_number s)
    else nonneg64 (read_number (c ∷ s))

abbrev hex_digit : ℕ → ℕ
hex_digit n = if ltb n 10 then 48 + n else 87 + n

-- Two lower-case digits for each byte.
unfoldable pub hex : Str → Str
hex [] = []
hex (b ∷ bs) = hex_digit (b / 16) ∷ hex_digit (b % 16) ∷ hex bs
