-- ===== src/Text.antt =====
-- Go strings as bytes, and what the program uses of the package strings: TrimSpace, Split, SplitN,
-- HasPrefix, Index, LastIndex, Trim, EqualFold and ToLower. White space is that of Unicode, read
-- from its UTF-8 bytes. `equal_fold` and `to_lower` are exact where one side is an ASCII text with
-- no `k` and no `s`, which is how the program uses them.
pub mod Laws
pub mod Numbers
use Prim.Native.Char.{code}
use proxy2api.Base.{
  ℕ, ◌+◌, ◌-◌, String, ap, Bool, true, false, ◌&&◌, ◌||◌, Option, none, some, List, [], ◌∷◌, map,
  leb, ◌==◌, if◌then◌else◌, length, take, drop, In, Str,
}
use mathlib.Core.List.{reverse}

-- The bytes of an ASCII literal.
abbrev pub str : String → Str
str String.[] = []
str (String.◌∷◌ c s) = code c ∷ str s

abbrev pub eq_str : Str → Str → Bool
eq_str [] [] = true
eq_str [] (y ∷ ys) = false
eq_str (x ∷ xs) [] = false
eq_str (x ∷ xs) (y ∷ ys) = x == y && eq_str xs ys

-- `s == ""`
abbrev pub is_empty : Str → Bool
is_empty [] = true
is_empty (x ∷ xs) = false

-- `strings.HasPrefix(s, p)`
unfoldable pub has_prefix : Str → Str → Bool
has_prefix s [] = true
has_prefix [] (p ∷ ps) = false
has_prefix (x ∷ xs) (p ∷ ps) = x == p && has_prefix xs ps

-- `strings.TrimPrefix(s, p)`
unfoldable pub trim_prefix : Str → Str → Str
unfolding has_prefix
trim_prefix s p = if has_prefix s p then drop (length p) s else s

-- \t \n \v \f \r and the space
abbrev ascii_space : ℕ → Bool
ascii_space c = (leb 9 c && leb c 13) || c == 32

-- U+0085 and U+00A0
abbrev space2 : ℕ → ℕ → Bool
space2 a b = a == 0xc2 && (b == 0x85 || b == 0xa0)

-- U+1680, U+2000 to U+200A, U+2028, U+2029, U+202F, U+205F and U+3000
abbrev space3 : ℕ → ℕ → ℕ → Bool
space3 a b c =
    (a == 0xe1 && b == 0x9a && c == 0x80)
    || (a == 0xe2
        && b == 0x80
        && ((leb 0x80 c && leb c 0x8a) || c == 0xa8 || c == 0xa9 || c == 0xaf))
    || (a == 0xe2 && b == 0x81 && c == 0x9f)
    || (a == 0xe3 && b == 0x80 && c == 0x80)

-- The white space is taken off the front, a character of one, two or three bytes at a time.
unfoldable pub trim_left : Str → Str
trim_left [] = []
trim_left (a ∷ []) = if ascii_space a then [] else a ∷ []
trim_left (a ∷ b ∷ []) =
    if ascii_space a then trim_left (b ∷ []) else if space2 a b then [] else a ∷ b ∷ []
trim_left (a ∷ b ∷ c ∷ s) =
    let after1 = trim_left (b ∷ c ∷ s) in
    let after2 = trim_left (c ∷ s) in
    let after3 = trim_left s in
    if ascii_space a
    then after1
    else if space2 a b
    then after2
    else if space3 a b c
    then after3
    else a ∷ b ∷ c ∷ s

-- The same on the reversed bytes.
unfoldable pub trim_right_rev : Str → Str
trim_right_rev [] = []
trim_right_rev (a ∷ []) = if ascii_space a then [] else a ∷ []
trim_right_rev (b ∷ a ∷ []) =
    if ascii_space b then trim_right_rev (a ∷ []) else if space2 a b then [] else b ∷ a ∷ []
trim_right_rev (c ∷ b ∷ a ∷ s) =
    let after1 = trim_right_rev (b ∷ a ∷ s) in
    let after2 = trim_right_rev (a ∷ s) in
    let after3 = trim_right_rev s in
    if ascii_space c
    then after1
    else if space2 b c
    then after2
    else if space3 a b c
    then after3
    else c ∷ b ∷ a ∷ s

-- `strings.TrimSpace(s)`
unfoldable pub trim_space : Str → Str
unfolding trim_left trim_right_rev
trim_space s = reverse (trim_right_rev (reverse (trim_left s)))

abbrev onto_first : ℕ → List Str → List Str
onto_first x [] = (x ∷ []) ∷ []
onto_first x (p ∷ ps) = (x ∷ p) ∷ ps

-- `strings.Split(s, sep)` at a separator of one byte
unfoldable pub split : ℕ → Str → List Str
split sep [] = [] ∷ []
split sep (x ∷ xs) = if x == sep then [] ∷ split sep xs else onto_first x (split sep xs)

abbrev onto_left : ℕ → Option (Str × Str) → Option (Str × Str)
onto_left x none = none
onto_left x (some (l, r)) = some (x ∷ l, r)

-- `strings.SplitN(s, sep, 2)`: the two parts, or `none` where the separator is missing
unfoldable pub split2 : ℕ → Str → Option (Str × Str)
split2 sep [] = none
split2 sep (x ∷ xs) = if x == sep then some ([], xs) else onto_left x (split2 sep xs)

-- `remote[:i]` for `i = strings.LastIndex(remote, sep)`, or `none` where the separator is missing
unfoldable pub before_last : ℕ → Str → Option Str
before_last sep [] = none
before_last sep (x ∷ xs) = elim (before_last sep xs) [
  | some l ↦ some (x ∷ l)
  | none ↦ if x == sep then some [] else none
]

abbrev drop_while : (ℕ → Bool) → Str → Str
drop_while p [] = []
drop_while p (x ∷ xs) = if p x then drop_while p xs else x ∷ xs

-- `strings.Trim(s, cutset)` for a cutset of ASCII bytes, given as a test
unfoldable pub trim : (ℕ → Bool) → Str → Str
trim p s = reverse (drop_while p (reverse (drop_while p s)))

abbrev lower : ℕ → ℕ
lower c = if leb 65 c && leb c 90 then c + 32 else c

-- `strings.ToLower(s)`: beside the ASCII letters, U+0130 and U+212A have an ASCII lower case.
unfoldable pub to_lower : Str → Str
to_lower [] = []
to_lower (a ∷ []) = lower a ∷ []
to_lower (a ∷ b ∷ []) = if a == 0xc4 && b == 0xb0 then 105 ∷ [] else lower a ∷ to_lower (b ∷ [])
to_lower (a ∷ b ∷ c ∷ s) =
    let after1 = to_lower (b ∷ c ∷ s) in
    let after2 = to_lower (c ∷ s) in
    let after3 = to_lower s in
    if a == 0xc4 && b == 0xb0
    then 105 ∷ after2
    else if a == 0xe2 && b == 0x84 && c == 0xaa
    then 107 ∷ after3
    else lower a ∷ after1

-- `strings.EqualFold(s, t)`
unfoldable pub equal_fold : Str → Str → Bool
equal_fold s t = eq_str (map lower s) (map lower t)
