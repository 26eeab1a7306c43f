-- ===== src/Float.antt =====
-- float64, as its 64 bits. The order with zero is read from the bits; products and conversions are
-- a parameter, since they are the processor's: what the program relies on is not stated here.
use proxy2api.Base.{ℕ, Bool, ◌&&◌, ◌||◌, ltb, leb, ◌==◌, ℤ}

abbrev pub Float64 : Type 0
Float64 = ℕ

-- 1.0
abbrev pub one : Float64
one = 0x3ff0000000000000

-- `x > 0`: no sign bit, not zero, not a NaN (infinity is 0x7ff0000000000000).
abbrev pub is_positive : Float64 → Bool
is_positive x = ltb 0 x && leb x 0x7ff0000000000000

-- `x <= 0`: zero, or a sign bit on what is not a NaN.
abbrev pub is_nonpositive : Float64 → Bool
is_nonpositive x = x == 0 || (leb 0x8000000000000000 x && leb x 0xfff0000000000000)

pub record FloatOps : Type 0 where
  pub mul : Float64 → Float64 → Float64
  pub of_int : ℤ → Float64
  pub to_int : Float64 → ℤ
