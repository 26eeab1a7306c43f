-- ===== src/Base/Outcome.antt =====
-- A value or an error text: Go's pair of a result and an `error`.
use mathlib.Core.Path.{◌≡◌, refl}
use mathlib.Core.List.{List}
use Prim.Native.Nat.{ℕ}

-- A Go string is a sequence of bytes.
abbrev pub Str : Type 0
Str = List ℕ

pub data Result {ℓ} (V : Type ℓ) : Type ℓ where
  ok : V → Result V
  err : (text : Str) → Result V

-- `if err != nil { return err }` after each call.
infixl 5 ◌>>=◌
abbrev pub ◌>>=◌ {ℓ κ} : {V : Type ℓ} {W : Type κ} → Result V → (V → Result W) → Result W
err text >>= next = err text
ok v >>= next = next v

-- A chain that ends well went well at its first call.
pub >>=-eq-ok {ℓ κ} :
    {V : Type ℓ} {W : Type κ} (first : Result V) (next : V → Result W) {w : W}
    → (first >>= next) ≡ ok w
    → (v : V) × (first ≡ ok v) × (next v ≡ ok w)
>>=-eq-ok (err text) next well = cc
>>=-eq-ok (ok v) next well = (v, refl, well)
