-- ===== src/Gateway/RedisLimiter/Exact.antt =====
-- Whole numbers that float64 holds, in the script of the limiter in Redis.
use proxy2api.Base.{
  ℕ, ◌≡◌, refl, ◌∙◌, inl, inr, true, arith, Bool-cases, ℤ, pos, ◌+ℤ◌, ltb_ℤ, leb_ℤ, IsInt64,
  add64-id, Str, Result, ok, err,
}
use proxy2api.Gateway.Limiter.{MinuteBucket, over}
use proxy2api.Gateway.Limiter.Window.{Call}
use proxy2api.Gateway.RedisLimiter.{Lua, LuaLaws, IsExact, Redis, Holds, exceeds, bump, second_bump}

pub IsExact-IsInt64 : (a : ℤ) → IsExact a → IsInt64 a
IsExact-IsInt64 a h =
    let above = h.above in
    let below = h.below in record { above = omega arith; below = omega arith }

-- What both limiters ask of a call: deltas that are not negative, and numbers that float64 holds.
pub record IsCounted (c : Call) (b : MinuteBucket) : Type 0 where
  pub req_nonneg : leb_ℤ (pos 0) c.req_delta ≡ true
  pub tok_nonneg : leb_ℤ (pos 0) c.tok_delta ≡ true
  pub req_exact : IsExact b.req_count × IsExact c.req_delta × IsExact (b.req_count +ℤ c.req_delta)
  pub tok_exact :
      IsExact b.token_count × IsExact c.tok_delta × IsExact (b.token_count +ℤ c.tok_delta)
  pub max_exact : IsExact c.max_req × IsExact c.max_tok

pub zero-IsExact : IsExact (pos 0)
zero-IsExact = record { above = omega arith; below = omega arith }

pub ttl-IsExact : IsExact (pos 65)
ttl-IsExact = record { above = omega arith; below = omega arith }

module _ (lua : Lua) (rd : Redis lua) where
  pub Holds-same :
      (t : ℕ) (k : Str) (n : ℤ) (db db' : rd.Db)
      → rd.get t k db' ≡ rd.get t k db
      → Holds rd t k n db
      → Holds rd t k n db'
  Holds-same t k n db db' same (inl h) = inl (same ∙ h)
  Holds-same t k n db db' same (inr (h, z)) = inr (same ∙ h, z)

  pub second_bump-eq :
      (t : ℕ) (k : Str) (delta ttl : lua.Value) (out : Result (Unit {0}) × rd.Db)
      → out.0 ≡ ok tt
      → (bump lua rd t k delta ttl out.1).0 ≡ ok tt
      → second_bump lua rd t k delta ttl out ≡ (ok true, (bump lua rd t k delta ttl out.1).1)
  second_bump-eq t k delta ttl (err e, db) h1 h2 = cc
  second_bump-eq t k delta ttl (ok u, db) h1 h2 = rw (second_bump, h2) refl

module _ (lua : Lua) (lua_laws : LuaLaws lua) (rd : Redis lua) where
  pub exceeds-over :
      (max count delta : ℤ)
      → IsExact max
      → IsExact count
      → IsExact delta
      → IsExact (count +ℤ delta)
      → exceeds lua rd (lua.literal max) (lua.literal count) (lua.literal delta)
        ≡ ok (over max count delta)
  exceeds-over max count delta m x d sum =
      let limited = lua_laws.gt_exact max (pos 0) m zero-IsExact in
      let added = lua_laws.add_exact count delta x d sum in
      let passed = lua_laws.gt_exact (count +ℤ delta) max sum m in
      let fits = add64-id count delta (IsExact-IsInt64 (count +ℤ delta) sum) in
      elim (Bool-cases (ltb_ℤ (pos 0) max)) [
        | inl e ↦ rw (exceeds, limited, e, added, passed, fits) refl
        | inr e ↦ rw (exceeds, limited, e) refl
      ]
