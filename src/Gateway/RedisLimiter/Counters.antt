-- ===== src/Gateway/RedisLimiter/Counters.antt =====
-- The counters that Redis holds under the keys of a minute.
use proxy2api.Base.{
  ℕ, ◌+◌, ◌≤◌, ◌<◌, ◌≡◌, refl, ap, ◌∙◌, ◌≢◌, inl, inr, true, false, [], ◌∷◌, ◌++◌, arith,
  Bool-cases, ℤ, pos, ◌+ℤ◌, ltb_ℤ, leb_ℤ, +ℤ-zero, Str, Result, ok,
}
use proxy2api.Text.{str, eq_str}
use proxy2api.Gateway.Limiter.{MinuteBucket}
use proxy2api.Text.Numbers.{format_int, decimal, digits}
use proxy2api.Gateway.RedisLimiter.{
  Lua, LuaLaws, IsExact, Redis, Holds, RedisLaws, counter, expire_after, bump, base_key,
}

append_cancel : (p s t : Str) → p ++ s ≡ p ++ t → s ≡ t
append_cancel [] s t h = h
append_cancel (x ∷ p) s t h = append_cancel p s t cc

pub keys_differ : (p : Str) → (p ++ str ":req") ≢ (p ++ str ":tok")
keys_differ p h =
    let same : true ≡ false =
      ap (eq_str (str ":req")) (append_cancel p (str ":req") (str ":tok") h) in
    absurd cc

zero_text : str "0" ≡ format_int (pos 0)
unfolding format_int decimal digits
zero_text = refl

module _ (lua : Lua) (lua_laws : LuaLaws lua) (rd : Redis lua) (laws : RedisLaws lua rd) where
  pub counter-Holds :
      (t : ℕ) (k : Str) (n : ℤ) (db : rd.Db)
      → Holds rd t k n db
      → counter lua rd t k db ≡ ok (lua.literal n)
  counter-Holds t k n db (inl h) = rw h (ap ok (lua_laws.tonumber_int n))
  counter-Holds t k n db (inr (h, zero_n)) =
      rw (h, zero_n) (ap ok (ap lua.tonumber zero_text ∙ lua_laws.tonumber_int (pos 0)))

  -- Until `end`, Redis holds the number under the key.
  abbrev pub HoldsUntil : Str → ℕ → ℕ → ℤ → rd.Db → Type 0
  HoldsUntil k t end n db = (t' : ℕ) → t ≤ t' → t' < end → Holds rd t' k n db

  -- A call that adds a delta, which is not negative, and leaves the other keys as they are.
  pub record Bumped (k : Str) (t end : ℕ) (n d : ℤ) (db : rd.Db) (out : Result (Unit {0}) × rd.Db)
      : Type 0 where
    pub runs : out.0 ≡ ok tt
    pub holds : HoldsUntil k t end (n +ℤ d) out.1
    pub others : (t' : ℕ) (k' : Str) → k ≢ k' → rd.get t' k' out.1 ≡ rd.get t' k' db

  pub bump-Bumped :
      (t : ℕ) (k : Str) (n d : ℤ) (ttl end : ℕ) (db : rd.Db)
      → t < end
      → end ≤ t + ttl
      → IsExact (pos ttl)
      → IsExact n
      → IsExact d
      → IsExact (n +ℤ d)
      → leb_ℤ (pos 0) d ≡ true
      → HoldsUntil k t end n db
      → Bumped k t end n d db (bump lua rd t k (lua.literal d) (lua.literal (pos ttl)) db)
  bump-Bumped t k n d ttl end db soon near small n_exact exact sum_exact nonneg held =
      elim (Bool-cases (ltb_ℤ (pos 0) d)) [
        | inl e ↦
            let positive = lua_laws.gt_exact d (pos 0) exact zero-IsExact in
            let (db1, raised, now) =
              laws.incr_get t k n d db (held t (omega arith) soon) n_exact exact sum_exact in
            let (db2, expiring, later) = laws.expire_get t k ttl db1 _ small now in
            rw (bump, positive, e, raised, expire_after, expiring)
              (record {
                runs = refl;
                holds = λ t' above below. inl (later t' above (omega arith));
                others = λ t' k' ne.
                    laws.expire_other t k _ db1 db2 t' k' expiring ne
                    ∙ laws.incr_other t k _ db db1 t' k' raised ne;
              })
        | inr e ↦
            let positive = lua_laws.gt_exact d (pos 0) exact zero-IsExact in
            let zero_d : d ≡ pos 0 = ground arith in
            let same : n +ℤ d ≡ n = ap (λ x. n +ℤ x) zero_d ∙ +ℤ-zero n in
            rw (bump, positive, e)
              (record {
                runs = refl;
                holds = λ t' above below. rw same (held t' above below);
                others = λ t' k' ne. refl;
              })
      ]
    where
      zero-IsExact : IsExact (pos 0)
      zero-IsExact = record { above = omega arith; below = omega arith }

  -- Until `end`, Redis holds the counters of a bucket under the keys of a minute.
  pub record Matches (prefix minute key : Str) (t end : ℕ) (b : MinuteBucket) (db : rd.Db)
      : Type 0 where
    pub req : HoldsUntil (base_key lua rd prefix key minute ++ str ":req") t end b.req_count db
    pub tok : HoldsUntil (base_key lua rd prefix key minute ++ str ":tok") t end b.token_count db
