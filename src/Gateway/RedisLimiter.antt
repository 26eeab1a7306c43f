-- ===== src/Gateway/RedisLimiter.antt =====
-- internal/gateway/redis_limiter.go: `Allow` and the Lua script that it runs. Redis and the values
-- of Lua, whose numbers are float64, are parameters; their laws are the documented effects of GET,
-- INCRBY and EXPIRE on whole numbers, and that float64 is exact up to 2 ^ 53. A call of the script
-- may raise an error. The times are seconds of the server of Redis; the text of the minute,
-- `now.Format("200601021504")`, is an argument.
pub mod Counters
pub mod Exact
pub mod Script
pub mod InMemory
mod Tests
use proxy2api.Base.{
  ℕ, zero, ◌+◌, ◌-◌, ◌/◌, ◌^◌, ◌≤◌, ◌<◌, ◌≡◌, ap, ◌≢◌, ◌⊎◌, Bool, true, false, not, ◌&&◌, Option,
  none, some, ◌++◌, ltb, leb, if◌then◌else◌, ℤ, pos, pos_part, neg_part, ◌+ℤ◌, ltb_ℤ, leb_ℤ, keep,
  any, all, All, In, Str, Result, ok, err, ◌>>=◌,
}
use proxy2api.Text.{str}
use proxy2api.Text.Numbers.{format_int}

-- The values of Lua: `tonumber`, a literal, `a + b` and `a > b`; on what is no number, the last two
-- raise an error.
pub record Lua : Type 1 where
  pub Value : Type 0
  pub tonumber : Str → Value
  pub literal : ℤ → Value
  pub add : Value → Value → Result Value
  pub gt : Value → Value → Result Bool

-- A whole number that float64 holds, with those next to it.
pub record IsExact (a : ℤ) : Type 0 where
  pub above : neg_part a ≤ 2 ^ 53
  pub below : pos_part a ≤ 2 ^ 53

pub record LuaLaws (lua : Lua) : Type 0 where
  pub tonumber_int : (n : ℤ) → lua.tonumber (format_int n) ≡ lua.literal n
  pub add_exact :
      (a b : ℤ)
      → IsExact a
      → IsExact b
      → IsExact (a +ℤ b)
      → lua.add (lua.literal a) (lua.literal b) ≡ ok (lua.literal (a +ℤ b))
  pub gt_exact :
      (a b : ℤ) → IsExact a → IsExact b → lua.gt (lua.literal a) (lua.literal b) ≡ ok (ltb_ℤ b a)

-- The commands that the script calls. `redis.call` raises an error of its command.
pub record Redis (lua : Lua) : Type 1 where
  pub Db : Type 0
  pub get : ℕ → Str → Db → Result (Option Str)
  pub incr_by : ℕ → Str → lua.Value → Db → Result Db
  pub expire : ℕ → Str → lua.Value → Db → Result Db

-- `value or "0"`
abbrev pub or_zero : Option Str → Str
or_zero none = str "0"
or_zero (some v) = v

-- Redis holds the whole number `n` under the key, and 0 where it holds nothing.
abbrev pub Holds : {lua : Lua} (rd : Redis lua) → ℕ → Str → ℤ → rd.Db → Type 0
Holds rd t k n db =
    (rd.get t k db ≡ ok (some (format_int n))) ⊎ ((rd.get t k db ≡ ok none) × (n ≡ pos 0))

pub record RedisLaws (lua : Lua) (rd : Redis lua) : Type 0 where
  pub incr_get :
      (t : ℕ) (k : Str) (n d : ℤ) (db : rd.Db)
      → Holds rd t k n db
      → IsExact n
      → IsExact d
      → IsExact (n +ℤ d)
      → (db' : rd.Db) × (rd.incr_by t k (lua.literal d) db ≡ ok db')
        × (rd.get t k db' ≡ ok (some (format_int (n +ℤ d))))
  pub incr_other :
      (t : ℕ) (k : Str) (v : lua.Value) (db db' : rd.Db) (t' : ℕ) (k' : Str)
      → rd.incr_by t k v db ≡ ok db'
      → k ≢ k'
      → rd.get t' k' db' ≡ rd.get t' k' db
  pub expire_get :
      (t : ℕ) (k : Str) (ttl : ℕ) (db : rd.Db) (v : Str)
      → IsExact (pos ttl)
      → rd.get t k db ≡ ok (some v)
      → (db' : rd.Db) × (rd.expire t k (lua.literal (pos ttl)) db ≡ ok db')
        × ((t' : ℕ) → t ≤ t' → t' < t + ttl → rd.get t' k db' ≡ ok (some v))
  pub expire_other :
      (t : ℕ) (k : Str) (v : lua.Value) (db db' : rd.Db) (t' : ℕ) (k' : Str)
      → rd.expire t k v db ≡ ok db'
      → k ≢ k'
      → rd.get t' k' db' ≡ rd.get t' k' db

-- What becomes of a call of the script: it is not run, it is run and the answer is lost, or the
-- answer comes back in time.
pub data Delivery : Type 0 where
  lost : Delivery
  unanswered : Delivery
  answered : Delivery

module _ (lua : Lua) (rd : Redis lua) where
  -- `tonumber(redis.call("GET", key) or "0")`
  abbrev pub counter : ℕ → Str → rd.Db → Result lua.Value
  counter t k db = do v ← rd.get t k db; ok (lua.tonumber (or_zero v))

  -- `max > 0 and (cur + delta) > max`
  abbrev pub exceeds : (max cur delta : lua.Value) → Result Bool
  exceeds max cur delta = do
    limited ← lua.gt max (lua.literal (pos 0))
    if not limited then ok false else do sum ← lua.add cur delta; lua.gt sum max

  -- A statement that does not run leaves the database; an error after a statement keeps its effect.
  abbrev pub expire_after : ℕ → Str → lua.Value → rd.Db → Result rd.Db → Result (Unit {0}) × rd.Db
  expire_after t k ttl db (err e) = (err e, db)
  expire_after t k ttl db (ok db') = elim (rd.expire t k ttl db') [
    | err e ↦ (err e, db')
    | ok db'' ↦ (ok tt, db'')
  ]

  -- `if delta > 0 then … end`: INCRBY and EXPIRE.
  abbrev pub bump : ℕ → Str → (delta ttl : lua.Value) → rd.Db → Result (Unit {0}) × rd.Db
  bump t k delta ttl db = elim (lua.gt delta (lua.literal (pos 0))) [
    | err e ↦ (err e, db)
    | ok positive ↦
        if positive then expire_after t k ttl db (rd.incr_by t k delta db) else (ok tt, db)
  ]

  -- The first three blocks of the script: whether the counters allow the call.
  abbrev pub allowed :
      ℕ
      → (req_key tok_key : Str) → (req_delta tok_delta max_req max_tok : lua.Value) → rd.Db
      → Result Bool
  allowed t req_key tok_key req_delta tok_delta max_req max_tok db = do
    req_cur ← counter t req_key db
    tok_cur ← counter t tok_key db
    too_many ← exceeds max_req req_cur req_delta
    if too_many
        then ok false
        else do too_long ← exceeds max_tok tok_cur tok_delta; ok (not too_long)

  -- The two blocks that count the call.
  abbrev pub second_bump :
      ℕ → Str → (delta ttl : lua.Value) → Result (Unit {0}) × rd.Db → Result Bool × rd.Db
  second_bump t k delta ttl (err e, db) = (err e, db)
  second_bump t k delta ttl (ok _, db) = elim ((bump t k delta ttl db).0) [
    | err e ↦ (err e, (bump t k delta ttl db).1)
    | ok _ ↦ (ok true, (bump t k delta ttl db).1)
  ]

  abbrev pub after_tests :
      ℕ
      → (req_key tok_key : Str) → (req_delta tok_delta ttl : lua.Value) → rd.Db
      → Result Bool
      → Result Bool × rd.Db
  after_tests t req_key tok_key req_delta tok_delta ttl db (err e) = (err e, db)
  after_tests t req_key tok_key req_delta tok_delta ttl db (ok go) =
      if not go
      then (ok false, db)
      else second_bump t tok_key tok_delta ttl (bump t req_key req_delta ttl db)

  unfoldable pub run_script :
      ℕ
      → (req_key tok_key : Str) → (req_delta tok_delta max_req max_tok ttl : lua.Value) → rd.Db
      → Result Bool × rd.Db
  run_script t req_key tok_key req_delta tok_delta max_req max_tok ttl db =
      after_tests t req_key tok_key req_delta tok_delta ttl db
        (allowed t req_key tok_key req_delta tok_delta max_req max_tok db)

  -- The script on the texts of its arguments.
  unfoldable pub script :
      ℕ
      → (req_key tok_key : Str) → (req_delta tok_delta max_req max_tok ttl : Str) → rd.Db
      → Result Bool × rd.Db
  script t req_key tok_key req_delta tok_delta max_req max_tok ttl db =
      run_script t req_key tok_key (lua.tonumber req_delta) (lua.tonumber tok_delta)
        (lua.tonumber max_req) (lua.tonumber max_tok) (lua.tonumber ttl) db

  -- An error refuses the request.
  abbrev pub is_one : Result Bool → Bool
  is_one (err e) = false
  is_one (ok b) = b

  abbrev pub delivered : Delivery → rd.Db → Result Bool × rd.Db → Bool × rd.Db
  delivered lost db out = (false, db)
  delivered unanswered db out = (false, out.1)
  delivered answered db out = (is_one out.0, out.1)

  abbrev pub base_key : (prefix key minute : Str) → Str
  base_key prefix key minute = prefix ++ key ++ str ":" ++ minute

  -- `Allow`, which prints its numbers as arguments of the script
  unfoldable pub redis_allow :
      ℕ
      → Delivery
      → (prefix minute key : Str) → (req_delta tok_delta max_req max_tok : ℤ) → rd.Db
      → Bool × rd.Db
  redis_allow t delivery prefix minute key req_delta tok_delta max_req max_tok db =
      if leb_ℤ max_req (pos 0) && leb_ℤ max_tok (pos 0)
      then (true, db)
      else delivered delivery db (
          script t (base_key prefix key minute ++ str ":req")
            (base_key prefix key minute ++ str ":tok") (format_int req_delta) (format_int tok_delta)
            (format_int max_req) (format_int max_tok) (format_int (pos 65)) db)
