-- ===== src/Gateway/RedisLimiter/Tests.antt =====
-- A Lua whose values are texts, a Redis that keeps its keys in a list, and the limiter on them.
use proxy2api.Base.{
  ℕ, ◌+◌, ◌≡◌, refl, sym, ap, ◌∙◌, ◌≢◌, inl, inr, Bool, Option, none, some, [], arith, ltb,
  if◌then◌else◌, lt→ltb, ℤ, pos, pos_part, ◌+ℤ◌, ltb_ℤ, Str, Result, ok, err,
}
use proxy2api.Text.{str}
use proxy2api.Text.Laws.{eq_str_refl, eq_str_iff}
use proxy2api.Text.Numbers.{format_int, parse_int}
use proxy2api.Text.Numbers.Laws.{parse_int-format_int}
use proxy2api.Dict.{Dict, lookup, insert, lookup-insert}
use proxy2api.Gateway.Limiter.{bucket_or_fresh}
use proxy2api.Gateway.Limiter.Window.{Call, call}
use proxy2api.Gateway.RedisLimiter.{
  Lua, LuaLaws, IsExact, Redis, Holds, RedisLaws, answered, redis_allow,
}
use proxy2api.Gateway.RedisLimiter.Counters.{Matches}
use proxy2api.Gateway.RedisLimiter.Exact.{IsExact-IsInt64}
use proxy2api.Gateway.RedisLimiter.InMemory.{redis_allow-Matches}

abbrev added : Option ℤ → Option ℤ → Result Str
added none b = err (str "attempt to perform arithmetic on a string value")
added (some a) none = err (str "attempt to perform arithmetic on a string value")
added (some a) (some b) = ok (format_int (a +ℤ b))

abbrev greater : Option ℤ → Option ℤ → Result Bool
greater none b = err (str "attempt to compare")
greater (some a) none = err (str "attempt to compare")
greater (some a) (some b) = ok (ltb_ℤ b a)

abbrev texts : Lua
texts = record {
  Value = Str;
  tonumber = λ s. s;
  literal = format_int;
  add = λ a b. added (parse_int a) (parse_int b);
  gt = λ a b. greater (parse_int a) (parse_int b);
}

read_back : (n : ℤ) → IsExact n → parse_int (format_int n) ≡ some n
read_back n h = parse_int-format_int n (IsExact-IsInt64 n h)

texts-LuaLaws : LuaLaws texts
texts-LuaLaws = record {
  tonumber_int = λ n. refl;
  add_exact = λ a b x y z. rw (read_back a x, read_back b y) refl;
  gt_exact = λ a b x y. rw (read_back a x, read_back b y) refl;
}

-- A text and the second in which it expires.
abbrev Entry : Type 0
Entry = Str × Option ℕ

abbrev live : ℕ → Option Entry → Option Str
live t none = none
live t (some (v, none)) = some v
live t (some (v, some at)) = if ltb t at then some v else none

abbrev number_of : Option Str → Option ℤ
number_of none = some (pos 0)
number_of (some v) = parse_int v

abbrev added_to : Str → Option ℤ → Option ℤ → Dict Entry → Result (Dict Entry)
added_to k none d db = err (str "value is not an integer or out of range")
added_to k (some n) none db = err (str "value is not an integer or out of range")
added_to k (some n) (some d) db = ok (insert k (format_int (n +ℤ d), none) db)

abbrev expiring : ℕ → Str → Option Str → Option ℤ → Dict Entry → Result (Dict Entry)
expiring t k none ttl db = ok db
expiring t k (some v) none db = err (str "value is not an integer or out of range")
expiring t k (some v) (some ttl) db = ok (insert k (v, some (t + pos_part ttl)) db)

-- A text that is added to expires no more, until it is told to.
abbrev kept : Redis texts
kept = record {
  Db = Dict Entry;
  get = λ t k db. ok (live t (lookup k db));
  incr_by = λ t k v db. added_to k (number_of (live t (lookup k db))) (parse_int v) db;
  expire = λ t k v db. expiring t k (live t (lookup k db)) (parse_int v) db;
}

kept_other :
    (k k' : Str) (e : Entry) (db : Dict Entry) → k ≢ k' → lookup k' (insert k e db) ≡ lookup k' db
kept_other k k' e db h = grind (arith, eq_str_iff k k', lookup-insert)

kept_same : (k : Str) (e : Entry) (db : Dict Entry) → lookup k (insert k e db) ≡ some e
kept_same k e db = rw (lookup-insert k k e db, eq_str_refl k) refl

unwrap : {A : Type 0} (x y : A) → ok x ≡ ok y → x ≡ y
unwrap x y h = cc

number-Holds :
    (t : ℕ) (k : Str) (n : ℤ) (db : Dict Entry)
    → Holds kept t k n db
    → IsExact n
    → number_of (live t (lookup k db)) ≡ some n
number-Holds t k n db (inl h) x =
    ap number_of (unwrap (live t (lookup k db)) (some (format_int n)) h) ∙ read_back n x
number-Holds t k n db (inr (h, zero_n)) x =
    ap number_of (unwrap (live t (lookup k db)) none h) ∙ ap some (sym zero_n)

added-other :
    (k : Str) (n d : Option ℤ) (db db' : Dict Entry) (t' : ℕ) (k' : Str)
    → added_to k n d db ≡ ok db'
    → k ≢ k'
    → live t' (lookup k' db') ≡ live t' (lookup k' db)
added-other k none d db db' t' k' h ne = absurd cc
added-other k (some n) none db db' t' k' h ne = absurd cc
added-other k (some n) (some d) db db' t' k' h ne =
    let same = unwrap (insert k (format_int (n +ℤ d), none) db) db' h in
    rw (← same) (ap (live t') (kept_other k k' _ db ne))

expiring-other :
    (t : ℕ) (k : Str) (o : Option Str) (ttl : Option ℤ) (db db' : Dict Entry) (t' : ℕ) (k' : Str)
    → expiring t k o ttl db ≡ ok db'
    → k ≢ k'
    → live t' (lookup k' db') ≡ live t' (lookup k' db)
expiring-other t k none ttl db db' t' k' h ne = let same = unwrap db db' h in rw (← same) refl
expiring-other t k (some v) none db db' t' k' h ne = absurd cc
expiring-other t k (some v) (some ttl) db db' t' k' h ne =
    let same = unwrap (insert k (v, some (t + pos_part ttl)) db) db' h in
    rw (← same) (ap (live t') (kept_other k k' _ db ne))

kept-RedisLaws : RedisLaws texts kept
kept-RedisLaws = record {
  incr_get = λ t k n d db held x y z. (
    insert k (format_int (n +ℤ d), none) db,
    rw (number-Holds t k n db held x, read_back d y) refl,
    rw (kept_same k (format_int (n +ℤ d), none) db) refl,
  );
  incr_other = λ t k v db db' t' k' h ne. ap ok (added-other k _ _ db db' t' k' h ne);
  expire_get = λ t k ttl db v x h. (
    insert k (v, some (t + ttl)) db,
    rw (unwrap (live t (lookup k db)) (some v) h, read_back (pos ttl) x) refl,
    λ t' above below. rw (kept_same k (v, some (t + ttl)) db, lt→ltb t' (t + ttl) below) refl,
  );
  expire_other = λ t k v db db' t' k' h ne. ap ok (expiring-other t k _ _ db db' t' k' h ne);
}

abbrev first_call : Call
first_call = record {
  clock = 60000000001;
  key = str "u";
  req_delta = pos 1;
  tok_delta = pos 30;
  max_req = pos 5;
  max_tok = pos 1000;
}

redis_allow-Matches_example :
    ((redis_allow texts kept 60 answered
        (str "p:")
        (str "197001010001")
        (str "u")
        (pos 1)
        (pos 30)
        (pos 5)
        (pos 1000)
        []).0
      ≡ (call first_call []).0)
    × Matches texts texts-LuaLaws kept kept-RedisLaws
        (str "p:")
        (str "197001010001")
        (str "u")
        60
        120
        (bucket_or_fresh (lookup (str "u") (call first_call []).1) 60000000000)
        (redis_allow texts kept 60 answered
          (str "p:")
          (str "197001010001")
          (str "u")
          (pos 1)
          (pos 30)
          (pos 5)
          (pos 1000)
          []).1
unfolding lookup ◌+ℤ◌
redis_allow-Matches_example =
    redis_allow-Matches texts texts-LuaLaws kept kept-RedisLaws (str "p:") (str "197001010001") 60
      120 (ground arith) (ground arith) first_call [] []
      (record {
        req_nonneg = refl;
        tok_nonneg = refl;
        req_exact = (
          record { above = omega arith; below = omega arith },
          record { above = omega arith; below = omega arith },
          record { above = omega arith; below = omega arith },
        );
        tok_exact = (
          record { above = omega arith; below = omega arith },
          record { above = omega arith; below = omega arith },
          record { above = omega arith; below = omega arith },
        );
        max_exact = (
          record { above = omega arith; below = omega arith },
          record { above = omega arith; below = omega arith },
        );
      })
      (record { req = λ t above below. inr (refl, refl); tok = λ t above below. inr (refl, refl) })
