-- ===== src/Gateway/RedisLimiter/InMemory.antt =====
-- The limiter in Redis against the limiter in memory.
use proxy2api.Base.{
  ℕ, ◌+◌, ◌≤◌, ◌<◌, ◌≡◌, refl, Bool, true, false, ◌&&◌, Option, none, some, arith, ℤ, pos, leb_ℤ,
  add64, Str,
}
use proxy2api.Dict.{lookup}
use proxy2api.Gateway.Limiter.{MinuteBucket, MinuteLimiter, truncate_minute, bucket_or_fresh, over}
use proxy2api.Gateway.Limiter.Window.{Call, call, on_bucket, call-on_bucket}
use proxy2api.Gateway.RedisLimiter.{Lua, LuaLaws, Redis, RedisLaws, answered, redis_allow}
use proxy2api.Gateway.RedisLimiter.Counters.{Matches}
use proxy2api.Gateway.RedisLimiter.Exact.{IsCounted}
use proxy2api.Gateway.RedisLimiter.Script.{redis_call, script_result, raised, redis_call-eq}

module _ (lua : Lua) (lua_laws : LuaLaws lua) (rd : Redis lua) (laws : RedisLaws lua rd) where
  module _ (prefix minute : Str) (t end : ℕ) (soon : t < end) (near : end ≤ t + 65) (c : Call) where
    -- A bucket of this minute is not stale.
    kept_bucket :
        (o : Option MinuteBucket) (w : ℕ) (x y : ℤ)
        → bucket_or_fresh (some (record (bucket_or_fresh o w) { req_count = x; token_count = y })) w
          ≡ record (bucket_or_fresh o w) { req_count = x; token_count = y }
    kept_bucket none w x y = ground arith
    kept_bucket (some b) w x y = ground arith

    -- One call on the counters of a bucket.
    on_bucket-Matches :
        (o : Option MinuteBucket) (db : rd.Db)
        → IsCounted c (bucket_or_fresh o (truncate_minute c.clock))
        → Matches lua lua_laws rd laws prefix minute c.key t end
            (bucket_or_fresh o (truncate_minute c.clock))
            db
        → ((redis_call lua lua_laws rd laws prefix minute t end soon near c db).0
            ≡ (on_bucket c o).0)
          × Matches lua lua_laws rd laws prefix minute c.key t end
              (bucket_or_fresh (on_bucket c o).1 (truncate_minute c.clock))
              (redis_call lua lua_laws rd laws prefix minute t end soon near c db).1
    on_bucket-Matches o db counted m =
        rw
          (redis_call-eq lua lua_laws rd laws prefix minute t end soon near c (bucket_or_fresh o w)
            db counted m)
          (tested (leb_ℤ c.max_req (pos 0) && leb_ℤ c.max_tok (pos 0))
            (over c.max_req (bucket_or_fresh o w).req_count c.req_delta)
            (over c.max_tok (bucket_or_fresh o w).token_count c.tok_delta) refl refl refl)
      where
        w : ℕ
        w = truncate_minute c.clock

        tested :
            (z e1 e2 : Bool)
            → (leb_ℤ c.max_req (pos 0) && leb_ℤ c.max_tok (pos 0)) ≡ z
            → over c.max_req (bucket_or_fresh o w).req_count c.req_delta ≡ e1
            → over c.max_tok (bucket_or_fresh o w).token_count c.tok_delta ≡ e2
            → ((script_result lua lua_laws rd laws prefix minute t end soon near c db z e1 e2).0
                ≡ (on_bucket c o).0)
              × Matches lua lua_laws rd laws prefix minute c.key t end
                  (bucket_or_fresh (on_bucket c o).1 w)
                  (script_result lua lua_laws rd laws prefix minute t end soon near c db z e1 e2).1
        tested true e1 e2 h0 h1 h2 =
            let run : on_bucket c o ≡ (true, o) = rw h0 refl in rw run (refl, m)
        tested false true e2 h0 h1 h2 =
            let run : on_bucket c o ≡ (false, some (bucket_or_fresh o w)) = rw (h0, h1) refl in
            rw
              (
                run,
                kept_bucket o w (bucket_or_fresh o w).req_count (bucket_or_fresh o w).token_count,
              )
              (refl, m)
        tested false false true h0 h1 h2 =
            let run : on_bucket c o ≡ (false, some (bucket_or_fresh o w)) = rw (h0, h1, h2) refl in
            rw
              (
                run,
                kept_bucket o w (bucket_or_fresh o w).req_count (bucket_or_fresh o w).token_count,
              )
              (refl, m)
        tested false false false h0 h1 h2 =
            let run : on_bucket c o ≡ (
              true,
              some (record (bucket_or_fresh o w) {
                req_count = add64 (bucket_or_fresh o w).req_count c.req_delta;
                token_count = add64 (bucket_or_fresh o w).token_count c.tok_delta;
              }),
            ) =
              rw (h0, h1, h2) refl in
            rw
              (
                run,
                kept_bucket o w (add64 (bucket_or_fresh o w).req_count c.req_delta)
                    (add64 (bucket_or_fresh o w).token_count c.tok_delta),
              )
              (
                refl,
                raised lua lua_laws rd laws prefix minute t end soon near c (bucket_or_fresh o w) db
                    counted m,
              )

    -- Within a minute, the limiter in Redis whose script answers in time gives the same answer as
    -- the limiter in memory, and after the call Redis holds the counters that the bucket holds, when
    -- it held them before, the deltas are not negative, counters, deltas, sums and limits are at most
    -- 2 ^ 53, up to which the float64 of Lua is exact, and all of it lies within the 65 seconds for
    -- which the keys last.
    pub redis_allow-Matches :
        (l : MinuteLimiter) (db : rd.Db)
        → IsCounted c (bucket_or_fresh (lookup c.key l) (truncate_minute c.clock))
        → Matches lua lua_laws rd laws prefix minute c.key t end
            (bucket_or_fresh (lookup c.key l) (truncate_minute c.clock))
            db
        → ((redis_allow lua rd t answered prefix minute c.key c.req_delta c.tok_delta c.max_req
              c.max_tok db).0
            ≡ (call c l).0)
          × Matches lua lua_laws rd laws prefix minute c.key t end
              (bucket_or_fresh (lookup c.key (call c l).1) (truncate_minute c.clock))
              (redis_allow lua rd t answered prefix minute c.key c.req_delta c.tok_delta c.max_req
                c.max_tok db).1
    redis_allow-Matches l db counted m =
        let (answer, left) = call-on_bucket c l in
        rw (answer, left) (on_bucket-Matches (lookup c.key l) db counted m)
