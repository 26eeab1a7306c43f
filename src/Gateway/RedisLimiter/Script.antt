-- ===== src/Gateway/RedisLimiter/Script.antt =====
-- What the script of the limiter in Redis does, for the counters that Redis holds.
use proxy2api.Base.{
  ℕ, ◌+◌, ◌≤◌, ◌<◌, ◌≡◌, refl, sym, ap, ◌∙◌, Bool, true, false, not, ◌&&◌, ◌++◌, arith,
  if◌then◌else◌, pos, ◌+ℤ◌, leb_ℤ, add64, add64-id, Str, Result, ok,
}
use proxy2api.Text.{str}
use proxy2api.Text.Numbers.{format_int}
use proxy2api.Gateway.Limiter.{MinuteBucket, over}
use proxy2api.Gateway.Limiter.Window.{Call}
use proxy2api.Gateway.RedisLimiter.{
  Lua, LuaLaws, Redis, RedisLaws, answered, bump, allowed, after_tests, run_script, script,
  delivered, base_key, redis_allow,
}
use proxy2api.Gateway.RedisLimiter.Counters.{
  keys_differ, counter-Holds, Bumped, bump-Bumped, Matches,
}
use proxy2api.Gateway.RedisLimiter.Exact.{
  IsExact-IsInt64, IsCounted, ttl-IsExact, Holds-same, second_bump-eq, exceeds-over,
}

module _ (lua : Lua) (lua_laws : LuaLaws lua) (rd : Redis lua) (laws : RedisLaws lua rd) where
  module _ (prefix minute : Str) (t end : ℕ) (soon : t < end) (near : end ≤ t + 65) (c : Call) where
    abbrev pub redis_call : rd.Db → Bool × rd.Db
    redis_call =
        redis_allow lua rd t answered prefix minute c.key c.req_delta c.tok_delta c.max_req
          c.max_tok

    abbrev pub req_key : Str
    req_key = base_key lua rd prefix c.key minute ++ str ":req"

    abbrev pub tok_key : Str
    tok_key = base_key lua rd prefix c.key minute ++ str ":tok"

    abbrev pub first : rd.Db → Result (Unit {0}) × rd.Db
    first db = bump lua rd t req_key (lua.literal c.req_delta) (lua.literal (pos 65)) db

    abbrev pub both : rd.Db → Result (Unit {0}) × rd.Db
    both db = bump lua rd t tok_key (lua.literal c.tok_delta) (lua.literal (pos 65)) (first db).1

    first-Bumped :
        (b : MinuteBucket) (db : rd.Db)
        → IsCounted c b
        → Matches lua lua_laws rd laws prefix minute c.key t end b db
        → Bumped lua lua_laws rd laws req_key t end b.req_count c.req_delta db (first db)
    first-Bumped b db counted m =
        bump-Bumped lua lua_laws rd laws t req_key b.req_count c.req_delta 65 end db soon near
          ttl-IsExact counted.req_exact.0 counted.req_exact.1 counted.req_exact.2 counted.req_nonneg
          m.req

    both-Bumped :
        (b : MinuteBucket) (db : rd.Db)
        → IsCounted c b
        → Matches lua lua_laws rd laws prefix minute c.key t end b db
        → Bumped lua lua_laws rd laws tok_key t end b.token_count c.tok_delta (first db).1 (both db)
    both-Bumped b db counted m =
        bump-Bumped lua lua_laws rd laws t tok_key b.token_count c.tok_delta 65 end (first db).1
          soon near ttl-IsExact counted.tok_exact.0 counted.tok_exact.1 counted.tok_exact.2
          counted.tok_nonneg
          (λ t' above below.
            Holds-same lua rd t' tok_key b.token_count db (first db).1
              ((first-Bumped b db counted m).others t' tok_key
                (keys_differ (base_key lua rd prefix c.key minute)))
              (m.tok t' above below))

    -- The counters after a call that is admitted.
    pub raised :
        (b : MinuteBucket) (db : rd.Db)
        → IsCounted c b
        → Matches lua lua_laws rd laws prefix minute c.key t end b db
        → Matches lua lua_laws rd laws prefix minute c.key t end
            (record b {
              req_count = add64 b.req_count c.req_delta;
              token_count = add64 b.token_count c.tok_delta;
            })
            (both db).1
    raised b db counted m =
        let req_sum = add64-id b.req_count c.req_delta (IsExact-IsInt64 _ counted.req_exact.2) in
        let tok_sum = add64-id b.token_count c.tok_delta (IsExact-IsInt64 _ counted.tok_exact.2) in
        rw (req_sum, tok_sum)
          (record {
            req = λ t' above below.
                Holds-same lua rd t' req_key (b.req_count +ℤ c.req_delta) (first db).1 (both db).1
                  ((both-Bumped b db counted m).others t' req_key
                    (λ e. keys_differ (base_key lua rd prefix c.key minute) (sym e)))
                  ((first-Bumped b db counted m).holds t' above below);
            tok = (both-Bumped b db counted m).holds;
          })

    -- What a call does, by the results of its three tests.
    abbrev pub script_result : rd.Db → Bool → Bool → Bool → Bool × rd.Db
    script_result db z e1 e2 =
        if z
        then (true, db)
        else if e1
        then (false, db)
        else if e2
        then (false, db)
        else (true, (both db).1)

    allowed-over :
        (b : MinuteBucket) (db : rd.Db)
        → IsCounted c b
        → Matches lua lua_laws rd laws prefix minute c.key t end b db
        → allowed lua rd t req_key tok_key
            (lua.literal c.req_delta)
            (lua.literal c.tok_delta)
            (lua.literal c.max_req)
            (lua.literal c.max_tok)
            db
          ≡ (if over c.max_req b.req_count c.req_delta
              then ok false
              else ok (not (over c.max_tok b.token_count c.tok_delta)))
    allowed-over b db counted m =
        rw
          (
            allowed,
            counter-Holds lua lua_laws rd laws t req_key b.req_count db
                (m.req t (omega arith) soon),
            counter-Holds lua lua_laws rd laws t tok_key b.token_count db
                (m.tok t (omega arith) soon),
            exceeds-over lua lua_laws rd c.max_req b.req_count c.req_delta counted.max_exact.0
                counted.req_exact.0 counted.req_exact.1 counted.req_exact.2,
            exceeds-over lua lua_laws rd c.max_tok b.token_count c.tok_delta counted.max_exact.1
                counted.tok_exact.0 counted.tok_exact.1 counted.tok_exact.2,
          )
          refl

    -- What the answer of the two tests leads to.
    decided :
        (db : rd.Db) (e1 e2 : Bool)
        → (first db).0 ≡ ok tt
        → (both db).0 ≡ ok tt
        → after_tests lua rd t req_key tok_key
            (lua.literal c.req_delta)
            (lua.literal c.tok_delta)
            (lua.literal (pos 65))
            db
            (if e1 then ok false else ok (not e2))
          ≡ (if e1 then (ok false, db) else if e2 then (ok false, db) else (ok true, (both db).1))
    decided db true e2 h1 h2 = refl
    decided db false true h1 h2 = refl
    decided db false false h1 h2 =
        second_bump-eq lua rd t tok_key (lua.literal c.tok_delta) (lua.literal (pos 65)) (first db)
          h1 h2

    answer_of :
        (db : rd.Db) (z e1 e2 : Bool)
        → (if z
            then (true, db)
            else delivered lua rd answered db (
                if e1
                then (ok false, db)
                else if e2
                then (ok false, db)
                else (ok true, (both db).1)))
          ≡ script_result db z e1 e2
    answer_of db true e1 e2 = refl
    answer_of db false true e2 = refl
    answer_of db false false true = refl
    answer_of db false false false = refl

    run_script-eq :
        (b : MinuteBucket) (db : rd.Db)
        → IsCounted c b
        → Matches lua lua_laws rd laws prefix minute c.key t end b db
        → run_script lua rd t req_key tok_key
            (lua.literal c.req_delta)
            (lua.literal c.tok_delta)
            (lua.literal c.max_req)
            (lua.literal c.max_tok)
            (lua.literal (pos 65))
            db
          ≡ (if over c.max_req b.req_count c.req_delta
              then (ok false, db)
              else if over c.max_tok b.token_count c.tok_delta
              then (ok false, db)
              else (ok true, (both db).1))
    unfolding run_script
    run_script-eq b db counted m =
        ap
          (after_tests lua rd t req_key tok_key (lua.literal c.req_delta) (lua.literal c.tok_delta)
            (lua.literal (pos 65)) db)
          (allowed-over b db counted m)
        ∙ decided db (over c.max_req b.req_count c.req_delta)
            (over c.max_tok b.token_count c.tok_delta) (first-Bumped b db counted m).runs
            (both-Bumped b db counted m).runs

    script-eq :
        (b : MinuteBucket) (db : rd.Db)
        → IsCounted c b
        → Matches lua lua_laws rd laws prefix minute c.key t end b db
        → script lua rd t req_key tok_key
            (format_int c.req_delta)
            (format_int c.tok_delta)
            (format_int c.max_req)
            (format_int c.max_tok)
            (format_int (pos 65))
            db
          ≡ (if over c.max_req b.req_count c.req_delta
              then (ok false, db)
              else if over c.max_tok b.token_count c.tok_delta
              then (ok false, db)
              else (ok true, (both db).1))
    unfolding script
    script-eq b db counted m =
        rw
          (
            lua_laws.tonumber_int c.req_delta,
            lua_laws.tonumber_int c.tok_delta,
            lua_laws.tonumber_int c.max_req,
            lua_laws.tonumber_int c.max_tok,
            lua_laws.tonumber_int (pos 65),
          )
          (run_script-eq b db counted m)

    -- What the script does with the counters of a bucket.
    pub redis_call-eq :
        (b : MinuteBucket) (db : rd.Db)
        → IsCounted c b
        → Matches lua lua_laws rd laws prefix minute c.key t end b db
        → redis_call db
          ≡ script_result db
              (leb_ℤ c.max_req (pos 0) && leb_ℤ c.max_tok (pos 0))
              (over c.max_req b.req_count c.req_delta)
              (over c.max_tok b.token_count c.tok_delta)
    unfolding redis_allow
    redis_call-eq b db counted m =
        rw (redis_allow, script-eq b db counted m)
          (answer_of db (leb_ℤ c.max_req (pos 0) && leb_ℤ c.max_tok (pos 0))
            (over c.max_req b.req_count c.req_delta) (over c.max_tok b.token_count c.tok_delta))
