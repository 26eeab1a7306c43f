-- ===== src/Gateway/Limiter.antt =====
-- internal/gateway/limiter.go: the limiter in memory, a bucket of counters for each key and minute.
-- The clock is an argument, in nanoseconds since 1970. The mutex makes a call of `allow` one step.
pub mod Step
pub mod Window
mod Tests
use proxy2api.Base.{
  ℕ, ◌-◌, ◌*◌, ◌/◌, ap, Bool, true, false, ◌&&◌, ◌||◌, Option, none, some, [], ltb, leb,
  if◌then◌else◌, ℤ, pos, ltb_ℤ, leb_ℤ, add64, all, All, Str, ok,
}
use proxy2api.Dict.{Dict, lookup, insert}

pub record MinuteBucket : Type 0 where
  pub window_start : ℕ
  pub req_count : ℤ
  pub token_count : ℤ

-- `minuteLimiter.buckets`
abbrev pub MinuteLimiter : Type 0
MinuteLimiter = Dict MinuteBucket

abbrev pub new_minute_limiter : MinuteLimiter
new_minute_limiter = []

-- `now.Truncate(time.Minute)`
abbrev pub truncate_minute : ℕ → ℕ
truncate_minute now = now / 60000000000 * 60000000000

abbrev pub fresh_bucket : ℕ → MinuteBucket
fresh_bucket now = record { window_start = now; req_count = pos 0; token_count = pos 0 }

-- `!ok || b.windowStart.Before(now)`
abbrev pub is_stale : Option MinuteBucket → ℕ → Bool
is_stale none now = true
is_stale (some b) now = ltb b.window_start now

abbrev pub bucket_or_fresh : Option MinuteBucket → ℕ → MinuteBucket
bucket_or_fresh none now = fresh_bucket now
bucket_or_fresh (some b) now = if ltb b.window_start now then fresh_bucket now else b

-- The two tests that refuse a request.
abbrev pub over : ℤ → ℤ → ℤ → Bool
over max count delta = ltb_ℤ (pos 0) max && ltb_ℤ max (add64 count delta)

-- `Allow`
unfoldable pub allow :
    ℕ → Str → (req_delta tok_delta max_req max_tok : ℤ) → MinuteLimiter → Bool × MinuteLimiter
allow clock key req_delta tok_delta max_req max_tok l =
    if leb_ℤ max_req (pos 0) && leb_ℤ max_tok (pos 0)
    then (true, l)
    else let now = truncate_minute clock in
      let b = bucket_or_fresh (lookup key l) now in
      let l' = if is_stale (lookup key l) now then insert key b l else l in
      if over max_req b.req_count req_delta
      then (false, l')
      else if over max_tok b.token_count tok_delta
      then (false, l')
      else (
        true,
        insert key
            (record b {
              req_count = add64 b.req_count req_delta;
              token_count = add64 b.token_count tok_delta;
            })
            l',
      )
