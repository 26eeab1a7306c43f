-- ===== src/Gateway/Limiter/Step.antt =====
-- One call of `allow`: what it answers, what it leaves in the bucket of its key, and that the other
-- buckets keep their counters.
use proxy2api.Base.{
  ℕ, ◌≡◌, ◌≢◌, ◌↔◌, ◌⊎◌, true, false, arith, ℤ, pos, ◌+ℤ◌, ◌≤ℤ◌, IsInt64, add64-id, Str,
}
use proxy2api.Dict.{lookup, lookup-insert}
use proxy2api.Text.Laws.{eq_str_iff}
use proxy2api.Gateway.Limiter.{
  MinuteBucket, MinuteLimiter, truncate_minute, bucket_or_fresh, over, allow,
}

-- A counter has room for a request under a limit; a limit of zero or less is no limit.
abbrev pub Fits : ℤ → ℤ → ℤ → Type 0
Fits max count delta = (max ≤ℤ pos 0) ⊎ (count +ℤ delta ≤ℤ max)

pub over-Fits :
    (max count delta : ℤ)
    → IsInt64 (count +ℤ delta)
    → (over max count delta ≡ false) ↔ Fits max count delta
over-Fits max count delta h = rw (add64-id count delta h) (ground arith)

module _ (clock : ℕ) (key : Str) (req_delta tok_delta max_req max_tok : ℤ) (l : MinuteLimiter) where
  -- The bucket that the call reads.
  abbrev pub current : MinuteBucket
  current = bucket_or_fresh (lookup key l) (truncate_minute clock)

  -- A request whose sums with the counters fit 64 bits is admitted exactly when both of its limits
  -- have room for it, where a limit of zero or less is no limit.
  pub allow_iff :
      IsInt64 (current.req_count +ℤ req_delta)
      → IsInt64 (current.token_count +ℤ tok_delta)
      → ((allow clock key req_delta tok_delta max_req max_tok l).0 ≡ true)
        ↔ (Fits max_req current.req_count req_delta × Fits max_tok current.token_count tok_delta)
  unfolding allow
  allow_iff hr ht = ground (
    arith,
    over-Fits max_req current.req_count req_delta hr,
    over-Fits max_tok current.token_count tok_delta ht,
  )

  -- The buckets of the other keys keep what they hold.
  pub allow_others :
      (j : Str)
      → key ≢ j
      → lookup j (allow clock key req_delta tok_delta max_req max_tok l).1 ≡ lookup j l
  unfolding allow
  allow_others j h = grind (arith, eq_str_iff key j, lookup-insert)
