-- ===== src/Gateway/Limiter/Window.antt =====
-- A sequence of calls within one minute: what is admitted for a key stays within its limit, whatever
-- the other keys do in between.
use proxy2api.Base.{
  ℕ, ◌+◌, ◌^◌, ◌≤◌, ◌<◌, ◌≡◌, sym, ◌∙◌, ◌≢◌, ◌⊎◌, inl, inr, Bool, true, false, ◌&&◌, ◌||◌, Option,
  none, some, List, [], ◌∷◌, arith, ltb, if◌then◌else◌, Bool-cases, ℤ, pos, pos_part, ◌+ℤ◌, ◌≤ℤ◌,
  leb_ℤ, IsInt64, add64, add64-id, All, Str,
}
use proxy2api.Dict.{lookup, lookup-insert}
use proxy2api.Text.{eq_str}
use proxy2api.Text.Laws.{eq_str_refl}
use proxy2api.Text.Laws.{eq_str_iff}
use proxy2api.Gateway.Limiter.Step.{allow_others}
use mathlib.Core.Bool.{false≢true}
use proxy2api.Gateway.Limiter.{
  MinuteBucket, MinuteLimiter, truncate_minute, bucket_or_fresh, over, allow,
}

pub record Call : Type 0 where
  pub clock : ℕ
  pub key : Str
  pub req_delta : ℤ
  pub tok_delta : ℤ
  pub max_req : ℤ
  pub max_tok : ℤ

abbrev pub call : Call → MinuteLimiter → Bool × MinuteLimiter
call c = allow c.clock c.key c.req_delta c.tok_delta c.max_req c.max_tok

-- What the calls at the key `k` admit, of requests and of tokens.
unfoldable pub admitted : (Call → ℤ) → Str → List Call → MinuteLimiter → ℕ
admitted delta k [] l = 0
admitted delta k (c ∷ cs) l =
    (if (call c l).0 && eq_str c.key k then pos_part (delta c) else 0)
    + admitted delta k cs (call c l).1

-- A call with the limit `m` on one of the two counters, in the minute that begins at `w`.
pub record IsLimited (w m : ℕ) (delta max : Call → ℤ) (c : Call) : Type 0 where
  pub window : truncate_minute c.clock ≡ w
  pub limit : max c ≡ pos m
  pub nonneg : pos 0 ≤ℤ delta c
  pub small : pos_part (delta c) < 2 ^ 62

-- What a bucket has used up of the minute that begins at `w`.
abbrev pub used : (MinuteBucket → ℤ) → ℕ → Option MinuteBucket → ℕ
used count w none = 0
used count w (some b) = if ltb b.window_start w then 0 else pos_part (count b)

-- The counter of a bucket of this minute lies between 0 and the limit.
abbrev pub IsWithin : (MinuteBucket → ℤ) → ℕ → ℕ → Option MinuteBucket → Type 0
IsWithin count w m none = Unit
IsWithin count w m (some b) = (b.window_start < w) ⊎ ((pos 0 ≤ℤ count b) × (count b ≤ℤ pos m))

small-IsInt64 :
    (a b : ℤ) (m : ℕ)
    → pos 0 ≤ℤ a
    → a ≤ℤ pos m
    → m < 2 ^ 62
    → pos 0 ≤ℤ b
    → pos_part b < 2 ^ 62
    → IsInt64 (a +ℤ b)
unfolding ◌+ℤ◌
small-IsInt64 a b m h1 h2 h3 h4 h5 = ground arith

add64_small :
    (a b : ℤ) (m : ℕ)
    → pos 0 ≤ℤ a
    → a ≤ℤ pos m
    → m < 2 ^ 62
    → pos 0 ≤ℤ b
    → pos_part b < 2 ^ 62
    → add64 a b ≡ pos (pos_part a + pos_part b)
add64_small a b m h1 h2 h3 h4 h5 =
    rw (add64-id a b (small-IsInt64 a b m h1 h2 h3 h4 h5)) (unfold ◌+ℤ◌ in ground arith)

-- What a call does with the bucket of its key, with no map around it.
abbrev pub on_bucket : Call → Option MinuteBucket → Bool × Option MinuteBucket
on_bucket c found =
    if leb_ℤ c.max_req (pos 0) && leb_ℤ c.max_tok (pos 0)
    then (true, found)
    else let b = bucket_or_fresh found (truncate_minute c.clock) in
      if over c.max_req b.req_count c.req_delta || over c.max_tok b.token_count c.tok_delta
      then (false, some b)
      else (
        true,
        some (record b {
          req_count = add64 b.req_count c.req_delta;
          token_count = add64 b.token_count c.tok_delta;
        }),
      )

pub call-on_bucket :
    (c : Call) (l : MinuteLimiter)
    → ((call c l).0 ≡ (on_bucket c (lookup c.key l)).0)
      × (lookup c.key (call c l).1 ≡ (on_bucket c (lookup c.key l)).1)
unfolding allow
call-on_bucket c l = grind (arith, lookup-insert, eq_str_refl c.key)

module _ (w m : ℕ) (some_limit : 0 < m) (m_small : m < 2 ^ 62) (c : Call) where
  -- One admitted request adds what it asks for, a refused one adds nothing, and the counter stays
  -- within the limit.
  on_bucket_req :
      (o : Option MinuteBucket)
      → IsLimited w m (λ c. c.req_delta) (λ c. c.max_req) c
      → IsWithin (λ b. b.req_count) w m o
      → IsWithin (λ b. b.req_count) w m (on_bucket c o).1
        × (used (λ b. b.req_count) w (on_bucket c o).1
            ≡ used (λ b. b.req_count) w o + (if (on_bucket c o).0 then pos_part c.req_delta else 0))
  on_bucket_req none h v = ground (arith, add64_small (pos 0) c.req_delta m)
  on_bucket_req (some b) h v =
      ground (arith, add64_small (pos 0) c.req_delta m, add64_small b.req_count c.req_delta m)

  on_bucket_tok :
      (o : Option MinuteBucket)
      → IsLimited w m (λ c. c.tok_delta) (λ c. c.max_tok) c
      → IsWithin (λ b. b.token_count) w m o
      → IsWithin (λ b. b.token_count) w m (on_bucket c o).1
        × (used (λ b. b.token_count) w (on_bucket c o).1
            ≡ used (λ b. b.token_count) w o
              + (if (on_bucket c o).0 then pos_part c.tok_delta else 0))
  on_bucket_tok none h v = ground (arith, add64_small (pos 0) c.tok_delta m)
  on_bucket_tok (some b) h v =
      ground (arith, add64_small (pos 0) c.tok_delta m, add64_small b.token_count c.tok_delta m)

used-le :
    (count : MinuteBucket → ℤ) (w m : ℕ) (o : Option MinuteBucket)
    → IsWithin count w m o
    → used count w o ≤ m
used-le count w m none h = omega arith
used-le count w m (some b) h = ground arith

-- The induction over the calls, for one of the two counters.
module _ (w m : ℕ) (k : Str) (delta max : Call → ℤ) (count : MinuteBucket → ℤ)
    (step : (c : Call) (o : Option MinuteBucket)
      → IsLimited w m delta max c
      → IsWithin count w m o
      → IsWithin count w m (on_bucket c o).1
        × (used count w (on_bucket c o).1
            ≡ used count w o + (if (on_bucket c o).0 then pos_part (delta c) else 0))) where
  IsStep : Call → Option MinuteBucket → Bool × Option MinuteBucket → Type 0
  IsStep c o r =
      IsWithin count w m r.1
      × (used count w r.1
          ≡ used count w o + (if r.0 && eq_str c.key k then pos_part (delta c) else 0))

  own-IsStep :
      (c : Call) (l : MinuteLimiter)
      → c.key ≡ k
      → IsLimited w m delta max c
      → IsWithin count w m (lookup k l)
      → IsStep c (lookup k l) ((call c l).0, lookup k (call c l).1)
  unfolding IsStep
  own-IsStep c l e limited h = rw (← e) (
      ground (
        arith,
        call-on_bucket c l,
        step c (lookup c.key l) limited (rw (← e) at h),
        eq_str_refl c.key,
      ))

  foreign-IsStep :
      (c : Call) (l : MinuteLimiter)
      → c.key ≢ k
      → IsWithin count w m (lookup k l)
      → IsStep c (lookup k l) ((call c l).0, lookup k (call c l).1)
  unfolding IsStep
  foreign-IsStep c l ne h = rw allow_others (ground (arith, eq_str_iff c.key k))

  call-IsStep :
      (c : Call) (l : MinuteLimiter)
      → (c.key ≡ k → IsLimited w m delta max c)
      → IsWithin count w m (lookup k l)
      → IsStep c (lookup k l) ((call c l).0, lookup k (call c l).1)
  call-IsStep c l limited h = elim (Bool-cases (eq_str c.key k)) [
    | inl same ↦ let e = (eq_str_iff c.key k).0 same in own-IsStep c l e (limited e) h
    | inr other ↦ foreign-IsStep c l (λ e. false≢true (sym other ∙ (eq_str_iff c.key k).1 e)) h
  ]

  admitted-le :
      (cs : List Call) (l : MinuteLimiter)
      → All (λ c. c.key ≡ k → IsLimited w m delta max c) cs
      → IsWithin count w m (lookup k l)
      → used count w (lookup k l) + admitted delta k cs l ≤ m
  unfolding admitted IsStep
  admitted-le [] l hs h = omega (arith, used-le count w m (lookup k l) h)
  admitted-le (c ∷ cs) l hs h =
      let (kept, sum) = call-IsStep c l hs.0 h in
      omega (arith, sum, admitted-le cs (call c l).1 hs.1 kept)

-- Of calls in one minute with the same positive request limit for a key, those that are admitted ask
-- for no more than the limit together, also counting what the bucket held of that minute before;
-- calls of other keys may stand in between. The limit and each number of requests are below 2 ^ 62,
-- the numbers are not negative, and a bucket of that minute holds between zero and the limit.
pub admitted_req-le :
    (w m : ℕ) (k : Str) (cs : List Call) (l : MinuteLimiter)
    → 0 < m
    → m < 2 ^ 62
    → All (λ c. c.key ≡ k → IsLimited w m (λ c. c.req_delta) (λ c. c.max_req) c) cs
    → IsWithin (λ b. b.req_count) w m (lookup k l)
    → used (λ b. b.req_count) w (lookup k l) + admitted (λ c. c.req_delta) k cs l ≤ m
admitted_req-le w m k cs l p q = admitted-le w m k _ _ _ (on_bucket_req w m p q) cs l

-- Of calls in one minute with the same positive token limit for a key, those that are admitted have
-- no more tokens than the limit together, also counting what the bucket held of that minute before;
-- calls of other keys may stand in between. The limit and each number of tokens are below 2 ^ 62,
-- the numbers are not negative, and a bucket of that minute holds between zero and the limit.
pub admitted_tok-le :
    (w m : ℕ) (k : Str) (cs : List Call) (l : MinuteLimiter)
    → 0 < m
    → m < 2 ^ 62
    → All (λ c. c.key ≡ k → IsLimited w m (λ c. c.tok_delta) (λ c. c.max_tok) c) cs
    → IsWithin (λ b. b.token_count) w m (lookup k l)
    → used (λ b. b.token_count) w (lookup k l) + admitted (λ c. c.tok_delta) k cs l ≤ m
admitted_tok-le w m k cs l p q = admitted-le w m k _ _ _ (on_bucket_tok w m p q) cs l
