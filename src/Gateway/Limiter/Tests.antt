-- ===== src/Gateway/Limiter/Tests.antt =====
-- Runs of the limiter in memory, and its theorems at concrete calls.
use proxy2api.Base.{
  ℕ, ◌+◌, ◌*◌, ◌≤◌, String, ◌≡◌, refl, ◌↔◌, true, List, [], ◌∷◌, arith, ℤ, pos, ◌+ℤ◌, wrap64, add64,
}
use proxy2api.Dict.{lookup, insert}
use proxy2api.Text.{str}
use proxy2api.Gateway.Limiter.{MinuteLimiter, new_minute_limiter, allow}
use proxy2api.Gateway.Limiter.Step.{Fits, allow_iff}
use proxy2api.Gateway.Limiter.Window.{Call, call, admitted, used, admitted_req-le, admitted_tok-le}

abbrev ask : String → ℕ → ℤ → Call
ask key seconds tokens = record {
  clock = seconds * 1000000000;
  key = str key;
  req_delta = pos 1;
  tok_delta = tokens;
  max_req = pos 2;
  max_tok = pos 100;
}

abbrev calls : List Call
calls =
    ask "user:a" 61 (pos 30)
    ∷ ask "user:b" 62 (pos 80)
    ∷ ask "user:a" 63 (pos 80)
    ∷ ask "user:a" 64 (pos 60)
    ∷ ask "user:a" 65 (pos 5)
    ∷ []

-- The third call has too many tokens, and the fifth is one request too many.
calls_admitted :
    (admitted (λ c. c.req_delta) (str "user:a") calls new_minute_limiter ≡ 2)
    × (admitted (λ c. c.tok_delta) (str "user:a") calls new_minute_limiter ≡ 90)
unfolding admitted allow lookup insert add64 wrap64 ◌+ℤ◌
calls_admitted = (refl, refl)

abbrev held : MinuteLimiter
held = (call (ask "user:a" 61 (pos 30)) new_minute_limiter).1

allow_iff_example :
    ((allow 61000000000 (str "user:a") (pos 1) (pos 30) (pos 2) (pos 100) new_minute_limiter).0
      ≡ true)
    ↔ (Fits (pos 2) (pos 0) (pos 1) × Fits (pos 100) (pos 0) (pos 30))
unfolding lookup
allow_iff_example =
    allow_iff 61000000000 (str "user:a") (pos 1) (pos 30) (pos 2) (pos 100) new_minute_limiter
      (unfold ◌+ℤ◌ in omega arith) (unfold ◌+ℤ◌ in omega arith)

admitted_req-le_example :
    used (λ b. b.req_count) 60000000000 (lookup (str "user:a") new_minute_limiter)
      + admitted (λ c. c.req_delta) (str "user:a") calls new_minute_limiter
    ≤ 2
unfolding lookup
admitted_req-le_example =
    admitted_req-le 60000000000 2 (str "user:a") calls new_minute_limiter (omega arith)
      (omega arith) (ground arith) tt

admitted_tok-le_example :
    used (λ b. b.token_count) 60000000000 (lookup (str "user:a") new_minute_limiter)
      + admitted (λ c. c.tok_delta) (str "user:a") calls new_minute_limiter
    ≤ 100
unfolding lookup
admitted_tok-le_example =
    admitted_tok-le 60000000000 100 (str "user:a") calls new_minute_limiter (omega arith)
      (omega arith) (ground arith) tt
