-- ===== src/Gateway/Proxy/Codes.antt =====
-- The status of a request that `handleProxy` of internal/gateway/server.go does not relay.
use proxy2api.Base.{
  ℕ, ◌≤◌, ◌≡◌, refl, ◌≢◌, inl, inr, Bool, true, false, Option, arith, if◌then◌else◌, Bool-cases, ℤ,
  pos, ltb_ℤ, Str, Result, ok, err,
}
use mathlib.Core.Path.{subst}
use proxy2api.Text.{str}
use proxy2api.Dict.{Dict}
use proxy2api.Config.{Config}
use proxy2api.Store.Gorm.{Gorm}
use proxy2api.Store.Tables.{Store}
use proxy2api.Store.Rows.{ApiKey}
use proxy2api.Store.Billing.{find_api_key_by_value}
use proxy2api.Gateway.Types.{ProviderState, ProviderKeyState, StickyBind, GatewayKey}
use proxy2api.Gateway.Rules.{Verdict}
use proxy2api.Gateway.Limiter.{MinuteLimiter}
use proxy2api.Gateway.Select.{Selected}
use proxy2api.Gateway.Forward.{Request, OutRequest, Reply, failed, relayed, Usage, ParsedRequest}
use proxy2api.Gateway.Admit.{
  Server, Outside, Guard, pass, refuse, ◌>>=◌, or_refuse, refuse_if, Admitted, check_balance,
  admit_model, admit, user_of,
}
use proxy2api.Gateway.Proxy.{
  after_channel, after_user, dispatch, route, handled, proceed, finish, handle_proxy,
}
use proxy2api.Gateway.Proxy.Unbilled.{forward-relayed}

-- A refusal has the status of an error.
abbrev IsRefusal : {A : Type 0} → Guard A → Type 0
IsRefusal (pass a) = Unit
IsRefusal (refuse c e) = 400 ≤ c

abbrev IsCoded : Reply → Type 0
IsCoded (failed c e) = 400 ≤ c
IsCoded (relayed c hs b) = Unit

>>=-IsRefusal :
    {A B : Type 0} (m : Guard A) (f : A → Guard B)
    → IsRefusal m
    → ((a : A) → IsRefusal (f a))
    → IsRefusal (m >>= f)
>>=-IsRefusal (pass a) f h k = k a
>>=-IsRefusal (refuse c e) f h k = h

or_refuse-IsRefusal : {A : Type 0} (c : ℕ) (m : Result A) → 400 ≤ c → IsRefusal (or_refuse c m)
or_refuse-IsRefusal c (ok a) h = tt
or_refuse-IsRefusal c (err e) h = h

refuse_if-IsRefusal : (b : Bool) (c : ℕ) (e : Str) → 400 ≤ c → IsRefusal (refuse_if b c e)
refuse_if-IsRefusal true c e h = h
refuse_if-IsRefusal false c e h = tt

module _ (g : Gorm) (cfg : Config) (o : Outside) where
  live_balance : ℤ → Result ApiKey → Guard (Unit {0})
  live_balance cost m = elim m [
    | err e ↦ refuse 401 (str "api key not found")
    | ok live ↦ refuse_if (ltb_ℤ live.balance_micros cost) 402 (str "insufficient balance")
  ]

  live_balance-IsRefusal : (cost : ℤ) (m : Result ApiKey) → IsRefusal (live_balance cost m)
  unfolding live_balance
  live_balance-IsRefusal cost (err e) = ground arith
  live_balance-IsRefusal cost (ok live) = refuse_if-IsRefusal _ 402 _ (ground arith)

  check_balance-IsRefusal :
      (s : Store g) (token : Str) (cost : ℤ) → IsRefusal (check_balance g cfg o s token cost)
  unfolding live_balance
  check_balance-IsRefusal s token cost = elim (Bool-cases (ltb_ℤ (pos 0) cost)) [
    | inl e ↦ rw e (live_balance-IsRefusal cost (find_api_key_by_value g token s))
    | inr e ↦ rw e tt
  ]

  paid-IsRefusal :
      (b : Bool) (s : Store g) (token : Str) (cost : ℤ)
      → IsRefusal (if b then check_balance g cfg o s token cost else pass tt)
  paid-IsRefusal true s token cost = check_balance-IsRefusal s token cost
  paid-IsRefusal false s token cost = tt

  admit_model-IsRefusal :
      (s : Server g) (token : Str) (k : GatewayKey) (body : Str) (info : ParsedRequest)
      (v : Verdict)
      → IsRefusal (admit_model g cfg o s token k body info v)
  unfolding admit_model
  admit_model-IsRefusal s token k body info v =
      >>=-IsRefusal (refuse_if v.denied 403 _) _ (refuse_if-IsRefusal v.denied 403 _ (ground arith))
        (λ t. >>=-IsRefusal _ _ (paid-IsRefusal cfg.billing.enabled s.store token _) (λ t. tt))

  admit-IsRefusal : (r : Request) (s : Server g) → IsRefusal (admit g cfg o r s)
  unfolding admit
  admit-IsRefusal r s = >>=-IsRefusal _ _ (refuse_if-IsRefusal _ 405 _ (ground arith)) (λ t.
      >>=-IsRefusal _ _ (or_refuse-IsRefusal 401 (user_of g cfg o r s) (ground arith)) (λ user.
        >>=-IsRefusal _ _ (or_refuse-IsRefusal 400 r.body (ground arith)) (λ body.
          >>=-IsRefusal _ _ (refuse_if-IsRefusal _ 403 _ (ground arith))
            (λ allowed. admit_model-IsRefusal s _ _ body _ _))))

  finish-IsCoded :
      (a : Admitted) (p : ProviderState) (k : ProviderKeyState) (s : Server g)
      (sent : Option OutRequest) (outcome : Result (Reply × Usage))
      → ((c : ℕ) (e : Str) (u : Usage) → outcome ≢ ok (failed c e, u))
      → IsCoded (finish g cfg o a p k s (record { sent = sent; outcome = outcome })).reply
  finish-IsCoded a p k s sent (err x) h = ground arith
  finish-IsCoded a p k s sent (ok (failed c e, u)) h = absurd (h c e u refl)
  finish-IsCoded a p k s sent (ok (relayed c hs b, u)) h = tt

  after_channel-IsCoded :
      (r : Request) (a : Admitted) (p : ProviderState) (k : ProviderKeyState) (s : Server g)
      (l : Bool × MinuteLimiter)
      → IsCoded (after_channel g cfg o r a p k s l).reply
  after_channel-IsCoded r a p k s (false, limiter) = ground arith
  after_channel-IsCoded r a p k s (true, limiter) =
      finish-IsCoded a p k (record s { channel_limiter = limiter }) _ _
        (forward-relayed g cfg o r a.body a.model p k)

  route-IsCoded :
      (r : Request) (a : Admitted) (s : Server g) (x : Selected × Dict StickyBind)
      → IsCoded (route g cfg o r a s x).reply
  unfolding dispatch
  route-IsCoded r a s (err y, sticky) = ground arith
  route-IsCoded r a s (ok (p, k), sticky) =
      after_channel-IsCoded r a p k (record s { sticky = sticky }) _

  after_user-IsCoded :
      (r : Request) (s : Server g) (a : Admitted) (l : Bool × MinuteLimiter)
      → IsCoded (after_user g cfg o r s a l).reply
  after_user-IsCoded r s a (false, limiter) = ground arith
  after_user-IsCoded r s a (true, limiter) =
      route-IsCoded r a (record s { user_limiter = limiter }) _

  handled-IsCoded :
      (r : Request) (s : Server g) (m : Guard Admitted)
      → IsRefusal m
      → IsCoded (handled g cfg o r s m).reply
  unfolding proceed
  handled-IsCoded r s (refuse c e) h = h
  handled-IsCoded r s (pass a) h = after_user-IsCoded r s a _

  -- A request that is not relayed gets a status from 400 on.
  pub handle_proxy-failed :
      (r : Request) (s : Server g) (c : ℕ) (e : Str)
      → (handle_proxy g cfg o r s).reply ≡ failed c e
      → 400 ≤ c
  unfolding handle_proxy
  handle_proxy-failed r s c e h =
      subst IsCoded h (handled-IsCoded r s (admit g cfg o r s) (admit-IsRefusal r s))
