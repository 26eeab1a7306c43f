-- ===== src/Gateway/Proxy/Unbilled.antt =====
-- What a request that fails leaves as it was.
use proxy2api.Base.{
  ℕ, ◌≡◌, refl, ap, ◌≢◌, ◌⊎◌, inl, inr, Bool, true, false, Option, [], arith, ℤ, Str, Result, ok,
  err, >>=-eq-ok,
}
use proxy2api.Dict.{Dict}
use proxy2api.Config.{Config}
use proxy2api.Store.Gorm.{Gorm}
use proxy2api.Store.Tables.{Store}
use proxy2api.Store.Lists.{update_provider_key_health}
use proxy2api.Gateway.Types.{ProviderState, ProviderKeyState, StickyBind}
use proxy2api.Gateway.Limiter.{MinuteLimiter}
use proxy2api.Gateway.Select.{Selected}
use proxy2api.Gateway.Health.{next_health, mark_provider_key_failure}
use proxy2api.Gateway.Forward.{
  Request, OutRequest, Reply, failed, relayed, forward, out_request, Usage, relay, BodyJson, answer,
  Response, copy_all,
}
use proxy2api.Gateway.Admit.{Server, Outside, pass, refuse, Admitted, admit, Guard}
use proxy2api.Gateway.Proxy.{
  after_channel, after_user, dispatch, route, handled, proceed, finish, handle_proxy, give_up,
  reloaded, inc_stat,
}

-- The balances, the ledger and the usage are the same.
unfoldable pub SameMoney : {g : Gorm} → Store g → Store g → Type 0
SameMoney s t =
    (t.api_keys ≡ s.api_keys)
    × (t.billing_txns ≡ s.billing_txns)
    × (t.usage_records ≡ s.usage_records)

same_store-SameMoney : {g : Gorm} (s t : Store g) → t ≡ s → SameMoney s t
unfolding SameMoney
same_store-SameMoney s t e =
    (ap (λ x. x.api_keys) e, ap (λ x. x.billing_txns) e, ap (λ x. x.usage_records) e)

relay-relayed :
    (json : BodyJson) (text_of : ℕ → Str) (m : Result Response) (c : ℕ) (e : Str) (u : Usage)
    → relay json text_of m ≢ ok (failed c e, u)
unfolding relay
relay-relayed json text_of m c e u h =
    let (resp, got, h1) = >>=-eq-ok m _ h in
    let (body, read, h2) = >>=-eq-ok (answer text_of resp) _ h1 in
    let same : relayed resp.status (copy_all resp.headers []) body ≡ failed c e = cc in ground arith

Result-cases : {A : Type 0} (m : Result A) → ((a : A) × (m ≡ ok a)) ⊎ ((e : Str) × (m ≡ err e))
Result-cases (ok a) = inl (a, refl)
Result-cases (err e) = inr (e, refl)

module _ (g : Gorm) (cfg : Config) (o : Outside) where
  pub update_provider_key_health-SameMoney :
      (id errs until : ℤ) (status : Str) (s : Store g)
      → SameMoney s (update_provider_key_health g id errs until status s).1
  unfolding update_provider_key_health SameMoney
  update_provider_key_health-SameMoney id errs until status s = ground arith

  pub reloaded-store : (s : Server g) → (reloaded g cfg o s).store ≡ s.store
  reloaded-store s = ground arith

  give_up-SameMoney :
      (p : ProviderState) (k : ProviderKeyState) (e : Str) (s : Server g)
      → SameMoney s.store (give_up g cfg o p k e s).store
  unfolding give_up inc_stat mark_provider_key_failure
  give_up-SameMoney p k e s =
      let s1 =
        mark_provider_key_failure g cfg.gateway.provider_fail_threshold
          cfg.gateway.provider_cooldown_sec p k e o.failed_at s.store in
      let (errs, until) =
        next_health cfg.gateway.provider_fail_threshold cfg.gateway.provider_cooldown_sec p k
          o.failed_at in
      let same = reloaded-store (record s { store = s1 }) in
      rw same (update_provider_key_health-SameMoney k.id errs until e s.store)

  -- A reply that ends with a usage is the provider's.
  pub forward-relayed :
      (r : Request) (body model : Str) (p : ProviderState) (k : ProviderKeyState) (c : ℕ) (e : Str)
      (u : Usage)
      → (forward o.body_json o.net o.text_of r body model p k).outcome ≢ ok (failed c e, u)
  unfolding forward
  forward-relayed r body model p k c e u h =
      elim (Result-cases (out_request o.body_json o.net r body model p k)) [
        | inr (x, bad) ↦ ground arith
        | inl (out, good) ↦
            relay-relayed o.body_json o.text_of (o.net.client_do out) c e u (ground arith)
      ]

  finish-SameMoney :
      (a : Admitted) (p : ProviderState) (k : ProviderKeyState) (s : Server g)
      (sent : Option OutRequest) (outcome : Result (Reply × Usage)) (c : ℕ) (e : Str)
      → ((d : ℕ) (x : Str) (u : Usage) → outcome ≢ ok (failed d x, u))
      → (finish g cfg o a p k s (record { sent = sent; outcome = outcome })).reply ≡ failed c e
      → SameMoney s.store
          (finish g cfg o a p k s (record { sent = sent; outcome = outcome })).server.store
  finish-SameMoney a p k s sent (err x) c e relays h = give_up-SameMoney p k x s
  finish-SameMoney a p k s sent (ok (failed d x, u)) c e relays h = absurd (relays d x u refl)
  finish-SameMoney a p k s sent (ok (relayed d hs b, u)) c e relays h = cc

  after_channel-SameMoney :
      (r : Request) (a : Admitted) (p : ProviderState) (k : ProviderKeyState) (s : Server g)
      (l : Bool × MinuteLimiter) (c : ℕ) (e : Str)
      → (after_channel g cfg o r a p k s l).reply ≡ failed c e
      → SameMoney s.store (after_channel g cfg o r a p k s l).server.store
  after_channel-SameMoney r a p k s (false, limiter) c e h =
      same_store-SameMoney s.store s.store refl
  after_channel-SameMoney r a p k s (true, limiter) c e h =
      finish-SameMoney a p k (record s { channel_limiter = limiter }) _ _ c e
        (forward-relayed r a.body a.model p k) h

  dispatch-SameMoney :
      (r : Request) (a : Admitted) (p : ProviderState) (k : ProviderKeyState) (s : Server g) (c : ℕ)
      (e : Str)
      → (dispatch g cfg o r a p k s).reply ≡ failed c e
      → SameMoney s.store (dispatch g cfg o r a p k s).server.store
  unfolding dispatch
  dispatch-SameMoney r a p k s c e h = after_channel-SameMoney r a p k s _ c e h

  route-SameMoney :
      (r : Request) (a : Admitted) (s : Server g) (x : Selected × Dict StickyBind) (c : ℕ) (e : Str)
      → (route g cfg o r a s x).reply ≡ failed c e
      → SameMoney s.store (route g cfg o r a s x).server.store
  route-SameMoney r a s (err y, sticky) c e h = same_store-SameMoney s.store s.store refl
  route-SameMoney r a s (ok (p, k), sticky) c e h =
      dispatch-SameMoney r a p k (record s { sticky = sticky }) c e h

  after_user-SameMoney :
      (r : Request) (s : Server g) (a : Admitted) (l : Bool × MinuteLimiter) (c : ℕ) (e : Str)
      → (after_user g cfg o r s a l).reply ≡ failed c e
      → SameMoney s.store (after_user g cfg o r s a l).server.store
  after_user-SameMoney r s a (false, limiter) c e h = same_store-SameMoney s.store s.store refl
  after_user-SameMoney r s a (true, limiter) c e h =
      route-SameMoney r a (record s { user_limiter = limiter }) _ c e h

  proceed-SameMoney :
      (r : Request) (s : Server g) (a : Admitted) (c : ℕ) (e : Str)
      → (proceed g cfg o r s a).reply ≡ failed c e
      → SameMoney s.store (proceed g cfg o r s a).server.store
  unfolding proceed
  proceed-SameMoney r s a c e h = after_user-SameMoney r s a _ c e h

  handled-SameMoney :
      (r : Request) (s : Server g) (m : Guard Admitted) (c : ℕ) (e : Str)
      → (handled g cfg o r s m).reply ≡ failed c e
      → SameMoney s.store (handled g cfg o r s m).server.store
  handled-SameMoney r s (refuse d x) c e h = same_store-SameMoney s.store s.store refl
  handled-SameMoney r s (pass a) c e h = proceed-SameMoney r s a c e h

  -- A request that gets an error of the gateway, whatever its reason and its status, costs nothing:
  -- the balances, the ledger of the billing and the usage records are what they were.
  pub handle_proxy-SameMoney :
      (r : Request) (s : Server g) (c : ℕ) (e : Str)
      → (handle_proxy g cfg o r s).reply ≡ failed c e
      → SameMoney s.store (handle_proxy g cfg o r s).server.store
  unfolding handle_proxy
  handle_proxy-SameMoney r s c e h = handled-SameMoney r s (admit g cfg o r s) c e h
