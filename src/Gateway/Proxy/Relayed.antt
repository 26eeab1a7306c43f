-- ===== src/Gateway/Proxy/Relayed.antt =====
-- A request that is relayed is billed and recorded.
use proxy2api.Base.{
  ℕ, ◌≤◌, ◌≡◌, refl, ap, ◌⊎◌, inl, inr, Bool, true, false, Option, none, some, Option-cases, pos,
  Str, Result, ok, err, >>=-eq-ok,
}
use proxy2api.Dict.{Dict}
use proxy2api.Config.{Config}
use proxy2api.Store.Gorm.{Gorm, GormLaws}
use proxy2api.Store.Billing.Conservation.{rows_of}
use proxy2api.Gateway.Types.{ProviderState, ProviderKeyState, StickyBind}
use proxy2api.Gateway.Limiter.{MinuteLimiter}
use proxy2api.Store.Tables.{Store}
use proxy2api.Gateway.Select.{Selected, select_provider_and_key}
use proxy2api.Gateway.Forward.{
  Header, header_get, Request, OutRequest, Response, Reply, relayed, Usage, BodyJson, extract_usage,
  relay, answer, forward, out_request,
}
use proxy2api.Gateway.Admit.{Server, Outside, Guard, pass, refuse, Admitted, admit}
use proxy2api.Gateway.Proxy.{
  after_channel, after_user, dispatch, route, handled, proceed, finish, handle_proxy,
}
use proxy2api.Gateway.Proxy.Billed.{IsBilled, settle-IsBilled}

-- The usage that a body reports: zeros where it reports none.
abbrev pub Reported : BodyJson → Str → Usage → Type 0
Reported json b u =
    (json.usage b ≡ some u)
    ⊎ ((json.usage b ≡ none) × (u ≡ record { prompt = pos 0; completion = pos 0; total = pos 0 }))

reported : (json : BodyJson) (b : Str) → Reported json b (extract_usage json b)
unfolding extract_usage
reported json b = elim (Option-cases (json.usage b)) [
  | inl e ↦ rw e (inr (refl, refl))
  | inr (u, e) ↦ rw e (inl refl)
]

relay-Reported :
    (json : BodyJson) (text_of : ℕ → Str) (m : Result Response) (c : ℕ) (hs : Header) (b : Str)
    (u : Usage)
    → relay json text_of m ≡ ok (relayed c hs b, u)
    → Reported json b u
unfolding relay
relay-Reported json text_of m c hs b u h =
    let (resp, got, h1) = >>=-eq-ok m _ h in
    let (body, read, h2) = >>=-eq-ok (answer text_of resp) _ h1 in
    let same_body : body ≡ b = cc in
    let same : extract_usage json body ≡ u = cc in rw (← same, same_body) (reported json b)

module _ (g : Gorm) (cfg : Config) (o : Outside) where
  forward-Reported :
      (r : Request) (body model : Str) (p : ProviderState) (k : ProviderKeyState) (c : ℕ)
      (hs : Header) (b : Str) (u : Usage)
      → (forward o.body_json o.net o.text_of r body model p k).outcome ≡ ok (relayed c hs b, u)
      → Reported o.body_json b u
  unfolding forward
  forward-Reported r body model p k c hs b u h =
      asked (out_request o.body_json o.net r body model p k) refl
    where
      asked :
          (m : Result OutRequest)
          → out_request o.body_json o.net r body model p k ≡ m
          → Reported o.body_json b u
      asked (err e) q = let failed_run = (rw (forward, q) at h) in absurd cc
      asked (ok out) q =
          relay-Reported o.body_json o.text_of (o.net.client_do out) c hs b u (rw (forward, q) at h)

  -- The billing of a request with the usage that its reply reports.
  abbrev pub BilledFor :
      Admitted → ProviderState → ProviderKeyState → Str → Store g → Store g → Type 0
  BilledFor a p k b s s' = (u : Usage) × Reported o.body_json b u × IsBilled g cfg o a p k u s s'

  finish-IsBilled :
      (laws : GormLaws g) (a : Admitted) (p : ProviderState) (k : ProviderKeyState) (s : Server g)
      → ((key : Str) → rows_of g key s.store ≤ 1)
      → (sent : Option OutRequest) (outcome : Result (Reply × Usage)) (c : ℕ) (hs : Header)
        (b : Str)
      → ((u : Usage) → outcome ≡ ok (relayed c hs b, u) → Reported o.body_json b u)
      → (finish g cfg o a p k s (record { sent = sent; outcome = outcome })).reply ≡ relayed c hs b
      → BilledFor a p k b s.store
          (finish g cfg o a p k s (record { sent = sent; outcome = outcome })).server.store
  finish-IsBilled laws a p k s unique sent (err x) c hs b told h = absurd cc
  finish-IsBilled laws a p k s unique sent (ok (reply, u)) c hs b told h =
      (u, told u (ap (λ x. ok (x, u)) h), settle-IsBilled g cfg o laws a p k u s unique)

  after_channel-IsBilled :
      (laws : GormLaws g) (r : Request) (a : Admitted) (p : ProviderState) (k : ProviderKeyState)
      (s : Server g)
      → ((key : Str) → rows_of g key s.store ≤ 1)
      → (l : Bool × MinuteLimiter) (c : ℕ) (hs : Header) (b : Str)
      → (after_channel g cfg o r a p k s l).reply ≡ relayed c hs b
      → BilledFor a p k b s.store (after_channel g cfg o r a p k s l).server.store
  after_channel-IsBilled laws r a p k s unique (false, limiter) c hs b h = absurd cc
  after_channel-IsBilled laws r a p k s unique (true, limiter) c hs b h =
      finish-IsBilled laws a p k (record s { channel_limiter = limiter }) unique _ _ c hs b
        (forward-Reported r a.body a.model p k c hs b) h

  route-IsBilled :
      (laws : GormLaws g) (r : Request) (a : Admitted) (s : Server g)
      → ((key : Str) → rows_of g key s.store ≤ 1)
      → (x : Selected × Dict StickyBind) (c : ℕ) (hs : Header) (b : Str)
      → (route g cfg o r a s x).reply ≡ relayed c hs b
      → (p : ProviderState) × (k : ProviderKeyState) × (x.0 ≡ ok (p, k))
        × BilledFor a p k b s.store (route g cfg o r a s x).server.store
  unfolding dispatch
  route-IsBilled laws r a s unique (err y, sticky) c hs b h = absurd cc
  route-IsBilled laws r a s unique (ok (p, k), sticky) c hs b h = (
    p,
    k,
    refl,
    after_channel-IsBilled laws r a p k (record s { sticky = sticky }) unique _ c hs b h,
  )

  -- The provider and the key that are selected for a request.
  abbrev pub selected : Request → Server g → Admitted → Selected
  selected r s a =
      (select_provider_and_key s.snapshot o.chance a.model a.forced
        (header_get r.headers cfg.gateway.sticky_session_header) s.sticky).0

  -- A request that was admitted, and is billed and recorded for the body of its reply.
  abbrev pub Served : Request → Server g → Str → Store g → Type 0
  Served r s b s' =
      (a : Admitted) × (admit g cfg o r s ≡ pass a)
      × ((p : ProviderState) × (k : ProviderKeyState) × (selected r s a ≡ ok (p, k))
          × BilledFor a p k b s.store s')

  after_user-IsBilled :
      (laws : GormLaws g) (r : Request) (s : Server g) (a : Admitted)
      → ((key : Str) → rows_of g key s.store ≤ 1)
      → (l : Bool × MinuteLimiter) (c : ℕ) (hs : Header) (b : Str)
      → (after_user g cfg o r s a l).reply ≡ relayed c hs b
      → (p : ProviderState) × (k : ProviderKeyState) × (selected r s a ≡ ok (p, k))
        × BilledFor a p k b s.store (after_user g cfg o r s a l).server.store
  after_user-IsBilled laws r s a unique (false, limiter) c hs b h = absurd cc
  after_user-IsBilled laws r s a unique (true, limiter) c hs b h =
      route-IsBilled laws r a (record s { user_limiter = limiter }) unique _ c hs b h

  handled-IsBilled :
      (laws : GormLaws g) (r : Request) (s : Server g)
      → ((key : Str) → rows_of g key s.store ≤ 1)
      → (m : Guard Admitted) (c : ℕ) (hs : Header) (b : Str) → admit g cfg o r s ≡ m
      → (handled g cfg o r s m).reply ≡ relayed c hs b
      → Served r s b (handled g cfg o r s m).server.store
  unfolding proceed
  handled-IsBilled laws r s unique (refuse d x) c hs b e h = absurd cc
  handled-IsBilled laws r s unique (pass a) c hs b e h =
      (a, e, after_user-IsBilled laws r s a unique _ c hs b h)

  -- A request that is relayed was admitted, and, where every key has at most one row: either the key
  -- of the request had the charge, the price of its model for the larger of the estimated tokens
  -- and those that the body of the reply reports, and has paid it, with one new record of the
  -- billing, and the rows of the other keys and the other records are as they were; or balances and
  -- ledger are the same, and the charge is not positive or its deduction is an error. One usage
  -- record is added, of the selected provider and its key, with the reported tokens and that larger
  -- number, unless the statement for it is an error.
  pub handle_proxy-IsBilled :
      (laws : GormLaws g) (r : Request) (s : Server g)
      → ((key : Str) → rows_of g key s.store ≤ 1)
      → (c : ℕ) (hs : Header) (b : Str) → (handle_proxy g cfg o r s).reply ≡ relayed c hs b
      → Served r s b (handle_proxy g cfg o r s).server.store
  unfolding handle_proxy
  handle_proxy-IsBilled laws r s unique c hs b h =
      handled-IsBilled laws r s unique (admit g cfg o r s) c hs b refl h
