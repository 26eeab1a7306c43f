-- ===== src/Gateway/Proxy/Sent.antt =====
-- What goes to a provider, and for whom.
use proxy2api.Base.{
  ℕ, ◌≡◌, refl, sym, ap, ◌∙◌, ◌⊎◌, inl, inr, Bool, true, false, some, [], ◌∷◌, ◌++◌, arith, Str, ok,
  err, >>=-eq-ok,
}
use proxy2api.Text.{str}
use proxy2api.Dict.{lookup, Dict}
use proxy2api.Config.{Config}
use proxy2api.Store.Gorm.{Gorm}
use proxy2api.Gateway.Types.{ProviderState, ProviderKeyState, StickyBind}
use proxy2api.Gateway.Limiter.{MinuteLimiter}
use proxy2api.Gateway.Select.{Selected}
use proxy2api.Gateway.Forward.{
  header_get, Request, OutRequest, Forwarded, forward, out_request, out_headers,
}
use proxy2api.Gateway.Forward.Headers.{out_headers_authorization}
use proxy2api.Gateway.Select.Sound.{RangesOver, CanServe, select-CanServe}
use proxy2api.Gateway.Admit.{Server, Outside, Guard, pass, refuse, Admitted, admit}
use proxy2api.Gateway.Admit.LetIn.{IsLetIn, admit-IsLetIn}
use proxy2api.Gateway.Proxy.{
  after_channel, after_user, dispatch, route, proceed, finish, handle_proxy,
}

Guard-cases :
    {A : Type 0} (m : Guard A) → ((a : A) × (m ≡ pass a)) ⊎ ((c : ℕ) × (e : Str) × (m ≡ refuse c e))
Guard-cases (pass a) = inl (a, refl)
Guard-cases (refuse c e) = inr (c, e, refl)

module _ (g : Gorm) (cfg : Config) (o : Outside) where
  out_request-made :
      (r : Request) (body model : Str) (p : ProviderState) (k : ProviderKeyState) (out : OutRequest)
      → out_request o.body_json o.net r body model p k ≡ ok out
      → (out.headers ≡ out_headers r.headers k)
        × (o.net.url p.base_url r.path r.raw_query ≡ ok out.url)
        × (out.method ≡ r.method)
  unfolding out_request
  out_request-made r body model p k out h =
      let (target, t, h1) = >>=-eq-ok (o.net.url p.base_url r.path r.raw_query) _ h in
      let (made, m, h2) = >>=-eq-ok (o.net.new_request r.method target) _ h1 in
      let same_url : target ≡ out.url = cc in (cc, t ∙ ap ok same_url, cc)

  -- What is sent goes to the address of the chosen provider, for the path and the query of the
  -- request, with its method, and has the key of the provider, and only that one, as its credentials.
  abbrev pub GoesTo : Request → ProviderState → ProviderKeyState → OutRequest → Type 0
  GoesTo r p k out =
      (lookup (str "Authorization") out.headers ≡ some ((str "Bearer " ++ k.api_key) ∷ []))
      × (o.net.url p.base_url r.path r.raw_query ≡ ok out.url)
      × (out.method ≡ r.method)

  forward-GoesTo :
      (r : Request) (body model : Str) (p : ProviderState) (k : ProviderKeyState) (out : OutRequest)
      → (forward o.body_json o.net o.text_of r body model p k).sent ≡ some out
      → GoesTo r p k out
  unfolding forward
  forward-GoesTo r body model p k out h =
      let made : out_request o.body_json o.net r body model p k ≡ ok out = ground arith in
      let (headers, url, method) = out_request-made r body model p k out made in
      (
        ap (lookup (str "Authorization")) headers ∙ out_headers_authorization r.headers k,
        url,
        method,
      )

  finish-sent :
      (a : Admitted) (p : ProviderState) (k : ProviderKeyState) (s : Server g) (f : Forwarded)
      → (finish g cfg o a p k s f).sent ≡ f.sent
  finish-sent a p k s f = ground arith

  -- Only what `forward` sends is sent.
  after_channel-sent :
      (r : Request) (a : Admitted) (p : ProviderState) (k : ProviderKeyState) (s : Server g)
      (l : Bool × MinuteLimiter) (out : OutRequest)
      → (after_channel g cfg o r a p k s l).sent ≡ some out
      → (forward o.body_json o.net o.text_of r a.body a.model p k).sent ≡ some out
  after_channel-sent r a p k s (false, limiter) out h = cc
  after_channel-sent r a p k s (true, limiter) out h = sym (finish-sent a p k _ _) ∙ h

  dispatch-sent :
      (r : Request) (a : Admitted) (p : ProviderState) (k : ProviderKeyState) (s : Server g)
      (out : OutRequest)
      → (dispatch g cfg o r a p k s).sent ≡ some out
      → (forward o.body_json o.net o.text_of r a.body a.model p k).sent ≡ some out
  unfolding dispatch
  dispatch-sent r a p k s out h = after_channel-sent r a p k s _ out h

  route-sent :
      (r : Request) (a : Admitted) (s : Server g) (c : Selected × Dict StickyBind)
      (out : OutRequest)
      → (route g cfg o r a s c).sent ≡ some out
      → (p : ProviderState) × (k : ProviderKeyState) × (c.0 ≡ ok (p, k)) × GoesTo r p k out
  route-sent r a s (err e, sticky) out h = cc
  route-sent r a s (ok (p, k), sticky) out h = (
    p,
    k,
    refl,
    forward-GoesTo r a.body a.model p k out
        (dispatch-sent r a p k (record s { sticky = sticky }) out h),
  )

  -- The request that is sent, and the provider and the key that it is sent to.
  pub record IsSent (r : Request) (s : Server g) (out : OutRequest) : Type 0 where
    pub admitted : Admitted
    pub let_in : IsLetIn g cfg o r s admitted
    pub provider : ProviderState
    pub key : ProviderKeyState
    pub serves : CanServe s.snapshot o.chance.now admitted.model provider key
    pub authorization :
        lookup (str "Authorization") out.headers ≡ some ((str "Bearer " ++ key.api_key) ∷ [])
    pub target : o.net.url provider.base_url r.path r.raw_query ≡ ok out.url
    pub method : out.method ≡ r.method

  after_user-sent :
      (r : Request) (s : Server g) (a : Admitted) (l : Bool × MinuteLimiter) (out : OutRequest)
      → RangesOver s.snapshot o.chance
      → IsLetIn g cfg o r s a
      → (after_user g cfg o r s a l).sent ≡ some out
      → IsSent r s out
  after_user-sent r s a (false, limiter) out ranges let_in h = cc
  after_user-sent r s a (true, limiter) out ranges let_in h =
      let header = header_get r.headers cfg.gateway.sticky_session_header in
      let (p, k, chosen, (auth, target, method)) =
        route-sent r a (record s { user_limiter = limiter }) _ out h in
      record {
        admitted = a;
        let_in = let_in;
        provider = p;
        key = k;
        serves =
            select-CanServe s.snapshot o.chance a.model a.forced header s.sticky p k ranges chosen;
        authorization = auth;
        target = target;
        method = method;
      }

  proceed-sent :
      (r : Request) (s : Server g) (a : Admitted) (out : OutRequest)
      → RangesOver s.snapshot o.chance
      → IsLetIn g cfg o r s a
      → (proceed g cfg o r s a).sent ≡ some out
      → IsSent r s out
  unfolding proceed
  proceed-sent r s a out ranges let_in h = after_user-sent r s a _ out ranges let_in h

  -- A request reaches a provider only if it is a POST of an authenticated user, for a model that
  -- the user's key allows, and no rule denies it; the provider is an enabled one of the snapshot
  -- that supports the model; the request goes to the address of that provider, for the path and the
  -- query of the user's request; and its credentials are one of the provider's keys, enabled and
  -- past its cooldown. The loop over the providers is assumed to visit only what the map holds.
  pub handle_proxy-IsSent :
      (r : Request) (s : Server g) (out : OutRequest)
      → RangesOver s.snapshot o.chance
      → (handle_proxy g cfg o r s).sent ≡ some out
      → IsSent r s out
  unfolding handle_proxy
  handle_proxy-IsSent r s out ranges h = elim (Guard-cases (admit g cfg o r s)) [
    | inl (a, e) ↦ proceed-sent r s a out ranges (admit-IsLetIn g cfg o r s a e) (ground arith)
    | inr (c, t, e) ↦ absurd (ground arith)
  ]
