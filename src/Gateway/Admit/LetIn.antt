-- ===== src/Gateway/Admit/LetIn.antt =====
-- Who passes the tests before the first change.
use proxy2api.Base.{ℕ, ◌≡◌, refl, Bool, true, false, not, if◌then◌else◌, pos, Str, Result, ok, err}
use proxy2api.Text.{str, eq_str}
use proxy2api.Config.{Config}
use proxy2api.Store.Gorm.{Gorm}
use proxy2api.Gateway.Types.{GatewayKey}
use proxy2api.Gateway.Forward.{Request, ParsedRequest, parse_request}
use proxy2api.Gateway.Rules.{Verdict}
use proxy2api.Gateway.Admit.{
  admit_model, user_of, model_refused, verdict, check_balance, cost, price, scaled, at_least_one,
  Server, Outside, Guard, pass, refuse, ◌>>=◌, or_refuse, refuse_if, Admitted, admit,
}

>>=-eq-pass :
    {A B : Type 0} (m : Guard A) (f : A → Guard B) {b : B}
    → (m >>= f) ≡ pass b
    → (a : A) × (m ≡ pass a) × (f a ≡ pass b)
>>=-eq-pass (pass a) f h = (a, refl, h)
>>=-eq-pass (refuse c e) f h = cc

or_refuse-eq-pass :
    {A B : Type 0} (c : ℕ) (m : Result A) (f : A → Guard B) {b : B}
    → (or_refuse c m >>= f) ≡ pass b
    → (a : A) × (m ≡ ok a) × (f a ≡ pass b)
or_refuse-eq-pass c (ok a) f h = (a, refl, h)
or_refuse-eq-pass c (err e) f h = cc

refuse_if-eq-pass :
    {B : Type 0} (t : Bool) (c : ℕ) (e : Str) (f : Unit {0} → Guard B) {b : B}
    → (refuse_if t c e >>= f) ≡ pass b
    → (t ≡ false) × (f tt ≡ pass b)
refuse_if-eq-pass true c e f h = cc
refuse_if-eq-pass false c e f h = (refl, h)

module _ (g : Gorm) (cfg : Config) (o : Outside) where
  -- A request that was let in: a POST of a user, with a body, a model that the key allows, and no
  -- rule that denies it.
  unfoldable pub IsLetIn : Request → Server g → Admitted → Type 0
  IsLetIn r s a =
      (not (eq_str r.method (str "POST")) ≡ false)
      × (user_of g cfg o r s ≡ ok (a.token, a.key_cfg))
      × (r.body ≡ ok a.body)
      × (a.model ≡ (parse_request o.body_json a.body).model)
      × (model_refused g cfg o a.key_cfg a.model ≡ false)
      × ((verdict g cfg o r s a.token a.key_cfg a.model).denied ≡ false)

  admit_model-eq-pass :
      (s : Server g) (token : Str) (k : GatewayKey) (body : Str) (info : ParsedRequest)
      (v : Verdict) (a : Admitted)
      → admit_model g cfg o s token k body info v ≡ pass a
      → (v.denied ≡ false)
        × (a.token ≡ token)
        × (a.key_cfg ≡ k)
        × (a.body ≡ body)
        × (a.model ≡ info.model)
  unfolding admit_model
  admit_model-eq-pass s token k body info v a h =
      let (fine, h1) = refuse_if-eq-pass v.denied _ _ _ h in
      let (u, paid, h2) =
        >>=-eq-pass
          (if cfg.billing.enabled
            then check_balance g cfg o s.store token (
                cost (at_least_one (scaled o.fo (pos info.estimated_token) v.multiplier))
                  (price g cfg o s.store info.model))
            else pass tt)
          _ h1 in
      (fine, cc, cc, cc, cc)

  equal-IsLetIn :
      (r : Request) (s : Server g) (a : Admitted) (token : Str) (k : GatewayKey) (body model : Str)
      → a.token ≡ token
      → a.key_cfg ≡ k
      → a.body ≡ body
      → a.model ≡ model
      → not (eq_str r.method (str "POST")) ≡ false
      → user_of g cfg o r s ≡ ok (token, k)
      → r.body ≡ ok body
      → model ≡ (parse_request o.body_json body).model
      → model_refused g cfg o k model ≡ false
      → (verdict g cfg o r s token k model).denied ≡ false
      → IsLetIn r s a
  unfolding IsLetIn
  equal-IsLetIn r s a token k body model tk kc bd md posted known read parsed allowed fine =
      rw (tk, kc, bd, md) (posted, known, read, parsed, allowed, fine)

  -- Whoever is let in has passed the tests.
  pub admit-IsLetIn :
      (r : Request) (s : Server g) (a : Admitted) → admit g cfg o r s ≡ pass a → IsLetIn r s a
  unfolding admit
  admit-IsLetIn r s a h =
      let (posted, h1) = refuse_if-eq-pass (not (eq_str r.method (str "POST"))) _ _ _ h in
      let (user, known, h2) = or_refuse-eq-pass 401 (user_of g cfg o r s) _ h1 in
      let (body, read, h3) = or_refuse-eq-pass 400 r.body _ h2 in
      let model = (parse_request o.body_json body).model in
      let (allowed, h4) = refuse_if-eq-pass (model_refused g cfg o user.1 model) _ _ _ h3 in
      let (fine, tk, kc, bd, md) =
        admit_model-eq-pass s user.0 user.1 body (parse_request o.body_json body)
          (verdict g cfg o r s user.0 user.1 model) a h4 in
      equal-IsLetIn r s a user.0 user.1 body model tk kc bd md posted known read refl allowed fine
