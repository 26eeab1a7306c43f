-- ===== src/Gateway/Select/Tests.antt =====
-- The choice of a provider at concrete snapshots.
use proxy2api.Base.{
  ◌≡◌, refl, sym, ap, ◌∙◌, ◌↔◌, inl, inr, true, some, [], ◌∷◌, ◌+ℤ◌, wrap64, add64, any, In, Str,
  ok,
}
use proxy2api.Text.{str, trim_space, trim_left, trim_right_rev}
use proxy2api.Dict.{lookup}
use proxy2api.Gateway.Types.{ProviderKeyState, ProviderState}
use proxy2api.Gateway.Fixtures.{good_key, a, b, snap, chance}
use proxy2api.Gateway.Pick.{supports_model, weighted_provider_pick, total_weight, pick_from}
use proxy2api.Gateway.Keys.{has_live_key, pick_provider_key}
use proxy2api.Gateway.Select.{is_candidate, select_provider_and_key, select_bound, select_weighted}
use proxy2api.Gateway.Select.Sound.{CanServe, RangesOver, select-CanServe}
use proxy2api.Gateway.Select.Sticky.{IsKeyed, select_again, select_finds_iff}

ranges : RangesOver snap chance
ranges p (inl e) = (str "a", inl (ap (λ x. (str "a", x)) e))
ranges p (inr (inl e)) = (str "b", inr (inl (ap (λ x. (str "b", x)) e)))
ranges p (inr (inr x)) = elim x [ ]

visits :
    (n : Str) (p : ProviderState) → In (n, p) snap.providers → In p (chance.range snap.providers)
visits n p (inl e) = inl (ap (λ (x : Str × ProviderState). x.1) e)
visits n p (inr (inl e)) = inr (inl (ap (λ (x : Str × ProviderState). x.1) e))
visits n p (inr (inr x)) = elim x [ ]

named :
    (p q : ProviderState)
    → p ≡ q
    → lookup q.name snap.providers ≡ some q
    → lookup p.name snap.providers ≡ some p
named p q e h = ap (λ x. lookup x.name snap.providers) e ∙ h ∙ ap some (sym e)

keyed : IsKeyed snap
unfolding lookup
keyed n p (inl e) = named p a (ap (λ (x : Str × ProviderState). x.1) e) refl
keyed n p (inr (inr x)) = elim x [ ]
keyed n p (inr (inl e)) = named p b (ap (λ (x : Str × ProviderState). x.1) e) refl

select-CanServe_example : CanServe snap 1000 (str "m") a good_key
unfolding select_provider_and_key select_bound select_weighted weighted_provider_pick supports_model
    has_live_key pick_provider_key trim_space trim_left trim_right_rev lookup total_weight add64
    wrap64 ◌+ℤ◌ pick_from
select-CanServe_example =
    select-CanServe snap chance (str "m") [] (str "s") [] a good_key ranges refl

select_again_example :
    (k' : ProviderKeyState) × (select_provider_and_key snap chance
        (str "m")
        []
        (str "s")
        (select_provider_and_key snap chance (str "m") [] (str "s") []).1
      ≡ (ok (a, k'), (select_provider_and_key snap chance (str "m") [] (str "s") []).1))
unfolding select_provider_and_key select_bound select_weighted weighted_provider_pick supports_model
    has_live_key pick_provider_key trim_space trim_left trim_right_rev lookup total_weight add64
    wrap64 ◌+ℤ◌ pick_from
select_again_example =
    select_again snap (str "m") (str "s") chance chance [] a good_key keyed ranges refl refl refl

select_finds_iff_example :
    ((pk : ProviderState × ProviderKeyState) × ((select_provider_and_key snap chance
          (str "m")
          []
          (str "s")
          []).0
        ≡ ok pk))
    ↔ (any (is_candidate 1000 (str "m")) (a ∷ b ∷ []) ≡ true)
select_finds_iff_example =
    select_finds_iff snap (str "m") (str "s") chance [] (ranges, visits) (λ n h. h)
