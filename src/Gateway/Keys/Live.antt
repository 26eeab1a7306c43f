-- ===== src/Gateway/Keys/Live.antt =====
-- A key is picked exactly when the provider has one that is enabled and past its cooldown.
use proxy2api.Base.{
  ℕ, ◌%◌, ◌≡◌, refl, ◌≢◌, ◌↔◌, Bool, true, not, Option, none, some, List, [], ◌∷◌, arith, ◌==◌, pos,
  ◌<ℤ◌, length, get_elem?, keep, any, In, In-keep, In-get_elem?, get_elem?-lt, Str, ok,
}
use proxy2api.Gateway.Types.{ProviderState, ProviderKeyState}
use proxy2api.Gateway.Keys.{is_live, has_live_key, pick_provider_key, found_key}

found_key-eq-ok :
    (name : Str) (o : Option ProviderKeyState) (k : ProviderKeyState)
    → found_key name o ≡ ok k
    → o ≡ some k
found_key-eq-ok name none k h = cc
found_key-eq-ok name (some x) k h = cc

-- A key that is picked is one of the provider's, enabled, and its cooldown is over.
pub pick_provider_key-live :
    (p : ProviderState) (now nano : ℕ) (k : ProviderKeyState)
    → pick_provider_key p now nano ≡ ok k
    → In k p.keys × (k.enabled ≡ true) × (k.cooldown_until <ℤ pos now)
unfolding pick_provider_key
pick_provider_key-live p now nano k h =
    let live = keep (is_live now) p.keys in
    let found : get_elem? live (nano % length live) ≡ some k =
      found_key-eq-ok p.name _ k (ground arith) in
    let (listed, passes) = In-keep (is_live now) k p.keys (In-get_elem? k live _ found) in
    (listed, ground arith, ground arith)

any-keep : {A : Type 0} (p : A → Bool) (xs : List A) → any p xs ≡ not (length (keep p xs) == 0)
any-keep p [] = refl
any-keep p (x ∷ xs) = ground (arith, any-keep p xs)

-- The test that selects the candidates and the choice of a key agree: with a live key at `now` the
-- choice gives one, whatever the second reading of the clock, and without one it is an error.
pub pick_provider_key_iff :
    (p : ProviderState) (now nano : ℕ)
    → (has_live_key p now ≡ true) ↔ ((k : ProviderKeyState) × (pick_provider_key p now nano ≡ ok k))
unfolding has_live_key pick_provider_key
pick_provider_key_iff p now nano = (forth, back)
  where
    back :
        (k : ProviderKeyState) × (pick_provider_key p now nano ≡ ok k)
        → any (is_live now) p.keys ≡ true
    back (k, h) = rw any-keep (ground arith)

    forth :
        any (is_live now) p.keys ≡ true
        → (k : ProviderKeyState) × (pick_provider_key p now nano ≡ ok k)
    forth h =
        let live = keep (is_live now) p.keys in
        let full : length live ≢ 0 = ground (arith, any-keep (is_live now) p.keys) in
        let (k, found) = get_elem?-lt live (nano % length live) (grind arith) in (k, ground arith)
