-- ===== src/Gateway/Select/Sound.antt =====
-- Whatever is selected can serve the request.
use proxy2api.Base.{
  ℕ, ◌≡◌, ap, ◌∙◌, inl, inr, true, false, some, arith, Bool-cases, Option-cases, pos, ◌<ℤ◌, In,
  In-keep, Str, Result, ok, err,
}
use proxy2api.Text.{is_empty, trim_space}
use proxy2api.Dict.{Dict, lookup, In-lookup}
use proxy2api.Gateway.Types.{ProviderState, ProviderKeyState, StickyBind, Snapshot}
use proxy2api.Gateway.Pick.{supports_model, weighted_provider_pick}
use proxy2api.Gateway.Pick.Share.{weighted_pick-In}
use proxy2api.Gateway.Keys.{pick_provider_key}
use proxy2api.Gateway.Keys.Live.{pick_provider_key-live}
use proxy2api.Gateway.Select.{
  Chance, Selected, with_key, only_ok, select_forced, select_bound, is_candidate, candidates,
  bind_session, picked_key, select_weighted, select_provider_and_key,
}

-- The loop over the map visits what the map holds.
abbrev pub RangesOver : Snapshot → Chance → Type 0
RangesOver snap ch =
    (p : ProviderState) → In p (ch.range snap.providers) → (n : Str) × In (n, p) snap.providers

-- An enabled provider of the snapshot that supports the model, with one of its live keys.
pub record CanServe (snap : Snapshot) (now : ℕ) (model : Str) (p : ProviderState)
    (k : ProviderKeyState) : Type 0 where
  pub name : Str
  pub listed : In (name, p) snap.providers
  pub enabled : p.enabled ≡ true
  pub supports : supports_model p.models model ≡ true
  pub key_listed : In k p.keys
  pub key_enabled : k.enabled ≡ true
  pub key_rested : k.cooldown_until <ℤ pos now

pub with_key-eq-ok :
    (p q : ProviderState) (k : ProviderKeyState) (r : Result ProviderKeyState)
    → with_key p r ≡ ok (q, k)
    → (p ≡ q) × (r ≡ ok k)
with_key-eq-ok p q k (ok x) h = (cc, cc)
with_key-eq-ok p q k (err e) h = cc

module _ (snap : Snapshot) (ch : Chance) (model : Str) where
  with_key-CanServe :
      (n : Str) (p q : ProviderState) (k : ProviderKeyState) (nano : ℕ)
      → In (n, p) snap.providers
      → p.enabled ≡ true
      → supports_model p.models model ≡ true
      → with_key p (pick_provider_key p ch.now nano) ≡ ok (q, k)
      → CanServe snap ch.now model q k
  with_key-CanServe n p q k nano listed enabled supports h =
      let (same, picked) = with_key-eq-ok p q k _ h in
      let (key_listed, key_enabled, key_rested) = pick_provider_key-live p ch.now nano k picked in
      rw (← same) (record {
        name = n;
        listed = listed;
        enabled = enabled;
        supports = supports;
        key_listed = key_listed;
        key_enabled = key_enabled;
        key_rested = key_rested;
      })

  select_forced-CanServe :
      (forced : Str) (p : ProviderState) (k : ProviderKeyState)
      → select_forced snap ch model forced ≡ ok (p, k)
      → CanServe snap ch.now model p k × (lookup forced snap.providers ≡ some p)
  unfolding select_forced
  select_forced-CanServe forced p k h = elim (Option-cases (lookup forced snap.providers)) [
    | inl missing ↦ absurd (ground arith)
    | inr (q, found) ↦
        let enabled : q.enabled ≡ true = ground arith in
        let supports : supports_model q.models model ≡ true = ground arith in
        let chosen : with_key q (pick_provider_key q ch.now ch.first_nano) ≡ ok (p, k) =
          ground arith in
        let same = (with_key-eq-ok q p k _ chosen).0 in
        (
          with_key-CanServe forced q p k ch.first_nano (In-lookup forced q snap.providers found)
              enabled supports chosen,
          found ∙ ap some same,
        )
  ]

  only_ok-eq-some :
      (r : Selected) (pk : ProviderState × ProviderKeyState) → only_ok r ≡ some pk → r ≡ ok pk
  only_ok-eq-some (ok x) pk h = cc
  only_ok-eq-some (err e) pk h = cc

  -- The bound provider is the one that the session's entry names.
  pub select_bound-CanServe :
      (session : Str) (sticky : Dict StickyBind) (p : ProviderState) (k : ProviderKeyState)
      → select_bound snap ch model session sticky ≡ some (p, k)
      → CanServe snap ch.now model p k
        × ((b : StickyBind) × (lookup session sticky ≡ some b)
            × (lookup b.provider snap.providers ≡ some p))
  unfolding select_bound
  select_bound-CanServe session sticky p k h = elim (Option-cases (lookup session sticky)) [
    | inl unbound ↦ absurd (ground arith)
    | inr (b, bound) ↦ elim (Option-cases (lookup b.provider snap.providers)) [
      | inl missing ↦ absurd (ground arith)
      | inr (q, found) ↦
          let enabled : q.enabled ≡ true = ground arith in
          let supports : supports_model q.models model ≡ true = ground arith in
          let chosen : with_key q (pick_provider_key q ch.now ch.first_nano) ≡ ok (p, k) =
            only_ok-eq-some _ (p, k) (ground arith) in
          let same = (with_key-eq-ok q p k _ chosen).0 in
          (
            with_key-CanServe b.provider q p k ch.first_nano
                (In-lookup b.provider q snap.providers found) enabled supports chosen,
            (b, bound, found ∙ ap some same),
          )
    ]
  ]

  pub bind_session-eq-ok :
      (session : Str) (sticky : Dict StickyBind) (r : Selected)
      (pk : ProviderState × ProviderKeyState)
      → (bind_session ch session sticky r).0 ≡ ok pk
      → r ≡ ok pk
  bind_session-eq-ok session sticky (ok x) pk h = h
  bind_session-eq-ok session sticky (err e) pk h = h

  select_weighted-CanServe :
      (session : Str) (sticky : Dict StickyBind) (p : ProviderState) (k : ProviderKeyState)
      → RangesOver snap ch
      → (select_weighted snap ch model session sticky).0 ≡ ok (p, k)
      → CanServe snap ch.now model p k
  unfolding select_weighted
  select_weighted-CanServe session sticky p k ranges h =
      let chosen : picked_key ch (weighted_provider_pick ch.intn (candidates snap ch model))
          ≡ ok (p, k) =
        bind_session-eq-ok session sticky _ (p, k) (ground arith) in
      elim (Option-cases (weighted_provider_pick ch.intn (candidates snap ch model))) [
        | inl nobody ↦ absurd (ground arith)
        | inr (q, picked) ↦
            let chosen' : with_key q (pick_provider_key q ch.now ch.second_nano) ≡ ok (p, k) =
              rw picked at chosen in
            let (visited, passes) =
              In-keep (is_candidate ch.now model) q (ch.range snap.providers)
                (weighted_pick-In ch.intn (candidates snap ch model) q picked) in
            let (n, listed) = ranges q visited in
            with_key-CanServe n q p k ch.second_nano listed (ground arith) (ground arith) chosen'
      ]

  -- Whichever way a provider and a key are selected, forced, by the session or by weight, the
  -- provider is one of the snapshot, is enabled and supports the model, and the key is one of its
  -- keys, enabled and past its cooldown. The loop over the providers is assumed to visit only what
  -- the map holds.
  pub select-CanServe :
      (forced header : Str) (sticky : Dict StickyBind) (p : ProviderState) (k : ProviderKeyState)
      → RangesOver snap ch
      → (select_provider_and_key snap ch model forced header sticky).0 ≡ ok (p, k)
      → CanServe snap ch.now model p k
  unfolding select_provider_and_key
  select-CanServe forced header sticky p k ranges h = elim (Bool-cases (is_empty forced)) [
    | inl free ↦ elim (Option-cases (select_bound snap ch model (trim_space header) sticky)) [
      | inl unbound ↦ select_weighted-CanServe (trim_space header) sticky p k ranges (ground arith)
      | inr (pk, bound) ↦
          (select_bound-CanServe (trim_space header) sticky p k (bound ∙ ground arith)).0
    ]
    | inr e ↦ (select_forced-CanServe forced p k (ground arith)).0
  ]

  -- Where a provider is forced and the selection succeeds, it is the provider of that name, and the
  -- sessions keep their bindings.
  select_forced_lem :
      (forced header : Str) (sticky : Dict StickyBind) (p : ProviderState) (k : ProviderKeyState)
      → is_empty forced ≡ false
      → (select_provider_and_key snap ch model forced header sticky).0 ≡ ok (p, k)
      → (lookup forced snap.providers ≡ some p)
        × ((select_provider_and_key snap ch model forced header sticky).1 ≡ sticky)
  unfolding select_provider_and_key
  select_forced_lem forced header sticky p k e h =
      ((select_forced-CanServe forced p k (ground arith)).1, ground arith)
