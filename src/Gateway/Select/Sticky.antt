-- ===== src/Gateway/Select/Sticky.antt =====
-- Sessions stay with their provider, and a request without a forced provider fails only where no
-- provider can serve it.
use proxy2api.Base.{
  ℕ, ◌<◌, ◌≡◌, refl, ap, ◌∙◌, ◌↔◌, inl, inr, true, false, some, List, [], ◌∷◌, arith, ◌==◌,
  Bool-cases, Option-cases, ℤ, pos, length, any, In, In-keep, In-keep_of, any_sound, any_complete,
  Str, ok, err,
}
use proxy2api.Text.{is_empty, trim_space}
use proxy2api.Text.Laws.{eq_str_refl}
use proxy2api.Dict.{Dict, lookup, lookup-insert}
use proxy2api.Gateway.Types.{ProviderState, ProviderKeyState, StickyBind, Snapshot}
use proxy2api.Gateway.Pick.{supports_model}
use proxy2api.Gateway.Pick.Share.{weighted_pick-In, weighted_pick_total}
use proxy2api.Gateway.Keys.{is_live, has_live_key}
use proxy2api.Gateway.Keys.Live.{pick_provider_key_iff}
use proxy2api.Gateway.Select.{
  Chance, Selected, with_key, select_bound, is_candidate, candidates, bind_session, select_weighted,
  select_provider_and_key,
}
use proxy2api.Gateway.Select.Sound.{RangesOver, CanServe, select-CanServe, select_bound-CanServe}

-- The snapshot holds every provider under its own name.
abbrev pub IsKeyed : Snapshot → Type 0
IsKeyed snap =
    (n : Str) (p : ProviderState) → In (n, p) snap.providers → lookup p.name snap.providers ≡ some p

-- `rand.Intn(n)` is below `n`.
abbrev pub IsIntn : (ℤ → ℕ) → Type 0
IsIntn intn = (n : ℕ) → 0 < n → intn (pos n) < n

module _ (snap : Snapshot) (model : Str) where
  -- The session's entry leads to the provider.
  abbrev pub BoundTo : Str → Dict StickyBind → ProviderState → Type 0
  BoundTo session sticky p =
      (b : StickyBind) × (lookup session sticky ≡ some b)
      × (lookup b.provider snap.providers ≡ some p)

  bind_session-BoundTo :
      (ch : Chance) (session : Str) (sticky : Dict StickyBind) (r : Selected) (p : ProviderState)
      (k : ProviderKeyState)
      → is_empty session ≡ false
      → lookup p.name snap.providers ≡ some p
      → (bind_session ch session sticky r).0 ≡ ok (p, k)
      → BoundTo session (bind_session ch session sticky r).1 p
  bind_session-BoundTo ch session sticky (err e) p k full keyed h = cc
  bind_session-BoundTo ch session sticky (ok (q, x)) p k full keyed h =
      let same : q ≡ p = cc in
      (
        record { provider = q.name; updated = ch.bound_at },
        rw full (rw lookup-insert (rw eq_str_refl)),
        rw same keyed,
      )

  select_weighted-BoundTo :
      (ch : Chance) (session : Str) (sticky : Dict StickyBind) (p : ProviderState)
      (k : ProviderKeyState)
      → is_empty session ≡ false
      → lookup p.name snap.providers ≡ some p
      → (select_weighted snap ch model session sticky).0 ≡ ok (p, k)
      → BoundTo session (select_weighted snap ch model session sticky).1 p
  unfolding select_weighted
  select_weighted-BoundTo ch session sticky p k full keyed h =
      elim (Bool-cases (length (candidates snap ch model) == 0)) [
        | inl nobody ↦ absurd (ground arith)
        | inr somebody ↦
            rw somebody (bind_session-BoundTo ch session sticky _ p k full keyed (rw somebody at h))
      ]

  -- After a selection without a forced provider the session is bound to what was selected.
  select-BoundTo :
      (ch : Chance) (header : Str) (sticky : Dict StickyBind) (p : ProviderState)
      (k : ProviderKeyState)
      → is_empty (trim_space header) ≡ false
      → lookup p.name snap.providers ≡ some p
      → (select_provider_and_key snap ch model [] header sticky).0 ≡ ok (p, k)
      → BoundTo (trim_space header) (select_provider_and_key snap ch model [] header sticky).1 p
  unfolding select_provider_and_key
  select-BoundTo ch header sticky p k full keyed h =
      elim (Option-cases (select_bound snap ch model (trim_space header) sticky)) [
        | inl unbound ↦
            rw unbound (
              select_weighted-BoundTo ch (trim_space header) sticky p k full keyed
                (rw unbound at h))
        | inr (pk, bound) ↦
            rw bound
              (select_bound-CanServe snap ch model (trim_space header) sticky p k
                (bound ∙ ground arith)).1
      ]

  BoundTo-select :
      (ch : Chance) (header : Str) (sticky : Dict StickyBind) (p : ProviderState)
      → is_empty (trim_space header) ≡ false
      → BoundTo (trim_space header) sticky p
      → p.enabled ≡ true
      → supports_model p.models model ≡ true
      → has_live_key p ch.now ≡ true
      → (k : ProviderKeyState) × (select_provider_and_key snap ch model [] header sticky
          ≡ (ok (p, k), sticky))
  unfolding select_provider_and_key select_bound
  BoundTo-select ch header sticky p full (b, bound, found) enabled supports live =
      let (k, picked) = (pick_provider_key_iff p ch.now ch.first_nano).0 live in (k, ground arith)

-- A session stays with its provider: after a selection with no forced provider and a session that is
-- not blank, the next one of that session and model, from the same snapshot, whatever the clock and
-- the random numbers then, selects the same provider and leaves the bindings alone, as long as the
-- provider still has a live key.
pub select_again :
    (snap : Snapshot) (model header : Str) (ch next : Chance) (sticky : Dict StickyBind)
    (p : ProviderState) (k : ProviderKeyState)
    → IsKeyed snap
    → RangesOver snap ch
    → is_empty (trim_space header) ≡ false
    → (select_provider_and_key snap ch model [] header sticky).0 ≡ ok (p, k)
    → has_live_key p next.now ≡ true
    → let sticky' = (select_provider_and_key snap ch model [] header sticky).1 in
      (k' : ProviderKeyState) × (select_provider_and_key snap next model [] header sticky'
        ≡ (ok (p, k'), sticky'))
select_again snap model header ch next sticky p k keyed ranges full h live =
    let serves = select-CanServe snap ch model [] header sticky p k ranges h in
    BoundTo-select snap model next header _ p full
      (select-BoundTo snap model ch header sticky p k full (keyed serves.name p serves.listed) h)
      serves.enabled serves.supports live

-- The loop over the map visits exactly what the map holds.
abbrev pub RangesAll : Snapshot → Chance → Type 0
RangesAll snap ch =
    RangesOver snap ch
    × ((n : Str) (p : ProviderState) → In (n, p) snap.providers → In p (ch.range snap.providers))

module _ (snap : Snapshot) (model : Str) (ch : Chance) where
  nonempty : (x : ProviderState) (xs : List ProviderState) → (length (x ∷ xs) == 0) ≡ false
  nonempty x xs = ground arith

  bind_session_selected :
      (session : Str) (sticky : Dict StickyBind) (r : Selected)
      → (bind_session ch session sticky r).0 ≡ r
  bind_session_selected session sticky (ok (p, k)) = refl
  bind_session_selected session sticky (err e) = refl

  CanServe-is_candidate :
      (p : ProviderState) (k : ProviderKeyState)
      → CanServe snap ch.now model p k
      → is_candidate ch.now model p ≡ true
  unfolding has_live_key
  CanServe-is_candidate p k s = ground (arith, any_complete (is_live ch.now) k p.keys s.key_listed)

  candidate-select_weighted :
      (session : Str) (sticky : Dict StickyBind) (p : ProviderState)
      → IsIntn ch.intn
      → In p (candidates snap ch model)
      → (pk : ProviderState × ProviderKeyState) × ((select_weighted snap ch model session sticky).0
          ≡ ok pk)
  unfolding select_weighted
  candidate-select_weighted session sticky p law listed = go (candidates snap ch model) refl listed
    where
      go :
          (live : List ProviderState)
          → candidates snap ch model ≡ live
          → In p live
          → (pk : ProviderState × ProviderKeyState) × ((select_weighted snap ch model session
                sticky).0
              ≡ ok pk)
      go [] e i = elim i [ ]
      go (x ∷ xs) e i =
          let (q, picked) = weighted_pick_total ch.intn x xs law in
          let visited : In q (candidates snap ch model) =
            rw e (weighted_pick-In ch.intn (x ∷ xs) q picked) in
          let passes =
            (In-keep (is_candidate ch.now model) q (ch.range snap.providers) visited).1 in
          let (k, found) = (pick_provider_key_iff q ch.now ch.second_nano).0 (ground arith) in
          (
            (q, k),
            rw (e, nonempty x xs)
                (bind_session_selected session sticky _ ∙ rw picked (ap (with_key q) found)),
          )

-- With no forced provider, a loop that visits exactly the providers of the map, and random numbers
-- below their bound, a request finds a provider exactly when some provider of the map is enabled,
-- supports the model and has a live key: the choice of a key after that test does not fail.
pub select_finds_iff :
    (snap : Snapshot) (model header : Str) (ch : Chance) (sticky : Dict StickyBind)
    → RangesAll snap ch
    → IsIntn ch.intn
    → ((pk : ProviderState × ProviderKeyState) × ((select_provider_and_key snap ch model [] header
            sticky).0
          ≡ ok pk))
      ↔ (any (is_candidate ch.now model) (ch.range snap.providers) ≡ true)
unfolding select_provider_and_key
select_finds_iff snap model header ch sticky (ranges, visits) law = (forth, back)
  where
    forth :
        (pk : ProviderState × ProviderKeyState) × ((select_provider_and_key snap ch model [] header
              sticky).0
            ≡ ok pk)
        → any (is_candidate ch.now model) (ch.range snap.providers) ≡ true
    forth ((p, k), h) =
        let serves = select-CanServe snap ch model [] header sticky p k ranges h in
        any_complete (is_candidate ch.now model) p (ch.range snap.providers)
          (visits serves.name p serves.listed) (CanServe-is_candidate snap model ch p k serves)

    back :
        any (is_candidate ch.now model) (ch.range snap.providers) ≡ true
        → (pk : ProviderState × ProviderKeyState) × ((select_provider_and_key snap ch model []
              header sticky).0
            ≡ ok pk)
    back h = elim (Option-cases (select_bound snap ch model (trim_space header) sticky)) [
      | inr (pk, bound) ↦ (pk, rw bound)
      | inl unbound ↦
          let (p, listed, passes) =
            any_sound (is_candidate ch.now model) (ch.range snap.providers) h in
          rw unbound (
            candidate-select_weighted snap model ch (trim_space header) sticky p law
              (In-keep_of (is_candidate ch.now model) p (ch.range snap.providers) listed passes))
    ]
