-- ===== src/Gateway/Select.antt =====
-- `selectProviderAndKey` of internal/gateway/server.go. What the program does not decide comes in as
-- arguments: the text of the session header, the readings of the clock, `rand.Intn`, and the order
-- in which a loop ranges over the map of the providers.
pub mod Sound
pub mod Sticky
mod Tests
use proxy2api.Base.{
  ℕ, ◌+◌, ◌-◌, ◌*◌, ◌/◌, ap, Bool, false, not, ◌&&◌, ◌||◌, Option, none, some, List, ◌++◌, map,
  ◌==◌, if◌then◌else◌, ℤ, length, keep, In, Str, Result, ok, err,
}
use proxy2api.Text.{str, is_empty, trim_space}
use proxy2api.Dict.{Dict, lookup, insert}
use proxy2api.Gateway.Types.{ProviderState, ProviderKeyState, StickyBind, Snapshot}
use proxy2api.Gateway.Pick.{supports_model, weighted_provider_pick}
use proxy2api.Gateway.Keys.{has_live_key, pick_provider_key}

-- The readings of the clock: at the start, in the first and in the second choice of a key, and for
-- the binding of the session.
pub record Readings : Type 0 where
  pub now : ℕ
  pub first_nano : ℕ
  pub second_nano : ℕ
  pub bound_at : ℕ

pub record Chance : Type 0 where
  pub readings : Readings
  pub open readings use *
  pub intn : ℤ → ℕ
  pub range : Dict ProviderState → List ProviderState

abbrev pub Selected : Type 0
Selected = Result (ProviderState × ProviderKeyState)

abbrev pub with_key : ProviderState → Result ProviderKeyState → Selected
with_key p (ok k) = ok (p, k)
with_key p (err e) = err e

-- The branch of a forced provider.
unfoldable pub select_forced : Snapshot → Chance → Str → Str → Selected
select_forced snap ch model forced = elim (lookup forced snap.providers) [
  | none ↦ err (str "forced provider " ++ forced ++ str " unavailable")
  | some p ↦
      if not p.enabled
      then err (str "forced provider " ++ forced ++ str " unavailable")
      else if not (supports_model p.models model)
      then err (str "forced provider " ++ forced ++ str " does not support model " ++ model)
      else with_key p (pick_provider_key p ch.now ch.first_nano)
]

abbrev pub only_ok : Selected → Option (ProviderState × ProviderKeyState)
only_ok (ok pk) = some pk
only_ok (err e) = none

-- The provider that the session is bound to, if it can serve the request.
unfoldable pub select_bound :
    Snapshot → Chance → Str → Str → Dict StickyBind → Option (ProviderState × ProviderKeyState)
select_bound snap ch model session sticky =
    if is_empty session then none else elim (lookup session sticky) [
      | none ↦ none
      | some bind ↦ elim (lookup bind.provider snap.providers) [
        | none ↦ none
        | some p ↦
            if p.enabled && supports_model p.models model
            then only_ok (with_key p (pick_provider_key p ch.now ch.first_nano))
            else none
      ]
    ]

abbrev pub is_candidate : ℕ → Str → ProviderState → Bool
is_candidate now model p =
    if not p.enabled || not (supports_model p.models model) then false else has_live_key p now

abbrev pub candidates : Snapshot → Chance → Str → List ProviderState
candidates snap ch model = keep (is_candidate ch.now model) (ch.range snap.providers)

abbrev pub bind_session : Chance → Str → Dict StickyBind → Selected → Selected × Dict StickyBind
bind_session ch session sticky (err e) = (err e, sticky)
bind_session ch session sticky (ok (p, k)) = (
  ok (p, k),
  if is_empty session
      then sticky
      else insert session (record { provider = p.name; updated = ch.bound_at }) sticky,
)

abbrev pub picked_key : Chance → Option ProviderState → Selected
picked_key ch none = err (str "panic")
picked_key ch (some p) = with_key p (pick_provider_key p ch.now ch.second_nano)

-- The weighted choice among the candidates.
unfoldable pub select_weighted :
    Snapshot → Chance → Str → Str → Dict StickyBind → Selected × Dict StickyBind
select_weighted snap ch model session sticky =
    let live = candidates snap ch model in
    if length live == 0
    then (err (str "no provider available for model " ++ model), sticky)
    else bind_session ch session sticky (picked_key ch (weighted_provider_pick ch.intn live))

-- The model, the forced provider, and the text of the session header.
unfoldable pub select_provider_and_key :
    Snapshot → Chance → Str → Str → Str → Dict StickyBind → Selected × Dict StickyBind
select_provider_and_key snap ch model forced header sticky =
    let session = trim_space header in
    if not (is_empty forced)
    then (select_forced snap ch model forced, sticky)
    else elim (select_bound snap ch model session sticky) [
      | some pk ↦ (ok pk, sticky)
      | none ↦ select_weighted snap ch model session sticky
    ]
