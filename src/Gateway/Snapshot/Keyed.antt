-- ===== src/Gateway/Snapshot/Keyed.antt =====
-- A snapshot holds every provider under its own name.
use proxy2api.Base.{◌≡◌, sym, ap, ◌∙◌, some, List, [], ◌∷◌, arith, In, Str, Result, ok, err, ◌>>=◌}
use proxy2api.Dict.{Dict, lookup, insert, Unique, insert-Unique, lookup-In, In-insert}
use proxy2api.Store.Gorm.{Gorm}
use proxy2api.Store.Rows
use proxy2api.Store.Lists.{
  list_providers, list_provider_keys, list_api_keys, list_rules, list_schedules,
}
use proxy2api.Store.Rows.{Provider, ProviderKey, ApiKey, Rule}
use proxy2api.Store.Tables.{Store}
use proxy2api.Gateway.Types.{ProviderState, Snapshot}
use proxy2api.Gateway.Snapshot.{Json, provider_state, add_providers, snapshot_of, reload_snapshot}
use proxy2api.Gateway.Select.Sticky.{IsKeyed}

-- Every entry stands under its own name, and under it alone.
IsNamed : Dict ProviderState → Type 0
IsNamed m = Unique m × ((n : Str) (p : ProviderState) → In (n, p) m → n ≡ p.name)

IsNamed-empty : IsNamed []
unfolding IsNamed
IsNamed-empty = (tt, λ n p i. absurd i)

insert-IsNamed :
    (p : ProviderState) (m : Dict ProviderState) → IsNamed m → IsNamed (insert p.name p m)
unfolding IsNamed
insert-IsNamed p m (unique, named) = (
  insert-Unique p.name p m unique,
  λ n q i. ground (arith, In-insert p.name n p q m i, named n q),
)

add_providers-IsNamed :
    (json : Json) (pkeys : List ProviderKey) (ps : List Provider) (m : Dict ProviderState)
    → IsNamed m
    → IsNamed (add_providers json pkeys ps m)
add_providers-IsNamed json pkeys [] m h = h
add_providers-IsNamed json pkeys (p ∷ ps) m h =
    add_providers-IsNamed json pkeys ps _ (insert-IsNamed (provider_state json pkeys p) m h)

IsNamed-lookup :
    (m : Dict ProviderState) (n : Str) (p : ProviderState)
    → IsNamed m
    → In (n, p) m
    → lookup p.name m ≡ some p
unfolding IsNamed
IsNamed-lookup m n p (unique, named) i =
    ap (λ (x : Str). lookup x m) (sym (named n p i)) ∙ lookup-In n p m unique i

-- In every snapshot that is built from the store, a provider that is listed is what its own name is
-- looked up to.
pub reload_snapshot-IsKeyed :
    (g : Gorm) (json : Json) (s : Store g) (snap : Snapshot)
    → reload_snapshot g json s ≡ ok snap
    → IsKeyed snap
unfolding reload_snapshot
reload_snapshot-IsKeyed g json s snap h =
    built (list_providers g s) (list_provider_keys g s []) (list_api_keys g s) (list_rules g s)
      (list_schedules g s) h
  where
    built :
        (ps : Result (List Provider)) (pkeys : Result (List ProviderKey))
        (ks : Result (List ApiKey)) (rs : Result (List Rule))
        (scs : Result (List Rows.GroupSchedule))
        → (do
          providers ← ps
          provider_keys ← pkeys
          api_keys ← ks
          rules ← rs
          schedules ← scs
          ok (snapshot_of json providers provider_keys api_keys rules schedules))
          ≡ ok snap
        → IsKeyed snap
    built (ok ps) (ok pkeys) (ok ks) (ok rs) (ok scs) h n p i =
        let same : snapshot_of json ps pkeys ks rs scs ≡ snap = cc in
        let named = add_providers-IsNamed json pkeys ps [] IsNamed-empty in
        ap (λ (x : Snapshot). lookup p.name x.providers) (sym same)
        ∙ IsNamed-lookup (add_providers json pkeys ps []) n p named
            (rw (ap (λ (x : Snapshot). x.providers) same) i)
    built (err e) b c d f h n p i = cc
    built (ok a) (err e) c d f h n p i = cc
    built (ok a) (ok b) (err e) d f h n p i = cc
    built (ok a) (ok b) (ok c) (err e) f h n p i = cc
    built (ok a) (ok b) (ok c) (ok d) (err e) h n p i = cc
