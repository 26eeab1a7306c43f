-- ===== src/Gateway/Pick.antt =====
-- `supportsModel` and `weightedProviderPick` of internal/gateway/types.go. `rand.Intn` is the
-- argument `intn`; `none` is a panic, which an empty list of providers gives.
pub mod Share
use proxy2api.Base.{
  ℕ, zero, ◌-◌, ◌/◌, ap, Bool, true, Option, none, some, List, [], ◌∷◌, ltb, leb, if◌then◌else◌, ℤ,
  pos, ltb_ℤ, leb_ℤ, add64, length, get_elem?, any, In, Str,
}
use proxy2api.Text.{eq_str}
use proxy2api.Gateway.Types.{ProviderState}

unfoldable pub supports_model : List Str → Str → Bool
supports_model [] model = true
supports_model (m ∷ ms) model = any (λ x. eq_str x model) (m ∷ ms)

-- A weight of zero or less counts as 1.
abbrev pub weight_of : ProviderState → ℤ
weight_of it = if leb_ℤ it.weight (pos 0) then pos 1 else it.weight

-- The first loop.
unfoldable pub total_weight : ℤ → List ProviderState → ℤ
total_weight total [] = total
total_weight total (it ∷ its) = total_weight (add64 total (weight_of it)) its

-- The second loop; `none` where it ends without a return.
unfoldable pub pick_from : ℕ → ℤ → List ProviderState → Option ProviderState
pick_from r acc [] = none
pick_from r acc (it ∷ its) =
    let acc' = add64 acc (weight_of it) in
    let rest = pick_from r acc' its in if ltb_ℤ (pos r) acc' then some it else rest

-- `items[len(items)-1]`
abbrev pub last : List ProviderState → Option ProviderState
last [] = none
last (it ∷ []) = some it
last (it ∷ x ∷ its) = last (x ∷ its)

abbrev pub or_last : Option ProviderState → List ProviderState → Option ProviderState
or_last (some it) items = some it
or_last none items = last items

unfoldable pub weighted_provider_pick : (ℤ → ℕ) → List ProviderState → Option ProviderState
weighted_provider_pick intn (it ∷ []) = some it
weighted_provider_pick intn items =
    let total = total_weight (pos 0) items in
    if leb_ℤ total (pos 0)
    then get_elem? items (intn (pos (length items)))
    else or_last (pick_from (intn total) (pos 0) items) items
