-- ===== src/Gateway/Keys.antt =====
-- `hasLiveKey` and `pickProviderKey` of internal/gateway/server.go. `now` is the clock that the
-- caller read, and `nano` the clock that `pickProviderKey` reads again, in nanoseconds since 1970.
pub mod Live
use proxy2api.Base.{
  ℕ, ◌+◌, ◌-◌, ◌/◌, ◌%◌, ap, Bool, ◌&&◌, Option, none, some, ◌++◌, ltb, ◌==◌, if◌then◌else◌, ℤ, pos,
  ltb_ℤ, length, get_elem?, keep, any, all, Str, Result, ok, err,
}
use proxy2api.Text.{str}
use proxy2api.Gateway.Types.{ProviderState, ProviderKeyState}

-- `k.Enabled && now.After(k.CooldownUntil)`
abbrev pub is_live : ℕ → ProviderKeyState → Bool
is_live now k = k.enabled && ltb_ℤ k.cooldown_until (pos now)

unfoldable pub has_live_key : ProviderState → ℕ → Bool
has_live_key p now = any (is_live now) p.keys

abbrev found_key : Str → Option ProviderKeyState → Result ProviderKeyState
found_key name (some k) = ok k
found_key name none = err (str "provider " ++ name ++ str " has no available keys")

unfoldable pub pick_provider_key : ProviderState → (now nano : ℕ) → Result ProviderKeyState
pick_provider_key p now nano =
    let live = keep (is_live now) p.keys in
    if length live == 0
    then found_key p.name none
    else found_key p.name (get_elem? live (nano % length live))
