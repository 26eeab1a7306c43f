-- ===== src/Gateway/Health.antt =====
-- The health of a provider key: `markProviderKeySuccess`, `markProviderKeyFailure` and
-- `maxDuration` of internal/gateway/server.go, up to the reload of the snapshot that follows both.
pub mod Cooldown
pub mod Rested
mod Tests
use proxy2api.Base.{
  ℕ, suc, ◌+◌, ◌-◌, ◌/◌, ap, List, leb, if◌then◌else◌, ℤ, pos, negsuc, ◌+ℤ◌, leb_ℤ, add64, Str, ok,
  err,
}
use proxy2api.Text.{str}
use proxy2api.Store.Gorm.{Gorm}
use proxy2api.Store.Tables.{Store}
use proxy2api.Store.Lists.{update_provider_key_health}
use proxy2api.Gateway.Types.{ProviderState, ProviderKeyState}
use proxy2api.Gateway.Snapshot.{max_ℤ, seconds}

-- `t.Unix()` of an instant in nanoseconds: whole seconds, rounded down.
unfoldable pub unix_of : ℤ → ℤ
unix_of (pos n) = pos (n / 1000000000)
unix_of (negsuc n) = negsuc (n / 1000000000)

-- `maxDuration`
abbrev pub max_duration : ℤ → ℤ → ℤ
max_duration a b = max_ℤ a b

-- The counter and the end of the cooldown that a failure leads to, at `now`.
unfoldable pub next_health :
    (threshold cooldown_sec : ℤ) → ProviderState → ProviderKeyState → ℕ → ℤ × ℤ
next_health threshold cooldown_sec provider key now =
    let next_errs = add64 key.consecutive_errs (pos 1) in
    if leb_ℤ threshold next_errs
    then (pos 0, unix_of (pos now +ℤ max_duration provider.recover_interval (seconds cooldown_sec)))
    else (next_errs, pos 0)

module _ (g : Gorm) where
  -- `_ = s.store.UpdateProviderKeyHealth(…)`
  unfoldable pub mark_provider_key_success : ProviderKeyState → Store g → Store g
  mark_provider_key_success key s =
      (update_provider_key_health g key.id (pos 0) (pos 0) (str "ok") s).1

  unfoldable pub mark_provider_key_failure :
      (threshold cooldown_sec : ℤ) → ProviderState → ProviderKeyState → Str → ℕ → Store g → Store g
  mark_provider_key_failure threshold cooldown_sec provider key status now s =
      let (errs, until) = next_health threshold cooldown_sec provider key now in
      (update_provider_key_health g key.id errs until status s).1
