-- ===== src/Store/Lists.antt =====
-- The statements of internal/store/store.go that the gateway calls beside the billing: the lists
-- for a snapshot, the health of a provider key, and the usage records.
use proxy2api.Base.{
  Bool, true, not, ◌&&◌, ◌||◌, List, if◌then◌else◌, ℤ, leb_ℤ, eq_ℤ, Str, Result, ok, err,
}
use proxy2api.Text.{eq_str, is_empty}
use proxy2api.Store.Gorm.{Gorm}
use proxy2api.Store.Rows.{
  Provider, ProviderKey, ApiKey, Rule, GroupSchedule, UsageRecord, usage_model,
}
use proxy2api.Store.Tables.{Store}

-- `ORDER BY a, b`: the second key decides where the first one is the same.
abbrev pub then_by : Bool → Bool → Bool → Bool
then_by le ge next = le && (not ge || next)

module _ (g : Gorm) (s : Store g) where
  unfoldable pub list_providers : Result (List Provider)
  list_providers = g.find (λ a b. g.text_le a.name b.name) (λ r. true) s.providers

  unfoldable pub list_provider_keys : Str → Result (List ProviderKey)
  list_provider_keys provider_name =
      g.find
        (λ a b.
          then_by (g.text_le a.provider_name b.provider_name)
            (g.text_le b.provider_name a.provider_name) (leb_ℤ a.id b.id))
        (λ k. if is_empty provider_name then true else eq_str k.provider_name provider_name)
        s.provider_keys

  unfoldable pub list_api_keys : Result (List ApiKey)
  list_api_keys = g.find (λ a b. leb_ℤ a.id b.id) (λ r. true) s.api_keys

  unfoldable pub list_rules : Result (List Rule)
  list_rules =
      g.find
        (λ a b.
          then_by (leb_ℤ a.priority b.priority) (leb_ℤ b.priority a.priority) (leb_ℤ a.id b.id))
        (λ r. true) s.rules

  unfoldable pub list_schedules : Result (List GroupSchedule)
  list_schedules =
      g.find
        (λ a b.
          then_by (g.text_le a.group_name b.group_name) (g.text_le b.group_name a.group_name)
            (leb_ℤ a.id b.id))
        (λ r. true) s.group_schedules

module _ (g : Gorm) where
  unfoldable pub update_provider_key_health :
      ℤ → (consecutive_errs cooldown_until : ℤ) → Str → Store g → Result (Unit {0}) × Store g
  update_provider_key_health id consecutive_errs cooldown_until last_status s =
      elim (g.updates (λ k. eq_ℤ k.id id)
        (λ k. record k {
          consecutive_errs = consecutive_errs;
          cooldown_until = cooldown_until;
          last_status = last_status;
        })
        s.provider_keys) [
          | err e ↦ (err e, s)
          | ok (n, keys) ↦ (ok tt, record s { provider_keys = keys })
        ]

  unfoldable pub add_usage : UsageRecord → Store g → Result (Unit {0}) × Store g
  add_usage u s = elim (g.create usage_model u s.usage_records) [
    | err e ↦ (err e, s)
    | ok (r, usage) ↦ (ok tt, record s { usage_records = usage })
  ]
