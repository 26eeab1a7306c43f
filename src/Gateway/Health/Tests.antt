-- ===== src/Gateway/Health/Tests.antt =====
-- The second of two failures of a key, with a threshold of two.
use proxy2api.Base.{
  ◌≡◌, refl, ◌⊎◌, inl, inr, true, [], ◌∷◌, arith, pos, ◌+ℤ◌, ◌*ℤ◌, wrap64, add64, mul64,
}
use proxy2api.Text.{str}
use proxy2api.Store.Gorm.Listed.{listed, listed-GormLaws}
use proxy2api.Store.Rows.{ProviderKey}
use proxy2api.Store.Tables.{Store}
use proxy2api.Store.Lists.{update_provider_key_health}
use proxy2api.Gateway.Fixtures.{a}
use proxy2api.Gateway.Proxy.Fixtures.{store}
use proxy2api.Gateway.Snapshot.{key_state}
use proxy2api.Gateway.Health.{next_health, unix_of, mark_provider_key_failure}
use proxy2api.Gateway.Health.Cooldown.{Unwritten, Failed, mark_provider_key_failure-Failed}
use proxy2api.Gateway.Health.Rested.{Rested, mark_provider_key_failure-Rested}

abbrev failing : ProviderKey
failing = record {
  id = pos 4;
  provider_name = str "a";
  alias = str "k";
  api_key = str "sk";
  enabled = true;
  consecutive_errs = pos 1;
  cooldown_until = pos 0;
  last_status = str "ok";
}

abbrev with_key : Store listed
unfolding listed
with_key = record store { provider_keys = failing ∷ [] }

abbrev after : Store listed
after =
    mark_provider_key_failure listed (pos 2) (pos 30) a (key_state failing) (str "down") 2 with_key

-- The row after it.
abbrev rested : ProviderKey
rested = record failing {
  consecutive_errs = pos 0;
  cooldown_until = unix_of (pos 60000000002);
  last_status = str "down";
}

mark_provider_key_failure-Failed_example :
    Failed listed listed-GormLaws (pos 2) (pos 30) a (pos 4) 1 (str "down") 2 with_key after
    ⊎ ((after ≡ with_key) × Unwritten listed listed-GormLaws (pos 4) (str "down") with_key)
mark_provider_key_failure-Failed_example =
    mark_provider_key_failure-Failed listed listed-GormLaws (pos 2) (pos 30) a (key_state failing) 1
      (str "down") 2 with_key (omega arith) refl

mark_provider_key_failure-Rested_example :
    Rested 20000000000 70000000000 rested
    ⊎ Unwritten listed listed-GormLaws (pos 4) (str "down") with_key
unfolding listed mark_provider_key_failure update_provider_key_health next_health unix_of ◌+ℤ◌ mul64
    wrap64 ◌*ℤ◌ add64
mark_provider_key_failure-Rested_example =
    mark_provider_key_failure-Rested listed listed-GormLaws (pos 2) (pos 30) a (key_state failing) 1
      (str "down") 2 20000000000 70000000000 with_key (omega arith) refl (omega arith)
      (record {
        before = inr (ground arith);
        after_first = ground arith;
        after_second = ground arith;
      })
      rested (inl refl) refl
