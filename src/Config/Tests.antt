-- ===== src/Config/Tests.antt =====
-- A configuration with one provider and one key, and the theorems at it.
use proxy2api.Base.{refl, [], ok}
use proxy2api.Config.{fill_defaults, fill_provider, fill_key, validate, load}
use proxy2api.Config.Fixtures.{small}
use proxy2api.Config.Defaulted.{IsDefaulted, fill_defaults-IsDefaulted}
use proxy2api.Config.Filled.{IsUsable, load-IsUsable}

fill_defaults-IsDefaulted_example : IsDefaulted small (fill_defaults small)
fill_defaults-IsDefaulted_example = fill_defaults-IsDefaulted small

load-IsUsable_example : IsUsable (fill_defaults small)
unfolding load validate fill_defaults fill_provider fill_key
load-IsUsable_example = load-IsUsable ok (λ raw. ok small) [] (fill_defaults small) refl
