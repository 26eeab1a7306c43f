-- ===== src/Config/Filled.antt =====
-- What a configuration that is loaded satisfies.
use proxy2api.Base.{
  ◌≡◌, sym, ◌≢◌, false, ◌||◌, List, [], ◌∷◌, map, arith, pos, ◌<ℤ◌, length, any, All, Str, Result,
  ok, >>=-eq-ok,
}
use proxy2api.Text.{is_empty}
use proxy2api.Float.{is_nonpositive}
use proxy2api.Config.{
  Provider, ApiKeyConfig, Config, or_one, fill_billing, fill_gateway, fill_provider, fill_key,
  fill_defaults, validate, load,
}

-- What `validate` and the defaults ask of a provider.
unfoldable pub IsProvider : Provider → Type 0
IsProvider p =
    (is_empty p.name ≡ false)
    × (is_empty p.base_url ≡ false)
    × (is_empty p.group_name ≡ false)
    × (pos 0 <ℤ p.weight)
    × (pos 0 <ℤ p.recover_interval_sec)

unfoldable pub IsApiKey : ApiKeyConfig → Type 0
IsApiKey k =
    (is_empty k.key ≡ false)
    × (is_empty k.tenant ≡ false)
    × (is_nonpositive k.rate_multiplier ≡ false)

-- What the other parts of the program count on.
unfoldable pub IsUsable : Config → Type 0
IsUsable c =
    (length c.providers ≢ 0)
    × (length c.keys ≢ 0)
    × (length c.tenants ≢ 0)
    × (length c.admins ≢ 0)
    × All IsProvider c.providers
    × All IsApiKey c.keys
    × (pos 0 <ℤ c.gateway.timeout_seconds)
    × (pos 0 <ℤ c.gateway.provider_fail_threshold)
    × (pos 0 <ℤ c.gateway.provider_cooldown_sec)
    × (pos 0 <ℤ c.gateway.reload_seconds)
    × (pos 0 <ℤ c.billing.default_price_per_million_micros)

fill_provider-IsProvider :
    (ps : List Provider)
    → any (λ p. is_empty p.name || is_empty p.base_url) (map fill_provider ps) ≡ false
    → All IsProvider (map fill_provider ps)
unfolding fill_provider IsProvider
fill_provider-IsProvider [] h = tt
fill_provider-IsProvider (p ∷ ps) h = (
  (ground arith, ground arith, ground arith, ground arith, ground arith),
  fill_provider-IsProvider ps (ground arith),
)

fill_key-IsApiKey :
    (ks : List ApiKeyConfig)
    → any (λ k. is_empty k.key) (map fill_key ks) ≡ false
    → All IsApiKey (map fill_key ks)
unfolding fill_key IsApiKey
fill_key-IsApiKey [] h = tt
fill_key-IsApiKey (k ∷ ks) h =
    ((ground arith, ground arith, ground arith), fill_key-IsApiKey ks (ground arith))

or_one-length : {A : Type 0} (d : A) (xs : List A) → length (or_one d xs) ≢ 0
or_one-length d [] = ground arith
or_one-length d (x ∷ xs) = ground arith

validate-IsUsable : (c : Config) → validate (fill_defaults c) ≡ ok tt → IsUsable (fill_defaults c)
unfolding validate fill_defaults IsUsable fill_gateway fill_billing
validate-IsUsable c h = (
  ground arith,
  ground arith,
  or_one-length _ c.tenants,
  or_one-length _ c.admins,
  fill_provider-IsProvider c.providers (ground arith),
  fill_key-IsApiKey c.keys (ground arith),
  ground arith,
  ground arith,
  ground arith,
  ground arith,
  ground arith,
)

-- A configuration that `Load` returns has a provider, a key, a tenant and an admin; its providers
-- have a name, an address, a group, and a positive weight and interval; its keys are not empty,
-- have a tenant, and a multiplier that is not zero or negative; and the numbers that the gateway
-- and the billing run on are positive.
pub load-IsUsable :
    (read_file : Str → Result Str) (unmarshal : Str → Result Config) (path : Str) (c : Config)
    → load read_file unmarshal path ≡ ok c
    → IsUsable c
unfolding load
load-IsUsable read_file unmarshal path c h =
    let (raw, _, h1) = >>=-eq-ok (read_file path) _ h in
    let (cfg, _, h2) = >>=-eq-ok (unmarshal raw) _ h1 in
    let (checked, valid, h3) = >>=-eq-ok (validate (fill_defaults cfg)) _ h2 in
    let same : fill_defaults cfg ≡ c = cc in rw (sym same) (validate-IsUsable cfg valid)
