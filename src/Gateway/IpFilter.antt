-- ===== src/Gateway/IpFilter.antt =====
-- `clientIP`, `parseCIDRs` and `withIPFilter` of internal/gateway/middleware.go. The package netip is
-- a parameter.
pub mod Decision
mod Tests
use proxy2api.Base.{
  ℕ, ◌-◌, ◌/◌, ap, Bool, true, false, ◌||◌, Option, none, some, List, [], ◌∷◌, ◌==◌, if◌then◌else◌,
  any, all, Str,
}
use proxy2api.Text.{str, is_empty, trim_space, split, before_last, trim}
use proxy2api.Config.{SecurityConfig}
use proxy2api.Gateway.Admit.{Guard, pass, refuse}

pub record Netip : Type 1 where
  pub Addr : Type 0
  pub Prefix : Type 0
  pub parse_addr : Str → Option Addr
  pub parse_prefix : Str → Option Prefix
  pub is6 : Addr → Bool
  pub prefix_from : Addr → ℕ → Prefix
  pub contains : Prefix → Addr → Bool

-- Without the port, where a colon stands behind the first byte.
abbrev pub without_port : Str → Option Str → Str
without_port remote none = remote
without_port remote (some []) = remote
without_port remote (some (x ∷ host)) = x ∷ host

abbrev pub is_bracket : ℕ → Bool
is_bracket c = c == b'[' || c == b']'

abbrev pub remote_host : Str → Str
remote_host remote = trim is_bracket (without_port remote (before_last b':' remote))

abbrev pub first_part : List Str → Str
first_part [] = []
first_part (p ∷ ps) = trim_space p

unfoldable pub client_ip : (remote forwarded : Str) → Str
client_ip remote forwarded =
    if is_empty forwarded || is_empty (first_part (split b',' forwarded))
    then remote_host remote
    else first_part (split b',' forwarded)

module _ (n : Netip) where
  abbrev pub addr_prefix : Option n.Addr → Option n.Prefix
  addr_prefix none = none
  addr_prefix (some ip) = some (n.prefix_from ip (if n.is6 ip then 128 else 32))

  -- The prefix of an entry, if it has one.
  abbrev pub entry_prefix : Str → Option n.Prefix
  entry_prefix raw =
      if is_empty raw
      then none
      else if any (λ c. c == b'/') raw
      then n.parse_prefix raw
      else addr_prefix (n.parse_addr raw)

  abbrev pub add_prefix : Option n.Prefix → List n.Prefix → List n.Prefix
  add_prefix none ps = ps
  add_prefix (some p) ps = p ∷ ps

  unfoldable pub parse_cidrs : List Str → List n.Prefix
  parse_cidrs [] = []
  parse_cidrs (raw ∷ items) = add_prefix (entry_prefix (trim_space raw)) (parse_cidrs items)

  abbrev pub no_prefixes : List n.Prefix → Bool
  no_prefixes [] = true
  no_prefixes (p ∷ ps) = false

  -- The tests on an address that could be read.
  abbrev pub filter_addr : (allow deny : List n.Prefix) → n.Addr → Guard (Unit {0})
  filter_addr allow deny ip =
      if any (λ p. n.contains p ip) deny
      then refuse 403 (str "forbidden")
      else if no_prefixes allow || any (λ p. n.contains p ip) allow
      then pass tt
      else refuse 403 (str "forbidden")

  abbrev pub after_parse : (allow deny : List n.Prefix) → Option n.Addr → Guard (Unit {0})
  after_parse allow deny none = refuse 403 (str "forbidden")
  after_parse allow deny (some ip) = filter_addr allow deny ip

  -- Whether the next handler is called.
  unfoldable pub with_ip_filter : SecurityConfig → (remote forwarded : Str) → Guard (Unit {0})
  with_ip_filter sec remote forwarded =
      after_parse (parse_cidrs sec.ip_allowlist) (parse_cidrs sec.ip_denylist)
        (n.parse_addr (client_ip remote forwarded))
