-- ===== src/Gateway/IpFilter/Tests.antt =====
-- The IP filter with addresses that are texts.
use proxy2api.Base.{◌≡◌, ◌↔◌, ◌⊎◌, false, Option, none, some, [], ◌∷◌, if◌then◌else◌, Str}
use proxy2api.Text.{str, eq_str, is_empty}
use proxy2api.Config.{SecurityConfig}
use proxy2api.Gateway.Admit.{pass}
use proxy2api.Gateway.IpFilter.{Netip, client_ip, with_ip_filter}
use proxy2api.Gateway.IpFilter.Decision.{Covers, Unread, with_ip_filter_iff}

abbrev some_text : Str → Option Str
some_text s = if is_empty s then none else some s

-- An address is a text, and a prefix has the address that it is.
abbrev texts : Netip
texts = record {
  Addr = Str;
  Prefix = Str;
  parse_addr = some_text;
  parse_prefix = λ s. none;
  is6 = λ ip. false;
  prefix_from = λ ip bits. ip;
  contains = λ p ip. eq_str p ip;
}

abbrev one_denied : SecurityConfig
one_denied = record {
  admin_hmac_secret = [];
  ip_allowlist = str "10.0.0.0/8" ∷ [];
  ip_denylist = str "1.2.3.4" ∷ [];
}

with_ip_filter_iff_example :
    (with_ip_filter texts one_denied (str "[::1]:80") (str "5.6.7.8, 9.9.9.9") ≡ pass tt) ↔ (
      (ip : Str) × (some_text (client_ip (str "[::1]:80") (str "5.6.7.8, 9.9.9.9")) ≡ some ip)
      × ¬ Covers texts (str "1.2.3.4" ∷ []) ip
      × (Covers texts (str "10.0.0.0/8" ∷ []) ip ⊎ Unread texts (str "10.0.0.0/8" ∷ [])))
with_ip_filter_iff_example =
    with_ip_filter_iff texts one_denied (str "[::1]:80") (str "5.6.7.8, 9.9.9.9")
