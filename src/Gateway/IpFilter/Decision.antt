-- ===== src/Gateway/IpFilter/Decision.antt =====
-- Which requests the IP filter lets through.
use proxy2api.Base.{
  ◌≡◌, refl, sym, ap, ◌∙◌, ◌↔◌, ◌⊎◌, inl, inr, true, false, ◌||◌, Option, none, some, List, [], ◌∷◌,
  arith, Bool-cases, any, All, In, Str,
}
use mathlib.Core.Path.{subst}
use proxy2api.Text.{trim_space}
use proxy2api.Config.{SecurityConfig}
use proxy2api.Gateway.Admit.{pass}
use proxy2api.Gateway.IpFilter.{
  Netip, client_ip, entry_prefix, add_prefix, parse_cidrs, no_prefixes, filter_addr, after_parse,
  with_ip_filter,
}

-- An entry of a list stands for a prefix that has the address.
abbrev pub Covers : (n : Netip) → List Str → n.Addr → Type 0
Covers n items ip =
    (raw : Str) × (p : n.Prefix) × In raw items
    × (entry_prefix n (trim_space raw) ≡ some p)
    × (n.contains p ip ≡ true)

-- No entry of a list can be read.
abbrev pub Unread : (n : Netip) → List Str → Type 0
Unread n items = All (λ raw. entry_prefix n (trim_space raw) ≡ none) items

module _ (n : Netip) where
  parse_cidrs-Covers :
      (items : List Str) (ip : n.Addr)
      → (any (λ p. n.contains p ip) (parse_cidrs n items) ≡ true) ↔ Covers n items ip
  unfolding parse_cidrs
  parse_cidrs-Covers [] ip = ground arith
  parse_cidrs-Covers (raw ∷ items) ip =
      first (entry_prefix n (trim_space raw)) refl (parse_cidrs-Covers items ip)
    where
      first :
          (m : Option n.Prefix)
          → entry_prefix n (trim_space raw) ≡ m
          → (any (λ p. n.contains p ip) (parse_cidrs n items) ≡ true) ↔ Covers n items ip
          → (any (λ p. n.contains p ip) (add_prefix n m (parse_cidrs n items)) ≡ true)
            ↔ Covers n (raw ∷ items) ip
      first none e (there, back) =
          (λ h. let (x, p, i, q, c) = there h in (x, p, inr i, q, c), earlier)
        where
          earlier :
              Covers n (raw ∷ items) ip → any (λ p. n.contains p ip) (parse_cidrs n items) ≡ true
          earlier (x, p, inl same, q, c) =
              let no : none ≡ some p =
                sym e ∙ ap (λ y. entry_prefix n (trim_space y)) (sym same) ∙ q in
              absurd cc
          earlier (x, p, inr i, q, c) = back (x, p, i, q, c)
      first (some p) e (there, back) = (found (Bool-cases (n.contains p ip)), earlier)
        where
          found :
              (n.contains p ip ≡ true) ⊎ (n.contains p ip ≡ false)
              → (n.contains p ip || any (λ x. n.contains x ip) (parse_cidrs n items)) ≡ true
              → Covers n (raw ∷ items) ip
          found (inl c) h = (raw, p, inl refl, e, c)
          found (inr c) h = let (x, q, i, r, d) = there (rw c at h) in (x, q, inr i, r, d)

          earlier :
              Covers n (raw ∷ items) ip
              → (n.contains p ip || any (λ x. n.contains x ip) (parse_cidrs n items)) ≡ true
          earlier (x, q, inl same, r, d) =
              let one : some p ≡ some q =
                sym e ∙ ap (λ y. entry_prefix n (trim_space y)) (sym same) ∙ r in
              let here : p ≡ q = cc in rw (here, d) refl
          earlier (x, q, inr i, r, d) = rw (back (x, q, i, r, d)) (ground arith)

  no_prefixes-Unread :
      (items : List Str) → (no_prefixes n (parse_cidrs n items) ≡ true) ↔ Unread n items
  unfolding parse_cidrs
  no_prefixes-Unread [] = ground arith
  no_prefixes-Unread (raw ∷ items) = let tail = no_prefixes-Unread items in ground (arith, tail)

  filter_addr_iff :
      (allow deny : List n.Prefix) (ip : n.Addr)
      → (filter_addr n allow deny ip ≡ pass tt) ↔ (
          (any (λ p. n.contains p ip) deny ≡ false)
          × ((any (λ p. n.contains p ip) allow ≡ true) ⊎ (no_prefixes n allow ≡ true)))
  filter_addr_iff allow deny ip = ground arith

  -- A request passes the filter exactly when its address can be read, no entry of the list of denied
  -- addresses covers it, and an entry of the list of allowed ones covers it or no entry of that list
  -- can be read.
  pub with_ip_filter_iff :
      (sec : SecurityConfig) (remote forwarded : Str)
      → (with_ip_filter n sec remote forwarded ≡ pass tt) ↔ (
          (ip : n.Addr) × (n.parse_addr (client_ip remote forwarded) ≡ some ip)
          × ¬ Covers n sec.ip_denylist ip
          × (Covers n sec.ip_allowlist ip ⊎ Unread n sec.ip_allowlist))
  unfolding with_ip_filter
  with_ip_filter_iff sec remote forwarded = filtered (n.parse_addr (client_ip remote forwarded))
    where
      filtered :
          (m : Option n.Addr)
          → (after_parse n (parse_cidrs n sec.ip_allowlist) (parse_cidrs n sec.ip_denylist) m
              ≡ pass tt)
            ↔ ((ip : n.Addr) × (m ≡ some ip)
                × ¬ Covers n sec.ip_denylist ip
                × (Covers n sec.ip_allowlist ip ⊎ Unread n sec.ip_allowlist))
      filtered none = (λ h. absurd cc, λ (ip, e, d, c). absurd cc)
      filtered (some ip) = (
        λ h.
            let (d, c) =
              (filter_addr_iff (parse_cidrs n sec.ip_allowlist) (parse_cidrs n sec.ip_denylist)
                  ip).0
                h in
            (
              ip,
              refl,
              λ covered. let met = (parse_cidrs-Covers sec.ip_denylist ip).1 covered in absurd cc,
              elim c [
                | inl any_covers ↦ inl ((parse_cidrs-Covers sec.ip_allowlist ip).0 any_covers)
                | inr unread ↦ inr ((no_prefixes-Unread sec.ip_allowlist).0 unread)
              ],
            ),
        λ (x, e, d, c).
            let same : x ≡ ip = cc in
            (filter_addr_iff (parse_cidrs n sec.ip_allowlist) (parse_cidrs n sec.ip_denylist) ip).1
              (
                undenied ip (subst (λ y. ¬ Covers n sec.ip_denylist y) same d),
                allowed ip
                    (subst (λ y. Covers n sec.ip_allowlist y ⊎ Unread n sec.ip_allowlist) same c),
              ),
      )
        where
          undenied :
              (x : n.Addr)
              → ¬ Covers n sec.ip_denylist x
              → any (λ p. n.contains p x) (parse_cidrs n sec.ip_denylist) ≡ false
          undenied x d =
              elim (Bool-cases (any (λ p. n.contains p x) (parse_cidrs n sec.ip_denylist))) [
                | inl e ↦ absurd (d ((parse_cidrs-Covers sec.ip_denylist x).0 e))
                | inr e ↦ e
              ]

          allowed :
              (x : n.Addr)
              → Covers n sec.ip_allowlist x ⊎ Unread n sec.ip_allowlist
              → (any (λ p. n.contains p x) (parse_cidrs n sec.ip_allowlist) ≡ true)
                ⊎ (no_prefixes n (parse_cidrs n sec.ip_allowlist) ≡ true)
          allowed x (inl c) = inl ((parse_cidrs-Covers sec.ip_allowlist x).1 c)
          allowed x (inr u) = inr ((no_prefixes-Unread sec.ip_allowlist).1 u)
