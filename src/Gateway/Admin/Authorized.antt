-- ===== src/Gateway/Admin/Authorized.antt =====
-- What a request needs so that the administration does not refuse it.
use proxy2api.Base.{
  ℕ, ◌≡◌, refl, sym, ◌≢◌, ◌⊎◌, inl, inr, true, false, Option, none, some, arith, Bool-cases, ℤ, In,
  Str, Result, ok, err,
}
use proxy2api.Text.{str, is_empty, trim_space, to_lower}
use proxy2api.Text.Laws.{eq_str_sound}
use proxy2api.Text.Numbers.{parse_int, hex}
use proxy2api.Config.{Config}
use proxy2api.Store.Gorm.{Gorm, GormLaws}
use proxy2api.Store.Tables.{Store}
use proxy2api.Store.Rows.{AdminUser}
use proxy2api.Store.Admins.{verify_admin_token, has_token}
use proxy2api.Gateway.Forward.{Request, header_get}
use proxy2api.Gateway.Admit.{Server, Guard, pass, refuse}
use proxy2api.Gateway.Messages.{AdminReply, refused}
use proxy2api.Gateway.Admin.{AdminOutside, guarded}
use proxy2api.Gateway.Admin.Access.{
  bearer_of, has_admin_key, signed_text, is_recent, verify_admin_hmac, token_is_known,
  require_admin,
}
use proxy2api.Gateway.Admin.Catalog.{
  admin_only, handle_providers, handle_provider_action, handle_provider_keys, handle_api_keys,
  handle_rules, handle_schedules, handle_config_export, handle_config_import, handle_reload,
}
use proxy2api.Gateway.Admin.Ledger.{
  handle_tenants, handle_users, handle_prices, handle_billing_txns, handle_audit,
}
use proxy2api.Gateway.Admin.Routes.{
  Route, to_login, to_providers, to_provider_action, to_provider_keys, to_api_keys, to_tenants,
  to_users, to_prices, to_topup, to_billing_txns, to_audit, to_rules, to_schedules,
  to_config_export, to_config_import, to_reload, handle_admin,
}

-- The header has the admin key of the configuration, which is not empty.
abbrev pub HasAdminKey : Config → Request → Type 0
HasAdminKey cfg r =
    (trim_space (header_get r.headers (str "X-Admin-Key")) ≡ cfg.auth.admin_key)
    × (is_empty cfg.auth.admin_key ≡ false)

-- An administrator who is enabled has the bearer token of the request.
pub record HasUser (g : Gorm) (r : Request) (s : Store g) (u : AdminUser) : Type 0 where
  pub listed : In u (g.rows s.admin_users)
  pub token : u.token ≡ bearer_of r
  pub given : is_empty (bearer_of r) ≡ false
  pub enabled : u.enabled ≡ true

abbrev pub HasCredential : (g : Gorm) → Config → Request → Store g → Type 0
HasCredential g cfg r s = HasAdminKey cfg r ⊎ ((u : AdminUser) × HasUser g r s u)

-- The text of the time stamp is a second within five minutes, and the signature is that of the
-- method, the path and the time stamp.
pub record HasSignature (cfg : Config) (o : AdminOutside) (r : Request) : Type 0 where
  pub second : ℤ
  pub stamp : parse_int (trim_space (header_get r.headers (str "X-Admin-Ts"))) ≡ some second
  pub recent : is_recent o.now_unix second ≡ true
  pub sign :
      to_lower (trim_space (header_get r.headers (str "X-Admin-Sign")))
      ≡ to_lower (
          hex (
            o.hmac_sha256
              (trim_space cfg.security.admin_hmac_secret)
              (signed_text r (trim_space (header_get r.headers (str "X-Admin-Ts"))))))

abbrev pub IsSigned : Config → AdminOutside → Request → Type 0
IsSigned cfg o r =
    (is_empty (trim_space cfg.security.admin_hmac_secret) ≡ true) ⊎ HasSignature cfg o r

-- The request is refused, and the server is as it was.
abbrev pub IsRefused : (g : Gorm) → Server g → AdminReply × Server g → Type 0
IsRefused g s out = (code : ℕ) × (e : Str) × (out ≡ (refused code e, s))

guarded-cases :
    (g : Gorm) {A : Type 0} (guard : Guard A) (next : A → Server g → AdminReply × Server g)
    (s : Server g)
    → IsRefused g s (guarded guard next s) ⊎ ((a : A) × (guard ≡ pass a))
guarded-cases g (pass a) next s = inr (a, refl)
guarded-cases g (refuse code e) next s = inl (code, e, refl)

pub has_admin_key-HasAdminKey :
    (cfg : Config) (r : Request) → has_admin_key cfg r ≡ true → HasAdminKey cfg r
has_admin_key-HasAdminKey cfg r h = (eq_str_sound _ _ (ground arith), ground arith)

verify_admin_hmac-IsSigned :
    (cfg : Config) (o : AdminOutside) (r : Request)
    → verify_admin_hmac cfg o r ≡ true
    → IsSigned cfg o r
unfolding verify_admin_hmac
verify_admin_hmac-IsSigned cfg o r h =
    elim (Bool-cases (is_empty (trim_space cfg.security.admin_hmac_secret))) [
      | inl e ↦ inl e
      | inr e ↦
          inr (signed e (parse_int (trim_space (header_get r.headers (str "X-Admin-Ts")))) refl)
    ]
  where
    signed :
        is_empty (trim_space cfg.security.admin_hmac_secret) ≡ false
        → (m : Option ℤ) → parse_int (trim_space (header_get r.headers (str "X-Admin-Ts"))) ≡ m
        → HasSignature cfg o r
    signed e none q = absurd (ground arith)
    signed e (some sec) q = record {
      second = sec;
      stamp = q;
      recent = ground arith;
      sign = sym (eq_str_sound _ _ (ground arith));
    }

module _ (g : Gorm) (laws : GormLaws g) (cfg : Config) where
  pub verify_admin_token-HasUser :
      (r : Request) (s : Store g) (u : AdminUser)
      → is_empty (bearer_of r) ≡ false
      → verify_admin_token g (bearer_of r) s ≡ ok u
      → HasUser g r s u
  unfolding verify_admin_token
  verify_admin_token-HasUser r s u given h =
      let (found, test) = laws.first_row (has_token (bearer_of r)) s.admin_users u h in
      record {
        listed = found;
        token = eq_str_sound _ _ (ground arith);
        given = given;
        enabled = ground arith;
      }

  token_is_known-HasUser :
      (r : Request) (s : Store g)
      → is_empty (bearer_of r) ≡ false
      → token_is_known g cfg (bearer_of r) s ≡ true
      → (u : AdminUser) × HasUser g r s u
  token_is_known-HasUser r s given h = found (verify_admin_token g (bearer_of r) s) refl
    where
      found :
          (m : Result AdminUser)
          → verify_admin_token g (bearer_of r) s ≡ m
          → (u : AdminUser) × HasUser g r s u
      found (ok u) e = (u, verify_admin_token-HasUser r s u given e)
      found (err x) e = absurd (ground arith)

  require_admin-HasCredential :
      (o : AdminOutside) (r : Request) (s : Store g)
      → require_admin g cfg o r s ≡ pass tt
      → HasCredential g cfg r s × IsSigned cfg o r
  unfolding require_admin
  require_admin-HasCredential o r s h = (
    elim (Bool-cases (has_admin_key cfg r)) [
      | inl e ↦ inl (has_admin_key-HasAdminKey cfg r e)
      | inr e ↦ inr (token_is_known-HasUser r s (ground arith) (ground arith))
    ],
    verify_admin_hmac-IsSigned cfg o r (ground arith),
  )

  admin_only-cases :
      (o : AdminOutside) (r : Request) (next : Server g → AdminReply × Server g) (s : Server g)
      → IsRefused g s (admin_only g cfg o r next s)
        ⊎ (HasCredential g cfg r s.store × IsSigned cfg o r)
  admin_only-cases o r next s =
      elim (guarded-cases g (require_admin g cfg o r s.store) (λ u. next) s) [
        | inl refusal ↦ inl refusal
        | inr (u, e) ↦ inr (require_admin-HasCredential o r s.store e)
      ]

  -- Every handler but the login and the top-up either refuses a request and leaves the server as it
  -- was, or the request has the admin key or the token of an administrator who is enabled, and it
  -- is signed: no secret is configured, or its time stamp is within five minutes of the clock and
  -- its signature is that of its method, path and time stamp.
  pub handle_admin-IsSigned :
      (o : AdminOutside) (route : Route) (r : Request) (s : Server g)
      → route ≢ to_login
      → route ≢ to_topup
      → IsRefused g s (handle_admin g cfg o route r s)
        ⊎ (HasCredential g cfg r s.store × IsSigned cfg o r)
  unfolding handle_providers handle_provider_action handle_provider_keys handle_api_keys
      handle_rules handle_schedules handle_config_export handle_config_import handle_reload
      handle_tenants handle_users handle_prices handle_billing_txns handle_audit
  handle_admin-IsSigned o to_login r s h k = absurd (h refl)
  handle_admin-IsSigned o to_topup r s h k = absurd (k refl)
  handle_admin-IsSigned o to_providers r s h k = admin_only-cases o r _ s
  handle_admin-IsSigned o to_provider_action r s h k = admin_only-cases o r _ s
  handle_admin-IsSigned o to_provider_keys r s h k = admin_only-cases o r _ s
  handle_admin-IsSigned o to_api_keys r s h k = admin_only-cases o r _ s
  handle_admin-IsSigned o to_tenants r s h k = admin_only-cases o r _ s
  handle_admin-IsSigned o to_users r s h k = admin_only-cases o r _ s
  handle_admin-IsSigned o to_prices r s h k = admin_only-cases o r _ s
  handle_admin-IsSigned o to_billing_txns r s h k = admin_only-cases o r _ s
  handle_admin-IsSigned o to_audit r s h k = admin_only-cases o r _ s
  handle_admin-IsSigned o to_rules r s h k = admin_only-cases o r _ s
  handle_admin-IsSigned o to_schedules r s h k = admin_only-cases o r _ s
  handle_admin-IsSigned o to_config_export r s h k = admin_only-cases o r _ s
  handle_admin-IsSigned o to_config_import r s h k = admin_only-cases o r _ s
  handle_admin-IsSigned o to_reload r s h k = admin_only-cases o r _ s
