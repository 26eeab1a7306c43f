-- ===== src/Gateway/Admin/Ledger.antt =====
-- The handlers of internal/gateway/admin.go for tenants, administrators, prices, top-ups, the log of
-- the billing and of the audit, and the login.
use proxy2api.Base.{
  false, Option, none, some, List, [], ◌∷◌, if◌then◌else◌, ℤ, pos, leb_ℤ, Str, Result, ok, err,
}
use proxy2api.Text.{str, is_empty, trim_space}
use proxy2api.Text.Numbers.{parse_int, format_int, hex}
use proxy2api.Config.{Config}
use proxy2api.Store.Gorm.{Gorm}
use proxy2api.Store.Rows.{Tenant, PriceRule, AdminUser}
use proxy2api.Store.Tables.{Store}
use proxy2api.Store.Tenants.{upsert_tenant, list_tenants, delete_tenant}
use proxy2api.Store.Prices.{upsert_price_rule, list_price_rules, delete_price_rule}
use proxy2api.Store.Billing.{topup_api_key_balance, list_billing_txns}
use proxy2api.Store.Admins.{
  upsert_admin_user, list_admin_users, admin_login, set_admin_enabled, Tokens,
}
use proxy2api.Store.Audit.{add_audit, list_audit}
use proxy2api.Gateway.Forward.{Request}
use proxy2api.Gateway.Admit.{Server}
use proxy2api.Gateway.Messages.{
  TenantRequest, UserRequest, PriceRequest, TopupRequest, AdminReply, refused, answered, tenants,
  admin_users, price_rules, billing_txns, audit_logs, accepted, written, deleted, disabled,
  logged_in, AdminBody,
}
use proxy2api.Gateway.Admin.{
  AdminOutside, guarded, decoded, answer_list, changed, reload_and, on_method, only_method,
  read_id_query,
}
use proxy2api.Gateway.Admin.Access.{require_admin_role, admin_actor}
use proxy2api.Gateway.Admin.Catalog.{admin_only}

abbrev pub tenant_row : TenantRequest → Tenant
tenant_row req = record { id = req.id; name = req.name; enabled = req.enabled }

abbrev pub price_row : PriceRequest → PriceRule
price_row req = record {
  id = req.id;
  model_prefix = req.model_prefix;
  price_per_1m_micros = req.price_per_1m_micros;
  enabled = req.enabled;
}

unfoldable pub hash_password : Tokens → Str → Str
hash_password o password = hex (o.sha256 password)

abbrev pub user_row : Tokens → UserRequest → AdminUser
user_row o req = record {
  id = req.id;
  username = req.username;
  password_hash = hash_password o req.password;
  role = req.role;
  token = [];
  enabled = req.enabled;
}

abbrev pub int_or : ℤ → Option ℤ → ℤ
int_or usual none = usual
int_or usual (some v) = v

module _ (g : Gorm) (cfg : Config) (o : AdminOutside) (r : Request) where
  abbrev pub role_only :
      List Str → (Server g → AdminReply × Server g) → Server g → AdminReply × Server g
  role_only roles next s = guarded (require_admin_role g cfg r roles s.store) (λ u. next) s

  -- `s.store.AddAudit(s.adminActor(r), ...)`, and the reply.
  abbrev pub audit_and :
      (action target : Str) → Option Str → AdminBody → Server g → AdminReply × Server g
  audit_and action target detail body s = (
    answered body,
    record s { store = add_audit g (admin_actor g cfg r s.store) action target detail s.store },
  )

  abbrev pub delete_by_id :
      (ℤ → Store g → Result (Unit {0}) × Store g)
      → (action : Str) → (ℤ → AdminBody)
      → Server g
      → AdminReply × Server g
  delete_by_id delete action body =
      guarded (read_id_query o r)
        (λ id. changed 500 (delete id) (λ u. audit_and action (format_int id) none (body id)))

  abbrev pub post_tenant : Server g → AdminReply × Server g
  post_tenant = decoded (o.admin_json.tenant r.body) (λ req.
      changed 400 (upsert_tenant g (tenant_row req)) (λ id.
        audit_and (str "tenant.upsert") req.name (o.admin_json.tenant_detail req) (written id)))

  unfoldable pub handle_tenants : Server g → AdminReply × Server g
  handle_tenants = admin_only g cfg o r (
      on_method r.method (answer_list tenants (list_tenants g))
        (role_only (str "owner" ∷ str "admin" ∷ []) post_tenant)
        (role_only (str "owner" ∷ [])
          (delete_by_id (delete_tenant g) (str "tenant.delete") deleted)))

  abbrev pub post_user : Server g → AdminReply × Server g
  post_user = decoded (o.admin_json.user r.body) (λ req.
      changed 400 (upsert_admin_user g o.tokens (user_row o.tokens req)) (λ id.
        audit_and (str "admin_user.upsert") req.username
          (o.admin_json.user_detail req.role req.enabled) (written id)))

  -- A deletion disables the administrator.
  abbrev pub disable_user : Server g → AdminReply × Server g
  disable_user =
      delete_by_id (λ id. set_admin_enabled g id false) (str "admin_user.disable") disabled

  unfoldable pub handle_users : Server g → AdminReply × Server g
  handle_users = admin_only g cfg o r (
      on_method r.method (answer_list admin_users (list_admin_users g))
        (role_only (str "owner" ∷ []) post_user) (role_only (str "owner" ∷ []) disable_user))

  abbrev pub post_price : Server g → AdminReply × Server g
  post_price = decoded (o.admin_json.price r.body) (λ req.
      changed 400 (upsert_price_rule g (price_row req)) (λ id.
        audit_and (str "price_rule.upsert") req.model_prefix (o.admin_json.price_detail req)
          (written id)))

  unfoldable pub handle_prices : Server g → AdminReply × Server g
  handle_prices = admin_only g cfg o r (
      on_method r.method (answer_list price_rules (list_price_rules g))
        (role_only (str "owner" ∷ str "admin" ∷ []) post_price)
        (role_only (str "owner" ∷ [])
          (delete_by_id (delete_price_rule g) (str "price_rule.delete") deleted)))

  -- The reload, then the audit.
  abbrev pub topped_up : TopupRequest → Unit {0} → Server g → AdminReply × Server g
  topped_up req u s =
      audit_and (str "billing.topup") req.api_key (o.admin_json.topup_detail req) accepted
        (reload_and o.json accepted s).1

  abbrev pub post_topup : TopupRequest → Server g → AdminReply × Server g
  post_topup req s =
      if leb_ℤ req.amount_micros (pos 0)
      then (refused 400 (str "amount_micros must be positive"), s)
      else changed 500 (topup_api_key_balance g req.api_key req.amount_micros req.reason req.ref)
          (topped_up req) s

  unfoldable pub handle_topup : Server g → AdminReply × Server g
  handle_topup =
      role_only (str "owner" ∷ str "admin" ∷ [])
        (only_method (str "POST") r.method (decoded (o.admin_json.topup r.body) post_topup))

  -- The limit of a query, where it is a number.
  abbrev pub limit_of : ℤ → ℤ
  limit_of usual =
      let raw = trim_space (o.query r.raw_query (str "limit")) in
      if is_empty raw then usual else int_or usual (parse_int raw)

  unfoldable pub handle_billing_txns : Server g → AdminReply × Server g
  handle_billing_txns = admin_only g cfg o r (
      only_method (str "GET") r.method (
        answer_list billing_txns (
          list_billing_txns g (trim_space (o.query r.raw_query (str "api_key")))
            (limit_of (pos 100)))))

  unfoldable pub handle_audit : Server g → AdminReply × Server g
  handle_audit = admin_only g cfg o r (
      only_method (str "GET") r.method (answer_list audit_logs (list_audit g (limit_of (pos 200)))))

  -- Every error of a login is the same to the client.
  abbrev pub logged : Server g → Result AdminUser × Store g → AdminReply × Server g
  logged s (err e, st) = (refused 401 (str "invalid credentials"), record s { store = st })
  logged s (ok u, st) = (answered (logged_in u.token u.role), record s { store = st })

  unfoldable pub handle_login : Server g → AdminReply × Server g
  handle_login = only_method (str "POST") r.method (
      decoded (o.admin_json.login r.body)
        (λ req s. logged s (admin_login g o.tokens (trim_space req.username) req.password s.store)))
