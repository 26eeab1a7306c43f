-- ===== src/Gateway/Admin.antt =====
-- The guards that the handlers of internal/gateway/admin.go share. The query of a URL, HMAC-SHA-256 and the clock are parameters.
pub mod Access
pub mod Catalog
pub mod Ledger
pub mod Routes
pub mod Authorized
pub mod Roles
pub mod KeyUpdate
pub mod Ids
mod Tests
use proxy2api.Base.{
  ℕ, ◌-◌, ◌/◌, ap, not, Option, none, some, if◌then◌else◌, ℤ, pos, all, Str, Result, ok, err,
}
use proxy2api.Gateway.Messages.{AdminJson, AdminBody, AdminReply, refused, answered}
use proxy2api.Text.{str, eq_str, is_empty, trim_space, split}
use proxy2api.Text.Numbers.{parse_int}
use proxy2api.Dict.{Dict}
use proxy2api.Float.{Float64}
use proxy2api.Store.Gorm.{Gorm}
use proxy2api.Store.Rows.{
  Provider, ProviderKey, ApiKey, Rule, GroupSchedule, Tenant, PriceRule, BillingTxn, AdminUser,
  AuditLog,
}
use proxy2api.Store.Tables.{Store}
use proxy2api.Store.Admins.{Tokens}
use proxy2api.Store.Routing.{RuntimeConfigExport}
use proxy2api.Gateway.Snapshot.{Json, reload_snapshot}
use proxy2api.Gateway.Forward.{Request}
use proxy2api.Gateway.Admit.{Server, Guard, pass, refuse}

-- What the handlers do not decide.
pub record AdminOutside : Type 0 where
  pub json : Json
  pub admin_json : AdminJson
  pub tokens : Tokens
  -- `r.URL.Query().Get(name)`
  pub query : (raw_query name : Str) → Str
  pub hmac_sha256 : (secret message : Str) → Str
  pub now_unix : ℤ

module _ {g : Gorm} where
  -- `if !guard { return }`
  abbrev pub guarded :
      {A : Type 0}
      → Guard A
      → (A → Server g → AdminReply × Server g)
      → Server g
      → AdminReply × Server g
  guarded (refuse code e) next s = (refused code e, s)
  guarded (pass a) next s = next a s

  -- A body that cannot be decoded is refused.
  abbrev pub decoded :
      {A : Type 0}
      → Option A
      → (A → Server g → AdminReply × Server g)
      → Server g
      → AdminReply × Server g
  decoded none next s = (refused 400 (str "invalid json body"), s)
  decoded (some a) next s = next a s

  abbrev pub answer_list :
      {A : Type 0} → (A → AdminBody) → (Store g → Result A) → Server g → AdminReply × Server g
  answer_list body list s = elim (list s.store) [
    | err e ↦ (refused 500 e, s)
    | ok xs ↦ (answered (body xs), s)
  ]

  abbrev pub after_change :
      {A : Type 0}
      → ℕ
      → (A → Server g → AdminReply × Server g)
      → Server g
      → Result A × Store g
      → AdminReply × Server g
  after_change code next s (err e, st) = (refused code e, record s { store = st })
  after_change code next s (ok a, st) = next a (record s { store = st })

  -- A change of the store, its error as a reply, and what follows when it went well.
  abbrev pub changed :
      {A : Type 0}
      → ℕ
      → (Store g → Result A × Store g)
      → (A → Server g → AdminReply × Server g)
      → Server g
      → AdminReply × Server g
  changed code change next s = after_change code next s (change s.store)

  -- `_ = s.reloadSnapshot()`, and the reply.
  abbrev pub reload_and : Json → AdminBody → Server g → AdminReply × Server g
  reload_and json body s = elim (reload_snapshot g json s.store) [
    | err e ↦ (answered body, s)
    | ok snap ↦ (answered body, record s { snapshot = snap })
  ]

  -- The switch over the method.
  abbrev pub on_method :
      Str → (get post delete : Server g → AdminReply × Server g) → Server g → AdminReply × Server g
  on_method method get post delete s =
      if eq_str method (str "GET")
      then get s
      else if eq_str method (str "POST")
      then post s
      else if eq_str method (str "DELETE")
      then delete s
      else (refused 405 (str "method not allowed"), s)

  abbrev pub only_method :
      Str → Str → (Server g → AdminReply × Server g) → Server g → AdminReply × Server g
  only_method wanted method next s =
      if eq_str method wanted then next s else (refused 405 (str "method not allowed"), s)

unfoldable pub read_id_query : AdminOutside → Request → Guard ℤ
read_id_query o r =
    let text = trim_space (o.query r.raw_query (str "id")) in
    if is_empty text
    then refuse 400 (str "id query is required")
    else elim (parse_int text) [ none ↦ refuse 400 (str "invalid id") | some id ↦ pass id ]
