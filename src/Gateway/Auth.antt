-- ===== src/Gateway/Auth.antt =====
-- `authenticateUser` of internal/gateway/server.go. The text of the Authorization header is an
-- argument.
pub mod Bearer
use proxy2api.Base.{
  ◌-◌, ◌/◌, ap, not, Option, none, some, if◌then◌else◌, Str, Result, ok, err, ◌>>=◌,
}
use proxy2api.Text.{str, is_empty, eq_str, trim_space, split2, equal_fold}
use proxy2api.Dict.{lookup}
use proxy2api.Store.Gorm.{Gorm}
use proxy2api.Store.Tables.{Store}
use proxy2api.Store.Tenants.{is_tenant_enabled}
use proxy2api.Gateway.Types.{GatewayKey, Snapshot}

-- The token behind `Bearer`, of a header that is not empty.
abbrev pub bearer_token : Str → Result Str
bearer_token auth = elim (split2 b' ' auth) [
  | none ↦ err (str "invalid authorization header")
  | some (scheme, rest) ↦
      if not (equal_fold scheme (str "Bearer"))
      then err (str "invalid authorization header")
      else ok (trim_space rest)
]

-- The key that the snapshot has for the token.
abbrev pub known_key : (g : Gorm) → Str → Option GatewayKey → Store g → Result (Str × GatewayKey)
known_key g key none s = err (str "invalid api key")
known_key g key (some k) s =
    if not k.enabled
    then err (str "invalid api key")
    else if not (is_tenant_enabled g k.tenant_name s)
    then err (str "tenant disabled")
    else ok (key, k)

unfoldable pub authenticate_user :
    (g : Gorm) → (authorization : Str) → Snapshot → Store g → Result (Str × GatewayKey)
authenticate_user g authorization snap s =
    let auth = trim_space authorization in
    if is_empty auth
    then err (str "missing authorization header")
    else do key ← bearer_token auth; known_key g key (lookup key snap.keys) s
