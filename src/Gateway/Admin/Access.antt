-- ===== src/Gateway/Admin/Access.antt =====
-- Who may use the administration: `verifyAdminHMAC`, `requireAdmin`, `requireAdminRole`, `adminRole`
-- and `adminActor` of internal/gateway/admin.go.
use proxy2api.Base.{
  Bool, true, false, not, ◌&&◌, ◌||◌, Option, none, some, List, [], ◌∷◌, ◌++◌, if◌then◌else◌, ℤ,
  pos, ◌+ℤ◌, ◌-ℤ◌, ltb_ℤ, any, Str, ok, err,
}
use proxy2api.Text.{str, eq_str, is_empty, trim_space, split2, equal_fold, to_lower}
use proxy2api.Text.Numbers.{parse_int, hex}
use proxy2api.Config.{Config}
use proxy2api.Store.Gorm.{Gorm}
use proxy2api.Store.Tables.{Store}
use proxy2api.Store.Admins.{verify_admin_token}
use proxy2api.Gateway.Forward.{Request, header_get}
use proxy2api.Gateway.Admit.{Guard, pass, refuse}
use proxy2api.Gateway.Admin.{AdminOutside}

unfoldable pub extract_bearer : Str → Str
extract_bearer v = elim (split2 b' ' (trim_space v)) [
  | none ↦ []
  | some (scheme, rest) ↦ if equal_fold scheme (str "Bearer") then trim_space rest else []
]

abbrev pub bearer_of : Request → Str
bearer_of r = extract_bearer (header_get r.headers (str "Authorization"))

-- The header carries the admin key, and there is one.
abbrev pub has_admin_key : Config → Request → Bool
has_admin_key cfg r =
    eq_str (trim_space (header_get r.headers (str "X-Admin-Key"))) cfg.auth.admin_key
    && not (is_empty cfg.auth.admin_key)

-- The text that is signed.
abbrev pub signed_text : Request → Str → Str
signed_text r ts = r.method ++ 10 ∷ r.path ++ 10 ∷ ts

abbrev pub is_recent : ℤ → ℤ → Bool
is_recent now sec = not (ltb_ℤ sec (now -ℤ pos 300) || ltb_ℤ (now +ℤ pos 300) sec)

unfoldable pub verify_admin_hmac : Config → AdminOutside → Request → Bool
verify_admin_hmac cfg o r =
    let secret = trim_space cfg.security.admin_hmac_secret in
    let ts = trim_space (header_get r.headers (str "X-Admin-Ts")) in
    let sign = trim_space (header_get r.headers (str "X-Admin-Sign")) in
    if is_empty secret
    then true
    else if is_empty ts || is_empty sign
    then false
    else elim (parse_int ts) [
      | none ↦ false
      | some sec ↦
          if not (is_recent o.now_unix sec)
          then false
          else eq_str (to_lower (hex (o.hmac_sha256 secret (signed_text r ts)))) (to_lower sign)
    ]

module _ (g : Gorm) (cfg : Config) where
  abbrev pub token_is_known : Str → Store g → Bool
  token_is_known token s = elim (verify_admin_token g token s) [ err e ↦ false | ok u ↦ true ]

  unfoldable pub require_admin : AdminOutside → Request → Store g → Guard (Unit {0})
  require_admin o r s =
      if not (verify_admin_hmac cfg o r)
      then refuse 401 (str "admin hmac verify failed")
      else if has_admin_key cfg r
      then pass tt
      else if not (is_empty (bearer_of r)) && token_is_known (bearer_of r) s
      then pass tt
      else refuse 401 (str "admin unauthorized")

  unfoldable pub admin_role : Request → Store g → Option Str
  admin_role r s =
      if has_admin_key cfg r
      then some (str "owner")
      else if is_empty (bearer_of r)
      then none
      else elim (verify_admin_token g (bearer_of r) s) [ err e ↦ none | ok u ↦ some u.role ]

  abbrev pub allow_role : List Str → Option Str → Guard (Unit {0})
  allow_role roles none = refuse 401 (str "admin unauthorized")
  allow_role roles (some role) =
      if is_none roles || any (eq_str role) roles
      then pass tt
      else refuse 403 (str "insufficient role")
    where
      is_none : List Str → Bool
      is_none [] = true
      is_none (x ∷ xs) = false

  unfoldable pub require_admin_role : Request → List Str → Store g → Guard (Unit {0})
  require_admin_role r roles s = allow_role roles (admin_role r s)

  unfoldable pub admin_actor : Request → Store g → Str
  admin_actor r s =
      if has_admin_key cfg r
      then str "admin_key"
      else if is_empty (bearer_of r)
      then str "anonymous"
      else elim (verify_admin_token g (bearer_of r) s) [
        | err e ↦ str "token_unknown"
        | ok u ↦ str "user:" ++ u.username
      ]
