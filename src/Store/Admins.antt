-- ===== src/Store/Admins.antt =====
-- The administrators of internal/store/store.go. SHA-256 and the random bytes of a new token are
-- parameters.
pub mod Login
use proxy2api.Base.{
  ◌+◌, ◌-◌, ◌/◌, ap, Bool, true, not, ◌&&◌, List, ◌++◌, ltb, leb, if◌then◌else◌, ℤ, pos, ltb_ℤ,
  leb_ℤ, eq_ℤ, Str, Result, ok, err, ◌>>=◌,
}
use proxy2api.Text.{str, eq_str, is_empty, trim_space, to_lower}
use proxy2api.Text.Numbers.{hex, format_int}
use proxy2api.Store.Gorm.{Gorm, update_row, insert_row, stored, done, table_of}
use proxy2api.Store.Rows.{AdminUser, admin_user_model}
use proxy2api.Store.Tables.{Store, is_blank}

-- `rand.Read` of 20 bytes, and the clock for the token without them.
pub record Tokens : Type 0 where
  pub sha256 : Str → Str
  pub random_bytes : Result Str
  pub now_nano : ℤ

unfoldable pub sha256_hex : Tokens → Str → Str
sha256_hex o v = hex (o.sha256 v)

unfoldable pub random_token : Tokens → Str
random_token o = elim o.random_bytes [
  | err e ↦ str "tok_" ++ format_int o.now_nano
  | ok b ↦ str "adm_" ++ hex b
]

unfoldable pub normalize_role : Str → Str
normalize_role v =
    let role = to_lower (trim_space v) in
    if eq_str role (str "owner")
    then str "owner"
    else if eq_str role (str "admin")
    then str "admin"
    else str "viewer"

-- `Where("token = ? AND enabled = ?", token, true)`
abbrev pub has_token : Str → AdminUser → Bool
has_token token u = eq_str u.token token && u.enabled

module _ (g : Gorm) (o : Tokens) where
  unfoldable pub upsert_admin_user : AdminUser → Store g → Result ℤ × Store g
  upsert_admin_user u0 s =
      let u = record u0 { role = normalize_role u0.role } in
      let new = record u { token = if is_empty u.token then random_token o else u.token } in
      if is_blank u0.username
      then (err (str "username required"), s)
      else stored s (λ t. record s { admin_users = t })
          (if ltb_ℤ (pos 0) u.id
            then update_row g admin_user_model u.id (λ x. record u { id = x.id; token = x.token })
                s.admin_users
            else insert_row g admin_user_model (λ n x. eq_str x.username n.username)
                (λ x n. record n { id = x.id; username = x.username; token = x.token }) new
                s.admin_users)

  -- The statement that writes the new token, and the user with it.
  abbrev pub with_new_token : AdminUser → g.Table AdminUser → Result (AdminUser × g.Table AdminUser)
  with_new_token u t = do
    updated ← g.updates (λ x. eq_ℤ x.id u.id) (λ x. record x { token = random_token o }) t
    ok (record u { token = random_token o }, updated.1)

  unfoldable pub admin_login : (username password : Str) → Store g → Result AdminUser × Store g
  admin_login username password s =
      stored s (λ t. record s { admin_users = t })
        (do
          u ← g.first (λ x. eq_str x.username username && x.enabled) s.admin_users
          if not (eq_str u.password_hash (sha256_hex o password))
              then err (str "invalid username or password")
              else with_new_token u s.admin_users)

module _ (g : Gorm) where
  unfoldable pub list_admin_users : Store g → Result (List AdminUser)
  list_admin_users s = g.find (λ a b. leb_ℤ a.id b.id) (λ u. true) s.admin_users

  unfoldable pub verify_admin_token : Str → Store g → Result AdminUser
  verify_admin_token token s = g.first (has_token token) s.admin_users

  unfoldable pub set_admin_enabled : ℤ → Bool → Store g → Result (Unit {0}) × Store g
  set_admin_enabled id enabled s =
      done s (λ t. record s { admin_users = t })
        (table_of
          (g.updates (λ u. eq_ℤ u.id id) (λ u. record u { enabled = enabled }) s.admin_users))
