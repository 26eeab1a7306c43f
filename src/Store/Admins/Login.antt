-- ===== src/Store/Admins/Login.antt =====
-- What a login leaves behind.
use proxy2api.Base.{
  ◌≡◌, refl, ◌⊎◌, inl, inr, true, false, not, ◌&&◌, map, arith, if◌then◌else◌, Bool-cases, eq_ℤ, In,
  In-map, eq_ℤ_refl, Str, ok, err, >>=-eq-ok,
}
use proxy2api.Text.{str, eq_str}
use proxy2api.Text.Laws.{eq_str_sound}
use proxy2api.Store.Gorm.{Gorm, GormLaws, stored-eq-ok}
use proxy2api.Store.Rows.{AdminUser}
use proxy2api.Store.Tables.{Store}
use proxy2api.Store.Admins.{Tokens, sha256_hex, random_token, with_new_token, admin_login}

-- The row of the user who has logged in, before the login and after it.
pub record IsLoggedIn (g : Gorm) (o : Tokens) (username password : Str) (u : AdminUser)
    (s s' : Store g) : Type 0 where
  pub row : AdminUser
  pub was : In row (g.rows s.admin_users)
  pub name : row.username ≡ username
  pub password_hash : row.password_hash ≡ sha256_hex o password
  pub enabled : row.enabled ≡ true
  pub answer : u ≡ record row { token = random_token o }
  pub rewritten :
      g.rows s'.admin_users
      ≡ map
          (λ y. if eq_ℤ y.id row.id then record y { token = random_token o } else y)
          (g.rows s.admin_users)
  pub listed : In u (g.rows s'.admin_users)

-- A login that succeeds is one of an administrator who, before it, stands in the table, enabled, with
-- the given name and the hash of the given password; the answer is this row with a new token, the
-- table has that row, and no row of another id has changed.
pub admin_login-IsLoggedIn :
    (g : Gorm) (laws : GormLaws g) (o : Tokens) (username password : Str) (s : Store g)
    (u : AdminUser)
    → (admin_login g o username password s).0 ≡ ok u
    → IsLoggedIn g o username password u s (admin_login g o username password s).1
unfolding admin_login
admin_login-IsLoggedIn g laws o username password s u h =
    let (t, ran, out) = stored-eq-ok s (λ t. record s { admin_users = t }) _ u h in
    let (x, found, next) = >>=-eq-ok (g.first _ s.admin_users) _ ran in
    let (listed, test) = laws.first_row _ s.admin_users x found in
    rw out
      (checked t x listed test (Bool-cases (eq_str x.password_hash (sha256_hex o password))) next)
  where
    written :
        (x : AdminUser)
        → In x (g.rows s.admin_users)
        → In
            (record x { token = random_token o })
            (map
              (λ y. if eq_ℤ y.id x.id then record y { token = random_token o } else y)
              (g.rows s.admin_users))
    written x listed =
        let there =
          In-map (λ y. if eq_ℤ y.id x.id then record y { token = random_token o } else y) x
            (g.rows s.admin_users) listed in
        rw (eq_ℤ_refl x.id) at there

    checked :
        (t : g.Table AdminUser) (x : AdminUser)
        → In x (g.rows s.admin_users)
        → (eq_str x.username username && x.enabled) ≡ true
        → ((eq_str x.password_hash (sha256_hex o password) ≡ true)
            ⊎ (eq_str x.password_hash (sha256_hex o password) ≡ false))
        → (if not (eq_str x.password_hash (sha256_hex o password))
            then err (str "invalid username or password")
            else with_new_token g o x s.admin_users)
          ≡ ok (u, t)
        → IsLoggedIn g o username password u s (record s { admin_users = t })
    checked t x listed test (inr e) next = absurd (ground arith)
    checked t x listed test (inl e) next =
        let (updated, wrote, ended) =
          >>=-eq-ok
            (g.updates (λ y. eq_ℤ y.id x.id) (λ y. record y { token = random_token o })
              s.admin_users)
            _ (rw e at next) in
        let (counted, rows) =
          laws.updates_rows (λ y. eq_ℤ y.id x.id) (λ y. record y { token = random_token o })
            s.admin_users updated.0 updated.1 wrote in
        let same_u : record x { token = random_token o } ≡ u = cc in
        let same_t : updated.1 ≡ t = cc in
        rw (← same_u, ← same_t)
          (record {
            row = x;
            was = listed;
            name = eq_str_sound _ _ (ground arith);
            password_hash = eq_str_sound _ _ e;
            enabled = ground arith;
            answer = refl;
            rewritten = rows;
            listed = rw rows (written x listed);
          })
