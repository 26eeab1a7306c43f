-- ===== src/Gateway/Admin/Roles.antt =====
-- The roles that the changes of tenants, administrators, prices and balances need.
use proxy2api.Base.{
  ◌≡◌, refl, ◌⊎◌, inl, inr, true, false, Option, none, some, List, [], ◌∷◌, arith, if◌then◌else◌,
  Bool-cases, In, any_sound, Str, Result, ok, err,
}
use proxy2api.Text.{str, eq_str}
use proxy2api.Text.Laws.{eq_str_sound}
use proxy2api.Config.{Config}
use proxy2api.Store.Gorm.{Gorm, GormLaws}
use proxy2api.Store.Tables.{Store}
use proxy2api.Store.Rows.{AdminUser}
use proxy2api.Store.Admins.{verify_admin_token, list_admin_users}
use proxy2api.Store.Tenants.{list_tenants, delete_tenant}
use proxy2api.Store.Prices.{list_price_rules, delete_price_rule}
use proxy2api.Gateway.Forward.{Request}
use proxy2api.Gateway.Admit.{Server, Guard, pass, refuse}
use proxy2api.Gateway.Messages.{AdminReply, AdminBody, deleted, tenants, price_rules, admin_users}
use proxy2api.Gateway.Admin.{AdminOutside, guarded, answer_list, on_method, only_method, decoded}
use proxy2api.Gateway.Admin.Access.{
  bearer_of, has_admin_key, require_admin, admin_role, allow_role, require_admin_role,
}
use proxy2api.Gateway.Admin.Authorized.{
  HasAdminKey, HasUser, has_admin_key-HasAdminKey, verify_admin_token-HasUser,
}
use proxy2api.Gateway.Admin.Catalog.{admin_only}
use proxy2api.Gateway.Admin.Ledger.{
  role_only, delete_by_id, post_tenant, post_user, disable_user, post_price, post_topup,
  handle_tenants, handle_users, handle_prices, handle_topup,
}
use proxy2api.Gateway.Admin.Routes.{
  Route, to_login, to_providers, to_provider_action, to_provider_keys, to_api_keys, to_tenants,
  to_users, to_prices, to_topup, to_billing_txns, to_audit, to_rules, to_schedules,
  to_config_export, to_config_import, to_reload, handle_admin,
}

-- The request comes with the admin key, which makes an owner, or from an administrator of the role.
abbrev pub ActsAs : (g : Gorm) → Config → Request → Store g → Str → Type 0
ActsAs g cfg r s role =
    (HasAdminKey cfg r × (role ≡ str "owner"))
    ⊎ ((u : AdminUser) × HasUser g r s u × (u.role ≡ role))

abbrev pub HasRole : (g : Gorm) → Config → Request → Store g → List Str → Type 0
HasRole g cfg r s roles = (role : Str) × In role roles × ActsAs g cfg r s role

abbrev pub writers_of : Str → List Str
writers_of method =
    if eq_str method (str "POST") then str "owner" ∷ str "admin" ∷ [] else str "owner" ∷ []

-- Who may change what a path stands for.
abbrev pub roles_of : Str → Route → Option (List Str)
roles_of method to_tenants = some (writers_of method)
roles_of method to_prices = some (writers_of method)
roles_of method to_users = some (str "owner" ∷ [])
roles_of method to_topup = some (str "owner" ∷ str "admin" ∷ [])
roles_of method route = none

-- The server is as it was, or `P` holds.
abbrev Keeps : (g : Gorm) → Server g → Type 0 → AdminReply × Server g → Type 0
Keeps g s P out = (out.1 ≡ s) ⊎ P

guarded-Keeps :
    (g : Gorm) {A : Type 0} (P : Type 0) (guard : Guard A)
    (next : A → Server g → AdminReply × Server g) (s : Server g)
    → ((a : A) → guard ≡ pass a → Keeps g s P (next a s))
    → Keeps g s P (guarded guard next s)
guarded-Keeps g P (refuse code e) next s h = inl refl
guarded-Keeps g P (pass a) next s h = h a refl

answer_list-keeps :
    (g : Gorm) {A : Type 0} (body : A → AdminBody) (list : Store g → Result A) (s : Server g)
    → (answer_list body list s).1 ≡ s
answer_list-keeps g body list s = ground arith

on_method-Keeps :
    (g : Gorm) (P : Type 0) (method : Str) (get post delete : Server g → AdminReply × Server g)
    (s : Server g)
    → (get s).1 ≡ s
    → (eq_str method (str "POST") ≡ true → Keeps g s P (post s))
    → (eq_str method (str "POST") ≡ false → Keeps g s P (delete s))
    → Keeps g s P (on_method method get post delete s)
on_method-Keeps g P method get post delete s got posted removed =
    elim (Bool-cases (eq_str method (str "GET"))) [
      | inl e ↦ inl (rw e got)
      | inr e ↦ elim (Bool-cases (eq_str method (str "POST"))) [
        | inl e1 ↦ rw (e, e1) (posted e1)
        | inr e1 ↦ elim (Bool-cases (eq_str method (str "DELETE"))) [
          | inl e2 ↦ rw (e, e1, e2) (removed e1)
          | inr e2 ↦ inl (rw (e, e1, e2) refl)
        ]
      ]
    ]

injective : {A : Type 0} {x y : A} → some x ≡ some y → x ≡ y
injective h = cc

module _ (g : Gorm) (laws : GormLaws g) (cfg : Config) (r : Request) where
  admin_role-ActsAs :
      (s : Store g) (role : Str) → admin_role g cfg r s ≡ some role → ActsAs g cfg r s role
  unfolding admin_role
  admin_role-ActsAs s role h = elim (Bool-cases (has_admin_key cfg r)) [
    | inl e ↦ inl (has_admin_key-HasAdminKey cfg r e, ground arith)
    | inr e ↦ inr (user e (verify_admin_token g (bearer_of r) s) refl)
  ]
    where
      user :
          has_admin_key cfg r ≡ false
          → (m : Result AdminUser) → verify_admin_token g (bearer_of r) s ≡ m
          → (u : AdminUser) × HasUser g r s u × (u.role ≡ role)
      user k (ok u) e =
          (u, verify_admin_token-HasUser g laws cfg r s u (ground arith) e, ground arith)
      user k (err x) e = absurd (ground arith)

  require_admin_role-HasRole :
      (x : Str) (roles : List Str) (s : Store g)
      → require_admin_role g cfg r (x ∷ roles) s ≡ pass tt
      → HasRole g cfg r s (x ∷ roles)
  unfolding require_admin_role
  require_admin_role-HasRole x roles s h = acts (admin_role g cfg r s) refl h
    where
      acts :
          (m : Option Str)
          → admin_role g cfg r s ≡ m
          → allow_role g cfg (x ∷ roles) m ≡ pass tt
          → HasRole g cfg r s (x ∷ roles)
      acts none e k = absurd (ground arith)
      acts (some role) e k =
          let (a, found, same) = any_sound (eq_str role) (x ∷ roles) (ground arith) in
          (a, found, rw (← eq_str_sound role a same) (admin_role-ActsAs s role e))

  role_only-Keeps :
      (o : AdminOutside) (x : Str) (roles : List Str) (next : Server g → AdminReply × Server g)
      (s : Server g)
      → Keeps g s (HasRole g cfg r s.store (x ∷ roles)) (role_only g cfg o r (x ∷ roles) next s)
  role_only-Keeps o x roles next s =
      guarded-Keeps g _ (require_admin_role g cfg r (x ∷ roles) s.store) (λ u. next) s
        (λ u e. inr (require_admin_role-HasRole x roles s.store e))

  -- A switch over the method whose writes ask for an owner or an administrator, and whose deletions
  -- ask for an owner.
  written-Keeps :
      (o : AdminOutside) (get post delete : Server g → AdminReply × Server g) (s : Server g)
      → (get s).1 ≡ s
      → Keeps g s (HasRole g cfg r s.store (writers_of r.method)) (
          admin_only g cfg o r
            (on_method r.method get
              (role_only g cfg o r (str "owner" ∷ str "admin" ∷ []) post)
              (role_only g cfg o r (str "owner" ∷ []) delete))
            s)
  written-Keeps o get post delete s got =
      guarded-Keeps g _ (require_admin g cfg o r s.store) _ s (λ u e.
        on_method-Keeps g (HasRole g cfg r s.store (writers_of r.method)) r.method get
          (role_only g cfg o r (str "owner" ∷ str "admin" ∷ []) post)
          (role_only g cfg o r (str "owner" ∷ []) delete) s got
          (λ p. rw p (role_only-Keeps o (str "owner") (str "admin" ∷ []) post s))
          (λ p. rw p (role_only-Keeps o (str "owner") [] delete s)))

  -- On the four paths /admin/tenants, /admin/admin-users, /admin/billing/prices and
  -- /admin/billing/topup, a request that changes the server comes with the admin key or from an enabled administrator whose role is among
  -- those for it: owner or admin to write a tenant or a price or to top up a balance, owner for all
  -- else on these paths. Of the other paths nothing is said.
  pub handle_admin-HasRole :
      (o : AdminOutside) (route : Route) (roles : List Str) (s : Server g)
      → roles_of r.method route ≡ some roles
      → ((handle_admin g cfg o route r s).1 ≡ s) ⊎ HasRole g cfg r s.store roles
  unfolding handle_tenants handle_users handle_prices handle_topup
  handle_admin-HasRole o to_tenants roles s h =
      let same = injective h in
      rw (← same) (
        written-Keeps o (answer_list tenants (list_tenants g)) (post_tenant g cfg o r)
          (delete_by_id g cfg o r (delete_tenant g) (str "tenant.delete") deleted) s
          (answer_list-keeps g tenants (list_tenants g) s))
  handle_admin-HasRole o to_prices roles s h =
      let same = injective h in
      rw (← same) (
        written-Keeps o (answer_list price_rules (list_price_rules g)) (post_price g cfg o r)
          (delete_by_id g cfg o r (delete_price_rule g) (str "price_rule.delete") deleted) s
          (answer_list-keeps g price_rules (list_price_rules g) s))
  handle_admin-HasRole o to_users roles s h =
      let same = injective h in
      rw (← same) (
        guarded-Keeps g _ (require_admin g cfg o r s.store) _ s (λ u e.
          on_method-Keeps g (HasRole g cfg r s.store (str "owner" ∷ [])) r.method
            (answer_list admin_users (list_admin_users g))
            (role_only g cfg o r (str "owner" ∷ []) (post_user g cfg o r))
            (role_only g cfg o r (str "owner" ∷ []) (disable_user g cfg o r)) s
            (answer_list-keeps g admin_users (list_admin_users g) s)
            (λ p. role_only-Keeps o (str "owner") [] (post_user g cfg o r) s)
            (λ p. role_only-Keeps o (str "owner") [] (disable_user g cfg o r) s)))
  handle_admin-HasRole o to_topup roles s h =
      let same = injective h in
      rw (← same) (
        role_only-Keeps o (str "owner") (str "admin" ∷ [])
          (only_method (str "POST") r.method
            (decoded (o.admin_json.topup r.body) (post_topup g cfg o r)))
          s)
  handle_admin-HasRole o to_login roles s h = absurd cc
  handle_admin-HasRole o to_providers roles s h = absurd cc
  handle_admin-HasRole o to_provider_action roles s h = absurd cc
  handle_admin-HasRole o to_provider_keys roles s h = absurd cc
  handle_admin-HasRole o to_api_keys roles s h = absurd cc
  handle_admin-HasRole o to_billing_txns roles s h = absurd cc
  handle_admin-HasRole o to_audit roles s h = absurd cc
  handle_admin-HasRole o to_rules roles s h = absurd cc
  handle_admin-HasRole o to_schedules roles s h = absurd cc
  handle_admin-HasRole o to_config_export roles s h = absurd cc
  handle_admin-HasRole o to_config_import roles s h = absurd cc
  handle_admin-HasRole o to_reload roles s h = absurd cc
