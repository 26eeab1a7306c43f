-- ===== src/Gateway/Admin/KeyUpdate.antt =====
-- What the handler of /admin/api-keys leaves of the balance and the tenant of a key.
use proxy2api.Base.{
  ◌≡◌, refl, sym, ap, ◌∙◌, true, some, arith, ℤ, pos, ltb_ℤ, In, Str, Result, ok, err,
}
use mathlib.Core.Path.{subst}
use proxy2api.Store.Lists.{list_api_keys}
use proxy2api.Text.{str, trim_space}
use proxy2api.Config.{Config}
use proxy2api.Store.Gorm.{Gorm, GormLaws}
use proxy2api.Store.Rows.{ApiKey}
use proxy2api.Store.Tables.{Store, default_str}
use proxy2api.Store.ApiKeys.{upsert_api_key}
use proxy2api.Store.ApiKeys.Update.{upsert_api_key-written}
use proxy2api.Gateway.Snapshot.{Json}
use proxy2api.Gateway.Forward.{Request}
use proxy2api.Gateway.Admit.{Server, Guard, pass, refuse}
use proxy2api.Gateway.Messages.{ApiKeyRequest, AdminReply, AdminBody, answered, written, api_keys}
use proxy2api.Gateway.Admin.{
  AdminOutside, guarded, changed, after_change, reload_and, on_method, answer_list, decoded,
}
use proxy2api.Gateway.Admin.Access.{require_admin}
use proxy2api.Gateway.Admin.Catalog.{
  api_key_row, written_id, post_api_key, remove_api_key, handle_api_keys,
}

-- A reload writes the snapshot only.
reload_and-store :
    (g : Gorm) (json : Json) (body : AdminBody) (s : Server g)
    → (reload_and json body s).1.store ≡ s.store
reload_and-store g json body s = ground arith

-- A reply with status 200 has passed the guard.
guarded-eq-answered :
    (g : Gorm) {A : Type 0} (guard : Guard A) (next : A → Server g → AdminReply × Server g)
    (s : Server g) (body : AdminBody)
    → (guarded guard next s).0 ≡ answered body
    → (a : A) × (guarded guard next s ≡ next a s)
guarded-eq-answered g (pass a) next s body h = (a, refl)
guarded-eq-answered g (refuse code e) next s body h = absurd cc

on_method-post :
    (g : Gorm) (method : Str) (get post delete : Server g → AdminReply × Server g) (s : Server g)
    → method ≡ str "POST"
    → on_method method get post delete s ≡ post s
on_method-post g method get post delete s h = rw h refl

module _ (g : Gorm) (laws : GormLaws g) (cfg : Config) (o : AdminOutside) (r : Request) where
  changed_row :
      (k : ApiKey) (s : Server g) (body : AdminBody)
      → ltb_ℤ (pos 0) k.id ≡ true
      → (changed 400 (upsert_api_key g k) (written_id g cfg o r) s).0 ≡ answered body
      → (x : ApiKey)
      → In x (g.rows (changed 400 (upsert_api_key g k) (written_id g cfg o r) s).1.store.api_keys)
      → x.id ≡ k.id
      → (x.balance_micros ≡ k.balance_micros)
        × (x.tenant_name ≡ default_str k.tenant_name (str "default"))
  changed_row k s body given h x listed same = ended (upsert_api_key g k s.store) refl h listed
    where
      ended :
          (m : Result ℤ × Store g)
          → upsert_api_key g k s.store ≡ m
          → (after_change 400 (written_id g cfg o r) s m).0 ≡ answered body
          → In x (g.rows (after_change 400 (written_id g cfg o r) s m).1.store.api_keys)
          → (x.balance_micros ≡ k.balance_micros)
            × (x.tenant_name ≡ default_str k.tenant_name (str "default"))
      ended (err e, st) q k listed = absurd cc
      ended (ok id, st) q a listed =
          upsert_api_key-written g laws k s.store given id (ap (λ m. m.0) q) x
            (rw q (rw (reload_and-store g o.json (written id) (record s { store = st })) at listed))
            same

  -- An update of a key of a user that is not refused leaves each row of its id with a balance of
  -- zero and with the default tenant, whatever they were before.
  pub handle_api_keys-resets :
      (req : ApiKeyRequest) (s : Server g) (body : AdminBody)
      → r.method ≡ str "POST"
      → o.admin_json.api_key r.body ≡ some req
      → ltb_ℤ (pos 0) req.id ≡ true
      → (handle_api_keys g cfg o r s).0 ≡ answered body
      → (x : ApiKey) → In x (g.rows (handle_api_keys g cfg o r s).1.store.api_keys)
      → x.id ≡ req.id
      → (x.balance_micros ≡ pos 0) × (x.tenant_name ≡ str "default")
  unfolding handle_api_keys default_str trim_space
  handle_api_keys-resets req s body method read given h x listed same =
      let (u, passed) =
        guarded-eq-answered g (require_admin g cfg o r s.store)
          (λ u.
            on_method r.method (answer_list api_keys (list_api_keys g)) (post_api_key g cfg o r)
              (remove_api_key g cfg o r))
          s body h in
      let posted =
        on_method-post g r.method (answer_list api_keys (list_api_keys g)) (post_api_key g cfg o r)
          (remove_api_key g cfg o r) s method in
      let taken : post_api_key g cfg o r s
          ≡ changed 400 (upsert_api_key g (api_key_row o.admin_json req)) (written_id g cfg o r) s =
        ap
          (λ q.
            decoded q
              (λ z.
                changed 400 (upsert_api_key g (api_key_row o.admin_json z)) (written_id g cfg o r))
              s)
          read in
      let run : handle_api_keys g cfg o r s
          ≡ changed 400 (upsert_api_key g (api_key_row o.admin_json req)) (written_id g cfg o r) s =
        passed ∙ posted ∙ taken in
      changed_row (api_key_row o.admin_json req) s body given (sym (ap (λ out. out.0) run) ∙ h) x
        (subst (λ (out : AdminReply × Server g). In x (g.rows out.1.store.api_keys)) run listed)
        same
