-- ===== src/Gateway/Models/Listed.antt =====
-- The models that `handleModels` of internal/gateway/server.go lists.
use proxy2api.Base.{
  ◌≡◌, ◌↔◌, ◌⊎◌, inl, inr, true, some, List, [], ◌∷◌, arith, Bool-cases, In, Str, Result, ok,
  >>=-eq-ok,
}
use proxy2api.Text.{str}
use proxy2api.Text.Laws.{eq_str_iff}
use proxy2api.Dict.{Dict, lookup, insert, lookup-insert, Unique, insert-Unique}
use proxy2api.Store.Gorm.{Gorm}
use proxy2api.Gateway.Types.{ProviderState, GatewayKey}
use proxy2api.Gateway.Forward.{Request, header_get}
use proxy2api.Gateway.Auth.{authenticate_user}
use proxy2api.Gateway.Admit.{Server}
use proxy2api.Gateway.Models.{ModelSet, add_models, model_set, handle_models}

-- The authentication of the request.
abbrev pub user_of : (g : Gorm) → Request → Server g → Result (Str × GatewayKey)
user_of g r s = authenticate_user g (header_get r.headers (str "Authorization")) s.snapshot s.store

abbrev pub Has : Str → ModelSet → Type 0
Has m set = lookup m set ≡ some tt

-- An enabled provider of the map has the model.
abbrev pub Offered : Str → Dict ProviderState → Type 0
Offered m [] = ⊥
Offered m ((name, p) ∷ ps) = ((p.enabled ≡ true) × In m p.models) ⊎ Offered m ps

Has-insert : (m n : Str) (set : ModelSet) → Has m (insert n tt set) ↔ ((m ≡ n) ⊎ Has m set)
Has-insert m n set = ground (arith, lookup-insert n m tt set, eq_str_iff n m)

add_models_iff :
    (m : Str) (ms : List Str) (set : ModelSet) → Has m (add_models ms set) ↔ (In m ms ⊎ Has m set)
unfolding add_models
add_models_iff m [] set = ground arith
add_models_iff m (n ∷ ms) set =
    ground (arith, add_models_iff m ms (insert n tt set), Has-insert m n set)

add_models-Unique : (ms : List Str) (set : ModelSet) → Unique set → Unique (add_models ms set)
unfolding add_models
add_models-Unique [] set h = h
add_models-Unique (m ∷ ms) set h = add_models-Unique ms (insert m tt set) (insert-Unique m tt set h)

model_set_iff :
    (m : Str) (ps : Dict ProviderState) (set : ModelSet)
    → Has m (model_set ps set) ↔ (Offered m ps ⊎ Has m set)
unfolding model_set
model_set_iff m [] set = ground arith
model_set_iff m ((name, p) ∷ ps) set = elim (Bool-cases p.enabled) [
  | inl e ↦
      rw e (
        ground (arith, model_set_iff m ps (add_models p.models set), add_models_iff m p.models set))
  | inr e ↦ rw e (ground (arith, model_set_iff m ps set))
]

model_set-nil_iff : (m : Str) (ps : Dict ProviderState) → Has m (model_set ps []) ↔ Offered m ps
unfolding lookup
model_set-nil_iff m ps = ground (arith, model_set_iff m ps [])

model_set-Unique :
    (ps : Dict ProviderState) (set : ModelSet) → Unique set → Unique (model_set ps set)
unfolding model_set
model_set-Unique [] set h = h
model_set-Unique ((name, p) ∷ ps) set h = elim (Bool-cases p.enabled) [
  | inl e ↦ rw e (model_set-Unique ps _ (add_models-Unique p.models set h))
  | inr e ↦ rw e (model_set-Unique ps set h)
]

-- The models are listed to an authenticated user only; no model is listed twice; and the listed ones
-- are those that an enabled provider of the snapshot has.
pub handle_models-listed :
    (g : Gorm) (r : Request) (s : Server g) (set : ModelSet)
    → handle_models g r s ≡ ok set
    → (user : Str × GatewayKey) × (user_of g r s ≡ ok user)
      × Unique set
      × ((m : Str) → Has m set ↔ Offered m s.snapshot.providers)
unfolding handle_models
handle_models-listed g r s set h =
    let (user, known, listed) = >>=-eq-ok (user_of g r s) _ h in
    let same : set ≡ model_set s.snapshot.providers [] = cc in
    (
      user,
      known,
      rw same (model_set-Unique s.snapshot.providers [] tt),
      λ m. rw same (model_set-nil_iff m s.snapshot.providers),
    )
