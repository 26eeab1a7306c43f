-- ===== src/Gateway/Models.antt =====
-- `handleModels` of internal/gateway/server.go. The set of models is listed in no certain order.
pub mod Listed
mod Tests
use proxy2api.Base.{
  ◌-◌, ◌/◌, ap, not, List, [], ◌∷◌, map, if◌then◌else◌, Str, Result, ok, err, ◌>>=◌,
}
use proxy2api.Text.{str}
use proxy2api.Dict.{Dict, insert}
use proxy2api.Store.Gorm.{Gorm}
use proxy2api.Gateway.Types.{ProviderState}
use proxy2api.Gateway.Forward.{Request, header_get}
use proxy2api.Gateway.Auth.{authenticate_user}
use proxy2api.Gateway.Admit.{Server}

-- `map[string]struct{}`
abbrev pub ModelSet : Type 0
ModelSet = Dict (Unit {0})

unfoldable pub add_models : List Str → ModelSet → ModelSet
add_models [] set = set
add_models (m ∷ ms) set = add_models ms (insert m tt set)

unfoldable pub model_set : Dict ProviderState → ModelSet → ModelSet
model_set [] set = set
model_set ((name, p) ∷ ps) set =
    model_set ps (if not p.enabled then set else add_models p.models set)

-- The error of the authentication, or the models of the reply.
unfoldable pub handle_models : (g : Gorm) → Request → Server g → Result ModelSet
handle_models g r s = do
  user ← authenticate_user g (header_get r.headers (str "Authorization")) s.snapshot s.store
  ok (model_set s.snapshot.providers [])
