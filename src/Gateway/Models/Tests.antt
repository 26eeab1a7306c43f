-- ===== src/Gateway/Models/Tests.antt =====
-- Lists of models.
use proxy2api.Base.{◌≡◌, refl, ◌↔◌, [], ◌∷◌, Str, ok}
use proxy2api.Text.{str, trim_space, trim_left, trim_right_rev, split2, equal_fold}
use proxy2api.Dict.{lookup, insert, Unique}
use proxy2api.Store.Gorm.Listed.{listed}
use proxy2api.Store.Tenants.{is_tenant_enabled}
use proxy2api.Gateway.Types.{GatewayKey}
use proxy2api.Gateway.Fixtures.{snap}
use proxy2api.Gateway.Auth.{authenticate_user}
use proxy2api.Gateway.Forward.{header_get, canonical}
use proxy2api.Gateway.Proxy.Fixtures.{server, request}
use proxy2api.Gateway.Models.{ModelSet, add_models, model_set, handle_models}
use proxy2api.Gateway.Models.Listed.{user_of, Has, Offered, handle_models-listed}

abbrev models : ModelSet
models = (str "m", tt) ∷ []

handle_models-listed_example :
    (user : Str × GatewayKey) × (user_of listed request server ≡ ok user)
    × Unique models
    × ((m : Str) → Has m models ↔ Offered m snap.providers)
unfolding listed handle_models model_set add_models insert authenticate_user is_tenant_enabled
    lookup trim_space trim_left trim_right_rev split2 equal_fold header_get canonical
handle_models-listed_example = handle_models-listed listed request server models refl
