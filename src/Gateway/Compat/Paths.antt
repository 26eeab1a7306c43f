-- ===== src/Gateway/Compat/Paths.antt =====
-- The model in the path of a request to `handleGeminiCompat` of internal/gateway/server.go.
use proxy2api.Base.{◌≡◌, refl, true, false, not, ◌∷◌, ◌++◌, ◌==◌, all, Str}
use proxy2api.Text.Laws.{split2-append}
use proxy2api.Text.{str, is_empty, split2, has_prefix}
use proxy2api.Gateway.Compat.{path_model, after_index}

-- A model without a colon that the client writes into the path, under `/gemini/v1beta/models/` and before a
-- colon and the name of a method, is the model that the handler reads.
path_model-path :
    (model method : Str)
    → is_empty model ≡ false
    → all (λ c. not (c == 58)) model ≡ true
    → path_model (str "/gemini/v1beta/models/" ++ model ++ 58 ∷ method) ≡ model
unfolding path_model after_index has_prefix split2
path_model-path model method some_model no_colon =
    rw (split2-append 58 model method no_colon, some_model) refl
