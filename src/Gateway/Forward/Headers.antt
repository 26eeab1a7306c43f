-- ===== src/Gateway/Forward/Headers.antt =====
-- What the provider is told.
use proxy2api.Base.{◌≡◌, ◌∙◌, some, [], ◌∷◌, ◌++◌}
use proxy2api.Text.{str}
use proxy2api.Dict.{lookup, lookup-insert}
use proxy2api.Gateway.Types.{ProviderKeyState}
use proxy2api.Gateway.Forward.{Header, canonical, header_set, out_headers, copy_headers}

-- Whatever headers the client sends, the one with the credentials has the provider's key, and
-- nothing of what the client sent.
pub out_headers_authorization :
    (h : Header) (key : ProviderKeyState)
    → lookup (str "Authorization") (out_headers h key) ≡ some ((str "Bearer " ++ key.api_key) ∷ [])
unfolding header_set canonical
out_headers_authorization h key =
    lookup-insert (str "X-Provider-Key-Alias") (str "Authorization") _ _
    ∙ lookup-insert (str "Authorization") (str "Authorization") _ (copy_headers h [])
