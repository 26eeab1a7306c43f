-- ===== src/Gateway/Admin/Ids.antt =====
-- The ids in the queries of the administration: `readIDQuery` of internal/gateway/admin.go.
use proxy2api.Base.{◌≡◌, refl, ℤ, IsInt64}
use proxy2api.Text.{str}
use proxy2api.Text.Numbers.{format_int}
use proxy2api.Text.Numbers.Laws.{parse_int-format_int, trim_space-format_int, format_int-some}
use proxy2api.Gateway.Forward.{Request}
use proxy2api.Gateway.Admit.{pass}
use proxy2api.Gateway.Admin.{AdminOutside, read_id_query}

-- An id of 64 bits that the client prints in decimal in the query is the id that the handler reads.
pub read_id_query-format_int :
    (o : AdminOutside) (r : Request) (id : ℤ)
    → IsInt64 id
    → o.query r.raw_query (str "id") ≡ format_int id
    → read_id_query o r ≡ pass id
unfolding read_id_query
read_id_query-format_int o r id h k =
    rw (k, trim_space-format_int id, format_int-some id, parse_int-format_int id h) refl
