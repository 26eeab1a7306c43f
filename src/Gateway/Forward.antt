-- ===== src/Gateway/Forward.antt =====
-- The request to a provider: `readAndParseRequest`, `maybeRewriteModel`, `estimateTokens`,
-- `extractUsage`, `copyHeaders` and `forward` of internal/gateway/server.go, and the headers of Go's
-- net/http. The decoding of JSON, the parsing of URLs and the provider's answer are parameters.
pub mod Headers
use proxy2api.Base.{
  ℕ, ◌+◌, ◌-◌, ◌*◌, ◌/◌, ◌%◌, ap, Bool, true, ◌&&◌, ◌||◌, Option, none, some, List, [], ◌∷◌, ◌++◌,
  map, leb, ◌==◌, if◌then◌else◌, ℤ, pos, length, any, all, All, Str, Result, ok, err, ◌>>=◌,
}
use proxy2api.Text.{str, is_empty, eq_str}
use proxy2api.Dict.{Dict, lookup, insert}
use proxy2api.Gateway.Types.{ProviderState, ProviderKeyState}

-- The bytes of a token of RFC 9110.
abbrev is_token_byte : ℕ → Bool
is_token_byte c =
    (leb b'0' c && leb c b'9')
    || (leb b'A' c && leb c b'Z')
    || (leb 94 c && leb c b'z')
    || any (λ d. d == c) (str "!#$%&'*+-.|~")

abbrev upper_byte : ℕ → ℕ
upper_byte c = if leb b'a' c && leb c b'z' then c - 32 else c

abbrev lower_byte : ℕ → ℕ
lower_byte c = if leb b'A' c && leb c b'Z' then c + 32 else c

abbrev canonical_from : Bool → Str → Str
canonical_from upper [] = []
canonical_from upper (c ∷ s) =
    (if upper then upper_byte c else lower_byte c) ∷ canonical_from (c == b'-') s

-- `textproto.CanonicalMIMEHeaderKey(k)`
unfoldable pub canonical : Str → Str
canonical k = if all is_token_byte k then canonical_from true k else k

-- `http.Header`
abbrev pub Header : Type 0
Header = Dict (List Str)

abbrev values_of : Option (List Str) → List Str
values_of none = []
values_of (some vs) = vs

abbrev first_of : List Str → Str
first_of [] = []
first_of (v ∷ vs) = v

unfoldable pub header_get : Header → Str → Str
header_get h k = first_of (values_of (lookup (canonical k) h))

unfoldable pub header_add : Str → Str → Header → Header
header_add k v h = insert (canonical k) (values_of (lookup (canonical k) h) ++ v ∷ []) h

unfoldable pub header_set : Str → Str → Header → Header
header_set k v h = insert (canonical k) (v ∷ []) h

abbrev pub add_all : Str → List Str → Header → Header
add_all k [] h = h
add_all k (v ∷ vs) h = add_all k vs (header_add k v h)

abbrev pub skipped : Str → Bool
skipped k =
    eq_str k (str "Host") || eq_str k (str "Authorization") || eq_str k (str "Content-Length")

-- `copyHeaders(src, dst)`, in the order in which the loop ranges over `src`
unfoldable pub copy_headers : Header → Header → Header
copy_headers [] dst = dst
copy_headers ((k, vs) ∷ src) dst =
    if skipped k then copy_headers src dst else copy_headers src (add_all k vs dst)

-- The loop of `forward` over the headers of the answer.
abbrev pub copy_all : Header → Header → Header
copy_all [] dst = dst
copy_all ((k, vs) ∷ src) dst = copy_all src (add_all k vs dst)

pub record Usage : Type 0 where
  pub prompt : ℤ
  pub completion : ℤ
  pub total : ℤ

-- The JSON of a body.
pub record BodyJson : Type 1 where
  pub Object : Type 0
  -- `p.Model` after `json.Unmarshal(body, &p)`, errors ignored
  pub model : Str → Str
  -- `json.Unmarshal` into a `map[string]any`
  pub object : Str → Option Object
  pub with_model : Str → Object → Object
  pub marshal : Object → Option Str
  -- `json.Unmarshal` into the struct of `extractUsage`
  pub usage : Str → Option Usage

pub record ParsedRequest : Type 0 where
  pub model : Str
  pub estimated_token : ℕ

-- What the program reads of a request: `body` is the result of `io.ReadAll`.
pub record Request : Type 0 where
  pub method : Str
  pub path : Str
  pub raw_query : Str
  pub headers : Header
  pub body : Result Str

pub record OutRequest : Type 0 where
  pub method : Str
  pub url : Str
  pub headers : Header
  pub body : Str

pub record Response : Type 0 where
  pub status : ℕ
  pub headers : Header
  pub body : Result Str

-- What a client gets.
pub data Reply : Type 0 where
  failed : ℕ → Str → Reply
  relayed : ℕ → Header → Str → Reply

unfoldable pub estimate_tokens : Str → ℕ
estimate_tokens body =
    if length body == 0 then 1 else let v = length body / 4 in if v == 0 then 1 else v

abbrev pub or_unknown : Str → Str
or_unknown model = if is_empty model then str "unknown" else model

unfoldable pub parse_request : BodyJson → Str → ParsedRequest
parse_request json body = record {
  model = or_unknown (if length body == 0 then [] else json.model body);
  estimated_token = estimate_tokens body;
}

abbrev pub rewritten : BodyJson → Str → Str → Str
rewritten json body target = elim (json.object body) [
  | none ↦ body
  | some payload ↦ elim (json.marshal (json.with_model target payload)) [
    | none ↦ body
    | some out ↦ out
  ]
]

unfoldable pub maybe_rewrite_model : BodyJson → Str → Str → Dict Str → Str
maybe_rewrite_model json body original_model model_map =
    if length model_map == 0 then body else elim (lookup original_model model_map) [
      | none ↦ body
      | some target ↦
          if is_empty target || eq_str target original_model
          then body
          else rewritten json body target
    ]

abbrev pub or_no_usage : Option Usage → Usage
or_no_usage none = record { prompt = pos 0; completion = pos 0; total = pos 0 }
or_no_usage (some u) = u

unfoldable pub extract_usage : BodyJson → Str → Usage
extract_usage json resp_body = or_no_usage (json.usage resp_body)

-- The network: `url` is the target for a provider's address, a path and a query, and
-- `new_request` the test of `http.NewRequestWithContext`.
pub record Network : Type 0 where
  pub url : (base path raw_query : Str) → Result Str
  pub new_request : (method url : Str) → Result (Unit {0})
  pub client_do : OutRequest → Result Response

abbrev pub out_headers : Header → ProviderKeyState → Header
out_headers headers key =
    header_set (str "X-Provider-Key-Alias") key.alias
      (header_set (str "Authorization") (str "Bearer " ++ key.api_key) (copy_headers headers []))

unfoldable pub out_request :
    BodyJson → Network → Request → Str → Str → ProviderState → ProviderKeyState → Result OutRequest
out_request json net r body model provider key = do
  target ← net.url provider.base_url r.path r.raw_query
  made ← net.new_request r.method target
  ok (record {
    method = r.method;
    url = target;
    headers = out_headers r.headers key;
    body = maybe_rewrite_model json body model provider.model_map;
  })

-- The body of an answer that is to be relayed. `text_of` prints a status in decimal.
abbrev pub answer : (ℕ → Str) → Response → Result Str
answer text_of resp = do
  resp_body ← resp.body
  if leb 500 resp.status then err (str "upstream status " ++ text_of resp.status) else ok resp_body

-- What is written of an answer, and the usage in it.
unfoldable pub relay : BodyJson → (ℕ → Str) → Result Response → Result (Reply × Usage)
relay json text_of answered = do
  resp ← answered
  resp_body ← answer text_of resp
  ok (relayed resp.status (copy_all resp.headers []) resp_body, extract_usage json resp_body)

-- What `forward` did: the request that it handed to the client, and what it wrote, with the usage.
pub record Forwarded : Type 0 where
  pub sent : Option OutRequest
  pub outcome : Result (Reply × Usage)

unfoldable pub forward :
    BodyJson
    → Network
    → (ℕ → Str)
    → Request
    → Str
    → Str
    → ProviderState
    → ProviderKeyState
    → Forwarded
forward json net text_of r body model provider key =
    elim (out_request json net r body model provider key) [
      | err e ↦ record { sent = none; outcome = err e }
      | ok out ↦ record { sent = some out; outcome = relay json text_of (net.client_do out) }
    ]
