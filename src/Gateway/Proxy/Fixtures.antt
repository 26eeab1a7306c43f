-- ===== src/Gateway/Proxy/Fixtures.antt =====
-- A server with one user, and providers that all give the same answer.
use proxy2api.Base.{
  ◌≤◌, inl, inr, true, none, some, [], ◌∷◌, ◌++◌, arith, Bool-cases, pos, Str, Result, ok,
}
use proxy2api.Text.{str, eq_str}
use proxy2api.Float.{one}
use proxy2api.Config.{Config}
use proxy2api.Store.Rows.{ApiKey}
use proxy2api.Store.Billing.Conservation.{rows_of}
use proxy2api.Store.Gorm.Listed.{listed}
use proxy2api.Store.Tables.{Store}
use proxy2api.Gateway.Fixtures.{snap, fo, js, chance}
use proxy2api.Gateway.Snapshot.{Json}
use proxy2api.Config.Fixtures.{small}
use proxy2api.Gateway.Forward.{Header, BodyJson, Network, Request, Response}
use proxy2api.Gateway.Admit.{Server, Outside}

abbrev pub store : Store listed
unfolding listed
store = record {
  providers = [];
  provider_keys = [];
  api_keys = [];
  rules = [];
  group_schedules = [];
  usage_records = [];
  tenants = record { id = pos 1; name = str "default"; enabled = true } ∷ [];
  price_rules = [];
  billing_txns = [];
  admin_users = [];
  audit_logs = [];
  kvs = [];
}

abbrev pub headers : Header
headers = (str "Authorization", str "bearer u" ∷ []) ∷ (str "Accept", str "*/*" ∷ []) ∷ []

abbrev pub json : Json
json = record { texts = λ t. []; text_map = λ t. []; action = λ t. none }

abbrev pub body_json : BodyJson
body_json = record {
  Object = Str;
  model = λ body. str "m";
  object = λ body. none;
  with_model = λ model body. body;
  marshal = λ body. some body;
  usage = λ body. none;
}

-- A network whose providers all give the same answer.
abbrev pub answering : Result Response → Network
answering answered = record {
  url = λ base path query. ok (base ++ path);
  new_request = λ method url. ok tt;
  client_do = λ out. answered;
}

abbrev pub outside : Result Response → Outside
outside answered = record {
  fo = fo;
  js = js;
  json = json;
  body_json = body_json;
  net = answering answered;
  text_of = λ n. [];
  chance = chance;
  user_clock = 1000;
  channel_clock = 1000;
  weekday = 0;
  minute = 600;
  failed_at = 1000;
  now_unix = pos 0;
}

abbrev pub server : Server listed
server = record {
  store = store;
  snapshot = snap;
  user_limiter = [];
  channel_limiter = [];
  sticky = [];
  stats = [];
}

abbrev pub request : Request
request = record {
  method = str "POST";
  path = str "/v1/chat";
  raw_query = [];
  headers = headers;
  body = ok (str "{}");
}

abbrev pub answer_ok : Result Response
answer_ok = ok (record { status = 200; headers = []; body = ok (str "hi") })

abbrev pub key_row : ApiKey
key_row = record {
  id = pos 1;
  key_value = str "u";
  name = str "user";
  tenant_name = str "default";
  balance_micros = pos 100;
  max_rpm = pos 5;
  max_tpm = pos 1000;
  allowed_models = str "[]";
  rate_multiplier = one;
  enabled = true;
}

abbrev pub rich : Server listed
unfolding listed
rich = record server { store = record store { api_keys = key_row ∷ [] } }

abbrev pub priced : Config
priced = record small {
  billing = record { enabled = true; default_price_per_million_micros = pos 5000000 };
}

pub one_row : (key : Str) → rows_of listed key rich.store ≤ 1
unfolding listed
one_row key = elim (Bool-cases (eq_str (str "u") key)) [
  | inl e ↦ rw e (omega arith)
  | inr e ↦ rw e (omega arith)
]
