-- ===== src/Gateway/Compat.antt =====
-- `handleAnthropicCompat` and `handleGeminiCompat` of internal/gateway/server.go: a request in
-- another format becomes one for `handleProxy`, and its answer is translated back. The recorder
-- keeps the status, the headers and the body of the answer as they are. Reading and printing JSON are
-- parameters; what the handlers do with the values is modelled.
pub mod Texts
pub mod Paths
pub mod Charged
mod Tests
use proxy2api.Base.{
  ℕ, ◌+◌, ◌-◌, ◌/◌, ap, Bool, not, Option, none, some, List, [], ◌∷◌, ◌++◌, map, leb, if◌then◌else◌,
  ℤ, pos, length, take, drop, keep, any, all, In, Str, Result, ok, err,
}
use proxy2api.Text.{str, eq_str, is_empty, has_prefix, split2}
use proxy2api.Float.{Float64}
use proxy2api.Config.{Config}
use proxy2api.Store.Gorm.{Gorm}
use proxy2api.Gateway.Forward.{Header, Request, OutRequest, Reply, failed, relayed}
use proxy2api.Gateway.Admit.{Server, Outside}
use proxy2api.Gateway.Proxy.{Handled, handle_proxy}

-- A value of the type `any` that comes from JSON.
mutual
  pub data Any : Type 0 where
    nil : Any
    boolean : Bool → Any
    number : Float64 → Any
    string : Str → Any
    array : Items → Any
    object : Fields → Any

  pub data Items : Type 0 where
    no_items : Items
    item : Any → Items → Items

  -- `map[string]any`
  pub data Fields : Type 0 where
    no_fields : Fields
    field : Str → Any → Fields → Fields

-- `m[name]`, which is nil where the name is missing
unfoldable pub get : Str → Fields → Any
get name no_fields = nil
get name (field k v m) = let rest = get name m in if eq_str k name then v else rest

-- `v.(map[string]any)`; where it fails, the code that reads the map is skipped, as for an empty one.
abbrev pub fields_of : Any → Fields
fields_of nil = no_fields
fields_of (boolean b) = no_fields
fields_of (number x) = no_fields
fields_of (string s) = no_fields
fields_of (array vs) = no_fields
fields_of (object m) = m

-- `v.(string)`, or the text that is there before.
abbrev pub string_of : Any → Str
string_of nil = []
string_of (boolean b) = []
string_of (number x) = []
string_of (string s) = s
string_of (array vs) = []
string_of (object m) = []

-- The first element of `v.([]any)`, where there is one.
abbrev pub first_of : Any → Any
first_of nil = nil
first_of (boolean b) = nil
first_of (number x) = nil
first_of (string s) = nil
first_of (array no_items) = nil
first_of (array (item v vs)) = v
first_of (object m) = nil

-- The text of the first choice.
unfoldable pub answer_text : Fields → Str
answer_text oai =
    let c0 = fields_of (first_of (get (str "choices") oai)) in
    let msg = fields_of (get (str "message") c0) in string_of (get (str "content") msg)

pub record AnthropicMessage : Type 0 where
  pub role : Str
  pub content : Any

pub record AnthropicRequest : Type 0 where
  pub model : Str
  pub max_tokens : ℤ
  pub messages : List AnthropicMessage

pub record GeminiContent : Type 0 where
  pub role : Str
  pub parts : List Str

pub record ChatMessage : Type 0 where
  pub role : Str
  pub content : Str

-- Reading and printing JSON, and what was read of a body before its error.
pub record CompatJson : Type 0 where
  pub anthropic : Str → AnthropicRequest
  pub gemini : Str → List GeminiContent
  pub marshal_anthropic : AnthropicRequest → Str
  pub marshal_chat : Str → List ChatMessage → Str
  pub fields : Str → Fields
  pub error_body : Str → Str
  pub read_before_error : Str

-- What a client gets.
pub data CompatReply : Type 0 where
  refused : ℕ → Str → CompatReply
  passed_on : Reply → CompatReply
  message : (id : Any) → (model answer : Str) → (usage : Any) → CompatReply
  candidates : (answer : Str) → (usage : Any) → CompatReply

pub record CompatHandled (g : Gorm) : Type 0 where
  pub reply : CompatReply
  pub sent : Option OutRequest
  pub server : Server g

abbrev pub code_of : Reply → ℕ
code_of (failed code e) = code
code_of (relayed code hs body) = code

-- The parts of a text that are not empty, each on a line.
unfoldable pub join_parts : Str → List Str → Str
join_parts so_far [] = so_far
join_parts so_far (p ∷ ps) =
    let longer = if is_empty so_far then p else so_far ++ 10 ∷ p in
    let skip = join_parts so_far ps in
    let take_it = join_parts longer ps in if is_empty p then skip else take_it

abbrev pub chat_role : Str → Str
chat_role role =
    let chat = if eq_str role (str "model") then str "assistant" else role in
    if is_empty chat then str "user" else chat

unfoldable pub chat_messages : List GeminiContent → List ChatMessage
chat_messages [] = []
chat_messages (c ∷ cs) =
    let joined = join_parts [] c.parts in
    let rest = chat_messages cs in
    if is_empty joined then rest else record { role = chat_role c.role; content = joined } ∷ rest

-- What follows the first occurrence of a text, by `strings.Index`.
unfoldable pub after_index : Str → Str → Option Str
after_index sep [] = none
after_index sep (x ∷ xs) =
    let rest = after_index sep xs in
    if has_prefix (x ∷ xs) sep then some (drop (length sep) (x ∷ xs)) else rest

abbrev default_model : Str
default_model = str "gemini-1.5-pro"

-- The model in the path of a request, between `/models/` and a colon.
unfoldable pub path_model : Str → Str
path_model path = elim (after_index (str "/models/") path) [
  | none ↦ default_model
  | some rest ↦ elim (split2 b':' rest) [
    | none ↦ default_model
    | some (model, action) ↦ if is_empty model then default_model else model
  ]
]

abbrev pub anthropic_answer : Str → Fields → CompatReply
anthropic_answer model oai =
    message (get (str "id") oai) model (answer_text oai) (get (str "usage") oai)

abbrev pub gemini_answer : Fields → CompatReply
gemini_answer oai = candidates (answer_text oai) (get (str "usage") oai)

module _ (g : Gorm) (cfg : Config) (o : Outside) (cj : CompatJson) where
  abbrev pub read_all : Result Str → Str
  read_all (ok body) = body
  read_all (err e) = cj.read_before_error

  abbrev pub fields_of_reply : Reply → Fields
  fields_of_reply (failed code e) = cj.fields (cj.error_body e)
  fields_of_reply (relayed code hs body) = cj.fields body

  -- The request that `handleProxy` gets.
  abbrev pub chat_request : Request → Str → Request
  chat_request r raw = record r { path = str "/v1/chat/completions"; body = ok raw }

  abbrev pub translated : (Fields → CompatReply) → Handled g → CompatHandled g
  translated answer h = record {
    reply =
        if leb 400 (code_of h.reply) then passed_on h.reply else answer (fields_of_reply h.reply);
    sent = h.sent;
    server = h.server;
  }

  abbrev pub only_post : Request → Server g → CompatHandled g → CompatHandled g
  only_post r s h =
      if not (eq_str r.method (str "POST"))
      then record { reply = refused 405 (str "method not allowed"); sent = none; server = s }
      else h

  unfoldable pub handle_anthropic_compat : Request → Server g → CompatHandled g
  handle_anthropic_compat r s =
      let req = cj.anthropic (read_all r.body) in
      only_post r s (
        translated (anthropic_answer req.model)
          (handle_proxy g cfg o (chat_request r (cj.marshal_anthropic req)) s))

  unfoldable pub handle_gemini_compat : Request → Server g → CompatHandled g
  handle_gemini_compat r s =
      let contents = cj.gemini (read_all r.body) in
      let raw = cj.marshal_chat (path_model r.path) (chat_messages contents) in
      only_post r s (translated gemini_answer (handle_proxy g cfg o (chat_request r raw) s))
