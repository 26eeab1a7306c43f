-- ===== src/Gateway/Compat/Tests.antt =====
-- Requests in other formats.
use proxy2api.Base.{◌≡◌, refl, List, [], ◌∷◌, map, pos, ◌+ℤ◌, ◌*ℤ◌, quot, wrap64, add64, mul64, Str}
use proxy2api.Text.{str, has_prefix, split2, trim_space, trim_left, trim_right_rev, equal_fold}
use proxy2api.Gateway.Proxy.Relayed.{Served}
use proxy2api.Gateway.Compat.{
  candidates, CompatJson, chat_request, handle_gemini_compat, GeminiContent, Any, string, array,
  object, item, no_items, field, no_fields, get, answer_text, path_model, chat_messages,
  after_index,
}
use proxy2api.Gateway.Compat.Texts.{only, has_text, as_message, chat_messages_lem}
use proxy2api.Store.Billing.{find_api_key_by_value}
use proxy2api.Dict.{lookup, insert}
use proxy2api.Store.Gorm.Listed.{listed, listed-GormLaws}
use proxy2api.Store.Tenants.{is_tenant_enabled}
use proxy2api.Store.Prices.{resolve_model_price_micros}
use proxy2api.Gateway.Limiter.{allow}
use proxy2api.Gateway.Pick.{supports_model, weighted_provider_pick, total_weight, pick_from}
use proxy2api.Gateway.Keys.{has_live_key, pick_provider_key}
use proxy2api.Gateway.Rules.{apply_rules, rules_loop}
use proxy2api.Gateway.Schedule.{schedule_multiplier}
use proxy2api.Gateway.Select.{select_provider_and_key, select_bound, select_weighted}
use proxy2api.Gateway.Auth.{authenticate_user}
use proxy2api.Gateway.Forward.{
  header_get, header_add, header_set, canonical, copy_headers, parse_request, estimate_tokens,
  maybe_rewrite_model, relay, forward, out_request,
}
use proxy2api.Gateway.Admit.{admit_model, admit}
use proxy2api.Gateway.Proxy.{proceed, dispatch, handle_proxy}
use proxy2api.Gateway.Proxy.Fixtures.{outside, answer_ok, priced, rich, one_row, request}
use proxy2api.Gateway.Compat.Charged.{handle_gemini_compat-IsBilled}

abbrev question : List GeminiContent
question =
    record { role = []; parts = str "one" ∷ [] ∷ str "two" ∷ [] }
    ∷ record { role = str "user"; parts = [] ∷ [] }
    ∷ record { role = str "model"; parts = str "three" ∷ [] }
    ∷ []

-- A provider's answer has no choices here.
abbrev compat_json : CompatJson
compat_json = record {
  anthropic = λ b. record { model = []; max_tokens = pos 0; messages = [] };
  gemini = λ b. question;
  marshal_anthropic = λ r. [];
  marshal_chat = λ model messages. str "{}";
  fields = λ b. no_fields;
  error_body = λ e. [];
  read_before_error = [];
}

chat_messages_lem_example : chat_messages question ≡ map as_message (only has_text question)
chat_messages_lem_example = chat_messages_lem question

asked :
    map as_message (only has_text question)
    ≡ record { role = str "user"; content = str "one\ntwo" }
      ∷ record { role = str "assistant"; content = str "three" }
      ∷ []
asked = refl

model_of_path : path_model (str "/gemini/v1beta/models/m:generateContent") ≡ str "m"
unfolding path_model after_index has_prefix split2
model_of_path = refl

abbrev choice : Any
choice =
    object (
      field (str "message") (object (field (str "content") (string (str "hi")) no_fields))
        no_fields)

answered : answer_text (field (str "choices") (array (item choice no_items)) no_fields) ≡ str "hi"
unfolding answer_text get
answered = refl

not_answered : answer_text (field (str "choices") (array no_items) no_fields) ≡ []
unfolding answer_text get
not_answered = refl

handle_gemini_compat-IsBilled_example :
    (b : Str) × ((handle_gemini_compat listed priced
        (outside answer_ok)
        compat_json
        request
        rich).reply
      ≡ candidates (answer_text (compat_json.fields b)) (get (str "usage") (compat_json.fields b)))
    × Served listed priced
        (outside answer_ok)
        (chat_request listed priced (outside answer_ok) compat_json request (str "{}"))
        rich
        b
        (handle_gemini_compat listed priced
          (outside answer_ok)
          compat_json
          request
          rich).server.store
unfolding handle_gemini_compat handle_proxy admit authenticate_user trim_space header_get lookup
    canonical split2 equal_fold is_tenant_enabled listed supports_model parse_request admit_model
    apply_rules rules_loop quot add64 mul64 wrap64 ◌*ℤ◌ ◌+ℤ◌ insert copy_headers estimate_tokens
    forward header_add header_set maybe_rewrite_model out_request relay has_live_key
    pick_provider_key allow pick_from total_weight weighted_provider_pick dispatch proceed
    schedule_multiplier select_bound select_provider_and_key select_weighted
    resolve_model_price_micros trim_left trim_right_rev find_api_key_by_value
handle_gemini_compat-IsBilled_example =
    handle_gemini_compat-IsBilled listed priced (outside answer_ok) compat_json listed-GormLaws
      request rich one_row tt
