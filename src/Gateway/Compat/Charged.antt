-- ===== src/Gateway/Compat/Charged.antt =====
-- What an answer of the compatible endpoints of internal/gateway/server.go rests on.
use proxy2api.Base.{
  ℕ, ◌≤◌, ◌≡◌, refl, ap, ◌∙◌, inl, inr, true, arith, leb, if◌then◌else◌, Bool-cases, Str,
}
use proxy2api.Text.{str, eq_str}
use proxy2api.Config.{Config}
use proxy2api.Store.Gorm.{Gorm, GormLaws}
use proxy2api.Store.Billing.Conservation.{rows_of}
use proxy2api.Gateway.Forward.{Header, Request, Reply, failed, relayed}
use proxy2api.Gateway.Admit.{Server, Outside}
use proxy2api.Gateway.Proxy.{handle_proxy}
use proxy2api.Gateway.Proxy.Relayed.{Served, handle_proxy-IsBilled}
use proxy2api.Gateway.Proxy.Codes.{handle_proxy-failed}
use proxy2api.Gateway.Compat.{
  CompatJson, CompatReply, refused, passed_on, message, candidates, code_of, Fields, read_all,
  chat_request, translated, only_post, path_model, chat_messages, anthropic_answer, gemini_answer,
  answer_text, get, fields_of_reply, handle_anthropic_compat, handle_gemini_compat,
}

-- A reply in the format of the endpoint, which is no error.
abbrev pub IsAnswer : CompatReply → Type 0
IsAnswer (refused c e) = ⊥
IsAnswer (passed_on reply) = ⊥
IsAnswer (message id model answer usage) = Unit
IsAnswer (candidates answer usage) = Unit

answer-relayed :
    (reply : Reply) (other : CompatReply)
    → ((c : ℕ) (e : Str) → reply ≡ failed c e → 400 ≤ c)
    → IsAnswer (if leb 400 (code_of reply) then passed_on reply else other)
    → (c : ℕ) × (hs : Header) × (b : Str) × (reply ≡ relayed c hs b)
      × ((if leb 400 (code_of reply) then passed_on reply else other) ≡ other)
answer-relayed (failed c e) other coded h =
    let at_least : leb 400 c ≡ true = ground (arith, coded c e refl) in absurd (rw at_least at h)
answer-relayed (relayed c hs b) other coded h = elim (Bool-cases (leb 400 c)) [
  | inl e ↦ absurd (rw e at h)
  | inr e ↦ (c, hs, b, refl, rw e refl)
]

module _ (g : Gorm) (cfg : Config) (o : Outside) (cj : CompatJson) where
  translated-IsBilled :
      (laws : GormLaws g) (r q : Request) (s : Server g) (answer : Fields → CompatReply)
      → ((key : Str) → rows_of g key s.store ≤ 1)
      → IsAnswer
          (only_post g cfg o cj r s (translated g cfg o cj answer (handle_proxy g cfg o q s))).reply
      → (b : Str) × ((only_post g cfg o cj r s
            (translated g cfg o cj answer (handle_proxy g cfg o q s))).reply
          ≡ answer (cj.fields b))
        × Served g cfg o q s b
            (only_post g cfg o cj r s
              (translated g cfg o cj answer (handle_proxy g cfg o q s))).server.store
  translated-IsBilled laws r q s answer unique h =
      elim (Bool-cases (eq_str r.method (str "POST"))) [
        | inl e ↦
            let (c, hs, b, run, out) =
              answer-relayed (handle_proxy g cfg o q s).reply _ (handle_proxy-failed g cfg o q s)
                (rw e at h) in
            rw e (
              b,
              out ∙ ap (λ x. answer (fields_of_reply g cfg o cj x)) run,
              handle_proxy-IsBilled g cfg o laws q s unique c hs b run,
            )
        | inr e ↦ absurd (rw e at h)
      ]

  -- Where every key has at most one row: a request to the Anthropic endpoint that is answered in its
  -- format was admitted as the request to the proxy that it is translated to, and is billed and
  -- recorded as that one.
  pub handle_anthropic_compat-IsBilled :
      (laws : GormLaws g) (r : Request) (s : Server g)
      → ((key : Str) → rows_of g key s.store ≤ 1)
      → IsAnswer (handle_anthropic_compat g cfg o cj r s).reply
      → (b : Str) × ((handle_anthropic_compat g cfg o cj r s).reply
          ≡ anthropic_answer (cj.anthropic (read_all g cfg o cj r.body)).model (cj.fields b))
        × Served g cfg o
            (chat_request g cfg o cj r
              (cj.marshal_anthropic (cj.anthropic (read_all g cfg o cj r.body))))
            s
            b
            (handle_anthropic_compat g cfg o cj r s).server.store
  unfolding handle_anthropic_compat
  handle_anthropic_compat-IsBilled laws r s unique h =
      translated-IsBilled laws r _ s
        (anthropic_answer (cj.anthropic (read_all g cfg o cj r.body)).model) unique h

  -- Where every key has at most one row: a request to the Gemini endpoint that is answered in its
  -- format was admitted as the request to the proxy that it is translated to, for the model of its
  -- path and the messages of its contents; the answer has the text and the usage of the body that
  -- the provider gave; and the request is billed and recorded as one to the proxy, for the usage
  -- that this body reports.
  pub handle_gemini_compat-IsBilled :
      (laws : GormLaws g) (r : Request) (s : Server g)
      → ((key : Str) → rows_of g key s.store ≤ 1)
      → IsAnswer (handle_gemini_compat g cfg o cj r s).reply
      → (b : Str) × ((handle_gemini_compat g cfg o cj r s).reply
          ≡ candidates (answer_text (cj.fields b)) (get (str "usage") (cj.fields b)))
        × Served g cfg o
            (chat_request g cfg o cj r (
              cj.marshal_chat
                (path_model r.path)
                (chat_messages (cj.gemini (read_all g cfg o cj r.body)))))
            s
            b
            (handle_gemini_compat g cfg o cj r s).server.store
  unfolding handle_gemini_compat
  handle_gemini_compat-IsBilled laws r s unique h =
      translated-IsBilled laws r _ s gemini_answer unique h
