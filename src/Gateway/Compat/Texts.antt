-- ===== src/Gateway/Compat/Texts.antt =====
-- The texts that the compatible endpoints of internal/gateway/server.go translate.
use proxy2api.Base.{
  ℕ, ◌≡◌, refl, sym, inl, inr, Bool, false, not, List, [], ◌∷◌, ◌++◌, map, if◌then◌else◌,
  Bool-cases, any, Str,
}
use mathlib.Core.List.{append_assoc, append-nil}
use proxy2api.Text.{is_empty}
use proxy2api.Gateway.Compat.{GeminiContent, ChatMessage, join_parts, chat_role, chat_messages}

abbrev pub not_empty : Str → Bool
not_empty s = not (is_empty s)

-- The elements that pass a test.
abbrev pub only : {A : Type 0} → (A → Bool) → List A → List A
only p [] = []
only p (x ∷ xs) = let rest = only p xs in if p x then x ∷ rest else rest

-- Each text behind a line break.
abbrev pub more : List Str → Str
more [] = []
more (s ∷ ss) = (10 ∷ s) ++ more ss

-- Texts with a line break between each two.
abbrev pub lines : List Str → Str
lines [] = []
lines (s ∷ ss) = s ++ more ss

append-some : (s : Str) (c : ℕ) (t : Str) → is_empty (s ++ c ∷ t) ≡ false
append-some [] c t = refl
append-some (x ∷ s) c t = refl

join_parts-more :
    (t : Str) (ps : List Str) → is_empty t ≡ false → join_parts t ps ≡ t ++ more (only not_empty ps)
unfolding join_parts
join_parts-more t [] h = sym (append-nil t)
join_parts-more t ([] ∷ ps) h = join_parts-more t ps h
join_parts-more t ((c ∷ p) ∷ ps) h =
    rw
      (
        h,
        join_parts-more (t ++ 10 ∷ c ∷ p) ps (append-some t 10 (c ∷ p)),
        append_assoc t (10 ∷ c ∷ p) (more (only not_empty ps)),
      )
      refl

pub join_parts-lines : (ps : List Str) → join_parts [] ps ≡ lines (only not_empty ps)
unfolding join_parts
join_parts-lines [] = refl
join_parts-lines ([] ∷ ps) = join_parts-lines ps
join_parts-lines ((c ∷ p) ∷ ps) = join_parts-more (c ∷ p) ps refl

-- A content with some text.
abbrev pub has_text : GeminiContent → Bool
has_text c = any not_empty c.parts

lines-some : (ps : List Str) → is_empty (lines (only not_empty ps)) ≡ not (any not_empty ps)
lines-some [] = refl
lines-some ([] ∷ ps) = lines-some ps
lines-some ((c ∷ p) ∷ ps) = refl

abbrev pub as_message : GeminiContent → ChatMessage
as_message c = record { role = chat_role c.role; content = lines (only not_empty c.parts) }

-- The messages are those contents, in their order, that have a part with text; a message holds the
-- parts with text, each two with a line break between them.
pub chat_messages_lem :
    (cs : List GeminiContent) → chat_messages cs ≡ map as_message (only has_text cs)
unfolding chat_messages
chat_messages_lem [] = refl
chat_messages_lem (c ∷ cs) = elim (Bool-cases (has_text c)) [
  | inl e ↦ rw (join_parts-lines c.parts, lines-some c.parts, e, chat_messages_lem cs) refl
  | inr e ↦ rw (join_parts-lines c.parts, lines-some c.parts, e, chat_messages_lem cs) refl
]
