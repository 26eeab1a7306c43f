-- ===== src/Gateway/Schedule/Parse.antt =====
-- The texts of a schedule: times of day and weekday masks.
use proxy2api.Base.{
  ℕ, zero, suc, ◌+◌, ◌*◌, ◌/◌, ◌%◌, ◌<◌, ◌≡◌, refl, inl, inr, Bool, false, ◌||◌, Option, none, some,
  List, [], ◌∷◌, arith, ◌==◌, Bool-cases, any, Str,
}
use proxy2api.Text.{str, eq_str, trim_space, split}
use proxy2api.Text.Laws.{eq_str_iff}
use proxy2api.Gateway.Schedule.{
  weekday_of, add_day, mask_of, parse_weekday_mask, in_mask, parse_hhmm,
}

-- Whatever the text, the result is a minute of the day.
pub parse_hhmm-lt : (s : Str) → parse_hhmm s < 1440
unfolding parse_hhmm
parse_hhmm-lt [] = omega arith
parse_hhmm-lt (a ∷ []) = omega arith
parse_hhmm-lt (a ∷ b ∷ []) = omega arith
parse_hhmm-lt (a ∷ b ∷ c ∷ []) = omega arith
parse_hhmm-lt (a ∷ b ∷ c ∷ d ∷ []) = omega arith
parse_hhmm-lt (a ∷ b ∷ c ∷ d ∷ e ∷ []) = ground arith
parse_hhmm-lt (a ∷ b ∷ c ∷ d ∷ e ∷ f ∷ s) = omega arith

-- The text `HH:MM` of a time of day.
abbrev pub format_hhmm : (h m : ℕ) → Str
format_hhmm h m = (48 + h / 10) ∷ (48 + h % 10) ∷ b':' ∷ (48 + m / 10) ∷ (48 + m % 10) ∷ []

-- Every time of day that is written as HH:MM is read back as its minute.
pub parse_hhmm-format_hhmm : (h m : ℕ) → h < 24 → m < 60 → parse_hhmm (format_hhmm h m) ≡ h * 60 + m
unfolding parse_hhmm
parse_hhmm-format_hhmm h m p q = ground arith

-- The text that stands for a weekday in a mask.
abbrev pub day_text : ℕ → Str
day_text zero = str "7"
day_text (suc d) = (48 + suc d) ∷ []

module _ (p : Str) where
  weekday_of-some : (d : ℕ) → weekday_of p ≡ some d → p ≡ day_text d
  unfolding weekday_of
  weekday_of-some d h = ground (
    arith,
    eq_str_iff p (str "1"),
    eq_str_iff p (str "2"),
    eq_str_iff p (str "3"),
    eq_str_iff p (str "4"),
    eq_str_iff p (str "5"),
    eq_str_iff p (str "6"),
    eq_str_iff p (str "7"),
  )

abbrev is_day : ℕ → Option ℕ → Bool
is_day d none = false
is_day d (some x) = x == d

in_mask-add_day :
    (d : ℕ) (o : Option ℕ) (ds : List ℕ) → in_mask d (add_day o ds) ≡ is_day d o || in_mask d ds
in_mask-add_day d none ds = refl
in_mask-add_day d (some x) ds = refl

weekday_of-day_text : (d : ℕ) → d < 7 → weekday_of (day_text d) ≡ some d
unfolding weekday_of
weekday_of-day_text zero h = refl
weekday_of-day_text (suc zero) h = refl
weekday_of-day_text (suc (suc zero)) h = refl
weekday_of-day_text (suc (suc (suc zero))) h = refl
weekday_of-day_text (suc (suc (suc (suc zero)))) h = refl
weekday_of-day_text (suc (suc (suc (suc (suc zero))))) h = refl
weekday_of-day_text (suc (suc (suc (suc (suc (suc zero)))))) h = refl
weekday_of-day_text (suc (suc (suc (suc (suc (suc (suc d))))))) h = absurd (omega arith)

is_day-weekday_of : (p : Str) (d : ℕ) → d < 7 → is_day d (weekday_of p) ≡ eq_str p (day_text d)
is_day-weekday_of p d h = elim (Bool-cases (eq_str p (day_text d))) [
  | inl same ↦
      let e = (eq_str_iff p (day_text d)).0 same in
      rw (same, e, weekday_of-day_text d h) (ground arith)
  | inr other ↦ ground (arith, weekday_of-some p d, eq_str_iff p (day_text d))
]

-- A weekday is in the mask exactly when one of the parts between the commas, with its white space
-- taken off, is the text of that day: 1 to 6 from Monday on, and 7 for Sunday.
pub parse_weekday_mask_lem :
    (mask : Str) (d : ℕ)
    → d < 7
    → in_mask d (parse_weekday_mask mask)
      ≡ any (λ p. eq_str (trim_space p) (day_text d)) (split b',' mask)
unfolding parse_weekday_mask
parse_weekday_mask_lem mask d h = mask_of-any (split b',' mask)
  where
    mask_of-any :
        (ps : List Str) → in_mask d (mask_of ps) ≡ any (λ p. eq_str (trim_space p) (day_text d)) ps
    mask_of-any [] = refl
    mask_of-any (p ∷ ps) = rw (
      in_mask-add_day d (weekday_of (trim_space p)),
      is_day-weekday_of (trim_space p) d h,
      mask_of-any ps,
    )
