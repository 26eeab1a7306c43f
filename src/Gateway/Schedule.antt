-- ===== src/Gateway/Schedule.antt =====
-- The schedules of a group: `parseWeekdayMask` and `parseHHMM` of internal/gateway/types.go, and
-- `scheduleMultiplier` of internal/gateway/server.go. The weekday (from Sunday, 0) and the minute of
-- the day, read from the clock in the configured time zone, are arguments.
pub mod Parse
pub mod Active
use proxy2api.Base.{
  ℕ, ◌+◌, ◌-◌, ◌*◌, ◌/◌, ◌%◌, ap, Bool, not, ◌&&◌, ◌||◌, Option, none, some, List, [], ◌∷◌, ltb,
  leb, ◌==◌, if◌then◌else◌, pos, any, Str,
}
use proxy2api.Text.{str, eq_str, is_empty, trim_space, split}
use proxy2api.Float.{Float64, FloatOps, one, is_positive}
use proxy2api.Gateway.Types.{GroupSchedule}

-- The cases of the switch.
unfoldable pub weekday_of : Str → Option ℕ
weekday_of p =
    if eq_str p (str "1")
    then some 1
    else if eq_str p (str "2")
    then some 2
    else if eq_str p (str "3")
    then some 3
    else if eq_str p (str "4")
    then some 4
    else if eq_str p (str "5")
    then some 5
    else if eq_str p (str "6")
    then some 6
    else if eq_str p (str "7")
    then some 0
    else none

abbrev pub add_day : Option ℕ → List ℕ → List ℕ
add_day none days = days
add_day (some d) days = d ∷ days

abbrev pub mask_of : List Str → List ℕ
mask_of [] = []
mask_of (p ∷ ps) = add_day (weekday_of (trim_space p)) (mask_of ps)

unfoldable pub parse_weekday_mask : Str → List ℕ
parse_weekday_mask mask = mask_of (split b',' mask)

-- `int(c - '0')` on a byte, which wraps.
abbrev pub digit : ℕ → ℕ
digit c = (c + 256 - 48) % 256

-- The tests for a negative hour or minute are left out: a byte is not negative.
unfoldable pub parse_hhmm : Str → ℕ
parse_hhmm (a ∷ b ∷ c ∷ d ∷ e ∷ []) =
    let h = digit a * 10 + digit b in
    let m = digit d * 10 + digit e in if ltb 23 h || ltb 59 m then 0 else h * 60 + m
parse_hhmm s = 0

-- `sc.WeekdayMask[day]`
abbrev pub in_mask : ℕ → List ℕ → Bool
in_mask day mask = any (λ d. d == day) mask

module _ (fo : FloatOps) where
  -- One round of the loop.
  abbrev pub apply_schedule : Str → (day minute : ℕ) → GroupSchedule → Float64 → Float64
  apply_schedule group day minute sc mul =
      if not sc.enabled || not (eq_str sc.group_name group)
      then mul
      else if not (in_mask day sc.weekday_mask)
      then mul
      else if leb sc.start_minute minute && leb minute sc.end_minute
      then (if is_positive sc.multiplier then fo.mul mul sc.multiplier else mul)
      else mul

  abbrev pub multiplier_loop : Str → (day minute : ℕ) → List GroupSchedule → Float64 → Float64
  multiplier_loop group day minute [] mul = mul
  multiplier_loop group day minute (sc ∷ scs) mul =
      multiplier_loop group day minute scs (apply_schedule group day minute sc mul)

  unfoldable pub schedule_multiplier : List GroupSchedule → Str → (day minute : ℕ) → Float64
  schedule_multiplier schedules group_name day minute =
      let group = if is_empty group_name then str "default" else group_name in
      multiplier_loop group day minute schedules one
