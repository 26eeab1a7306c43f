-- ===== src/Gateway/Schedule/Active.antt =====
-- Which schedules count.
use proxy2api.Base.{
  ℕ, ◌<◌, ◌≡◌, refl, ap, Bool, ◌&&◌, List, [], ◌∷◌, ◌++◌, arith, leb, if◌then◌else◌, keep, Str,
}
use proxy2api.Text.{str, eq_str, is_empty}
use proxy2api.Float.{Float64, FloatOps, one, is_positive}
use proxy2api.Gateway.Types.{GroupSchedule}
use proxy2api.Gateway.Schedule.{in_mask, multiplier_loop, schedule_multiplier}

-- The group, with the name that stands for none.
abbrev pub group_of : Str → Str
group_of name = if is_empty name then str "default" else name

-- A schedule counts for a group at a minute of a weekday.
abbrev pub is_active : Str → (day minute : ℕ) → GroupSchedule → Bool
is_active group day minute sc =
    sc.enabled
    && eq_str sc.group_name group
    && in_mask day sc.weekday_mask
    && leb sc.start_minute minute
    && leb minute sc.end_minute
    && is_positive sc.multiplier

-- The product of the multipliers, from the left.
abbrev pub product : FloatOps → Float64 → List GroupSchedule → Float64
product fo acc [] = acc
product fo acc (sc ∷ scs) = product fo (fo.mul acc sc.multiplier) scs

multiplier_loop-product :
    (fo : FloatOps) (group : Str) (day minute : ℕ) (scs : List GroupSchedule) (acc : Float64)
    → multiplier_loop fo group day minute scs acc
      ≡ product fo acc (keep (is_active group day minute) scs)
multiplier_loop-product fo group day minute [] acc = refl
multiplier_loop-product fo group day minute (sc ∷ scs) acc = ground (
  arith,
  multiplier_loop-product fo group day minute scs acc,
  multiplier_loop-product fo group day minute scs (fo.mul acc sc.multiplier),
)

-- The multiplier of a group is the product, in the order of the snapshot, of the multipliers of the
-- schedules that are active: enabled, of the group (`default` for an empty name), on a day of their
-- mask, from their first to their last minute, with a positive multiplier.
pub schedule_multiplier-product :
    (fo : FloatOps) (scs : List GroupSchedule) (name : Str) (day minute : ℕ)
    → schedule_multiplier fo scs name day minute
      ≡ product fo one (keep (is_active (group_of name) day minute) scs)
unfolding schedule_multiplier
schedule_multiplier-product fo scs name day minute =
    multiplier_loop-product fo (group_of name) day minute scs one

-- A schedule that ends before it starts, such as 22:00 to 06:00, is active at no minute: adding it
-- changes the multiplier of no group at no time.
pub overnight_never :
    (fo : FloatOps) (pre post : List GroupSchedule) (sc : GroupSchedule) (name : Str)
    (day minute : ℕ)
    → sc.end_minute < sc.start_minute
    → schedule_multiplier fo (pre ++ sc ∷ post) name day minute
      ≡ schedule_multiplier fo (pre ++ post) name day minute
overnight_never fo pre post sc name day minute h =
    rw (schedule_multiplier-product, schedule_multiplier-product fo (pre ++ post))
      (ap (product fo one) (drops pre))
  where
    drops :
        (pre : List GroupSchedule)
        → keep (is_active (group_of name) day minute) (pre ++ sc ∷ post)
          ≡ keep (is_active (group_of name) day minute) (pre ++ post)
    drops [] = ground arith
    drops (x ∷ pre) = ground (arith, drops pre)
