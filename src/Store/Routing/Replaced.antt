-- ===== src/Store/Routing/Replaced.antt =====
-- What an import leaves behind.
use proxy2api.Base.{
  ◌≡◌, refl, ap, ◌∙◌, ◌⊎◌, inl, inr, Bool, true, not, ◌&&◌, List, [], ◌∷◌, ◌++◌, map, arith,
  if◌then◌else◌, ℤ, pos, ltb_ℤ, keep, Str, ok, err, >>=-eq-ok,
}
use proxy2api.Text.{str, is_empty, trim_space}
use proxy2api.Float.{is_nonpositive}
use proxy2api.Store.Gorm.{Gorm, GormLaws, new_row, transaction-cases}
use proxy2api.Store.Gorm.Loops.{each, each-append, flat-keep, create_if-append}
use proxy2api.Store.Rows.{Rule, rule_model, GroupSchedule, schedule_model}
use proxy2api.Store.Tables.{Store}
use proxy2api.Store.Routing.{
  filled_rule, filled_schedule, is_complete, import_rule, import_schedule, replace_body,
  replace_rules_and_schedules,
}

keep_none : {A : Type 0} (xs : List A) → keep (λ x. not true) xs ≡ []
keep_none [] = refl
keep_none (x ∷ xs) = keep_none xs

-- A row with no regard to its id.
abbrev pub rule_of : Rule → Rule
rule_of r = record r { id = pos 0 }

abbrev pub schedule_of : GroupSchedule → GroupSchedule
schedule_of sc = record sc { id = pos 0 }

-- A rule that an import takes: nothing of it is blank.
abbrev pub is_whole : Rule → Bool
is_whole r =
    not (is_empty (trim_space r.name))
    && not (is_empty (trim_space r.condition_js))
    && not (is_empty (trim_space r.action_json))

-- The row that an import makes: enabled, whatever the import says.
abbrev pub imported_rule : Rule → Rule
imported_rule r = record {
  id = pos 0;
  name = r.name;
  priority = if ltb_ℤ (pos 0) r.priority then r.priority else pos 100;
  enabled = true;
  condition_js = r.condition_js;
  action_json = r.action_json;
}

abbrev pub imported_schedule : GroupSchedule → GroupSchedule
imported_schedule sc = record {
  id = pos 0;
  group_name = sc.group_name;
  weekday_mask = if is_empty sc.weekday_mask then str "1,2,3,4,5,6,7" else sc.weekday_mask;
  start_hhmm = if is_empty sc.start_hhmm then str "00:00" else sc.start_hhmm;
  end_hhmm = if is_empty sc.end_hhmm then str "23:59" else sc.end_hhmm;
  multiplier = if is_nonpositive sc.multiplier then 0x3ff0000000000000 else sc.multiplier;
  enabled = true;
}

keep_same :
    {A : Type 0} (p q : A → Bool) → ((x : A) → p x ≡ q x) → (xs : List A) → keep p xs ≡ keep q xs
keep_same p q same [] = refl
keep_same p q same (x ∷ xs) = rw (same x, keep_same p q same xs) refl

is_complete-is_whole : (r : Rule) → is_complete r ≡ is_whole r
is_complete-is_whole r = ground arith

new_rule :
    (r : Rule) (next : ℤ)
    → rule_of (new_row rule_model next (record (filled_rule r) { id = pos 0 })) ≡ imported_rule r
new_rule r next = ground arith

new_schedule :
    (sc : GroupSchedule) (next : ℤ)
    → schedule_of (new_row schedule_model next (record (filled_schedule sc) { id = pos 0 }))
      ≡ imported_schedule sc
new_schedule sc next = ground arith

-- The tables are what the lists of an import ask for.
pub record IsReplaced (g : Gorm) (rules : List Rule) (schedules : List GroupSchedule)
    (s s' : Store g) : Type 0 where
  pub new_rules : map rule_of (g.rows s'.rules) ≡ map imported_rule (keep is_whole rules)
  pub new_schedules :
      map schedule_of (g.rows s'.group_schedules)
      ≡ map imported_schedule (keep (λ sc. not (is_empty sc.group_name)) schedules)
  pub others : s' ≡ record s { rules = s'.rules; group_schedules = s'.group_schedules }

module _ (g : Gorm) (laws : GormLaws g) where
  import_rules :
      (rules : List Rule) (t t' : g.Table Rule)
      → each (import_rule g) rules t ≡ ok t'
      → map rule_of (g.rows t')
        ≡ map rule_of (g.rows t) ++ map imported_rule (keep is_complete rules)
  unfolding import_rule
  import_rules rules t t' h =
      each-append (λ x. map rule_of (g.rows x)) _ (import_rule g)
        (λ r x x' made.
          create_if-append g laws rule_model rule_of (is_complete r)
            (record (filled_rule r) { id = pos 0 }) (imported_rule r) (new_rule r) x x' made)
        rules t t' h
      ∙ ap (λ rows. map rule_of (g.rows t) ++ rows) (flat-keep is_complete imported_rule rules)

  import_schedules :
      (schedules : List GroupSchedule) (t t' : g.Table GroupSchedule)
      → each (import_schedule g) schedules t ≡ ok t'
      → map schedule_of (g.rows t')
        ≡ map schedule_of (g.rows t)
          ++ map imported_schedule (keep (λ sc. not (is_empty sc.group_name)) schedules)
  unfolding import_schedule
  import_schedules schedules t t' h =
      each-append (λ x. map schedule_of (g.rows x)) _ (import_schedule g)
        (λ sc x x' made.
          create_if-append g laws schedule_model schedule_of (not (is_empty sc.group_name))
            (record (filled_schedule sc) { id = pos 0 }) (imported_schedule sc) (new_schedule sc) x
            x' made)
        schedules t t' h
      ∙ ap (λ rows. map schedule_of (g.rows t) ++ rows)
          (flat-keep (λ sc. not (is_empty sc.group_name)) imported_schedule schedules)

  -- A table that loses every row.
  emptied : {R : Type 0} (t t' : g.Table R) → g.delete (λ x. true) t ≡ ok t' → g.rows t' ≡ []
  emptied t t' h = laws.delete_rows (λ x. true) t t' h ∙ keep_none (g.rows t)

  replace_body-IsReplaced :
      (rules : List Rule) (schedules : List GroupSchedule) (s s' : Store g)
      → replace_body g rules schedules s ≡ ok s'
      → IsReplaced g rules schedules s s'
  unfolding replace_body
  replace_body-IsReplaced rules schedules s s' h =
      let (t1, none_left, h1) = >>=-eq-ok (g.delete (λ r. true) s.rules) _ h in
      let (t2, made, h2) = >>=-eq-ok (each (import_rule g) rules t1) _ h1 in
      let (t3, none_left', h3) = >>=-eq-ok (g.delete (λ sc. true) s.group_schedules) _ h2 in
      let (t4, made', h4) = >>=-eq-ok (each (import_schedule g) schedules t3) _ h3 in
      let same : record s { rules = t2; group_schedules = t4 } ≡ s' = cc in
      rw (← same) (record {
        new_rules =
            import_rules rules t1 t2 made
            ∙ ap (λ rows. map rule_of rows ++ map imported_rule (keep is_complete rules))
                (emptied s.rules t1 none_left)
            ∙ ap (map imported_rule) (keep_same is_complete is_whole is_complete-is_whole rules);
        new_schedules =
            import_schedules schedules t3 t4 made'
            ∙ ap
                (λ rows.
                  map schedule_of rows
                  ++ map imported_schedule (keep (λ sc. not (is_empty sc.group_name)) schedules))
                (emptied s.group_schedules t3 none_left');
        others = refl;
      })

-- An import of rules and schedules either succeeds, and then the rules are, in order and but for
-- their ids, those of the import of which name, condition and action are not blank, with 100 for a
-- priority that is not positive, the schedules are those with a group, with all days, 00:00, 23:59
-- and 1.0 for what is missing, all of them enabled, also those that the import disables, and nothing else has
-- changed; or it fails and nothing at all has changed.
pub replace-IsReplaced :
    (g : Gorm) (laws : GormLaws g) (rules : List Rule) (schedules : List GroupSchedule)
    (s : Store g)
    → (((replace_rules_and_schedules g rules schedules s).0 ≡ ok tt)
        × IsReplaced g rules schedules s (replace_rules_and_schedules g rules schedules s).1)
      ⊎ ((e : Str) × (replace_rules_and_schedules g rules schedules s ≡ (err e, s)))
unfolding replace_rules_and_schedules
replace-IsReplaced g laws rules schedules s =
    elim (transaction-cases g (replace_body g rules schedules) s) [
      | inl (s', made, e) ↦
          rw e (inl (refl, replace_body-IsReplaced g laws rules schedules s s' made))
      | inr (x, e) ↦ inr (x, e)
    ]
