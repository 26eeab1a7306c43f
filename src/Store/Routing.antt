-- ===== src/Store/Routing.antt =====
-- The changes of rules and schedules in internal/store/store.go, and the export of everything.
pub mod Replaced
use proxy2api.Base.{
  ◌-◌, ◌/◌, ap, Bool, true, not, ◌||◌, List, [], ltb, leb, if◌then◌else◌, ℤ, pos, ltb_ℤ, leb_ℤ,
  eq_ℤ, take, Str, Result, ok, err, ◌>>=◌,
}
use proxy2api.Text.{str, eq_str, is_empty}
use proxy2api.Float.{Float64, one, is_nonpositive}
use proxy2api.Store.Gorm.{Gorm, update_row, insert_row, stored, done, create_if, transaction}
use proxy2api.Store.Gorm.Loops.{each}
use proxy2api.Store.Rows.{
  Provider, ProviderKey, ApiKey, Rule, rule_model, GroupSchedule, schedule_model,
}
use proxy2api.Store.Tables.{Store, is_blank}
use proxy2api.Store.Lists.{
  list_providers, list_provider_keys, list_api_keys, list_rules, list_schedules,
}

abbrev pub or_hundred : ℤ → ℤ
or_hundred n = if leb_ℤ n (pos 0) then pos 100 else n

abbrev pub or_text : Str → Str → Str
or_text s d = if is_empty s then d else s

abbrev pub filled_rule : Rule → Rule
filled_rule r = record r { priority = or_hundred r.priority }

abbrev pub filled_schedule : GroupSchedule → GroupSchedule
filled_schedule sc = record sc {
  weekday_mask = or_text sc.weekday_mask (str "1,2,3,4,5,6,7");
  start_hhmm = or_text sc.start_hhmm (str "00:00");
  end_hhmm = or_text sc.end_hhmm (str "23:59");
  multiplier = if is_nonpositive sc.multiplier then one else sc.multiplier;
}

-- The rules that an import takes.
abbrev pub is_complete : Rule → Bool
is_complete r = not (is_blank r.name || is_blank r.condition_js || is_blank r.action_json)

pub record RuntimeConfigExport : Type 0 where
  pub providers : List Provider
  pub provider_keys : List ProviderKey
  pub api_keys : List ApiKey
  pub rules : List Rule
  pub schedules : List GroupSchedule

module _ (g : Gorm) where
  unfoldable pub upsert_rule : Rule → Store g → Result ℤ × Store g
  upsert_rule r0 s =
      let r = filled_rule r0 in
      if is_empty r0.name
      then (err (str "rule name is required"), s)
      else if is_empty r0.condition_js
      then (err (str "condition_js is required"), s)
      else if is_empty r0.action_json
      then (err (str "action_json is required"), s)
      else stored s (λ t. record s { rules = t })
          (if ltb_ℤ (pos 0) r.id
            then update_row g rule_model r.id (λ x. record r { id = x.id }) s.rules
            else insert_row g rule_model (λ n x. eq_str x.name n.name)
                (λ x n. record n { id = x.id; name = x.name }) r s.rules)

  unfoldable pub delete_rule : ℤ → Store g → Result (Unit {0}) × Store g
  delete_rule id s = done s (λ t. record s { rules = t }) (g.delete (λ r. eq_ℤ r.id id) s.rules)

  -- A new schedule conflicts with no other one.
  unfoldable pub upsert_schedule : GroupSchedule → Store g → Result ℤ × Store g
  upsert_schedule sc0 s =
      let sc = filled_schedule sc0 in
      if is_empty sc0.group_name
      then (err (str "group_name is required"), s)
      else stored s (λ t. record s { group_schedules = t })
          (if ltb_ℤ (pos 0) sc.id
            then update_row g schedule_model sc.id (λ x. record sc { id = x.id }) s.group_schedules
            else do
              created ← g.create schedule_model sc s.group_schedules
              ok (created.0.id, created.1))

  unfoldable pub delete_schedule : ℤ → Store g → Result (Unit {0}) × Store g
  delete_schedule id s =
      done s (λ t. record s { group_schedules = t })
        (g.delete (λ sc. eq_ℤ sc.id id) s.group_schedules)

  -- The body of the loop over the rules: a rule that is not complete is skipped.
  unfoldable pub import_rule : Rule → g.Table Rule → Result (g.Table Rule)
  import_rule r t = create_if g (is_complete r) rule_model (record (filled_rule r) { id = pos 0 }) t

  unfoldable pub import_schedule :
      GroupSchedule → g.Table GroupSchedule → Result (g.Table GroupSchedule)
  import_schedule sc t =
      create_if g (not (is_empty sc.group_name)) schedule_model
        (record (filled_schedule sc) { id = pos 0 }) t

  -- The inner function of the transaction.
  unfoldable pub replace_body : List Rule → List GroupSchedule → Store g → Result (Store g)
  replace_body rules schedules s = do
    no_rules ← g.delete (λ r. true) s.rules
    new_rules ← each import_rule rules no_rules
    no_schedules ← g.delete (λ sc. true) s.group_schedules
    new_schedules ← each import_schedule schedules no_schedules
    ok (record s { rules = new_rules; group_schedules = new_schedules })

  unfoldable pub replace_rules_and_schedules :
      List Rule → List GroupSchedule → Store g → Result (Unit {0}) × Store g
  replace_rules_and_schedules rules schedules s = transaction g (replace_body rules schedules) s

  unfoldable pub export_runtime_config : Store g → Result RuntimeConfigExport
  export_runtime_config s = do
    providers ← list_providers g s
    pkeys ← list_provider_keys g s []
    apikeys ← list_api_keys g s
    rules ← list_rules g s
    schedules ← list_schedules g s
    ok (record {
      providers = providers;
      provider_keys = pkeys;
      api_keys = apikeys;
      rules = rules;
      schedules = schedules;
    })
