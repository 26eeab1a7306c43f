-- ===== src/Gateway/Admin/Catalog.antt =====
-- The handlers of internal/gateway/admin.go for providers, their keys, the keys of users, rules and
-- schedules, the import and the export, and the reload.
use proxy2api.Base.{
  Bool, true, false, not, List, [], ◌∷◌, if◌then◌else◌, ℤ, pos, Str, Result, ok, err,
}
use proxy2api.Text.{str, eq_str, is_empty, trim_space, trim_prefix, split}
use proxy2api.Config.{Config}
use proxy2api.Store.Gorm.{Gorm}
use proxy2api.Store.Rows.{Provider, ProviderKey, ApiKey, Rule, GroupSchedule}
use proxy2api.Store.Lists.{
  list_providers, list_provider_keys, list_api_keys, list_rules, list_schedules,
}
use proxy2api.Store.Providers.{
  upsert_provider, delete_provider, set_provider_enabled, upsert_provider_key, delete_provider_key,
}
use proxy2api.Store.ApiKeys.{upsert_api_key, delete_api_key}
use proxy2api.Store.Routing.{
  upsert_rule, delete_rule, upsert_schedule, delete_schedule, replace_rules_and_schedules,
  export_runtime_config,
}
use proxy2api.Gateway.Snapshot.{reload_snapshot}
use proxy2api.Gateway.Forward.{Request}
use proxy2api.Gateway.Admit.{Server}
use proxy2api.Gateway.Messages.{
  ProviderRequest, ProviderKeyRequest, ApiKeyRequest, RuleRequest, ScheduleRequest, AdminJson,
  AdminReply, refused, answered, providers, provider_keys, api_keys, rules, schedules, config,
  accepted, written, deleted, deleted_provider, switched,
}
use proxy2api.Gateway.Admin.{
  AdminOutside, guarded, decoded, answer_list, changed, reload_and, on_method, only_method,
  read_id_query,
}
use proxy2api.Gateway.Admin.Access.{require_admin}

-- The row for a request.
abbrev pub provider_row : AdminJson → ProviderRequest → Provider
provider_row json req = record {
  id = req.id;
  name = req.name;
  base_url = req.base_url;
  weight = req.weight;
  models_json = json.texts req.models;
  model_map_json = json.text_map req.model_map;
  max_rpm = req.max_rpm;
  max_tpm = req.max_tpm;
  enabled = req.enabled;
  group_name = req.group_name;
  recover_interval_sec = req.recover_interval_sec;
}

-- Fields that the request does not have are zero.
abbrev pub provider_key_row : ProviderKeyRequest → ProviderKey
provider_key_row req = record {
  id = req.id;
  provider_name = req.provider_name;
  alias = req.alias;
  api_key = req.api_key;
  enabled = req.enabled;
  consecutive_errs = pos 0;
  cooldown_until = pos 0;
  last_status = [];
}

abbrev pub api_key_row : AdminJson → ApiKeyRequest → ApiKey
api_key_row json req = record {
  id = req.id;
  key_value = req.key_value;
  name = req.name;
  tenant_name = [];
  balance_micros = pos 0;
  max_rpm = req.max_rpm;
  max_tpm = req.max_tpm;
  allowed_models = json.texts req.allowed_models;
  rate_multiplier = req.rate_multiplier;
  enabled = req.enabled;
}

abbrev pub rule_row : RuleRequest → Rule
rule_row req = record {
  id = req.id;
  name = req.name;
  priority = req.priority;
  enabled = req.enabled;
  condition_js = req.condition_js;
  action_json = req.action;
}

abbrev pub schedule_row : ScheduleRequest → GroupSchedule
schedule_row req = record {
  id = req.id;
  group_name = req.group_name;
  weekday_mask = req.weekday_mask;
  start_hhmm = req.start_hhmm;
  end_hhmm = req.end_hhmm;
  multiplier = req.multiplier;
  enabled = req.enabled;
}

module _ (g : Gorm) (cfg : Config) (o : AdminOutside) (r : Request) where
  abbrev pub admin_only : (Server g → AdminReply × Server g) → Server g → AdminReply × Server g
  admin_only next s = guarded (require_admin g cfg o r s.store) (λ u. next) s

  -- A change that answers with an id, and is followed by a reload.
  abbrev pub written_id : ℤ → Server g → AdminReply × Server g
  written_id id = reload_and o.json (written id)

  abbrev pub deleted_id : ℤ → Unit {0} → Server g → AdminReply × Server g
  deleted_id id u = reload_and o.json (deleted id)

  abbrev pub remove_provider : Str → Server g → AdminReply × Server g
  remove_provider name s =
      if is_empty name
      then (refused 400 (str "name query is required"), s)
      else changed 500 (delete_provider g name) (λ u. reload_and o.json (deleted_provider name)) s

  unfoldable pub handle_providers : Server g → AdminReply × Server g
  handle_providers = admin_only (
      on_method r.method (answer_list providers (list_providers g))
        (decoded (o.admin_json.provider r.body) (λ req.
          changed 400 (upsert_provider g (provider_row o.admin_json req))
            (λ u. reload_and o.json accepted)))
        (remove_provider (trim_space (o.query r.raw_query (str "name")))))

  abbrev pub switch_to : Str → Bool → Server g → AdminReply × Server g
  switch_to name enabled =
      changed 500 (set_provider_enabled g name enabled)
        (λ u. reload_and o.json (switched name enabled))

  abbrev pub provider_action : List Str → Server g → AdminReply × Server g
  provider_action (name ∷ action ∷ []) s =
      if eq_str action (str "enable")
      then switch_to name true s
      else if eq_str action (str "disable")
      then switch_to name false s
      else (refused 400 (str "unknown action"), s)
  provider_action parts s = (refused 400 (str "invalid path"), s)

  unfoldable pub handle_provider_action : Server g → AdminReply × Server g
  handle_provider_action = admin_only (
      only_method (str "POST") r.method
        (provider_action (split b'/' (trim_prefix r.path (str "/admin/providers/")))))

  unfoldable pub handle_provider_keys : Server g → AdminReply × Server g
  handle_provider_keys = admin_only (
      on_method r.method (answer_list provider_keys (λ s. list_provider_keys g s []))
        (decoded (o.admin_json.provider_key r.body)
          (λ req. changed 400 (upsert_provider_key g (provider_key_row req)) written_id))
        (guarded (read_id_query o r)
          (λ id. changed 500 (delete_provider_key g id) (deleted_id id))))

  abbrev pub post_api_key : Server g → AdminReply × Server g
  post_api_key =
      decoded (o.admin_json.api_key r.body)
        (λ req. changed 400 (upsert_api_key g (api_key_row o.admin_json req)) written_id)

  abbrev pub remove_api_key : Server g → AdminReply × Server g
  remove_api_key =
      guarded (read_id_query o r) (λ id. changed 500 (delete_api_key g id) (deleted_id id))

  unfoldable pub handle_api_keys : Server g → AdminReply × Server g
  handle_api_keys =
      admin_only
        (on_method r.method (answer_list api_keys (list_api_keys g)) post_api_key remove_api_key)

  abbrev pub post_rule : RuleRequest → Server g → AdminReply × Server g
  post_rule req s =
      if not (o.admin_json.valid req.action)
      then (refused 400 (str "action must be valid json object"), s)
      else changed 400 (upsert_rule g (rule_row req)) written_id s

  unfoldable pub handle_rules : Server g → AdminReply × Server g
  handle_rules = admin_only (
      on_method r.method (answer_list rules (list_rules g))
        (decoded (o.admin_json.rule r.body) post_rule)
        (guarded (read_id_query o r) (λ id. changed 500 (delete_rule g id) (deleted_id id))))

  unfoldable pub handle_schedules : Server g → AdminReply × Server g
  handle_schedules = admin_only (
      on_method r.method (answer_list schedules (list_schedules g))
        (decoded (o.admin_json.schedule r.body)
          (λ req. changed 400 (upsert_schedule g (schedule_row req)) written_id))
        (guarded (read_id_query o r) (λ id. changed 500 (delete_schedule g id) (deleted_id id))))

  unfoldable pub handle_config_export : Server g → AdminReply × Server g
  handle_config_export =
      admin_only (only_method (str "GET") r.method (answer_list config (export_runtime_config g)))

  abbrev pub import_body : Result Str → Server g → AdminReply × Server g
  import_body (err e) s = (refused 400 (str "read body failed"), s)
  import_body (ok body) s =
      decoded (o.admin_json.import_of body)
        (λ payload.
          changed 500 (replace_rules_and_schedules g payload.rules payload.schedules)
            (λ u. reload_and o.json accepted))
        s

  unfoldable pub handle_config_import : Server g → AdminReply × Server g
  handle_config_import = admin_only (only_method (str "POST") r.method (import_body r.body))

  -- Here an error of the reload is reported.
  abbrev pub reload : Server g → AdminReply × Server g
  reload s = elim (reload_snapshot g o.json s.store) [
    | err e ↦ (refused 500 e, s)
    | ok snap ↦ (answered accepted, record s { snapshot = snap })
  ]

  unfoldable pub handle_reload : Server g → AdminReply × Server g
  handle_reload = admin_only (only_method (str "POST") r.method reload)
