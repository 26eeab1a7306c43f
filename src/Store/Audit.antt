-- ===== src/Store/Audit.antt =====
-- The audit log of internal/store/store.go.
use proxy2api.Base.{
  true, Option, none, some, List, ℤ, pos, pos_part, leb_ℤ, take, Str, Result, ok, ◌>>=◌,
}
use proxy2api.Text.{str}
use proxy2api.Store.Gorm.{Gorm, done, table_of}
use proxy2api.Store.Rows.{AuditLog, audit_log_model}
use proxy2api.Store.Tables.{Store}
use proxy2api.Store.Billing.{limit_or}

-- The detail in JSON, where there is one and it can be written.
abbrev pub detail_of : Option Str → Str
detail_of none = str "{}"
detail_of (some raw) = raw

module _ (g : Gorm) where
  -- An error is dropped.
  unfoldable pub add_audit : (actor action target : Str) → Option Str → Store g → Store g
  add_audit actor action target detail s =
      (done s (λ t. record s { audit_logs = t })
        (table_of (
          g.create audit_log_model
            (record {
              id = pos 0;
              actor = actor;
              action = action;
              target = target;
              detail_json = detail_of detail;
            })
            s.audit_logs))).1

  unfoldable pub list_audit : ℤ → Store g → Result (List AuditLog)
  list_audit limit s = do
    out ← g.find (λ a b. leb_ℤ b.id a.id) (λ t. true) s.audit_logs
    ok (take (pos_part (limit_or (pos 500) (pos 200) limit)) out)
