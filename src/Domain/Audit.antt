-- ===== src/Domain/Audit.antt =====
-- src/audit/audit-log.ts: the single writer of `AuditEvent` rows.
use shld.Prelude.{◌∷◌}
use shld.Action.{Action, modify}
use shld.Store.{Db}
use shld.Store.Rows.{AuditEvent}

-- The parameters of `recordAuditEvent` are the columns of the row.
unfoldable pub record_audit_event : AuditEvent → Action Db (Unit {0})
record_audit_event event = modify λ db. record db { audit_events = event ∷ db.audit_events }
