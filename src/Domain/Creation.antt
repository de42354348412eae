-- ===== src/Domain/Creation.antt =====
-- The creation of a finding with its first audit event, as in src/adapters/deepsec/persist.ts and
-- src/correlation/correlate-strix-validation.ts.
use shld.Prelude.{ℕ, String, Option, none, some, List, ◌∷◌, ◌&&◌, str_eq, ◌==◌, find}
use shld.Action.{Action, pure, modify, ◌>>=◌, ◌>>◌}
use shld.Domain.Audit.{record_audit_event}
use shld.Domain.FindingStatus.{suspected}
use shld.Store.{Db}
use shld.Store.Writes.{fresh_id}
use shld.Store.Rows.{
  Finding, FindingSeverity, FindingConfidence, Engine, FindingClass, SourceLocation, AuditEvent,
  of_finding, system_actor,
}

-- the columns that `finding.create` is given; the status is the schema's default
pub record NewFinding : Type 0 where
  pub organization_id : ℕ
  pub repository_id : ℕ
  pub fingerprint : String
  pub title : String
  pub description : String
  pub category : String
  pub cwe : Option String
  pub severity : FindingSeverity
  pub confidence : FindingConfidence
  pub discovery_engine : Engine
  pub finding_class : FindingClass
  pub commit : String
  pub source_locations : List SourceLocation

abbrev pub finding_of : NewFinding → ℕ → Finding
finding_of new id = record {
  id = id;
  organization_id = new.organization_id;
  repository_id = new.repository_id;
  fingerprint = new.fingerprint;
  title = new.title;
  description = new.description;
  category = new.category;
  cwe = new.cwe;
  severity = new.severity;
  confidence = new.confidence;
  status = suspected;
  discovery_engine = new.discovery_engine;
  finding_class = new.finding_class;
  first_seen_commit = new.commit;
  last_seen_commit = new.commit;
  source_locations = new.source_locations;
}

-- the event "finding.created"
abbrev pub creation_event : NewFinding → ℕ → ℕ → AuditEvent
creation_event new run_id id = record {
  organization_id = new.organization_id;
  run_id = some run_id;
  finding_id = some id;
  actor = system_actor;
  event_type = "finding.created";
  previous_state = none;
  new_state = some (of_finding suspected);
}

-- `finding.create` and `recordAuditEvent`, which both callers make in a row
unfoldable pub create_finding : NewFinding → ℕ → Action Db ℕ
unfolding fresh_id record_audit_event
create_finding new run_id = do
  id ← fresh_id
  modify (λ db. record db { findings = finding_of new id ∷ db.findings })
  record_audit_event (creation_event new run_id id)
  pure id

-- `finding.findUnique({ where: { repositoryId_fingerprint } })`
unfoldable pub find_by_fingerprint : ℕ → String → Db → Option Finding
find_by_fingerprint repository_id fingerprint db =
    find (λ f. f.repository_id == repository_id && str_eq f.fingerprint fingerprint) db.findings
