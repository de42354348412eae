-- ===== src/Domain/Trail/Rules.antt =====
-- Writes that leave the findings' identities and statuses and the audit log alone keep the trails,
-- and so does the creation of a finding together with its first event.
use shld.Prelude.{ℕ, suc, ◌≤◌, ◌≡◌, refl, none, ◌∷◌, arith}
use shld.Action.{modify, ◌>>=◌}
use shld.Action.Keeps.{Keeps, Keeps-modify, keeps_rules}
use shld.Domain.Audit.{record_audit_event}
use shld.Domain.Transitions.{
  find_finding, update_run, TransitionRunStatusParams, transition_run_status,
}
use shld.Domain.Trail.{IsAudited, events_about}
use shld.Store.{Db}
use shld.Store.Writes.{
  fresh_id, NewRun, create_run, NewArtifact, create_artifact, create_engine_execution,
  create_validation, create_routing_decision, update_remediation,
}
use shld.Store.Rows.{
  AuditEvent, SecurityRun, Remediation, EngineExecution, Validation, RoutingDecision,
}

module _ (db db' : Db) (same : db'.findings ≡ db.findings)
    (log : (id : ℕ) → events_about id db'.audit_events ≡ events_about id db.audit_events)
    (later : db.next_id ≤ db'.next_id) (inv : IsAudited db) where
  find_finding-same : (id : ℕ) → find_finding id db' ≡ find_finding id db
  unfolding find_finding
  find_finding-same id = rw same

  pub IsAudited-same : IsAudited db'
  IsAudited-same = record {
    trails = λ id f h. rw (log id) (inv.trails id f (rw find_finding-same at h));
    silent = λ id h. rw (log id) (inv.silent id (rw find_finding-same at h));
    fresh = λ id h. rw find_finding-same (inv.fresh id (omega arith));
  }

pub fresh_id-IsAudited : Keeps IsAudited fresh_id
unfolding fresh_id ◌>>=◌
fresh_id-IsAudited = record {
  at = λ db inv.
      IsAudited-same db (record db { next_id = suc db.next_id }) refl (λ _. refl) (omega arith) inv;
}

-- a write to another table
pub elsewhere-IsAudited :
    (write : Db → Db)
    → ((db : Db) → (write db).findings ≡ db.findings)
    → ((db : Db) → (write db).audit_events ≡ db.audit_events)
    → ((db : Db) → (write db).next_id ≡ db.next_id)
    → Keeps IsAudited (modify write)
elsewhere-IsAudited write same log next = Keeps-modify write λ db inv.
    IsAudited-same db (write db) (same db) (λ id. rw (log db)) (omega (arith, next db)) inv

ruleset store_rules = (keeps_rules, fresh_id-IsAudited, elsewhere-IsAudited, refl)

pub create_run-IsAudited : (new : NewRun) → Keeps IsAudited (create_run new)
unfolding create_run
create_run-IsAudited new = search store_rules depth 8

pub create_artifact-IsAudited : (new : NewArtifact) → Keeps IsAudited (create_artifact new)
unfolding create_artifact
create_artifact-IsAudited new = search store_rules depth 8

pub create_engine_execution-IsAudited :
    (row : ℕ → EngineExecution) → Keeps IsAudited (create_engine_execution row)
unfolding create_engine_execution
create_engine_execution-IsAudited row = search store_rules depth 8

pub create_validation-IsAudited : (row : ℕ → Validation) → Keeps IsAudited (create_validation row)
unfolding create_validation
create_validation-IsAudited row = search store_rules depth 8

pub create_routing_decision-IsAudited :
    (row : RoutingDecision) → Keeps IsAudited (create_routing_decision row)
unfolding create_routing_decision
create_routing_decision-IsAudited row = search store_rules

pub update_remediation-IsAudited :
    (finding_id : ℕ) (change : Remediation → Remediation)
    → Keeps IsAudited (update_remediation finding_id change)
unfolding update_remediation
update_remediation-IsAudited finding_id change = search store_rules depth 8

update_run-IsAudited :
    (id : ℕ) (change : SecurityRun → SecurityRun) → Keeps IsAudited (update_run id change)
unfolding update_run
update_run-IsAudited id change = search store_rules

record_run_event-IsAudited :
    (event : AuditEvent) → event.finding_id ≡ none → Keeps IsAudited (record_audit_event event)
unfolding record_audit_event events_about ◌>>=◌
record_run_event-IsAudited event unrelated = record {
  at = λ db inv.
      IsAudited-same db (record db { audit_events = event ∷ db.audit_events }) refl
        (λ id. rw unrelated) (omega arith) inv;
}

-- a transition of a run writes no event about a finding
pub transition_run_status-IsAudited :
    (params : TransitionRunStatusParams) → Keeps IsAudited (transition_run_status params)
unfolding transition_run_status
transition_run_status-IsAudited params =
    search (store_rules, update_run-IsAudited, record_run_event-IsAudited) depth 12

pub ruleset audit_rules = (
  keeps_rules, fresh_id-IsAudited, create_run-IsAudited, create_artifact-IsAudited,
  create_engine_execution-IsAudited, create_validation-IsAudited, create_routing_decision-IsAudited,
  update_remediation-IsAudited,
)
