-- ===== src/Store/Writes.antt =====
-- The writes that several services share: `create` with a generated key, and `update`.
use shld.Prelude.{ℕ, suc, String, Bool, Option, none, List, ◌∷◌, any, str_eq, if◌then◌else◌}
use shld.Action.{Action, pure, throw, gets, modify, or_throw, ◌>>=◌, ◌>>◌}
use shld.Domain.Errors.{unique_violation, record_missing}
use shld.Domain.RunStatus.{queued}
use shld.Store.{Db}
use shld.Store.Table.{find_by, update_by}
use shld.Store.Rows.{
  SecurityRun, RunType, Validation, EngineExecution, ArtifactType, Remediation, RoutingDecision,
}

-- a key that no row has yet
unfoldable pub fresh_id : Action Db ℕ
fresh_id = do
  id ← gets (λ db. db.next_id)
  modify (λ db. record db { next_id = suc db.next_id })
  pure id

-- the columns that `securityRun.create` is given
pub record NewRun : Type 0 where
  pub organization_id : ℕ
  pub repository_id : ℕ
  pub requested_by_agent_id : ℕ
  pub run_type : RunType
  pub base_sha : String
  pub head_sha : String
  pub pull_request_number : Option ℕ
  pub target_environment_id : Option ℕ
  pub policy_version : String
  pub idempotency_key : String

abbrev pub run_of : NewRun → ℕ → SecurityRun
run_of new id = record {
  id = id;
  organization_id = new.organization_id;
  repository_id = new.repository_id;
  requested_by_agent_id = new.requested_by_agent_id;
  run_type = new.run_type;
  status = queued;
  base_sha = new.base_sha;
  head_sha = new.head_sha;
  pull_request_number = new.pull_request_number;
  target_environment_id = new.target_environment_id;
  policy_version = new.policy_version;
  idempotency_key = new.idempotency_key;
  started_at = none;
  completed_at = none;
  failure_reason = none;
}

abbrev pub is_key_taken : String → List SecurityRun → Bool
is_key_taken key = any (λ r. str_eq r.idempotency_key key)

-- `securityRun.create`; the idempotency key is `@unique`
unfoldable pub create_run : NewRun → Action Db ℕ
unfolding fresh_id
create_run new = do
  taken ← gets (λ db. is_key_taken new.idempotency_key db.runs)
  if taken
      then throw unique_violation
      else do id ← fresh_id; modify (λ db. record db { runs = run_of new id ∷ db.runs }); pure id

-- the columns that `artifact.create` is given, and where the artifact store put the content
pub record NewArtifact : Type 0 where
  pub organization_id : ℕ
  pub run_id : ℕ
  pub type : ArtifactType
  pub storage_location : String
  pub content_hash : String
  pub changed_files : List String

unfoldable pub create_artifact : NewArtifact → Action Db ℕ
unfolding fresh_id
create_artifact new = do
  id ← fresh_id
  modify (λ db. record db {
    artifacts =
        (record {
          id = id;
          organization_id = new.organization_id;
          run_id = new.run_id;
          type = new.type;
          storage_location = new.storage_location;
          content_hash = new.content_hash;
          changed_files = new.changed_files;
        })
        ∷ db.artifacts;
  })
  pure id

-- the columns that `engineExecution.create` is given; the row's own key comes from `fresh_id`
unfoldable pub create_engine_execution : (ℕ → EngineExecution) → Action Db ℕ
unfolding fresh_id
create_engine_execution row = do
  id ← fresh_id
  modify (λ db. record db { engine_executions = row id ∷ db.engine_executions })
  pure id

unfoldable pub create_validation : (ℕ → Validation) → Action Db ℕ
unfolding fresh_id
create_validation row = do
  id ← fresh_id
  modify (λ db. record db { validations = row id ∷ db.validations })
  pure id

unfoldable pub create_routing_decision : RoutingDecision → Action Db (Unit {0})
create_routing_decision row =
    modify λ db. record db { routing_decisions = row ∷ db.routing_decisions }

-- `remediation.findUnique({ where: { findingId } })`
unfoldable pub find_remediation : ℕ → Db → Option Remediation
find_remediation finding_id db = find_by (λ r. r.finding_id) finding_id db.remediations

abbrev pub put_remediation : ℕ → (Remediation → Remediation) → Db → Db
put_remediation finding_id change db = record db {
  remediations = update_by (λ r. r.finding_id) finding_id change db.remediations;
}

-- `remediation.update({ where: { findingId }, data })`, which throws where there is no such row
unfoldable pub update_remediation : ℕ → (Remediation → Remediation) → Action Db (Unit {0})
update_remediation finding_id change = do
  found ← gets (find_remediation finding_id)
  or_throw found record_missing
  modify (put_remediation finding_id change)
