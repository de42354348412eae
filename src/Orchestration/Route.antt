-- ===== src/Orchestration/Route.antt =====
-- src/orchestration/handlers/routing-and-receipt.ts, the routing of a run's findings.
use shld.Prelude.{
  ℕ, ◌+◌, String, Bool, false, ◌&&◌, Option, none, some, List, [], ◌∷◌, any, keep, length, ltb,
  ◌==◌, str_eq, is_some, if◌then◌else◌,
}
use shld.Prelude.Int.{sub_ℕ}
use shld.Access.Permissions.{AgentPermissions}
use shld.Access.Authorize.{authorize_target_environment}
use shld.Action.{Action, pure, gets, or_throw, transaction, attempt, when, for_each, ◌>>=◌, ◌>>◌}
use shld.Domain.Errors.{record_missing}
use shld.Domain.FindingStatus
use shld.Domain.FindingStatus.{source_confirmed, validation_queued}
use shld.Domain.RunStatus.{validation_running}
use shld.Domain.Transitions.{find_run, transition_run_status}
use shld.Orchestration.Finalize.{findings_of_run, finalize_run}
use shld.Orchestration.SourceReview.{run_move}
use shld.Orchestration.Webhooks.{enqueue_job}
use shld.Policy.Apply.{apply_routing_policy, is_escalate}
use shld.Policy.Routing.{RoutingPolicyInput}
use shld.Queue.Jobs.{run_strix_validation}
use shld.Store.{Db}
use shld.Store.Rows.{EngineExecution, Finding, SecurityRun, of_finding_job, finding_payload}
use shld.Store.Table.{find_by}

-- half a dollar
abbrev pub estimated_strix_validation_cost : ℕ
estimated_strix_validation_cost = 500000

abbrev total_cost : List EngineExecution → ℕ
total_cost [] = 0
total_cost (e ∷ es) = e.estimated_cost + total_cost es

-- `spentSoFar`
unfoldable pub spent_so_far : ℕ → Db → ℕ
spent_so_far run_id db = total_cost (keep (λ e. e.run_id == run_id) db.engine_executions)

abbrev is_of_build : String → Option String → Bool
is_of_build sha none = false
is_of_build sha (some build) = str_eq build sha

-- `alreadyTested`
unfoldable pub already_tested : SecurityRun → ℕ → Db → Bool
already_tested run finding_id db =
    is_some run.target_environment_id
    && any (λ v. v.finding_id == finding_id && is_of_build run.head_sha v.target_build_id)
        db.validations

-- `targetAuthorized`
unfoldable pub target_authorized : SecurityRun → AgentPermissions → Option ℕ → Action Db Bool
target_authorized run permissions none = pure false
target_authorized run permissions (some id) = attempt (
    authorize_target_environment (record {
      organization_id = run.organization_id;
      repository_id = run.repository_id;
      target_environment_id = id;
      permissions = permissions;
    }))

-- what the policy is asked about a finding; the handler leaves `isCodeQualityIssue` out
abbrev pub routing_input :
    SecurityRun → AgentPermissions → ℕ → Bool → Bool → Finding → RoutingPolicyInput
routing_input run permissions spent authorized tested f = record {
  severity = f.severity;
  confidence = f.confidence;
  category = f.category;
  is_code_quality_issue = false;
  runtime_behavior_required = false;
  target_authorized = authorized;
  target_is_production = false;
  can_be_exercised_dynamically = authorized;
  already_tested_against_build = tested;
  remaining_budget = sub_ℕ permissions.max_run_budget spent;
  estimated_validation_cost = estimated_strix_validation_cost;
  policy_version = run.policy_version;
}

-- the body of the loop over the candidates
unfoldable pub route_finding :
    SecurityRun → AgentPermissions → ℕ → Bool → Finding → Action Db (Unit {0})
route_finding run permissions spent authorized f = do
  tested ← gets (already_tested run f.id)
  decision ← transaction (
      apply_routing_policy (record {
        run_id = run.id;
        finding_id = f.id;
        input = routing_input run permissions spent authorized tested f;
      }))
  when (is_escalate decision.decision) (
      enqueue_job (record {
        job_type = run_strix_validation;
        organization_id = run.organization_id;
        idempotency_key = of_finding_job run.idempotency_key "strix" f.id;
        payload = finding_payload run.id f.id;
      }))

-- `stillQueued`, among the findings that the run had touched
abbrev pub still_queued : List Finding → Db → ℕ
still_queued touched db = length (
    keep (λ f. FindingStatus.same f.status validation_queued)
      (keep (λ f. any (λ g. g.id == f.id) touched) db.findings))

unfoldable pub after_routing : SecurityRun → ℕ → Action Db (Unit {0})
after_routing run queued =
    if ltb 0 queued
    then transaction
        (transition_run_status (run_move run.id validation_running "run.validation_running"))
    else finalize_run run.id

unfoldable pub apply_routing_policy_handler : ℕ → Action Db (Unit {0})
apply_routing_policy_handler run_id = do
  found ← gets (find_run run_id)
  run ← or_throw found record_missing
  found_agent ← gets (λ db. find_by (λ a. a.id) run.requested_by_agent_id db.agent_identities)
  agent ← or_throw found_agent record_missing
  touched ← gets (findings_of_run run.id)
  spent ← gets (spent_so_far run.id)
  authorized ← target_authorized run agent.permissions run.target_environment_id
  for_each (keep (λ f. FindingStatus.same f.status source_confirmed) touched)
      (route_finding run agent.permissions spent authorized)
  queued ← gets (still_queued touched)
  after_routing run queued
