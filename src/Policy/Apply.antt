-- ===== src/Policy/Apply.antt =====
-- src/policy/apply-routing-policy.ts
use shld.Prelude.{ℕ, Bool, true, false, some}
use shld.Action.{Action, pure, ◌>>◌, when}
use shld.Domain.FindingStatus.{validation_queued}
use shld.Domain.Transitions.{transition_finding_status}
use shld.Policy.Routing.{
  RoutingPolicyInput, RoutingDecisionResult, RoutingDecisionOutcome, escalate,
  evaluate_routing_policy,
}
use shld.Store.{Db}
use shld.Store.Writes.{create_routing_decision}
use shld.Store.Rows.{system_actor}

pub record ApplyRoutingPolicyParams : Type 0 where
  pub run_id : ℕ
  pub finding_id : ℕ
  pub input : RoutingPolicyInput

abbrev pub is_escalate : RoutingDecisionOutcome → Bool
is_escalate escalate = true
is_escalate _ = false

unfoldable pub apply_routing_policy : ApplyRoutingPolicyParams → Action Db RoutingDecisionResult
apply_routing_policy params = do
  let result = evaluate_routing_policy params.input
  create_routing_decision (record {
    run_id = params.run_id;
    finding_id = params.finding_id;
    policy_version = result.policy_version;
    escalate = is_escalate result.decision;
  })
  when (is_escalate result.decision) (
      transition_finding_status (record {
        finding_id = params.finding_id;
        to = validation_queued;
        actor = system_actor;
        event_type = "finding.validation_queued";
        run_id = some params.run_id;
      }))
  pure result
