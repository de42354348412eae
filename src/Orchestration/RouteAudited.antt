-- ===== src/Orchestration/RouteAudited.antt =====
-- The preparation, the classification and the routing of a run keep the promise of the audit log.
use shld.Prelude.{String, ℕ, Bool, true, false, Option, none, some}
use shld.Action.Keeps.{Keeps}
use shld.Access.Permissions.{AgentPermissions}
use shld.Access.Authorize.{AuthorizeTargetEnvironmentParams, authorize_target_environment}
use shld.Audited.Policy.{apply_routing_policy-IsAudited}
use shld.Domain.Trail.{IsAudited}
use shld.Domain.Trail.Rules.{audit_rules, elsewhere-IsAudited, transition_run_status-IsAudited}
use shld.Orchestration.Audited.{enqueue_job-IsAudited, finalize_run-IsAudited}
use shld.Orchestration.Route.{
  target_authorized, route_finding, after_routing, apply_routing_policy_handler,
}
use shld.Action.{Result}
use shld.Engines.DeepSec.{StoredArtifact}
use shld.Orchestration.Deliver.{
  Response, update_delivery, send, deliver_webhook_handler, replay_webhook_delivery,
}
use shld.Orchestration.Prepare.{
  SourceSnapshot, create_classification, queue_next, prepare_repository_handler,
  classify_change_handler,
}
use shld.Store.Rows.{WebhookDelivery, WebhookEndpoint, RunClassification, Finding, SecurityRun}

pub authorize_target_environment-IsAudited :
    (params : AuthorizeTargetEnvironmentParams)
    → Keeps IsAudited (authorize_target_environment params)
unfolding authorize_target_environment
authorize_target_environment-IsAudited params = search audit_rules depth 20

target_authorized-IsAudited :
    (run : SecurityRun) (permissions : AgentPermissions) (id : Option ℕ)
    → Keeps IsAudited (target_authorized run permissions id)
unfolding target_authorized
target_authorized-IsAudited run permissions none = search audit_rules depth 8
target_authorized-IsAudited run permissions (some id) =
    search (audit_rules, authorize_target_environment-IsAudited) depth 8

route_finding-IsAudited :
    (run : SecurityRun) (permissions : AgentPermissions) (spent : ℕ) (authorized : Bool)
    (f : Finding)
    → Keeps IsAudited (route_finding run permissions spent authorized f)
unfolding route_finding
route_finding-IsAudited run permissions spent authorized f =
    search (audit_rules, apply_routing_policy-IsAudited, enqueue_job-IsAudited) depth 12

after_routing-IsAudited :
    (run : SecurityRun) (queued : ℕ) → Keeps IsAudited (after_routing run queued)
unfolding after_routing
after_routing-IsAudited run queued =
    search (audit_rules, transition_run_status-IsAudited, finalize_run-IsAudited) depth 9

pub apply_routing_policy_handler-IsAudited :
    (run_id : ℕ) → Keeps IsAudited (apply_routing_policy_handler run_id)
unfolding apply_routing_policy_handler
apply_routing_policy_handler-IsAudited run_id =
    search
      (audit_rules, target_authorized-IsAudited, route_finding-IsAudited, after_routing-IsAudited)
      depth 22

create_classification-IsAudited :
    (row : RunClassification) → Keeps IsAudited (create_classification row)
unfolding create_classification
create_classification-IsAudited row = search (audit_rules, elsewhere-IsAudited) depth 9

queue_next-IsAudited :
    (run : SecurityRun) (is_verification : Bool) → Keeps IsAudited (queue_next run is_verification)
unfolding queue_next
queue_next-IsAudited run false = search (audit_rules, enqueue_job-IsAudited) depth 9
queue_next-IsAudited run true = search (audit_rules, enqueue_job-IsAudited) depth 9

pub prepare_repository_handler-IsAudited :
    (store : String → String → StoredArtifact) (materialize : SecurityRun → Result SourceSnapshot)
    (run_id : ℕ)
    → Keeps IsAudited (prepare_repository_handler store materialize run_id)
unfolding prepare_repository_handler
prepare_repository_handler-IsAudited store materialize run_id =
    search (audit_rules, transition_run_status-IsAudited, queue_next-IsAudited) depth 16

pub classify_change_handler-IsAudited :
    (run_id : ℕ) → Keeps IsAudited (classify_change_handler run_id)
unfolding classify_change_handler
classify_change_handler-IsAudited run_id =
    search
      (
        audit_rules, create_classification-IsAudited, transition_run_status-IsAudited,
        enqueue_job-IsAudited,
      )
      depth 22

update_delivery-IsAudited :
    (id : ℕ) (change : WebhookDelivery → WebhookDelivery)
    → Keeps IsAudited (update_delivery id change)
unfolding update_delivery
update_delivery-IsAudited id change = search (audit_rules, elsewhere-IsAudited) depth 9

send-IsAudited :
    (receiver : WebhookDelivery → WebhookEndpoint → Option Response) (attempt : ℕ)
    (d : WebhookDelivery)
    → Keeps IsAudited (send receiver attempt d)
unfolding send
send-IsAudited receiver attempt d = search (audit_rules, update_delivery-IsAudited) depth 12

pub deliver_webhook_handler-IsAudited :
    (receiver : WebhookDelivery → WebhookEndpoint → Option Response) (attempt id : ℕ)
    → Keeps IsAudited (deliver_webhook_handler receiver attempt id)
unfolding deliver_webhook_handler
deliver_webhook_handler-IsAudited receiver attempt id = search (audit_rules, send-IsAudited) depth 9

pub replay_webhook_delivery-IsAudited : (id : ℕ) → Keeps IsAudited (replay_webhook_delivery id)
unfolding replay_webhook_delivery
replay_webhook_delivery-IsAudited id =
    search (audit_rules, update_delivery-IsAudited, enqueue_job-IsAudited) depth 16
