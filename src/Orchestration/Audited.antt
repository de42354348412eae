-- ===== src/Orchestration/Audited.antt =====
-- The job handlers keep the promise of the audit log.
use shld.Prelude.{ℕ, String, Bool, Option, none, some, List}
use shld.Action.{Result}
use shld.Action.Keeps.{Keeps}
use shld.Audited.Engines.{persist_deepsec_run-IsAudited, persist_strix_run-IsAudited}
use shld.Audited.Correlation.{correlate_strix_validation-IsAudited}
use shld.Domain.Trail.{IsAudited}
use shld.Domain.Trail.Rules.{audit_rules, elsewhere-IsAudited, transition_run_status-IsAudited}
use shld.Engines.DeepSec.{StoredArtifact, DeepSecRunResult}
use shld.Engines.Strix.{StrixRunResult}
use shld.Orchestration.Finalize.{announce, conclude, finalize_run}
use shld.Orchestration.Runtime.{run_strix_validation_handler, run_strix_retest_handler}
use shld.Orchestration.SourceReview.{
  run_deepsec_handler, complete_source_only, queue_retest, after_revalidation,
  run_deepsec_revalidation_handler,
}
use shld.Orchestration.Webhooks.{
  enqueue_job, upsert_delivery, deliver_to, EnqueueWebhookDeliveryParams, enqueue_webhook_delivery,
}
use shld.Domain.RunStatus.{RunStatus}
use shld.Remediation.Audited.{complete_fix_verification-IsAudited}
use shld.Store.Rows.{
  Artifact, DeliveryKey, Finding, JobRequest, Remediation, SecurityRun, TargetEnvironment,
  WebhookDelivery, WebhookEndpoint,
}

pub enqueue_job-IsAudited : (job : JobRequest) → Keeps IsAudited (enqueue_job job)
unfolding enqueue_job
enqueue_job-IsAudited job = search (audit_rules, elsewhere-IsAudited) depth 8

upsert_delivery-IsAudited :
    (id : ℕ) (key : DeliveryKey) (found : Option WebhookDelivery)
    → Keeps IsAudited (upsert_delivery id key found)
unfolding upsert_delivery
upsert_delivery-IsAudited id key none = search (audit_rules, elsewhere-IsAudited) depth 8
upsert_delivery-IsAudited id key (some row) = search audit_rules depth 8

deliver_to-IsAudited :
    (params : EnqueueWebhookDeliveryParams) (endpoint : WebhookEndpoint)
    → Keeps IsAudited (deliver_to params endpoint)
unfolding deliver_to
deliver_to-IsAudited params endpoint =
    search (audit_rules, upsert_delivery-IsAudited, enqueue_job-IsAudited) depth 9

enqueue_webhook_delivery-IsAudited :
    (params : EnqueueWebhookDeliveryParams) → Keeps IsAudited (enqueue_webhook_delivery params)
unfolding enqueue_webhook_delivery
enqueue_webhook_delivery-IsAudited params = search (audit_rules, deliver_to-IsAudited) depth 9

announce-IsAudited :
    (run : SecurityRun) (run_id : ℕ) (status : RunStatus)
    → Keeps IsAudited (announce run run_id status)
unfolding announce
announce-IsAudited run run_id status =
    search (audit_rules, enqueue_job-IsAudited, enqueue_webhook_delivery-IsAudited) depth 9

conclude-IsAudited : (run : SecurityRun) (run_id : ℕ) → Keeps IsAudited (conclude run run_id)
unfolding conclude
conclude-IsAudited run run_id =
    search (audit_rules, transition_run_status-IsAudited, announce-IsAudited) depth 9

pub finalize_run-IsAudited : (run_id : ℕ) → Keeps IsAudited (finalize_run run_id)
unfolding finalize_run
finalize_run-IsAudited run_id = search (audit_rules, conclude-IsAudited) depth 9

complete_source_only-IsAudited :
    (run : SecurityRun) (id : ℕ) (passed : Option Bool)
    → Keeps IsAudited (complete_source_only run id passed)
unfolding complete_source_only
complete_source_only-IsAudited run id passed =
    search (audit_rules, complete_fix_verification-IsAudited, finalize_run-IsAudited) depth 9

queue_retest-IsAudited :
    (run : SecurityRun) (id : ℕ) (passed : Option Bool)
    → Keeps IsAudited (queue_retest run id passed)
unfolding queue_retest
queue_retest-IsAudited run id passed =
    search (audit_rules, transition_run_status-IsAudited, enqueue_job-IsAudited) depth 9

after_revalidation-IsAudited :
    (run : SecurityRun) (id : ℕ) (fix : Option Remediation) (passed : Option Bool)
    → Keeps IsAudited (after_revalidation run id fix passed)
unfolding after_revalidation
after_revalidation-IsAudited run id fix passed =
    search (audit_rules, queue_retest-IsAudited, complete_source_only-IsAudited) depth 9

module _ (store : String → String → StoredArtifact) where
  pub run_deepsec_handler-IsAudited :
      (engine : SecurityRun → Artifact → Result DeepSecRunResult) (run_id : ℕ)
      → Keeps IsAudited (run_deepsec_handler store engine run_id)
  unfolding run_deepsec_handler
  run_deepsec_handler-IsAudited engine run_id =
      search
        (
          audit_rules, persist_deepsec_run-IsAudited, transition_run_status-IsAudited,
          enqueue_job-IsAudited,
        )
        depth 16

  pub run_deepsec_revalidation_handler-IsAudited :
      (engine : SecurityRun → Artifact → Finding → Result DeepSecRunResult) (run_id id : ℕ)
      → Keeps IsAudited (run_deepsec_revalidation_handler store engine run_id id)
  unfolding run_deepsec_revalidation_handler
  run_deepsec_revalidation_handler-IsAudited engine run_id id =
      search
        (
          audit_rules, persist_deepsec_run-IsAudited, transition_run_status-IsAudited,
          after_revalidation-IsAudited,
        )
        depth 20

module _ (store : String → String → StoredArtifact) (sha256 : List ℕ → String)
    (key_text : ℕ → String)
    (engine : SecurityRun → Finding → TargetEnvironment → Result StrixRunResult) where
  pub run_strix_validation_handler-IsAudited :
      (run_id id : ℕ)
      → Keeps IsAudited (run_strix_validation_handler store sha256 key_text engine run_id id)
  unfolding run_strix_validation_handler
  run_strix_validation_handler-IsAudited run_id id =
      search (audit_rules, correlate_strix_validation-IsAudited, finalize_run-IsAudited) depth 20

  pub run_strix_retest_handler-IsAudited :
      (run_id id : ℕ)
      → Keeps IsAudited (run_strix_retest_handler store sha256 key_text engine run_id id)
  unfolding run_strix_retest_handler
  run_strix_retest_handler-IsAudited run_id id =
      search
        (
          audit_rules, persist_strix_run-IsAudited, complete_fix_verification-IsAudited,
          finalize_run-IsAudited,
        )
        depth 22
