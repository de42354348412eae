-- ===== src/Services/Audited.antt =====
-- The API services keep the promise of the audit log.
use shld.Prelude.{ℕ, String, Option, none, some, List}
use shld.Action.Keeps.{Keeps}
use shld.Access.Authorize.{AuthorizeRepositoryParams, authorize_repository_for_run}
use shld.Domain.Trail.{IsAudited}
use shld.Domain.Trail.Findings.{transition_finding_status-IsAudited}
use shld.Domain.Trail.Rules.{audit_rules, create_run-IsAudited, transition_run_status-IsAudited}
use shld.Orchestration.Audited.{enqueue_job-IsAudited}
use shld.Orchestration.RouteAudited.{authorize_target_environment-IsAudited}
use shld.Remediation.Audited.{submit_fix-IsAudited, start_fix_verification-IsAudited}
use shld.Services.Requests.{
  AuthenticatedAgent, load_owned_finding, queue_if_confirmed, validate_finding,
  submit_fix_for_finding, check_given_target, verify_fix_for_finding, cancel_run,
}
use shld.Services.Review.{CreateSecurityReviewParams, create_or_reuse, create_security_review}
use shld.Store.Rows.{Finding, RunType, SecurityRun}

authorize_repository_for_run-IsAudited :
    (params : AuthorizeRepositoryParams) → Keeps IsAudited (authorize_repository_for_run params)
unfolding authorize_repository_for_run
authorize_repository_for_run-IsAudited params = search audit_rules depth 16

load_owned_finding-IsAudited :
    (a : AuthenticatedAgent) (id : ℕ) → Keeps IsAudited (load_owned_finding a id)
unfolding load_owned_finding
load_owned_finding-IsAudited a id = search audit_rules depth 12

queue_if_confirmed-IsAudited :
    (a : AuthenticatedAgent) (f : Finding) → Keeps IsAudited (queue_if_confirmed a f)
unfolding queue_if_confirmed
queue_if_confirmed-IsAudited a f = search (audit_rules, transition_finding_status-IsAudited) depth 9

check_given_target-IsAudited :
    (a : AuthenticatedAgent) (repository_id : ℕ) (target : Option ℕ)
    → Keeps IsAudited (check_given_target a repository_id target)
unfolding check_given_target
check_given_target-IsAudited a repository_id none = search audit_rules depth 9
check_given_target-IsAudited a repository_id (some id) =
    search (audit_rules, authorize_target_environment-IsAudited) depth 9

pub submit_fix_for_finding-IsAudited :
    (a : AuthenticatedAgent) (id : ℕ) (sha : String)
    → Keeps IsAudited (submit_fix_for_finding a id sha)
unfolding submit_fix_for_finding
submit_fix_for_finding-IsAudited a id sha =
    search (audit_rules, load_owned_finding-IsAudited, submit_fix-IsAudited) depth 12

pub cancel_run-IsAudited : (a : AuthenticatedAgent) (id : ℕ) → Keeps IsAudited (cancel_run a id)
unfolding cancel_run
cancel_run-IsAudited a id = search (audit_rules, transition_run_status-IsAudited) depth 12

create_or_reuse-IsAudited :
    (params : CreateSecurityReviewParams) (run_type : RunType) (id : ℕ) (version key : String)
    (existing : Option SecurityRun)
    → Keeps IsAudited (create_or_reuse params run_type id version key existing)
unfolding create_or_reuse
create_or_reuse-IsAudited params run_type id version key none =
    search (audit_rules, create_run-IsAudited, enqueue_job-IsAudited) depth 12
create_or_reuse-IsAudited params run_type id version key (some run) = search audit_rules depth 9

module _ (sha256 : List ℕ → String) (key_text : ℕ → String) where
  pub validate_finding-IsAudited :
      (a : AuthenticatedAgent) (id target : ℕ)
      → Keeps IsAudited (validate_finding sha256 key_text a id target)
  unfolding validate_finding
  validate_finding-IsAudited a id target =
      search
        (
          audit_rules, load_owned_finding-IsAudited, authorize_target_environment-IsAudited,
          queue_if_confirmed-IsAudited, create_run-IsAudited, enqueue_job-IsAudited,
        )
        depth 20

  pub verify_fix_for_finding-IsAudited :
      (a : AuthenticatedAgent) (id : ℕ) (target : Option ℕ)
      → Keeps IsAudited (verify_fix_for_finding sha256 key_text a id target)
  unfolding verify_fix_for_finding
  verify_fix_for_finding-IsAudited a id target =
      search
        (
          audit_rules, load_owned_finding-IsAudited, check_given_target-IsAudited,
          start_fix_verification-IsAudited, enqueue_job-IsAudited,
        )
        depth 20

  pub create_security_review-IsAudited :
      (params : CreateSecurityReviewParams)
      → Keeps IsAudited (create_security_review sha256 key_text params)
  unfolding create_security_review
  create_security_review-IsAudited params =
      search
        (
          audit_rules, authorize_repository_for_run-IsAudited, check_given_target-IsAudited,
          create_or_reuse-IsAudited,
        )
        depth 24
