-- ===== src/Tests/Access.antt =====
-- An agent of another organization, and a target.
use shld.Prelude.{◌≡◌, ◌≢◌, ◌⊎◌, none, false, List, [], ◌∷◌, arith}
use shld.Access.Authorize.{AuthorizeTargetEnvironmentParams, authorize_target_environment}
use shld.Access.AuthorizeLaws.{IsOpenTo, Refused, authorize_target_environment-open}
use shld.Access.Permissions.{AgentPermissions, everything, only}
use shld.Action.{ok}
use shld.Audited.Service.{new_target, Service}
use shld.Orchestration.RouteLaws.{RoutesNothing, unauthorized-RoutesNothing}
use shld.Services.Requests.{AuthenticatedAgent, mcp}
use shld.Services.Tenancy.{IsShutOut, other_tenant-IsShutOut}
use shld.Store.Rows.{TargetEnvironment, authorized}
use shld.Store.Writes.{run_of}
use shld.Tests.Scenario.{
  review, reviewed, run_services, hashed, key_text, found_injection, review_finds, review_runs,
}

abbrev wide : AgentPermissions
wide = record {
  repository_ids = everything;
  operations = "validate_finding" ∷ "submit_fix" ∷ "verify_fix" ∷ [];
  target_environment_ids = only (40 ∷ []);
  max_run_budget = 5000000;
  max_concurrent_runs = 3;
}

abbrev pub stranger : AuthenticatedAgent
stranger = record { agent_identity_id = 31; organization_id = 99; type = mcp; permissions = wide }

foreign : stranger.organization_id ≢ found_injection.organization_id
foreign = omega arith

other_tenant-IsShutOut_example : IsShutOut stranger (run_services reviewed) hashed key_text 3 0
other_tenant-IsShutOut_example =
    other_tenant-IsShutOut stranger (run_services reviewed) hashed key_text 3 0 found_injection
      (run_of review 0) review_finds foreign review_runs foreign

abbrev staging : TargetEnvironment
staging = record {
  id = 40;
  organization_id = 10;
  repository_id = 20;
  authorization_status = authorized;
  authorization_expires_at = none;
  destructive_testing_allowed = false;
}

abbrev to_staging : AuthorizeTargetEnvironmentParams
to_staging = record {
  organization_id = 10;
  repository_id = 20;
  target_environment_id = 40;
  permissions = wide;
}

abbrev with_staging : List Service
with_staging = new_target staging ∷ []

authorize_target_environment-open_example :
    ((t : TargetEnvironment) × IsOpenTo to_staging (run_services with_staging) t
      × (authorize_target_environment to_staging (run_services with_staging)
          ≡ (ok t, run_services with_staging)))
    ⊎ Refused to_staging (run_services with_staging)
authorize_target_environment-open_example =
    authorize_target_environment-open to_staging (run_services with_staging)

-- the routing of the review's finding, for a run without a target
unauthorized-RoutesNothing_example :
    RoutesNothing (run_of review 0) wide 100 (found_injection ∷ []) (run_services reviewed)
unauthorized-RoutesNothing_example =
    unauthorized-RoutesNothing (run_of review 0) wide 100 (found_injection ∷ [])
      (run_services reviewed)
