-- ===== src/Audited/Correlation.antt =====
-- The correlation engine keeps the promise of the audit log.
use shld.Prelude.{ℕ, String, Option, none, some, List, refl}
use shld.Action.Keeps.{Keeps}
use shld.Domain.Creation.{NewFinding}
use shld.Domain.FindingStatus.{FindingStatus}
use shld.Domain.Trail.{IsAudited}
use shld.Domain.Trail.Creation.{update_finding-IsAudited}
use shld.Domain.Transitions.{update_finding}
use shld.Correlation.Correlate.{
  CorrelateStrixValidationParams, seen_at, confirm_validation, walk_to_confirmed, attach_discovery,
  create_dynamic_finding, correlate_discovery, correlate_existing, correlate_mission,
  correlate_strix_validation,
}
use shld.Engines.DeepSec.{StoredArtifact}
use shld.Engines.Strix.{StrixNewDiscovery}
use shld.Store.Rows.{Finding}
use shld.Audited.Engines.{finding_rules, persist_strix_run-IsAudited}

confirm_validation-IsAudited :
    (params : CorrelateStrixValidationParams) (id execution_id : ℕ)
    → Keeps IsAudited (confirm_validation params id execution_id)
unfolding confirm_validation
confirm_validation-IsAudited params id execution_id = search finding_rules depth 9

walk_to_confirmed-IsAudited :
    (id run_id : ℕ) (path : List FindingStatus) → Keeps IsAudited (walk_to_confirmed id run_id path)
unfolding walk_to_confirmed
walk_to_confirmed-IsAudited id run_id path = search finding_rules

seen_at-IsAudited :
    (params : CorrelateStrixValidationParams) (id : ℕ)
    → Keeps IsAudited (update_finding id (seen_at params))
seen_at-IsAudited params id = update_finding-IsAudited id (seen_at params) (λ g. refl) (λ g. refl)

attach_discovery-IsAudited :
    (params : CorrelateStrixValidationParams) (new : NewFinding) (execution_id : ℕ)
    (found : Option Finding)
    → Keeps IsAudited (attach_discovery params new execution_id found)
unfolding attach_discovery
attach_discovery-IsAudited params new execution_id none =
    search (finding_rules, walk_to_confirmed-IsAudited, confirm_validation-IsAudited) depth 9
attach_discovery-IsAudited params new execution_id (some f) =
    search (finding_rules, confirm_validation-IsAudited, seen_at-IsAudited) depth 9

module _ (store : String → String → StoredArtifact) (sha256 : List ℕ → String)
    (key_text : ℕ → String) where
  create_dynamic_finding-IsAudited :
      (params : CorrelateStrixValidationParams) (discovery : StrixNewDiscovery)
      → Keeps IsAudited (create_dynamic_finding store sha256 key_text params discovery)
  unfolding create_dynamic_finding
  create_dynamic_finding-IsAudited params discovery =
      search (finding_rules, attach_discovery-IsAudited) depth 12

  correlate_discovery-IsAudited :
      (params : CorrelateStrixValidationParams) (discovery : Option StrixNewDiscovery)
      → Keeps IsAudited (correlate_discovery store sha256 key_text params discovery)
  unfolding correlate_discovery
  correlate_discovery-IsAudited params none = search finding_rules
  correlate_discovery-IsAudited params (some d) =
      search (finding_rules, create_dynamic_finding-IsAudited)

  correlate_existing-IsAudited :
      (params : CorrelateStrixValidationParams) (id : ℕ)
      → Keeps IsAudited (correlate_existing store sha256 key_text params id)
  unfolding correlate_existing
  correlate_existing-IsAudited params id =
      search (finding_rules, persist_strix_run-IsAudited store) depth 9

  correlate_tied :
      (params : CorrelateStrixValidationParams) (id : Option ℕ)
      → Keeps IsAudited (correlate_mission store sha256 key_text params id)
  unfolding correlate_mission
  correlate_tied params none = search (finding_rules, correlate_discovery-IsAudited)
  correlate_tied params (some id) = search (finding_rules, correlate_existing-IsAudited)

  pub correlate_strix_validation-IsAudited :
      (params : CorrelateStrixValidationParams)
      → Keeps IsAudited (correlate_strix_validation store sha256 key_text params)
  unfolding correlate_strix_validation
  correlate_strix_validation-IsAudited params = correlate_tied params params.finding_id
