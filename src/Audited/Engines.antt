-- ===== src/Audited/Engines.antt =====
-- The two `persist` functions keep the promise of the audit log.
use shld.Prelude.{ℕ, String, Option, none, some, refl}
use shld.Action.Keeps.{Keeps}
use shld.Domain.FindingStatus.{FindingStatus}
use shld.Domain.Trail.{IsAudited}
use shld.Domain.Trail.Findings.{transition_finding_status-IsAudited}
use shld.Domain.Trail.Creation.{create_finding-IsAudited, update_finding-IsAudited}
use shld.Domain.Trail.Rules.{audit_rules}
use shld.Engines.DeepSec.{
  StoredArtifact, UpsertFindingParams, upsert_found, seen_again, upsert_finding,
  PersistDeepSecRunParams, persist_deepsec_body, persist_deepsec_run,
}
use shld.Engines.Strix.{
  PersistStrixRunParams, advance_finding, store_proof, persist_strix_body, persist_strix_run,
}
use shld.Store.Rows.{Finding}

pub ruleset finding_rules =
    (audit_rules, transition_finding_status-IsAudited, create_finding-IsAudited)

upsert_found-IsAudited :
    (params : UpsertFindingParams) (found : Option Finding)
    → Keeps IsAudited (upsert_found params found)
unfolding upsert_found
upsert_found-IsAudited params none = search finding_rules depth 9
upsert_found-IsAudited params (some f) =
    search
      (finding_rules, update_finding-IsAudited f.id (seen_again params) (λ g. refl) (λ g. refl))
      depth 9

upsert_finding-IsAudited : (params : UpsertFindingParams) → Keeps IsAudited (upsert_finding params)
unfolding upsert_finding
upsert_finding-IsAudited params = search (finding_rules, upsert_found-IsAudited)

pub advance_finding-IsAudited :
    (id run_id : ℕ) (status : Option FindingStatus)
    → Keeps IsAudited (advance_finding id run_id status)
unfolding advance_finding
advance_finding-IsAudited id run_id none = search finding_rules
advance_finding-IsAudited id run_id (some status) = search finding_rules

module _ (store : String → String → StoredArtifact) where
  persist_deepsec_body-IsAudited :
      (params : PersistDeepSecRunParams) → Keeps IsAudited (persist_deepsec_body store params)
  unfolding persist_deepsec_body
  persist_deepsec_body-IsAudited params = search (finding_rules, upsert_finding-IsAudited) depth 9

  pub persist_deepsec_run-IsAudited :
      (params : PersistDeepSecRunParams) → Keeps IsAudited (persist_deepsec_run store params)
  unfolding persist_deepsec_run
  persist_deepsec_run-IsAudited params = search (finding_rules, persist_deepsec_body-IsAudited)

  store_proof-IsAudited :
      (params : PersistStrixRunParams) (poc : Option String)
      → Keeps IsAudited (store_proof store params poc)
  unfolding store_proof
  store_proof-IsAudited params none = search finding_rules
  store_proof-IsAudited params (some poc) = search finding_rules depth 9

  persist_strix_body-IsAudited :
      (params : PersistStrixRunParams) → Keeps IsAudited (persist_strix_body store params)
  unfolding persist_strix_body
  persist_strix_body-IsAudited params =
      search (finding_rules, store_proof-IsAudited, advance_finding-IsAudited) depth 16

  pub persist_strix_run-IsAudited :
      (params : PersistStrixRunParams) → Keeps IsAudited (persist_strix_run store params)
  unfolding persist_strix_run
  persist_strix_run-IsAudited params = search (finding_rules, persist_strix_body-IsAudited)
