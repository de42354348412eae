-- ===== src/Tests/Scenario.antt =====
-- A finding that DeepSec reports with high confidence, and the life of its fix.
use shld.Prelude.{ℕ, String, ◌≡◌, refl, true, false, none, some, List, [], ◌∷◌}
use shld.Action.{◌>>=◌, collect, for_each}
use shld.Audited.Service.{Service, new_run, deepsec, submit, start, complete, serve, empty_db}
use shld.Domain.Creation.{create_finding, find_by_fingerprint}
use shld.Domain.Transitions.{find_run, find_finding, update_finding, transition_finding_status}
use shld.Domain.StateMachine.{assert_transition, can_transition}
use shld.Domain.FindingStatus.{verified_fixed, source_confirmed, retesting}
use shld.Engines.DeepSec.{
  StoredArtifact, NormalizedFinding, PersistDeepSecRunParams, persist_deepsec_run, upsert_finding,
  upsert_found,
}
use shld.Remediation.Submit.{
  SubmitFixParams, submit_fix, submit_moves, upsert_remediation, upsert_row,
  was_ever_runtime_confirmed,
}
use shld.Remediation.Start.{StartFixVerificationParams, start_fix_verification}
use shld.Remediation.Complete.{
  CompleteFixVerificationParams, complete_fix_verification, settle_finding,
  outcome_to_finding_status,
}
use shld.Remediation.Outcome.{determine_verification_outcome}
use shld.Store.{Db}
use shld.Store.Table.{find_by, update_by}
use shld.Store.Writes.{
  NewRun, run_of, create_run, create_artifact, create_engine_execution, update_remediation,
  find_remediation,
}
use shld.Store.Rows.{
  Finding, FindingSeverity, FindingConfidence, RunType, system_actor, Engine, FindingClass,
}

-- what a run of the services opens
unfoldable pub service_run : Unit {0}
unfolding serve ◌>>=◌ collect for_each create_run persist_deepsec_run create_artifact
    create_engine_execution upsert_finding upsert_found find_by_fingerprint create_finding
    find_finding update_finding transition_finding_status assert_transition can_transition
    submit_fix submit_moves upsert_remediation upsert_row was_ever_runtime_confirmed
    find_remediation start_fix_verification complete_fix_verification update_remediation
    settle_finding outcome_to_finding_status determine_verification_outcome find_by update_by
    find_run
service_run = tt

abbrev pub stored : String → String → StoredArtifact
stored content folder = record { storage_location = folder; content_hash = content }

abbrev pub hashed : List ℕ → String
hashed text = "digest"

abbrev pub key_text : ℕ → String
key_text id = "repo"

abbrev pub review : NewRun
review = record {
  organization_id = 10;
  repository_id = 20;
  requested_by_agent_id = 30;
  run_type = RunType.change_review;
  base_sha = "aaaaaaa";
  head_sha = "bbbbbbb";
  pull_request_number = none;
  target_environment_id = none;
  policy_version = "2026-01-01";
  idempotency_key = "review";
}

abbrev pub injection : NormalizedFinding
injection = record {
  title = "SQL injection";
  description = "unescaped input";
  category = "data-access";
  cwe = none;
  severity = FindingSeverity.high;
  confidence = FindingConfidence.high;
  file_path = "db.ts";
  start_line = some 3;
  end_line = some 4;
  symbol = none;
  recommendation = none;
  fingerprint = "f1";
  revalidation_verdict = none;
}

abbrev pub source_review : PersistDeepSecRunParams
source_review = record {
  organization_id = 10;
  repository_id = 20;
  run_id = 0;
  operation = "change_review";
  head_sha = "bbbbbbb";
  result = record {
    exit_code = 0;
    raw_stdout = "{}";
    findings = injection ∷ [];
    input_tokens = 1;
    output_tokens = 1;
    estimated_cost = 100;
    engine_version = "1";
  };
}

abbrev pub fix : SubmitFixParams
fix = record { finding_id = 3; fix_commit_sha = "ccccccc"; actor = system_actor }

abbrev pub verification : StartFixVerificationParams
verification = record {
  finding_id = 3;
  organization_id = 10;
  repository_id = 20;
  requested_by_agent_id = 30;
  target_environment_id = none;
  policy_version = "2026-01-01";
  idempotency_key = "verify";
  actor = system_actor;
}

abbrev pub verdict : CompleteFixVerificationParams
verdict = record {
  finding_id = 3;
  run_id = 5;
  actor = system_actor;
  source_revalidation_passed = some true;
  runtime_retest_required = false;
  runtime_retest_passed = none;
  target_build_matches_fix_commit = false;
  operational_failure = false;
}

abbrev pub reviewed : List Service
reviewed = new_run review ∷ deepsec source_review ∷ []

abbrev pub whole_life : List Service
whole_life =
    new_run review ∷ deepsec source_review ∷ submit fix ∷ start verification ∷ complete verdict ∷ []

abbrev pub run_services : List Service → Db
run_services services = serve stored hashed key_text services empty_db

-- the finding after the review
abbrev pub found_injection : Finding
found_injection = record {
  id = 3;
  organization_id = 10;
  repository_id = 20;
  fingerprint = "f1";
  title = "SQL injection";
  description = "unescaped input";
  category = "data-access";
  cwe = none;
  severity = FindingSeverity.high;
  confidence = FindingConfidence.high;
  status = source_confirmed;
  discovery_engine = Engine.deepsec;
  finding_class = FindingClass.source;
  first_seen_commit = "bbbbbbb";
  last_seen_commit = "bbbbbbb";
  source_locations =
      (record {
        file_path = "db.ts";
        start_line = some 3;
        end_line = some 4;
        commit_sha = "bbbbbbb";
        symbol = none;
      })
      ∷ [];
}

abbrev pub fixed_injection : Finding
fixed_injection = record found_injection { status = verified_fixed }

pub review_finds : find_finding 3 (run_services reviewed) ≡ some found_injection
unfolding service_run
review_finds = refl

pub life_ends_fixed : find_finding 3 (run_services whole_life) ≡ some fixed_injection
unfolding service_run
life_ends_fixed = refl

pub review_runs : find_run 0 (run_services reviewed) ≡ some (run_of review 0)
unfolding service_run
review_runs = refl

abbrev pub under_verification : List Service
under_verification = new_run review ∷ deepsec source_review ∷ submit fix ∷ start verification ∷ []

abbrev pub retested_injection : Finding
retested_injection = record found_injection { status = retesting }

pub verification_begins : find_finding 3 (run_services under_verification) ≡ some retested_injection
unfolding service_run
verification_begins = refl
