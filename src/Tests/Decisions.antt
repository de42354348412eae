-- ===== src/Tests/Decisions.antt =====
-- The decisions at concrete inputs.
use shld.Prelude.{◌≡◌, refl, some, true, false, inl, inr, Bool}
use shld.Prelude.Int.{pos}
use shld.Policy.Routing.{
  RoutingPolicyInput, evaluate_routing_policy, escalates_iff, escalate, PassesGates,
}
use shld.Remediation.Outcome.{
  DetermineVerificationOutcomeParams, determine_verification_outcome, unanimous_iff,
}
use shld.Store.Rows.{still_exploitable, FindingSeverity, FindingConfidence}

-- a retest on the fixed build, after which the attack still works or no longer works
abbrev retested : Bool → DetermineVerificationOutcomeParams
retested fixed = record {
  source_revalidation_passed = some fixed;
  runtime_retest_required = true;
  runtime_retest_passed = some fixed;
  target_build_matches_fix_commit = true;
  operational_failure = false;
}

unanimous_iff_example : determine_verification_outcome (retested false) ≡ still_exploitable
unanimous_iff_example = (unanimous_iff (retested false) false).1 (refl, refl, inr (refl, refl))

abbrev critical_injection : RoutingPolicyInput
critical_injection = record {
  severity = FindingSeverity.critical;
  confidence = FindingConfidence.medium;
  category = "sql-injection";
  is_code_quality_issue = false;
  runtime_behavior_required = false;
  target_authorized = true;
  target_is_production = false;
  can_be_exercised_dynamically = true;
  already_tested_against_build = false;
  remaining_budget = pos 5000000;
  estimated_validation_cost = 2000000;
  policy_version = "v1";
}

within_gates : PassesGates critical_injection
within_gates = record {
  authorized = refl;
  staging = refl;
  exercisable = refl;
  severe = refl;
  security = refl;
  untested = refl;
  affordable = refl;
}

escalates_iff_example : (evaluate_routing_policy critical_injection).decision ≡ escalate
escalates_iff_example = (escalates_iff critical_injection).1 (within_gates, inl refl)
