-- ===== src/Policy/Routing.antt =====
-- src/policy/routing-policy.ts. A reason is data here: the source renders it as an English sentence.
-- Amounts are millionths of a dollar; the remaining budget may be negative.
use shld.Prelude.{
  ap, sym, ◌∙◌, ◌≡◌, ◌↔◌, ◌⊎◌, ℕ, String, Bool, true, false, not, ◌&&◌, List, [], ◌∷◌, ◌++◌, any,
  arith, if◌then◌else◌,
}
use shld.Prelude.Text.{codes, trim, to_lower_case, text_eq}
use shld.Prelude.Int.{ℤ, lt_ℕ}
use shld.Store.Rows.{FindingSeverity, critical, high, low, info, FindingConfidence}

pub record RoutingPolicyInput : Type 0 where
  pub severity : FindingSeverity
  pub confidence : FindingConfidence
  pub category : String
  pub is_code_quality_issue : Bool
  pub runtime_behavior_required : Bool
  pub target_authorized : Bool
  pub target_is_production : Bool
  pub can_be_exercised_dynamically : Bool
  pub already_tested_against_build : Bool
  pub remaining_budget : ℤ
  pub estimated_validation_cost : ℕ
  pub policy_version : String

pub data RoutingDecisionOutcome : Type 0 where
  escalate skip : RoutingDecisionOutcome

pub data Signal : Type 0 where
  severity_critical severity_high_confidence_high category_escalates runtime_required : Signal

pub data Reason : Type 0 where
  not_authorized production not_exercisable below_threshold code_quality already_tested over_budget
        no_rule :
      Reason
  requested : List Signal → Reason

pub record RoutingDecisionResult : Type 0 where
  pub decision : RoutingDecisionOutcome
  pub reason : Reason
  pub policy_version : String
  pub inputs : RoutingPolicyInput

abbrev pub auto_escalate_categories : List String
auto_escalate_categories =
    "authentication" ∷ "authorization" ∷ "tenant-isolation" ∷ "payment-manipulation"
    ∷ "business-logic" ∷ []

decide : RoutingDecisionOutcome → Reason → RoutingPolicyInput → RoutingDecisionResult
decide decision reason inputs = record {
  decision = decision;
  reason = reason;
  policy_version = inputs.policy_version;
  inputs = inputs;
}

abbrev pub is_low_or_info : FindingSeverity → Bool
is_low_or_info low = true
is_low_or_info info = true
is_low_or_info _ = false

abbrev pub is_critical : FindingSeverity → Bool
is_critical critical = true
is_critical _ = false

abbrev pub is_high : FindingSeverity → Bool
is_high high = true
is_high _ = false

abbrev pub is_high_confidence : FindingConfidence → Bool
is_high_confidence FindingConfidence.high = true
is_high_confidence _ = false

-- `AUTO_ESCALATE_CATEGORIES.has(category.trim().toLowerCase())`
unfoldable pub escalates_by_category : String → Bool
escalates_by_category category =
    any (λ c. text_eq (to_lower_case (trim (codes category))) (codes c)) auto_escalate_categories

-- `if (test) reasons.push(signal)`
abbrev push_if : Bool → Signal → List Signal → List Signal
push_if test signal reasons = reasons ++ (if test then signal ∷ [] else [])

unfoldable pub signals : RoutingPolicyInput → List Signal
signals input = push_if input.runtime_behavior_required runtime_required (
    push_if (escalates_by_category input.category) category_escalates (
      push_if (is_high input.severity && is_high_confidence input.confidence)
        severity_high_confidence_high (push_if (is_critical input.severity) severity_critical [])))

-- the part after the hard gates
unfoldable pub by_signals : RoutingPolicyInput → List Signal → RoutingDecisionResult
unfolding decide
by_signals input [] = decide skip no_rule input
by_signals input (s ∷ ss) = decide escalate (requested (s ∷ ss)) input

unfoldable pub evaluate_routing_policy : RoutingPolicyInput → RoutingDecisionResult
unfolding decide by_signals signals
evaluate_routing_policy input =
    if not input.target_authorized
    then decide skip not_authorized input
    else if input.target_is_production
    then decide skip production input
    else if not input.can_be_exercised_dynamically
    then decide skip not_exercisable input
    else if is_low_or_info input.severity
    then decide skip below_threshold input
    else if input.is_code_quality_issue
    then decide skip code_quality input
    else if input.already_tested_against_build
    then decide skip already_tested input
    else if lt_ℕ input.remaining_budget input.estimated_validation_cost
    then decide skip over_budget input
    else by_signals input (signals input)

-- What the hard gates let through: an authorized target that is no production, a finding that can
-- be exercised and is not tested yet, of at least medium severity, within the budget.
pub record PassesGates (input : RoutingPolicyInput) : Type 0 where
  pub authorized : input.target_authorized ≡ true
  pub staging : input.target_is_production ≡ false
  pub exercisable : input.can_be_exercised_dynamically ≡ true
  pub severe : is_low_or_info input.severity ≡ false
  pub security : input.is_code_quality_issue ≡ false
  pub untested : input.already_tested_against_build ≡ false
  pub affordable : lt_ℕ input.remaining_budget input.estimated_validation_cost ≡ false

-- What asks for a validation: a critical severity, a high one with high confidence, a category on
-- the list, or a behaviour that only shows at run time.
abbrev pub HasSignal : RoutingPolicyInput → Type 0
HasSignal input =
    (input.severity ≡ critical)
    ⊎ ((input.severity ≡ high) × (input.confidence ≡ FindingConfidence.high))
    ⊎ (escalates_by_category input.category ≡ true)
    ⊎ (input.runtime_behavior_required ≡ true)

-- The gates win over every signal.
gates :
    (input : RoutingPolicyInput)
    → (evaluate_routing_policy input).decision ≡ escalate
    → PassesGates input
unfolding evaluate_routing_policy
gates input h = ground arith

signal :
    (input : RoutingPolicyInput)
    → (by_signals input (signals input)).decision ≡ escalate
    → HasSignal input
unfolding by_signals signals
signal input h = ground arith

signal_conv :
    (input : RoutingPolicyInput)
    → HasSignal input
    → (by_signals input (signals input)).decision ≡ escalate
unfolding by_signals signals
signal_conv input h = ground arith

past_gates :
    (input : RoutingPolicyInput)
    → PassesGates input
    → evaluate_routing_policy input ≡ by_signals input (signals input)
unfolding evaluate_routing_policy
past_gates input g =
    rw (g.authorized, g.staging, g.exercisable, g.severe, g.security, g.untested, g.affordable)

-- A finding is escalated exactly when its target is authorized and no production, it can be
-- exercised dynamically, its severity is at least medium, it is no code-quality issue, it is
-- untested against the build, the cost fits the budget, and it has a signal: critical severity,
-- high severity with high confidence, a category on the list, or required runtime behaviour.
pub escalates_iff :
    (input : RoutingPolicyInput)
    → ((evaluate_routing_policy input).decision ≡ escalate) ↔ (PassesGates input × HasSignal input)
escalates_iff input = (
  λ h.
      let g = gates input h in
      (g, signal input (ap (λ r. r.decision) (sym (past_gates input g)) ∙ h)),
  λ (g, s). ap (λ r. r.decision) (past_gates input g) ∙ signal_conv input s,
)
