-- ===== src/Access/Permissions.antt =====
-- src/auth/permissions.ts and src/auth/tenant-isolation.ts. Operations are named by their texts; the
-- zod schema that permissions are parsed with is not modelled.
use shld.Prelude.{ℕ, String, Bool, true, List, any, ◌==◌, str_eq, if◌then◌else◌}
use shld.Action.{Result, ok, err}
use shld.Domain.Errors.{authorization}

-- `"all"`, or the ids
pub data Scope : Type 0 where
  everything : Scope
  only : List ℕ → Scope

-- the budget is a number of millionths of a dollar
pub record AgentPermissions : Type 0 where
  pub repository_ids : Scope
  pub operations : List String
  pub target_environment_ids : Scope
  pub max_run_budget : ℕ
  pub max_concurrent_runs : ℕ

abbrev pub is_in_scope : Scope → ℕ → Bool
is_in_scope everything id = true
is_in_scope (only ids) id = any (λ i. i == id) ids

abbrev pub check : Bool → Result (Unit {0})
check allowed = if allowed then ok tt else err authorization

abbrev pub assert_repository_allowed : AgentPermissions → ℕ → Result (Unit {0})
assert_repository_allowed permissions id = check (is_in_scope permissions.repository_ids id)

abbrev pub may_perform : AgentPermissions → String → Bool
may_perform permissions operation = any (str_eq operation) permissions.operations

abbrev pub assert_operation_allowed : AgentPermissions → String → Result (Unit {0})
assert_operation_allowed permissions operation = check (may_perform permissions operation)

abbrev pub assert_target_environment_allowed : AgentPermissions → ℕ → Result (Unit {0})
assert_target_environment_allowed permissions id =
    check (is_in_scope permissions.target_environment_ids id)

abbrev pub assert_same_organization : ℕ → ℕ → Result (Unit {0})
assert_same_organization expected resource = check (expected == resource)
