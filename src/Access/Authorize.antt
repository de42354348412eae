-- ===== src/Access/Authorize.antt =====
-- src/authz/target-authorization.ts and src/authz/repository-authorization.ts
use shld.Prelude.{ℕ, Bool, true, false, not, ◌&&◌, Option, none, some, ◌==◌, ltb, if◌then◌else◌}
use shld.Access.Permissions.{
  AgentPermissions, check, assert_repository_allowed, assert_target_environment_allowed,
  assert_same_organization,
}
use shld.Action.{Action, Result, ok, err, pure, lift, gets, or_throw, ◌>>=◌, ◌>>◌}
use shld.Domain.Errors.{not_found, target_authorization}
use shld.Store.{Db}
use shld.Store.Rows.{
  TargetAuthorizationStatus, authorized, TargetEnvironment, Repository, RepositoryStatus, active,
}
use shld.Store.Table.{find_by}

pub record AuthorizeTargetEnvironmentParams : Type 0 where
  pub organization_id : ℕ
  pub repository_id : ℕ
  pub target_environment_id : ℕ
  pub permissions : AgentPermissions

abbrev pub is_authorized : TargetAuthorizationStatus → Bool
is_authorized authorized = true
is_authorized _ = false

abbrev pub is_expired : Option ℕ → ℕ → Bool
is_expired none now = false
is_expired (some end) now = ltb end now

abbrev pub check_target : Bool → Result (Unit {0})
check_target allowed = if allowed then ok tt else err target_authorization

unfoldable pub find_target : ℕ → Db → Option TargetEnvironment
find_target id db = find_by (λ t. t.id) id db.target_environments

unfoldable pub authorize_target_environment :
    AuthorizeTargetEnvironmentParams → Action Db TargetEnvironment
authorize_target_environment params = do
  found ← gets (find_target params.target_environment_id)
  target ← or_throw found not_found
  lift (assert_same_organization params.organization_id target.organization_id)
  lift (check (target.repository_id == params.repository_id))
  lift (assert_target_environment_allowed params.permissions target.id)
  lift (check_target (is_authorized target.authorization_status))
  now ← gets (λ db. db.now)
  lift (check_target (not (is_expired target.authorization_expires_at now)))
  pure target

abbrev pub assert_destructive_testing_allowed : TargetEnvironment → Bool → Result (Unit {0})
assert_destructive_testing_allowed target mission_requires_destructive =
    check_target (not (mission_requires_destructive && not target.destructive_testing_allowed))

pub record AuthorizeRepositoryParams : Type 0 where
  pub organization_id : ℕ
  pub repository_id : ℕ
  pub permissions : AgentPermissions

abbrev pub is_active : RepositoryStatus → Bool
is_active active = true
is_active _ = false

unfoldable pub find_repository : ℕ → Db → Option Repository
find_repository id db = find_by (λ r. r.id) id db.repositories

unfoldable pub authorize_repository_for_run : AuthorizeRepositoryParams → Action Db Repository
authorize_repository_for_run params = do
  found ← gets (find_repository params.repository_id)
  repository ← or_throw found not_found
  lift (assert_same_organization params.organization_id repository.organization_id)
  lift (check (is_active repository.status))
  lift (assert_repository_allowed params.permissions repository.id)
  pure repository
