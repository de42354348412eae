-- ===== src/Domain/Errors.antt =====
-- src/domain/errors.ts, and the other errors that the modelled code throws. Messages that only
-- format the arguments are left out; the machine's error keeps its three fields.
use shld.Prelude.{String}

pub data DomainError : Type 0 where
  invalid_state_transition : (entity from to : String) → DomainError
  authorization : DomainError
  target_authorization : DomainError
  policy_violation : DomainError
  budget_exceeded : DomainError
  idempotency_conflict : DomainError
  not_found : DomainError
  remediation_not_found : DomainError
  record_missing : DomainError
  unique_violation : DomainError
  deepsec_output : DomainError
  repository_preparation : DomainError
  plain_error : DomainError
