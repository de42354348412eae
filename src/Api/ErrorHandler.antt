-- ===== src/Api/ErrorHandler.antt =====
-- src/api/error-handler.ts
use shld.Prelude.{ℕ, String}
use shld.Domain.Errors.{
  DomainError, invalid_state_transition, authorization, target_authorization, policy_violation,
  budget_exceeded, idempotency_conflict, not_found,
}

-- what a route may throw: an error of the platform, one of zod, or one of Fastify's validation
pub data RouteError : Type 0 where
  thrown : DomainError → RouteError
  zod_error : RouteError
  validation_error : RouteError

-- the status and the error's name in the body
pub record ErrorReply : Type 0 where
  pub code : ℕ
  pub error : String

abbrev pub domain_reply : DomainError → ErrorReply
domain_reply not_found = record { code = 404; error = "not_found" }
domain_reply authorization = record { code = 403; error = "forbidden" }
domain_reply target_authorization = record { code = 403; error = "forbidden" }
domain_reply budget_exceeded = record { code = 429; error = "budget_exceeded" }
domain_reply idempotency_conflict = record { code = 409; error = "idempotency_conflict" }
domain_reply (invalid_state_transition entity from to) = record {
  code = 409;
  error = "invalid_state_transition";
}
domain_reply policy_violation = record { code = 422; error = "policy_violation" }
domain_reply _ = record { code = 500; error = "internal_error" }

unfoldable pub api_error_handler : RouteError → ErrorReply
api_error_handler (thrown e) = domain_reply e
api_error_handler zod_error = record { code = 400; error = "invalid_request" }
api_error_handler validation_error = record { code = 400; error = "invalid_request" }
