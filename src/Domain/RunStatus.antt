-- ===== src/Domain/RunStatus.antt =====
-- src/domain/run-state-machine.ts, with the enum `SecurityRunStatus` of prisma/schema.prisma.
use shld.Prelude.{ℕ, String, ◌≡◌, ◌↔◌, Bool, List, [], ◌∷◌, arith, ◌==◌, length}
use shld.Domain.StateMachine.{StateMachine, allowed_next}

pub data RunStatus : Type 0 where
  queued classifying source_review_running source_review_completed validation_waiting_for_target
        validation_running awaiting_fix fix_verification_running completed blocked failed
        cancelled :
      RunStatus

-- the place of a status in the enum, by which two are compared
abbrev pub code : RunStatus → ℕ
code queued = 0
code classifying = 1
code source_review_running = 2
code source_review_completed = 3
code validation_waiting_for_target = 4
code validation_running = 5
code awaiting_fix = 6
code fix_verification_running = 7
code completed = 8
code blocked = 9
code failed = 10
code cancelled = 11

abbrev pub same : RunStatus → RunStatus → Bool
same a b = code a == code b

pub same_iff : (a b : RunStatus) → (same a b ≡ Bool.true) ↔ (a ≡ b)
same_iff a b = ground arith

abbrev pub name : RunStatus → String
name queued = "queued"
name classifying = "classifying"
name source_review_running = "source_review_running"
name source_review_completed = "source_review_completed"
name validation_waiting_for_target = "validation_waiting_for_target"
name validation_running = "validation_running"
name awaiting_fix = "awaiting_fix"
name fix_verification_running = "fix_verification_running"
name completed = "completed"
name blocked = "blocked"
name failed = "failed"
name cancelled = "cancelled"

abbrev pub transitions : RunStatus → List RunStatus
transitions queued = classifying ∷ failed ∷ cancelled ∷ []
transitions classifying = source_review_running ∷ failed ∷ cancelled ∷ []
transitions source_review_running = source_review_completed ∷ failed ∷ cancelled ∷ []
transitions source_review_completed =
    validation_waiting_for_target ∷ validation_running ∷ awaiting_fix ∷ blocked ∷ completed ∷ failed
    ∷ cancelled ∷ []
transitions validation_waiting_for_target = validation_running ∷ failed ∷ cancelled ∷ []
transitions validation_running = awaiting_fix ∷ blocked ∷ completed ∷ failed ∷ cancelled ∷ []
transitions awaiting_fix = fix_verification_running ∷ cancelled ∷ []
transitions fix_verification_running = completed ∷ blocked ∷ awaiting_fix ∷ failed ∷ cancelled ∷ []
transitions completed = []
transitions blocked = []
transitions failed = []
transitions cancelled = []

abbrev pub machine : StateMachine RunStatus
machine = record { entity_name = "SecurityRun"; table = transitions; same = same; name = name }

-- no status follows
unfoldable pub is_terminal : RunStatus → Bool
unfolding allowed_next
is_terminal status = length (allowed_next machine status) == 0
