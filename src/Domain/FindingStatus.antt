-- ===== src/Domain/FindingStatus.antt =====
-- src/domain/finding-state-machine.ts, with the enum `FindingStatus` of prisma/schema.prisma.
use shld.Prelude.{ℕ, String, ◌≡◌, ◌↔◌, Bool, List, [], ◌∷◌, arith, ◌==◌, length}
use shld.Domain.StateMachine.{StateMachine, allowed_next}

pub data FindingStatus : Type 0 where
  suspected source_confirmed validation_queued confirmed not_reproduced inconclusive fix_pending
        fix_submitted retesting still_exploitable verified_fixed accepted_risk dismissed :
      FindingStatus

-- the place of a status in the enum, by which two are compared
abbrev pub code : FindingStatus → ℕ
code suspected = 0
code source_confirmed = 1
code validation_queued = 2
code confirmed = 3
code not_reproduced = 4
code inconclusive = 5
code fix_pending = 6
code fix_submitted = 7
code retesting = 8
code still_exploitable = 9
code verified_fixed = 10
code accepted_risk = 11
code dismissed = 12

abbrev pub same : FindingStatus → FindingStatus → Bool
same a b = code a == code b

pub same_iff : (a b : FindingStatus) → (same a b ≡ Bool.true) ↔ (a ≡ b)
same_iff a b = ground arith

abbrev pub name : FindingStatus → String
name suspected = "suspected"
name source_confirmed = "source_confirmed"
name validation_queued = "validation_queued"
name confirmed = "confirmed"
name not_reproduced = "not_reproduced"
name inconclusive = "inconclusive"
name fix_pending = "fix_pending"
name fix_submitted = "fix_submitted"
name retesting = "retesting"
name still_exploitable = "still_exploitable"
name verified_fixed = "verified_fixed"
name accepted_risk = "accepted_risk"
name dismissed = "dismissed"

abbrev pub transitions : FindingStatus → List FindingStatus
transitions suspected = source_confirmed ∷ dismissed ∷ not_reproduced ∷ []
transitions source_confirmed = validation_queued ∷ fix_pending ∷ dismissed ∷ accepted_risk ∷ []
transitions validation_queued = confirmed ∷ not_reproduced ∷ inconclusive ∷ []
transitions confirmed = fix_pending ∷ accepted_risk ∷ []
transitions not_reproduced = dismissed ∷ accepted_risk ∷ fix_pending ∷ validation_queued ∷ []
transitions inconclusive = validation_queued ∷ dismissed ∷ accepted_risk ∷ fix_pending ∷ []
transitions fix_pending = fix_submitted ∷ accepted_risk ∷ dismissed ∷ []
transitions fix_submitted = retesting ∷ []
transitions retesting = verified_fixed ∷ still_exploitable ∷ inconclusive ∷ []
transitions still_exploitable = fix_pending ∷ []
transitions verified_fixed = []
transitions accepted_risk = []
transitions dismissed = []

abbrev pub machine : StateMachine FindingStatus
machine = record { entity_name = "Finding"; table = transitions; same = same; name = name }

-- no status follows
unfoldable pub is_terminal : FindingStatus → Bool
unfolding allowed_next
is_terminal status = length (allowed_next machine status) == 0
