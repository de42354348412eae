-- ===== src/Domain/Trail.antt =====
-- The audit trail as a specification: the events about a finding, or about a run, are a legal path
-- of its state machine from its first status to its present one.

pub mod Findings
pub mod Creation
pub mod Rules
pub mod Verified
use shld.Prelude.{
  ℕ, ◌≡◌, Bool, true, false, Option, none, some, List, [], ◌∷◌, keep, arith, ◌==◌, ◌≤◌,
}
use shld.Domain.StateMachine.{StateMachine, can_transition}
use shld.Domain.FindingStatus
use shld.Domain.FindingStatus.{FindingStatus, suspected}
use shld.Domain.Transitions.{find_finding}
use shld.Store.{Db}
use shld.Store.Rows.{Finding, AuditEvent, AuditState, of_finding}

-- The events, newest first, of something whose status is the second index.
pub data Trail {S : Type 0} (m : StateMachine S) (wrap : S → AuditState)
    (Origin : List AuditEvent → S → Type 0) : List AuditEvent → S → Type 0 where
  begin : {es : List AuditEvent} {s : S} → Origin es s → Trail m wrap Origin es s
  moved :
      {es : List AuditEvent} {s t : S} (e : AuditEvent)
      → Trail m wrap Origin es s
      → can_transition m s t ≡ true
      → e.previous_state ≡ some (wrap s)
      → e.new_state ≡ some (wrap t)
      → Trail m wrap Origin (e ∷ es) t

-- is the event about this finding?
abbrev pub is_about : ℕ → Option ℕ → Bool
is_about id none = false
is_about id (some j) = j == id

unfoldable pub events_about : ℕ → List AuditEvent → List AuditEvent
events_about id = keep (λ e. is_about id e.finding_id)

-- The first event of a finding records its creation as `suspected`.
pub record IsCreation (es : List AuditEvent) (s : FindingStatus) : Type 0 where
  pub event : AuditEvent
  pub alone : es ≡ event ∷ []
  pub status : s ≡ suspected
  pub previous : event.previous_state ≡ none
  pub new : event.new_state ≡ some (of_finding suspected)

abbrev pub FindingTrail : List AuditEvent → FindingStatus → Type 0
FindingTrail = Trail FindingStatus.machine of_finding IsCreation

-- What the audit log promises about the findings.
pub record IsAudited (db : Db) : Type 0 where
  pub trails :
      (id : ℕ) (f : Finding)
      → find_finding id db ≡ some f
      → FindingTrail (events_about id db.audit_events) f.status
  pub silent : (id : ℕ) → find_finding id db ≡ none → events_about id db.audit_events ≡ []
  pub fresh : (id : ℕ) → db.next_id ≤ id → find_finding id db ≡ none
