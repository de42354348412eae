-- ===== src/Domain/Moves.antt =====
-- What a transition of a finding does to the database, on each of its branches.
use shld.Prelude.{
  ℕ, ◌≡◌, refl, ◌⊎◌, inl, inr, Bool-cases, Option-cases, true, false, none, some, ◌∷◌, ◌==◌, ==_iff,
  if◌then◌else◌,
}
use shld.Action.{ok, err, ◌>>=◌}
use shld.Domain.Errors.{DomainError, record_missing, invalid_state_transition}
use shld.Domain.StateMachine.{can_transition, assert_transition}
use shld.Domain.FindingStatus
use shld.Domain.FindingStatus.{FindingStatus}
use shld.Domain.Transitions.{find_finding, TransitionFindingStatusParams, transition_finding_status}
use shld.Store.{Db}
use shld.Store.Table.{update_by, map_option, find_by-update_by, find_by-key}
use shld.Store.Rows.{Finding, AuditEvent, of_finding}

-- the machine's error for a move that is not in its table
abbrev pub refused : FindingStatus → FindingStatus → DomainError
refused from to =
    invalid_state_transition "Finding" (FindingStatus.name from) (FindingStatus.name to)

abbrev pub with_status : FindingStatus → Finding → Finding
with_status t f = record f { status = t }

-- the event that a transition records
abbrev pub transition_event : TransitionFindingStatusParams → Finding → AuditEvent
transition_event params f = record {
  organization_id = f.organization_id;
  run_id = params.run_id;
  finding_id = some f.id;
  actor = params.actor;
  event_type = params.event_type;
  previous_state = some (of_finding f.status);
  new_state = some (of_finding params.to);
}

abbrev pub moved_db : TransitionFindingStatusParams → Finding → Db → Db
moved_db params f db = record db {
  findings = update_by (λ g. g.id) f.id (with_status params.to) db.findings;
  audit_events = transition_event params f ∷ db.audit_events;
}

-- A transition either fails and changes nothing, or moves its finding along a legal edge.
pub transition_finding_status_cases :
    (params : TransitionFindingStatusParams) (db : Db)
    → ((e : DomainError) × (transition_finding_status params db ≡ (err e, db)))
      ⊎ ((f : Finding) × (find_finding params.finding_id db ≡ some f)
          × (can_transition FindingStatus.machine f.status params.to ≡ true)
          × (transition_finding_status params db ≡ (ok tt, moved_db params f db)))
unfolding transition_finding_status assert_transition ◌>>=◌
transition_finding_status_cases params db =
    elim (Option-cases (find_finding params.finding_id db)) [
      | inl missing ↦ inl (record_missing, rw missing)
      | inr (f, found) ↦
          elim (Bool-cases (can_transition FindingStatus.machine f.status params.to)) [
            | inl legal ↦ inr (f, found, legal, rw (found, legal))
            | inr illegal ↦ inl (
              invalid_state_transition "Finding" (FindingStatus.name f.status)
                  (FindingStatus.name params.to),
              rw (found, illegal),
            )
          ]
    ]

pub find_finding-moved_db :
    (params : TransitionFindingStatusParams) (f : Finding) (db : Db) (j : ℕ)
    → find_finding j (moved_db params f db) ≡ (
        if f.id == j
        then map_option (λ g. g.id) (with_status params.to) (find_finding j db)
        else find_finding j db)
unfolding find_finding
find_finding-moved_db params f db j =
    find_by-update_by (λ g. g.id) f.id j (with_status params.to) db.findings (λ g. refl)

pub find_finding-id : (id : ℕ) (f : Finding) (db : Db) → find_finding id db ≡ some f → f.id ≡ id
unfolding find_finding
find_finding-id id f db h = find_by-key (λ g. g.id) id f db.findings h

module _ (params : TransitionFindingStatusParams) (db : Db) where
  pub transition-missing :
      find_finding params.finding_id db ≡ none
      → transition_finding_status params db ≡ (err record_missing, db)
  unfolding transition_finding_status ◌>>=◌
  transition-missing missing = rw missing

  pub transition-legal :
      (f : Finding)
      → find_finding params.finding_id db ≡ some f
      → can_transition FindingStatus.machine f.status params.to ≡ true
      → transition_finding_status params db ≡ (ok tt, moved_db params f db)
  unfolding transition_finding_status assert_transition ◌>>=◌
  transition-legal f found legal = rw (found, legal)

  pub transition-illegal :
      (f : Finding)
      → find_finding params.finding_id db ≡ some f
      → can_transition FindingStatus.machine f.status params.to ≡ false
      → transition_finding_status params db ≡ (err (refused f.status params.to), db)
  unfolding transition_finding_status assert_transition ◌>>=◌
  transition-illegal f found illegal = rw (found, illegal)

-- the finding that moved, read again
pub find_finding-moved_self :
    (params : TransitionFindingStatusParams) (f : Finding) (db : Db) (id : ℕ)
    → find_finding id db ≡ some f
    → f.id ≡ id
    → find_finding id (moved_db params f db) ≡ some (with_status params.to f)
find_finding-moved_self params f db id found same =
    rw (find_finding-moved_db params f db id, (==_iff f.id id).1 same, found)
