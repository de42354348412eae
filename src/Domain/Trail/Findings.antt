-- ===== src/Domain/Trail/Findings.antt =====
-- The transition of a finding, and the creation of one, keep the trails of the findings.
use shld.Prelude.{
  ℕ, ◌≤◌, ◌≡◌, refl, ap, sym, ◌∙◌, inl, inr, Bool-cases, Option, true, false, none, some, [], arith,
  ◌==◌, ==_iff,
}
use mathlib.Core.Path.{subst}
use shld.Action.Keeps.{Keeps}
use shld.Domain.StateMachine.{can_transition}
use shld.Domain.FindingStatus
use shld.Domain.FindingStatus.{FindingStatus}
use shld.Domain.Transitions.{find_finding, TransitionFindingStatusParams, transition_finding_status}
use shld.Domain.Trail.{moved, events_about, FindingTrail, IsAudited}
use shld.Domain.Moves.{
  with_status, transition_event, moved_db, transition_finding_status_cases, find_finding-moved_db,
  find_finding-id,
}
use shld.Store.{Db}
use shld.Store.Rows.{Finding}

abbrev pub status_of : Option Finding → FindingStatus
status_of none = FindingStatus.suspected
status_of (some f) = f.status

-- the trail of the finding that moves
moved_trail :
    (params : TransitionFindingStatusParams) (f : Finding) (db : Db) (j : ℕ)
    → (f.id == j) ≡ true
    → can_transition FindingStatus.machine f.status params.to ≡ true
    → FindingTrail (events_about j db.audit_events) f.status
    → FindingTrail (events_about j (moved_db params f db).audit_events) params.to
unfolding events_about
moved_trail params f db j same legal trail =
    rw same (moved (transition_event params f) trail legal refl refl)

-- the events about any other finding
events_about-other :
    (params : TransitionFindingStatusParams) (f : Finding) (db : Db) (j : ℕ)
    → (f.id == j) ≡ false
    → events_about j (moved_db params f db).audit_events ≡ events_about j db.audit_events
unfolding events_about
events_about-other params f db j other = rw other

module _ (params : TransitionFindingStatusParams) (f : Finding) (db : Db)
    (found : find_finding params.finding_id db ≡ some f)
    (legal : can_transition FindingStatus.machine f.status params.to ≡ true)
    (inv : IsAudited db) where
  found_at : (j : ℕ) → (f.id == j) ≡ true → find_finding j db ≡ some f
  found_at j same =
      subst (λ k. find_finding k db ≡ some f)
        (sym (find_finding-id params.finding_id f db found) ∙ (==_iff f.id j).0 same) found

  moved_db-trails :
      (j : ℕ) (g : Finding)
      → find_finding j (moved_db params f db) ≡ some g
      → FindingTrail (events_about j (moved_db params f db).audit_events) g.status
  moved_db-trails j g h = elim (Bool-cases (f.id == j)) [
    | inl same ↦
        let here = found_at j same in
        let moves : some (with_status params.to f) ≡ some g =
          rw (find_finding-moved_db params f db j, same, here) at h in
        subst (FindingTrail (events_about j (moved_db params f db).audit_events))
          (ap status_of moves) (moved_trail params f db j same legal (inv.trails j f here))
    | inr other ↦
        rw (events_about-other params f db j other)
          (inv.trails j g (rw (find_finding-moved_db params f db j, other) at h))
  ]

  moved_db-silent :
      (j : ℕ)
      → find_finding j (moved_db params f db) ≡ none
      → events_about j (moved_db params f db).audit_events ≡ []
  moved_db-silent j h = elim (Bool-cases (f.id == j)) [
    | inl same ↦
        let here = found_at j same in
        let gone : some (with_status params.to f) ≡ none =
          rw (find_finding-moved_db params f db j, same, here) at h in
        cc
    | inr other ↦
        rw (events_about-other params f db j other)
          (inv.silent j (rw (find_finding-moved_db params f db j, other) at h))
  ]

  moved_db-fresh : (j : ℕ) → db.next_id ≤ j → find_finding j (moved_db params f db) ≡ none
  moved_db-fresh j h = rw (find_finding-moved_db params f db j, inv.fresh j h) (ground arith)

  pub moved_db-IsAudited : IsAudited (moved_db params f db)
  moved_db-IsAudited = record {
    trails = moved_db-trails;
    silent = moved_db-silent;
    fresh = moved_db-fresh;
  }

-- Every transition of a finding, legal or refused, keeps the promise of the audit log.
pub transition_finding_status-IsAudited :
    (params : TransitionFindingStatusParams) → Keeps IsAudited (transition_finding_status params)
transition_finding_status-IsAudited params = record {
  at = λ db inv. elim (transition_finding_status_cases params db) [
    | inl (e, same) ↦ rw same inv
    | inr (f, found, legal, same) ↦ rw same (moved_db-IsAudited params f db found legal inv)
  ];
}
