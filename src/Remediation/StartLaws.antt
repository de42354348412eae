-- ===== src/Remediation/StartLaws.antt =====
-- When `startFixVerification` begins a verification: src/remediation/start-fix-verification.ts.
use mathlib.Core.Path.{subst}
use shld.Prelude.{
  ap, sym, ◌∙◌, ◌≡◌, refl, ℕ, suc, true, false, some, ◌∷◌, Bool-cases, Option-cases, inl, inr,
}
use shld.Action.{ok, err, ◌>>=◌}
use shld.Domain.Errors.{DomainError, remediation_not_found, unique_violation}
use shld.Domain.FindingStatus
use shld.Domain.FindingStatus.{FindingStatus, retesting, fix_submitted}
use shld.Domain.Moves.{refused, transition-illegal, find_finding-id}
use shld.Domain.StateMachine.{can_transition}
use shld.Domain.Transitions.{find_finding}
use shld.Remediation.Start.{
  StartFixVerificationParams, retest_run, retest_move, start_fix_verification_body,
  start_fix_verification,
}
use shld.Remediation.Submit.{SubmitFixParams, submit_fix}
use shld.Remediation.SubmitMoves.{accepts_fix}
use shld.Remediation.SubmitLaws.{submit_fix-refused}
use shld.Store.{Db}
use shld.Store.Rows.{Finding}
use shld.Store.Writes.{NewRun, create_run, run_of, is_key_taken, find_remediation, fresh_id}

-- the database with a new run
abbrev with_run : NewRun → Db → Db
with_run new db = record db { runs = run_of new db.next_id ∷ db.runs; next_id = suc db.next_id }

create_run-taken :
    (new : NewRun) (db : Db)
    → is_key_taken new.idempotency_key db.runs ≡ true
    → create_run new db ≡ (err unique_violation, db)
unfolding create_run ◌>>=◌
create_run-taken new db h = rw h

create_run-fresh :
    (new : NewRun) (db : Db)
    → is_key_taken new.idempotency_key db.runs ≡ false
    → create_run new db ≡ (ok db.next_id, with_run new db)
unfolding create_run fresh_id ◌>>=◌
create_run-fresh new db h = rw h

same_finding :
    (id : ℕ) (new : NewRun) (db : Db) → find_finding id (with_run new db) ≡ find_finding id db
unfolding find_finding
same_finding id new db = refl

found_by_id :
    (id : ℕ) (f : Finding) (db : Db) → find_finding id db ≡ some f → find_finding f.id db ≡ some f
found_by_id id f db found =
    subst (λ k. find_finding k db ≡ some f) (sym (find_finding-id id f db found)) found

module _ (params : StartFixVerificationParams) (db : Db) (f : Finding)
    (found : find_finding params.finding_id db ≡ some f) where
  start-refused :
      can_transition FindingStatus.machine f.status retesting ≡ false
      → (e : DomainError) × (start_fix_verification params db ≡ (err e, db))
  unfolding start_fix_verification start_fix_verification_body ◌>>=◌
  start-refused illegal = elim (Option-cases (find_remediation params.finding_id db)) [
    | inl missing ↦ (remediation_not_found, rw (found, missing))
    | inr (r, there) ↦
        let new = retest_run params f r in
        elim (Bool-cases (is_key_taken params.idempotency_key db.runs)) [
          | inl taken ↦ (unique_violation, rw (found, there, create_run-taken new db taken))
          | inr free ↦
              let id = db.next_id in
              let here = same_finding f.id new db ∙ found_by_id params.finding_id f db found in
              (
                refused f.status retesting,
                rw (
                  found,
                  there,
                  create_run-fresh new db free,
                  transition-illegal (retest_move params f id) (with_run new db) f here illegal,
                ),
              )
        ]
  ]

retest_is_stuck : can_transition FindingStatus.machine retesting retesting ≡ false
unfolding can_transition
retest_is_stuck = refl

-- A finding that a failed verification has left at `retesting` can neither be given another fix nor
-- be verified again: both services throw, and nothing changes.
pub retesting-stuck :
    (fix : SubmitFixParams) (params : StartFixVerificationParams) (db : Db) (f : Finding)
    → find_finding fix.finding_id db ≡ some f
    → find_finding params.finding_id db ≡ some f
    → f.status ≡ retesting
    → (submit_fix fix db ≡ (err (refused retesting fix_submitted), db))
      × ((e : DomainError) × (start_fix_verification params db ≡ (err e, db)))
retesting-stuck fix params db f found_fix found status = (
  subst (λ s. submit_fix fix db ≡ (err (refused s fix_submitted), db)) status
      (submit_fix-refused fix db f found_fix (ap accepts_fix status)),
  start-refused params db f found
      (ap (λ s. can_transition FindingStatus.machine s retesting) status ∙ retest_is_stuck),
)
