-- ===== src/Tests/Remediation.antt =====
-- The submission of a fix, accepted and refused.
use shld.Prelude.{◌≡◌, refl}
use shld.Action.{ok, err}
use shld.Domain.FindingStatus.{fix_submitted, verified_fixed, retesting}
use shld.Domain.Moves.{refused}
use shld.Domain.StateMachine.{includes}
use shld.Remediation.Submit.{SubmitFixOutcome, submit_fix}
use shld.Remediation.SubmitLaws.{FixRecorded, submit_fix-accepted, submit_fix-refused}
use shld.Domain.Errors.{DomainError}
use shld.Remediation.Start.{start_fix_verification}
use shld.Remediation.StartLaws.{retesting-stuck}
use shld.Store.{Db}
use shld.Tests.Scenario.{
  review_finds, life_ends_fixed, reviewed, whole_life, run_services, fix, found_injection,
  fixed_injection, under_verification, retested_injection, verification_begins, verification,
}

submit_fix-accepted_example :
    (outcome : SubmitFixOutcome) × (after : Db) × (submit_fix fix (run_services reviewed)
      ≡ (ok outcome, after))
    × FixRecorded 3 "ccccccc" found_injection (run_services reviewed) outcome after
unfolding includes
submit_fix-accepted_example =
    submit_fix-accepted fix (run_services reviewed) found_injection review_finds refl

submit_fix-refused_example :
    submit_fix fix (run_services whole_life)
    ≡ (err (refused verified_fixed fix_submitted), run_services whole_life)
unfolding includes
submit_fix-refused_example =
    submit_fix-refused fix (run_services whole_life) fixed_injection life_ends_fixed refl

retesting-stuck_example :
    (submit_fix fix (run_services under_verification)
      ≡ (err (refused retesting fix_submitted), run_services under_verification))
    × ((e : DomainError) × (start_fix_verification verification (run_services under_verification)
          ≡ (err e, run_services under_verification)))
retesting-stuck_example =
    retesting-stuck fix verification (run_services under_verification) retested_injection
      verification_begins verification_begins refl
