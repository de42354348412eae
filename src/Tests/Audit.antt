-- ===== src/Tests/Audit.antt =====
-- The audit log after the whole life of a fix.
use shld.Prelude.{◌≡◌, refl, some, Option, List, ◌∷◌}
use shld.Audited.Reach.{trail_of_every_finding, verified_only_after_retest}
use shld.Domain.FindingStatus.{verified_fixed, retesting, fix_submitted, fix_pending}
use shld.Domain.Trail.{events_about, FindingTrail}
use shld.Domain.Trail.Verified.{new_states}
use shld.Store.Rows.{AuditState, of_finding}
use shld.Tests.Scenario.{
  life_ends_fixed, stored, hashed, key_text, whole_life, run_services, fixed_injection,
}

trail_of_every_finding_example :
    FindingTrail (events_about 3 (run_services whole_life).audit_events) verified_fixed
trail_of_every_finding_example =
    trail_of_every_finding stored hashed key_text whole_life 3 fixed_injection life_ends_fixed

verified_only_after_retest_example :
    (older : List (Option AuditState)) × (new_states
        (events_about 3 (run_services whole_life).audit_events)
      ≡ some (of_finding verified_fixed)
        ∷ some (of_finding retesting)
        ∷ some (of_finding fix_submitted)
        ∷ some (of_finding fix_pending)
        ∷ older)
verified_only_after_retest_example =
    verified_only_after_retest stored hashed key_text whole_life 3 fixed_injection life_ends_fixed
      refl
