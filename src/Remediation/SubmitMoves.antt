-- ===== src/Remediation/SubmitMoves.antt =====
-- From which statuses `submitFix` accepts a fix, and what its transitions leave.
use shld.Prelude.{ℕ, ◌≡◌, refl, sym, ◌∙◌, Bool, true, false, some, arith, Bool-cases, inl, inr}
use shld.Action.{ok, err, ◌>>=◌}
use shld.Domain.StateMachine.{can_transition, includes}
use shld.Domain.FindingStatus
use shld.Domain.FindingStatus.{FindingStatus, fix_pending, fix_submitted}
use shld.Domain.Transitions.{find_finding}
use shld.Domain.Moves.{
  with_status, moved_db, refused, find_finding-moved_self, transition-legal, transition-illegal,
}
use shld.Store.{Db}
use shld.Store.Rows.{Finding}
use shld.Remediation.Submit.{SubmitFixParams, hop_to_fix_pending_from, fix_move, submit_moves}

-- the statuses from which a fix is accepted
abbrev pub accepts_fix : FindingStatus → Bool
accepts_fix FindingStatus.source_confirmed = true
accepts_fix FindingStatus.confirmed = true
accepts_fix FindingStatus.not_reproduced = true
accepts_fix FindingStatus.inconclusive = true
accepts_fix FindingStatus.still_exploitable = true
accepts_fix FindingStatus.fix_pending = true
accepts_fix _ = false

hop_legal :
    (s : FindingStatus)
    → includes FindingStatus.machine s hop_to_fix_pending_from ≡ true
    → can_transition FindingStatus.machine s fix_pending ≡ true
unfolding can_transition includes
hop_legal s h = ground arith

no_hop_legal :
    (s : FindingStatus)
    → includes FindingStatus.machine s hop_to_fix_pending_from ≡ false
    → accepts_fix s ≡ can_transition FindingStatus.machine s fix_submitted
unfolding can_transition includes
no_hop_legal s h = ground arith

submit_legal : can_transition FindingStatus.machine fix_pending fix_submitted ≡ true
unfolding can_transition includes
submit_legal = refl

hop_accepts :
    (s : FindingStatus)
    → includes FindingStatus.machine s hop_to_fix_pending_from ≡ true
    → accepts_fix s ≡ true
unfolding includes
hop_accepts s h = ground arith

-- what the transitions leave: the finding submitted, and the other tables alone
pub record Submitted (id : ℕ) (f : Finding) (before after : Db) : Type 0 where
  pub moved : find_finding id after ≡ some (with_status fix_submitted f)
  pub validations : after.validations ≡ before.validations

pub submit_moves-accepted :
    (params : SubmitFixParams) (f : Finding) (db : Db)
    → find_finding f.id db ≡ some f
    → accepts_fix f.status ≡ true
    → (after : Db) × (submit_moves params f db ≡ (ok tt, after)) × Submitted f.id f db after
unfolding submit_moves ◌>>=◌
submit_moves-accepted params f db found accepted =
    elim (Bool-cases (includes FindingStatus.machine f.status hop_to_fix_pending_from)) [
      | inl hops ↦
          let first = fix_move params f.id fix_pending "finding.fix_pending" in
          let second = fix_move params f.id fix_submitted "finding.fix_submitted" in
          let mid : Db = moved_db first f db in
          let f' : Finding = with_status fix_pending f in
          let found' : find_finding f.id mid ≡ some f' =
            find_finding-moved_self first f db f.id found refl in
          (
            moved_db second f' mid,
            rw (
              hops,
              transition-legal first db f found (hop_legal f.status hops),
              transition-legal second mid f' found' submit_legal,
            ),
            record {
              moved = find_finding-moved_self second f' mid f.id found' refl;
              validations = refl;
            },
          )
      | inr stays ↦
          let second = fix_move params f.id fix_submitted "finding.fix_submitted" in
          let legal = sym (no_hop_legal f.status stays) ∙ accepted in
          (
            moved_db second f db,
            rw (stays, transition-legal second db f found legal),
            record {
              moved = find_finding-moved_self second f db f.id found refl;
              validations = refl;
            },
          )
    ]

pub submit_moves-refused :
    (params : SubmitFixParams) (f : Finding) (db : Db)
    → find_finding f.id db ≡ some f
    → accepts_fix f.status ≡ false
    → submit_moves params f db ≡ (err (refused f.status fix_submitted), db)
unfolding submit_moves ◌>>=◌
submit_moves-refused params f db found accepted =
    elim (Bool-cases (includes FindingStatus.machine f.status hop_to_fix_pending_from)) [
      | inl hops ↦ cc (hop_accepts f.status hops)
      | inr stays ↦ rw (
        stays,
        transition-illegal (fix_move params f.id fix_submitted "finding.fix_submitted") db f found
            (sym (no_hop_legal f.status stays) ∙ accepted),
      )
    ]
