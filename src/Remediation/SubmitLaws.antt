-- ===== src/Remediation/SubmitLaws.antt =====
-- What `submitFix` promises: from which statuses a fix is accepted, and what is then recorded.
use shld.Prelude.{ℕ, String, ◌≡◌, refl, sym, Bool, true, false, Option, none, some, ==_iff}
use mathlib.Core.Path.{subst}
use shld.Action.{ok, err, ◌>>=◌}
use shld.Domain.FindingStatus.{fix_submitted}
use shld.Domain.Transitions.{find_finding}
use shld.Domain.Moves.{with_status, refused, find_finding-id}
use shld.Store.{Db}
use shld.Store.Table.{find_by, find_by-update_by}
use shld.Store.Writes.{fresh_id, find_remediation, put_remediation}
use shld.Store.Rows.{Finding, Remediation, pending}
use shld.Remediation.SubmitMoves.{accepts_fix, submit_moves-accepted, submit_moves-refused}
use shld.Remediation.Submit.{
  SubmitFixParams, SubmitFixOutcome, was_ever_runtime_confirmed, retest_status, new_remediation,
  resubmitted, upsert_row, upsert_remediation, submit_fix_body, submit_fix,
}

-- a remediation that waits for its verification
pub record IsPending (sha : String) (retest : Bool) (r : Remediation) : Type 0 where
  pub commit : r.fix_commit_sha ≡ sha
  pub source : r.source_revalidation_status ≡ pending
  pub runtime : r.runtime_retest_status ≡ retest_status retest
  pub final : r.final_status ≡ none

-- what the database holds after the upsert
record Upserted (id : ℕ) (sha : String) (retest : Bool) (before after : Db) : Type 0 where
  row : Remediation
  stored : find_remediation id after ≡ some row
  waits : IsPending sha retest row
  findings : after.findings ≡ before.findings
  log : after.audit_events ≡ before.audit_events

upsert_row_lem :
    (id : ℕ) (sha : String) (retest : Bool) (db : Db) (found : Option Remediation)
    → find_remediation id db ≡ found
    → (rid : ℕ) × (after : Db) × (upsert_row id sha retest found db ≡ (ok rid, after))
      × Upserted id sha retest db after
unfolding upsert_row fresh_id find_remediation find_by ◌>>=◌
upsert_row_lem id sha retest db none h = (
  db.next_id,
  _,
  refl,
  record {
    row = new_remediation db.next_id id sha retest;
    stored = rw ((==_iff id id).1 refl);
    waits = record { commit = refl; source = refl; runtime = refl; final = refl };
    findings = refl;
    log = refl;
  },
)
upsert_row_lem id sha retest db (some r) h = (
  r.id,
  put_remediation id (resubmitted sha retest) db,
  refl,
  record {
    row = resubmitted sha retest r;
    stored = rw (
      find_by-update_by (λ x. x.finding_id) id id (resubmitted sha retest) db.remediations
          (λ x. refl),
      (==_iff id id).1 refl,
      h,
    );
    waits = record { commit = refl; source = refl; runtime = refl; final = refl };
    findings = refl;
    log = refl;
  },
)

-- What a submission has recorded: the finding waits with its fix, whose remediation is reset, and
-- a runtime retest is owed exactly if some validation had confirmed the finding.
pub record FixRecorded (id : ℕ) (sha : String) (f : Finding) (before : Db)
    (outcome : SubmitFixOutcome) (after : Db) : Type 0 where
  pub status : find_finding id after ≡ some (with_status fix_submitted f)
  pub retest : outcome.requires_runtime_retest ≡ was_ever_runtime_confirmed id before
  pub row : Remediation
  pub stored : find_remediation id after ≡ some row
  pub waits : IsPending sha outcome.requires_runtime_retest row

abbrev submitted_as : ℕ → Bool → SubmitFixOutcome
submitted_as id retest = record {
  remediation_id = id;
  finding_status = fix_submitted;
  requires_runtime_retest = retest;
}

was_ever-same :
    (id : ℕ) (before after : Db)
    → after.validations ≡ before.validations
    → was_ever_runtime_confirmed id after ≡ was_ever_runtime_confirmed id before
unfolding was_ever_runtime_confirmed
was_ever-same id before after same = rw same

find_finding-same :
    (id : ℕ) (before after : Db)
    → after.findings ≡ before.findings
    → find_finding id after ≡ find_finding id before
unfolding find_finding
find_finding-same id before after same = rw same

upsert_remediation_lem :
    (id : ℕ) (sha : String) (retest : Bool) (db : Db)
    → (rid : ℕ) × (after : Db) × (upsert_remediation id sha retest db ≡ (ok rid, after))
      × Upserted id sha retest db after
unfolding upsert_remediation ◌>>=◌
upsert_remediation_lem id sha retest db =
    upsert_row_lem id sha retest db (find_remediation id db) refl

module _ (params : SubmitFixParams) (db : Db) (f : Finding)
    (found : find_finding params.finding_id db ≡ some f) where
  same_id : f.id ≡ params.finding_id
  same_id = find_finding-id params.finding_id f db found

  found_self : find_finding f.id db ≡ some f
  found_self = subst (λ k. find_finding k db ≡ some f) (sym same_id) found

  -- A fix for a finding in one of the six accepting statuses (`source_confirmed`, `confirmed`,
  -- `not_reproduced`, `inconclusive`, `still_exploitable`, `fix_pending`) is recorded.
  pub submit_fix-accepted :
      accepts_fix f.status ≡ true
      → (outcome : SubmitFixOutcome) × (after : Db) × (submit_fix params db ≡ (ok outcome, after))
        × FixRecorded params.finding_id params.fix_commit_sha f db outcome after
  unfolding submit_fix submit_fix_body ◌>>=◌
  submit_fix-accepted accepted =
      let (mid, moves, submitted) = submit_moves-accepted params f db found_self accepted in
      let retest : Bool = was_ever_runtime_confirmed f.id mid in
      let (rid, after, upserts, upserted) =
        upsert_remediation_lem f.id params.fix_commit_sha retest mid in
      (
        submitted_as rid retest,
        after,
        rw (found, moves, upserts),
        subst (λ k. FixRecorded k params.fix_commit_sha f db (submitted_as rid retest) after)
            same_id
            (record {
              status = rw (find_finding-same f.id mid after upserted.findings) submitted.moved;
              retest = was_ever-same f.id db mid submitted.validations;
              row = upserted.row;
              stored = upserted.stored;
              waits = upserted.waits;
            }),
      )

  -- A fix for a finding in any other status is refused with the machine's error, and nothing
  -- changes.
  pub submit_fix-refused :
      accepts_fix f.status ≡ false
      → submit_fix params db ≡ (err (refused f.status fix_submitted), db)
  unfolding submit_fix submit_fix_body ◌>>=◌
  submit_fix-refused refuses = rw (found, submit_moves-refused params f db found_self refuses)
