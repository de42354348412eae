-- ===== src/Services/ReadLaws.antt =====
-- Nobody reads what belongs to another organization: src/api/services.
use shld.Prelude.{◌≡◌, ◌≢◌, ℕ, String, false, some, ◌==◌, arith}
use shld.Action.{Result, err}
use shld.Domain.Errors.{authorization}
use shld.Domain.Transitions.{find_finding, find_run}
use shld.Engines.DeepSec.{StoredArtifact}
use shld.Receipts.Gather.{ReceiptData}
use shld.Receipts.Generate.{ReceiptFormat, get_receipt}
use shld.Receipts.Render.{ReceiptJson}
use shld.Receipts.Status.{ReceiptStatus}
use shld.Services.Reads.{get_run, list_run_findings, get_finding}
use shld.Services.Requests.{AuthenticatedAgent}
use shld.Store.{Db}
use shld.Store.Rows.{Finding, SecurityRun}

foreign_id : (m n : ℕ) → m ≢ n → (m == n) ≡ false
foreign_id m n h = ground (arith, h)

module _ (a : AuthenticatedAgent) (db : Db) (id : ℕ) (f : Finding) (run_id : ℕ) (run : SecurityRun)
    (store : String → String → StoredArtifact) (json_text : ReceiptJson → String)
    (render_receipt_markdown : ReceiptData → ReceiptStatus → String) (read : String → Result String)
    (format : ReceiptFormat) where
  -- each read is refused, and changes nothing
  pub record IsBlind : Type 0 where
    pub of_run : get_run a.organization_id run_id db ≡ (err authorization, db)
    pub of_findings : list_run_findings a.organization_id run_id db ≡ (err authorization, db)
    pub of_finding : get_finding a.organization_id id db ≡ (err authorization, db)
    pub of_receipt :
        get_receipt store json_text render_receipt_markdown read a run_id format db
        ≡ (err authorization, db)

  -- To ask for a run of another organization, for its findings, for its receipt or for a finding of
  -- another organization is refused with an authorization error, and changes nothing.
  pub other_tenant-IsBlind :
      find_finding id db ≡ some f
      → a.organization_id ≢ f.organization_id
      → find_run run_id db ≡ some run
      → a.organization_id ≢ run.organization_id
      → IsBlind
  unfolding get_run list_run_findings get_finding get_receipt
  other_tenant-IsBlind found foreign found_run foreign_run = record {
    of_run = rw (found_run, foreign_id a.organization_id run.organization_id foreign_run);
    of_findings = rw (found_run, foreign_id a.organization_id run.organization_id foreign_run);
    of_finding = rw (found, foreign_id a.organization_id f.organization_id foreign);
    of_receipt = rw (found_run, foreign_id a.organization_id run.organization_id foreign_run);
  }
