-- ===== src/Receipts/Audited.antt =====
-- A receipt is written without a change of the findings or of the audit log.
use shld.Prelude.{ℕ, String, Option, none, some}
use shld.Action.{Result}
use shld.Action.Keeps.{Keeps}
use shld.Domain.Trail.{IsAudited}
use shld.Domain.Trail.Rules.{audit_rules, elsewhere-IsAudited}
use shld.Engines.DeepSec.{StoredArtifact}
use shld.Receipts.Gather.{ReceiptData, gather_receipt_data}
use shld.Receipts.Generate.{
  ReceiptFormat, upsert_receipt, write_receipt, generate_receipt, generate_receipt_handler,
  cached_or_generated, get_receipt,
}
use shld.Receipts.Render.{ReceiptJson}
use shld.Receipts.Status.{ReceiptStatus}
use shld.Services.Requests.{AuthenticatedAgent}
use shld.Store.Accounts.{Receipt}
use shld.Store.Rows.{Artifact}

gather_receipt_data-IsAudited : (run_id : ℕ) → Keeps IsAudited (gather_receipt_data run_id)
unfolding gather_receipt_data
gather_receipt_data-IsAudited run_id = search audit_rules depth 20

upsert_receipt-IsAudited :
    (run_id : ℕ) (status : ReceiptStatus) (json_id markdown_id now : ℕ) (existing : Option Receipt)
    → Keeps IsAudited (upsert_receipt run_id status json_id markdown_id now existing)
unfolding upsert_receipt
upsert_receipt-IsAudited run_id status json_id markdown_id now none =
    search (audit_rules, elsewhere-IsAudited) depth 12
upsert_receipt-IsAudited run_id status json_id markdown_id now (some r) =
    search (audit_rules, elsewhere-IsAudited) depth 12

module _ (store : String → String → StoredArtifact) (json_text : ReceiptJson → String)
    (render_receipt_markdown : ReceiptData → ReceiptStatus → String) where
  write_receipt-IsAudited :
      (d : ReceiptData) (receipt : ReceiptJson) (text : String)
      → Keeps IsAudited (write_receipt store json_text render_receipt_markdown d receipt text)
  unfolding write_receipt
  write_receipt-IsAudited d receipt text = search (audit_rules, upsert_receipt-IsAudited) depth 16

  generate_receipt-IsAudited :
      (run_id : ℕ)
      → Keeps IsAudited (generate_receipt store json_text render_receipt_markdown run_id)
  unfolding generate_receipt
  generate_receipt-IsAudited run_id =
      search (audit_rules, gather_receipt_data-IsAudited, write_receipt-IsAudited) depth 12

  pub generate_receipt_handler-IsAudited :
      (run_id : ℕ)
      → Keeps IsAudited (generate_receipt_handler store json_text render_receipt_markdown run_id)
  unfolding generate_receipt_handler
  generate_receipt_handler-IsAudited run_id = search (audit_rules, generate_receipt-IsAudited)

  module _ (read : String → Result String) where
    cached_or_generated-IsAudited :
        (format : ReceiptFormat) (run_id : ℕ) (artifact : Option Artifact)
        → Keeps IsAudited (
            cached_or_generated store json_text render_receipt_markdown read format run_id artifact)
    unfolding cached_or_generated
    cached_or_generated-IsAudited format run_id none =
        search (audit_rules, generate_receipt-IsAudited) depth 8
    cached_or_generated-IsAudited format run_id (some artifact) = search audit_rules depth 8

    pub get_receipt-IsAudited :
        (a : AuthenticatedAgent) (run_id : ℕ) (format : ReceiptFormat)
        → Keeps IsAudited (get_receipt store json_text render_receipt_markdown read a run_id format)
    unfolding get_receipt
    get_receipt-IsAudited a run_id format =
        search (audit_rules, cached_or_generated-IsAudited) depth 20
