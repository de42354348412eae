-- ===== src/Receipts/Generate.antt =====
-- src/receipts/generate-receipt.ts, src/api/services/get-receipt.ts and the handler of
-- routing-and-receipt.ts. Parameters: the artifact store, the JSON text of a receipt, and its
-- Markdown.
use shld.Prelude.{ℕ, Option, none, some, [], ◌∷◌, map, String}
use shld.Access.Permissions.{assert_same_organization}
use shld.Action.{Action, Result, pure, lift, gets, modify, or_throw, transaction, ◌>>=◌, ◌>>◌}
use shld.Domain.Errors.{not_found}
use shld.Domain.Transitions.{find_run}
use shld.Engines.DeepSec.{StoredArtifact}
use shld.Receipts.Gather.{ReceiptData, gather_receipt_data}
use shld.Receipts.Render.{ReceiptJson, render_receipt_json}
use shld.Receipts.Status.{ReceiptStatus, compute_receipt_status}
use shld.Services.Requests.{AuthenticatedAgent}
use shld.Store.{Db}
use shld.Store.Accounts.{Receipt}
use shld.Store.Rows.{Artifact, receipt_json, receipt_markdown}
use shld.Store.Table.{find_by, update_by}
use shld.Store.Writes.{fresh_id, create_artifact}

pub record GenerateReceiptOutcome : Type 0 where
  pub receipt_id : ℕ
  pub status : ReceiptStatus
  pub json : ReceiptJson
  pub markdown : String
  pub json_artifact_id : ℕ
  pub markdown_artifact_id : ℕ

pub data ReceiptFormat : Type 0 where
  json markdown : ReceiptFormat

pub record ReceiptBody : Type 0 where
  pub content_type : String
  pub body : String

-- `receipt.findUnique({ where: { runId } })`
unfoldable pub find_receipt : ℕ → Db → Option Receipt
find_receipt run_id db = find_by (λ r. r.run_id) run_id db.receipts

abbrev pub with_new_receipt : Receipt → Db → Db
with_new_receipt r db = record db { receipts = r ∷ db.receipts }

abbrev pub with_receipt : ℕ → (Receipt → Receipt) → Db → Db
with_receipt run_id change db = record db {
  receipts = update_by (λ r. r.run_id) run_id change db.receipts;
}

-- the columns of `update`
abbrev pub regenerated : ReceiptStatus → ℕ → ℕ → ℕ → Receipt → Receipt
regenerated status json_id markdown_id now r = record r {
  status = status;
  json_artifact_id = some json_id;
  markdown_artifact_id = some markdown_id;
  generated_at = now;
}

abbrev pub new_receipt : ℕ → ReceiptStatus → ℕ → ℕ → ℕ → ℕ → Receipt
new_receipt run_id status json_id markdown_id now id = record {
  id = id;
  run_id = run_id;
  status = status;
  json_artifact_id = some json_id;
  markdown_artifact_id = some markdown_id;
  generated_at = now;
}

-- `receipt.upsert`, and the key of its row
unfoldable pub upsert_receipt : ℕ → ReceiptStatus → ℕ → ℕ → ℕ → Option Receipt → Action Db ℕ
unfolding ◌>>=◌ fresh_id
upsert_receipt run_id status json_id markdown_id now (some r) = do
  modify (with_receipt run_id (regenerated status json_id markdown_id now))
  pure r.id
upsert_receipt run_id status json_id markdown_id now none = do
  id ← fresh_id
  modify (with_new_receipt (new_receipt run_id status json_id markdown_id now id))
  pure id

-- the status of the gathered run and its findings
abbrev pub status_of : ReceiptData → ReceiptStatus
status_of d = compute_receipt_status d.run_status (map (λ f. f.status) d.findings)

abbrev pub content_type_of : ReceiptFormat → String
content_type_of json = "application/json"
content_type_of markdown = "text/markdown"

abbrev pub artifact_id_of : ReceiptFormat → Option Receipt → Option ℕ
artifact_id_of format none = none
artifact_id_of json (some r) = r.json_artifact_id
artifact_id_of markdown (some r) = r.markdown_artifact_id

abbrev pub find_artifact : Option ℕ → Db → Option Artifact
find_artifact none db = none
find_artifact (some id) db = find_by (λ (a : Artifact). a.id) id db.artifacts

module _ (store : String → String → StoredArtifact) (json_text : ReceiptJson → String)
    (render_receipt_markdown : ReceiptData → ReceiptStatus → String) where
  -- the artifacts and the row, for what was gathered
  unfoldable pub write_receipt :
      ReceiptData → ReceiptJson → String → Action Db GenerateReceiptOutcome
  unfolding ◌>>=◌ create_artifact upsert_receipt
  write_receipt d receipt text = do
    let stored_json = store (json_text receipt) "receipts"
    let stored_markdown = store text "receipts"
    json_id ← create_artifact (record {
      organization_id = d.organization_id;
      run_id = d.run_id;
      type = receipt_json;
      storage_location = stored_json.storage_location;
      content_hash = stored_json.content_hash;
      changed_files = [];
    })
    markdown_id ← create_artifact (record {
      organization_id = d.organization_id;
      run_id = d.run_id;
      type = receipt_markdown;
      storage_location = stored_markdown.storage_location;
      content_hash = stored_markdown.content_hash;
      changed_files = [];
    })
    existing ← gets (find_receipt d.run_id)
    now ← gets (λ db. db.now)
    id ← upsert_receipt d.run_id (status_of d) json_id markdown_id now existing
    pure (record {
      receipt_id = id;
      status = status_of d;
      json = receipt;
      markdown = text;
      json_artifact_id = json_id;
      markdown_artifact_id = markdown_id;
    })

  unfoldable pub generate_receipt : ℕ → Action Db GenerateReceiptOutcome
  unfolding ◌>>=◌ gather_receipt_data write_receipt
  generate_receipt run_id = do
    d ← gather_receipt_data run_id
    now ← gets (λ db. db.now)
    transaction (
        write_receipt d (render_receipt_json d (status_of d) now)
          (render_receipt_markdown d (status_of d)))

  -- the job of the queue
  unfoldable pub generate_receipt_handler : ℕ → Action Db (Unit {0})
  unfolding ◌>>=◌ generate_receipt
  generate_receipt_handler run_id = generate_receipt run_id >>= λ _. pure tt

  abbrev pub body_of : ReceiptFormat → GenerateReceiptOutcome → ReceiptBody
  body_of json g = record { content_type = "application/json"; body = json_text g.json }
  body_of markdown g = record { content_type = "text/markdown"; body = g.markdown }

  module _ (read : String → Result String) where
    unfoldable pub cached_or_generated : ReceiptFormat → ℕ → Option Artifact → Action Db ReceiptBody
    unfolding ◌>>=◌ generate_receipt
    cached_or_generated format run_id (some artifact) = do
      content ← lift (read artifact.storage_location)
      pure (record { content_type = content_type_of format; body = content })
    cached_or_generated format run_id none = do
      generated ← generate_receipt run_id
      pure (body_of format generated)

    unfoldable pub get_receipt : AuthenticatedAgent → ℕ → ReceiptFormat → Action Db ReceiptBody
    unfolding ◌>>=◌ cached_or_generated
    get_receipt a run_id format = do
      found ← gets (find_run run_id)
      run ← or_throw found not_found
      lift (assert_same_organization a.organization_id run.organization_id)
      existing ← gets (find_receipt run_id)
      artifact ← gets (find_artifact (artifact_id_of format existing))
      cached_or_generated format run_id artifact
