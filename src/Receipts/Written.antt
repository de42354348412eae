-- ===== src/Receipts/Written.antt =====
-- What src/receipts/generate-receipt.ts leaves in the tables.
use shld.Prelude.{
  ℕ, suc, ◌≡◌, refl, true, false, some, [], ◌∷◌, String, arith, ◌==◌, ==_iff, Option-cases, inl,
  inr,
}
use shld.Action.{ok}
use shld.Engines.DeepSec.{StoredArtifact}
use shld.Receipts.Gather.{ReceiptData}
use shld.Receipts.Generate.{
  GenerateReceiptOutcome, find_receipt, with_new_receipt, with_receipt, regenerated, new_receipt,
  status_of, write_receipt, find_artifact,
}
use shld.Receipts.Render.{ReceiptJson}
use shld.Receipts.Status.{ReceiptStatus}
use shld.Store.{Db}
use shld.Store.Accounts.{Receipt}
use shld.Store.Rows.{Artifact, receipt_json, receipt_markdown}
use shld.Store.Table.{find_by, update_by, find_by-updated}

module _ (store : String → String → StoredArtifact) (json_text : ReceiptJson → String)
    (render_receipt_markdown : ReceiptData → ReceiptStatus → String) (d : ReceiptData) where
  abbrev artifact_row : ℕ → String → Artifact
  artifact_row id text = record {
    id = id;
    organization_id = d.organization_id;
    run_id = d.run_id;
    type = receipt_json;
    storage_location = (store text "receipts").storage_location;
    content_hash = (store text "receipts").content_hash;
    changed_files = [];
  }

  -- the database with the two artifacts, before the receipt's row is written
  abbrev with_artifacts : ReceiptJson → String → Db → Db
  with_artifacts j text db = record db {
    artifacts =
        record (artifact_row (suc db.next_id) text) { type = receipt_markdown }
        ∷ artifact_row db.next_id (json_text j)
        ∷ db.artifacts;
    next_id = suc (suc db.next_id);
  }

  -- the receipt's row names both artifacts, whose contents stand where the store put them
  pub record IsWritten (j : ReceiptJson) (text : String) (db : Db) (g : GenerateReceiptOutcome)
      (after : Db) : Type 0 where
    pub row : Receipt
    pub json_row : Artifact
    pub markdown_row : Artifact
    pub says_status : g.status ≡ status_of d
    pub same_json : g.json ≡ j
    pub same_markdown : g.markdown ≡ text
    pub same_runs : after.runs ≡ db.runs
    pub found : find_receipt d.run_id after ≡ some row
    pub has_status : row.status ≡ status_of d
    pub names_json : row.json_artifact_id ≡ some g.json_artifact_id
    pub names_markdown : row.markdown_artifact_id ≡ some g.markdown_artifact_id
    pub json_found : find_artifact (some g.json_artifact_id) after ≡ some json_row
    pub markdown_found : find_artifact (some g.markdown_artifact_id) after ≡ some markdown_row
    pub json_place : json_row.storage_location ≡ (store (json_text j) "receipts").storage_location
    pub markdown_place : markdown_row.storage_location ≡ (store text "receipts").storage_location

  abbrev outcome : ReceiptJson → String → ℕ → Db → GenerateReceiptOutcome
  outcome j text id db = record {
    receipt_id = id;
    status = status_of d;
    json = j;
    markdown = text;
    json_artifact_id = db.next_id;
    markdown_artifact_id = suc db.next_id;
  }

  self : (n : ℕ) → (n == n) ≡ true
  self n = (==_iff n n).1 refl

  next_differs : (n : ℕ) → (suc n == n) ≡ false
  next_differs n = ground arith

  pub write_receipt-IsWritten :
      (j : ReceiptJson) (text : String) (db : Db)
      → (g : GenerateReceiptOutcome) × (after : Db) × (write_receipt store json_text
            render_receipt_markdown d j text db
          ≡ (ok g, after))
        × IsWritten j text db g after
  unfolding write_receipt find_receipt find_by update_by
  write_receipt-IsWritten j text db = elim (Option-cases (find_receipt d.run_id db)) [
    | inl missing ↦ (
      outcome j text (suc (suc db.next_id)) db,
      with_new_receipt
          (new_receipt d.run_id (status_of d) db.next_id (suc db.next_id) db.now
            (suc (suc db.next_id)))
          (record (with_artifacts j text db) { next_id = suc (suc (suc db.next_id)) }),
      rw missing,
      record {
        row =
            new_receipt d.run_id (status_of d) db.next_id (suc db.next_id) db.now
              (suc (suc db.next_id));
        json_row = artifact_row db.next_id (json_text j);
        markdown_row = record (artifact_row (suc db.next_id) text) { type = receipt_markdown };
        says_status = refl;
        same_json = refl;
        same_markdown = refl;
        same_runs = refl;
        found = rw (self d.run_id);
        has_status = refl;
        names_json = refl;
        names_markdown = refl;
        json_found = rw (next_differs db.next_id, self db.next_id);
        markdown_found = rw (self (suc db.next_id));
        json_place = refl;
        markdown_place = refl;
      },
    )
    | inr (r, there) ↦ (
      outcome j text r.id db,
      with_receipt d.run_id (regenerated (status_of d) db.next_id (suc db.next_id) db.now)
          (with_artifacts j text db),
      rw there,
      record {
        row = regenerated (status_of d) db.next_id (suc db.next_id) db.now r;
        json_row = artifact_row db.next_id (json_text j);
        markdown_row = record (artifact_row (suc db.next_id) text) { type = receipt_markdown };
        says_status = refl;
        same_json = refl;
        same_markdown = refl;
        same_runs = refl;
        found =
            find_by-updated (λ (x : Receipt). x.run_id) d.run_id
              (regenerated (status_of d) db.next_id (suc db.next_id) db.now) r db.receipts
              (λ x. refl) there;
        has_status = refl;
        names_json = refl;
        names_markdown = refl;
        json_found = rw (next_differs db.next_id, self db.next_id);
        markdown_found = rw (self (suc db.next_id));
        json_place = refl;
        markdown_place = refl;
      },
    )
  ]
