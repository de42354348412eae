-- ===== src/Tests/Reads.antt =====
-- The artifact store, a generated receipt, and reads of another organization.
use shld.Prelude.{
  ℕ, eq_iff, ◌≡◌, ◌≢◌, refl, none, false, true, List, [], ◌∷◌, String, Option, arith,
}
use shld.Prelude.Text.{codes}
use shld.Accounts.Agents.{github_permissions}
use shld.Action.{ok, ◌>>=◌}
use shld.Artifacts.{
  Files, stored, store, write_file, store_all, read, read-store, find_file, HasOwnHash,
}
use shld.Engines.DeepSec.{StoredArtifact}
use shld.Receipts.Gather.{ReceiptData, receipt_data}
use shld.Receipts.Generate.{markdown}
use shld.Receipts.Render.{ReceiptJson}
use shld.Receipts.Status.{ReceiptStatus}
use shld.Services.ReadLaws.{IsBlind, other_tenant-IsBlind}
use shld.Services.Requests.{AuthenticatedAgent}
use shld.Store.{Db}
use shld.Store.Accounts.{Organization, AgentIdentity, AgentType}
use shld.Store.Rows.{Repository, active}
use shld.Store.Writes.{run_of}
use shld.Tests.Access.{stranger}
use shld.Tests.Scenario.{review, reviewed, run_services, found_injection, review_finds, review_runs}

-- a stand-in for the hash, which takes the two contents of the test apart
abbrev digest : List ℕ → String
digest [] = "none"
digest (c ∷ cs) = "some"

abbrev letter : List ℕ
letter = codes "a"

abbrev one_file : Files
one_file = (store digest false letter none []).1

stored_once : store digest false letter none [] ≡ (ok (stored digest false letter none), one_file)
unfolding store write_file ◌>>=◌ find_file
stored_once = refl

-- the same content, which is refused, and another
abbrev later : List (List ℕ × Option String)
later = (letter, none) ∷ ([], none) ∷ []

clash : false ≡ true → ⊥
clash h = cc

apart : ◌≢◌ {A = String} "none" "some"
apart h = absurd (clash ((eq_iff "none" "some").1 h))

later_own : HasOwnHash digest false letter later
later_own = (λ h. refl, (λ h. absurd (apart h), tt))

read-store_example :
    read (stored digest false letter none).storage_location (store_all digest false later one_file)
    ≡ ok letter
read-store_example =
    read-store digest false letter none [] one_file (stored digest false letter none) later
      stored_once later_own

abbrev acme : Organization
acme = record { id = 10; name = "acme" }

abbrev web : Repository
web = record { id = 20; organization_id = 10; owner = "acme"; name = "web"; status = active }

abbrev reviewer : AgentIdentity
reviewer = record {
  id = 30;
  organization_id = 10;
  name = "reviewer";
  type = AgentType.mcp;
  permissions = github_permissions;
  last_used_at = none;
}

-- the review, with the rows that a receipt names
abbrev named : Db
named = record (run_services reviewed) {
  organizations = acme ∷ [];
  repositories = web ∷ [];
  agent_identities = reviewer ∷ [];
}

abbrev gathered : ReceiptData
gathered = receipt_data named (run_of review 0) acme web reviewer

abbrev keeps : String → String → StoredArtifact
keeps content folder = record { storage_location = content; content_hash = content }

abbrev json_text : ReceiptJson → String
json_text receipt = receipt.head_commit

abbrev page : ReceiptData → ReceiptStatus → String
page d status = d.head_sha

abbrev asks : AuthenticatedAgent
asks = record stranger { organization_id = 10 }

foreign_reader : stranger.organization_id ≢ found_injection.organization_id
foreign_reader = omega arith

other_tenant-IsBlind_example :
    IsBlind stranger
      (run_services reviewed)
      3
      found_injection
      0
      (run_of review 0)
      keeps
      json_text
      page
      ok
      markdown
other_tenant-IsBlind_example =
    other_tenant-IsBlind stranger (run_services reviewed) 3 found_injection 0 (run_of review 0)
      keeps json_text page ok markdown review_finds foreign_reader review_runs foreign_reader
