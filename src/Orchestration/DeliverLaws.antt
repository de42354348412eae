-- ===== src/Orchestration/DeliverLaws.antt =====
-- What an attempt at a delivery leaves: src/webhooks/deliver-webhook-handler.ts.
use shld.Prelude.{◌≡◌, ℕ, Option, some, if◌then◌else◌}
use shld.Action.{Result, ok, err}
use shld.Domain.Errors.{plain_error}
use shld.Orchestration.Deliver.{Response, find_delivery, has_succeeded, attempted}
use shld.Store.{Db}
use shld.Store.Rows.{WebhookDelivery, WebhookEndpoint}
use shld.Store.Table.{update_by}

module _ (receiver : WebhookDelivery → WebhookEndpoint → Option Response) (attempt id : ℕ) (db : Db)
    (d : WebhookDelivery) (found : find_delivery id db ≡ some d) where
  -- what an attempt says to the queue
  abbrev pub answer : WebhookEndpoint → Result (Unit {0})
  answer e = if has_succeeded (receiver d e) then ok tt else err plain_error

  abbrev after_attempt : WebhookEndpoint → Db
  after_attempt e = record db {
    webhook_deliveries =
        update_by (λ r. r.id) d.id (attempted (receiver d e) attempt db.now) db.webhook_deliveries;
  }
