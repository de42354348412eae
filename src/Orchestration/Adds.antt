-- ===== src/Orchestration/Adds.antt =====
-- Actions that cannot throw and only hand jobs to the queue: src/webhooks/enqueue-delivery.ts.
use shld.Prelude.{ap, ◌∙◌, ◌≡◌, refl, ℕ, Option, none, some, List, [], ◌∷◌, ◌++◌, append_assoc}
use shld.Action.{ok, Action, ◌>>=◌, collect, for_each, pure, gets}
use shld.Orchestration.Webhooks.{
  enqueue_job, upsert_delivery, deliver_to, enqueue_webhook_delivery, EnqueueWebhookDeliveryParams,
}
use shld.Store.{Db}
use shld.Store.Writes.{fresh_id}
use shld.Store.Rows.{JobRequest, DeliveryKey, WebhookDelivery, WebhookEndpoint}

-- an action that does not throw, leaves the runs alone and only adds to the jobs handed over
pub record Adds {A : Type 0} (m : Action Db A) (db : Db) : Type 0 where
  pub result : A
  pub after : Db
  pub jobs : List JobRequest
  pub returns : m db ≡ (ok result, after)
  pub keeps_runs : after.runs ≡ db.runs
  pub adds : after.outbox ≡ jobs ++ db.outbox

pub Adds-bind :
    {A B : Type 0} (m : Action Db A) (f : A → Action Db B) (db : Db)
    → Adds m db
    → ((a : A) (db : Db) → Adds (f a) db)
    → Adds (m >>= f) db
unfolding ◌>>=◌
Adds-bind m f db a k =
    let b = k a.result a.after in
    record {
      result = b.result;
      after = b.after;
      jobs = b.jobs ++ a.jobs;
      returns = rw (a.returns, b.returns);
      keeps_runs = b.keeps_runs ∙ a.keeps_runs;
      adds = b.adds ∙ ap (λ l. b.jobs ++ l) a.adds ∙ append_assoc b.jobs a.jobs db.outbox;
    }

pub Adds-pure : {A : Type 0} (a : A) (db : Db) → Adds (pure a) db
unfolding ◌>>=◌
Adds-pure a db = record {
  result = a;
  after = db;
  jobs = [];
  returns = refl;
  keeps_runs = refl;
  adds = refl;
}

pub Adds-enqueue : (job : JobRequest) (db : Db) → Adds (enqueue_job job) db
unfolding enqueue_job ◌>>=◌
Adds-enqueue job db = record {
  result = tt;
  after = record db { outbox = job ∷ db.outbox };
  jobs = job ∷ [];
  returns = refl;
  keeps_runs = refl;
  adds = refl;
}

pub Adds-gets : {A : Type 0} (f : Db → A) (db : Db) → Adds (gets f) db
unfolding ◌>>=◌
Adds-gets f db = record {
  result = f db;
  after = db;
  jobs = [];
  returns = refl;
  keeps_runs = refl;
  adds = refl;
}

pub Adds-upsert :
    (endpoint_id : ℕ) (key : DeliveryKey) (o : Option WebhookDelivery) (db : Db)
    → Adds (upsert_delivery endpoint_id key o) db
unfolding upsert_delivery fresh_id ◌>>=◌
Adds-upsert endpoint_id key none db = record {
  result = db.next_id;
  after = _;
  jobs = [];
  returns = refl;
  keeps_runs = refl;
  adds = refl;
}
Adds-upsert endpoint_id key (some row) db = Adds-pure row.id db

pub Adds-collect :
    {A B : Type 0} (xs : List A) (body : A → Action Db B) (db : Db)
    → ((x : A) (db : Db) → Adds (body x) db)
    → Adds (collect xs body) db
unfolding collect
Adds-collect [] body db k = Adds-pure [] db
Adds-collect (x ∷ xs) body db k = Adds-bind (body x) _ db (k x db) (λ y db.
    Adds-bind (collect xs body) _ db (Adds-collect xs body db k) (λ ys db. Adds-pure (y ∷ ys) db))

pub Adds-for_each :
    {A : Type 0} (xs : List A) (body : A → Action Db (Unit {0})) (db : Db)
    → ((x : A) (db : Db) → Adds (body x) db)
    → Adds (for_each xs body) db
unfolding for_each
Adds-for_each [] body db k = Adds-pure tt db
Adds-for_each (x ∷ xs) body db k =
    Adds-bind (body x) _ db (k x db) (λ _ db. Adds-for_each xs body db k)

Adds-deliver :
    (params : EnqueueWebhookDeliveryParams) (endpoint : WebhookEndpoint) (db : Db)
    → Adds (deliver_to params endpoint) db
unfolding deliver_to
Adds-deliver params endpoint db = Adds-bind (gets _) _ db (Adds-gets _ db) (λ o db.
    Adds-bind (upsert_delivery endpoint.id params.idempotency_key o) _ db
      (Adds-upsert endpoint.id params.idempotency_key o db)
      (λ id db. Adds-bind (enqueue_job _) _ db (Adds-enqueue _ db) (λ _ db. Adds-pure id db)))

pub Adds-webhook :
    (params : EnqueueWebhookDeliveryParams) (db : Db) → Adds (enqueue_webhook_delivery params) db
unfolding enqueue_webhook_delivery
Adds-webhook params db =
    Adds-bind (gets _) _ db (Adds-gets _ db)
      (λ endpoints db. Adds-collect endpoints (deliver_to params) db (Adds-deliver params))
