-- ===== src/Api/Idempotency.antt =====
-- src/api/idempotency.ts. A body is its JSON text, and its hash a parameter.
use shld.Prelude.{
  ℕ, Bool, true, false, ◌&&◌, Option, none, some, ◌∷◌, String, str_eq, ◌==◌, is_some, if◌then◌else◌,
  find,
}
use shld.Action.{Action, ok, err, pure, throw, lift, gets, modify, ◌>>=◌, ◌>>◌}
use shld.Domain.Errors.{idempotency_conflict, unique_violation}
use shld.Store.{Db}
use shld.Store.Accounts.{IdempotencyRecord}

pub record WithIdempotencyParams : Type 0 where
  pub organization_id : ℕ
  pub endpoint : String
  pub idempotency_key : String
  pub request_body : String

pub record Response : Type 0 where
  pub status : ℕ
  pub body : String

pub record IdempotentResult : Type 0 where
  pub status : ℕ
  pub body : String
  pub deduplicated : Bool

abbrev pub has_key : WithIdempotencyParams → IdempotencyRecord → Bool
has_key params r =
    r.organization_id == params.organization_id
    && str_eq r.endpoint params.endpoint
    && str_eq r.idempotency_key params.idempotency_key

unfoldable pub find_record : WithIdempotencyParams → Db → Option IdempotencyRecord
find_record params db = find (has_key params) db.idempotency_records

-- `idempotencyRecord.create`; organization, endpoint and key are unique together
unfoldable pub create_record : WithIdempotencyParams → IdempotencyRecord → Action Db (Unit {0})
unfolding ◌>>=◌
create_record params row = do
  taken ← gets (find_record params)
  lift (if is_some taken then err unique_violation else ok tt)
  modify λ db. record db { idempotency_records = row ∷ db.idempotency_records }

abbrev pub record_of : WithIdempotencyParams → String → Response → IdempotencyRecord
record_of params request_hash result = record {
  organization_id = params.organization_id;
  endpoint = params.endpoint;
  idempotency_key = params.idempotency_key;
  request_hash = request_hash;
  response_status = result.status;
  response_body = result.body;
}

module _ (hash_request : String → String) where
  unfoldable pub answer_or_run :
      WithIdempotencyParams
      → Action Db Response
      → Option IdempotencyRecord
      → Action Db IdempotentResult
  unfolding ◌>>=◌ create_record
  answer_or_run params handler (some existing) =
      if str_eq existing.request_hash (hash_request params.request_body)
      then pure (record {
        status = existing.response_status;
        body = existing.response_body;
        deduplicated = true;
      })
      else throw idempotency_conflict
  answer_or_run params handler none = do
    result ← handler
    create_record params (record_of params (hash_request params.request_body) result)
    pure (record { status = result.status; body = result.body; deduplicated = false })

  unfoldable pub with_idempotency :
      WithIdempotencyParams → Action Db Response → Action Db IdempotentResult
  unfolding ◌>>=◌ answer_or_run
  with_idempotency params handler = do
    existing ← gets (find_record params)
    answer_or_run params handler existing
