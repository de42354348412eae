-- ===== src/Api/IdempotencyLaws.antt =====
-- src/api/idempotency.ts: what a repeated request meets.
use shld.Prelude.{
  ◌≡◌, ◌≢◌, refl, true, false, none, some, ◌∷◌, String, str_eq, eq_iff, ==_iff, arith,
}
use shld.Action.{Action, ok, err}
use shld.Domain.Errors.{idempotency_conflict}
use shld.Store.{Db}
use shld.Store.Accounts.{IdempotencyRecord}
use shld.Api.Idempotency.{
  WithIdempotencyParams, Response, IdempotentResult, has_key, find_record, create_record, record_of,
  with_idempotency,
}

abbrev pub replayed : Response → IdempotentResult
replayed r = record { status = r.status; body = r.body; deduplicated = true }

abbrev pub answered_now : Response → IdempotentResult
answered_now r = record { status = r.status; body = r.body; deduplicated = false }

abbrev pub recorded : WithIdempotencyParams → String → Response → Db → Db
recorded params hash r db = record db {
  idempotency_records = record_of params hash r ∷ db.idempotency_records;
}

has_key_self :
    (params : WithIdempotencyParams) (hash : String) (r : Response)
    → has_key params (record_of params hash r) ≡ true
has_key_self params hash r = rw (
  (==_iff params.organization_id params.organization_id).1 refl,
  (eq_iff params.endpoint params.endpoint).1 refl,
  (eq_iff params.idempotency_key params.idempotency_key).1 refl,
)

differs : (a b : String) → a ≢ b → str_eq a b ≡ false
differs a b n = ground (arith, eq_iff a b)

find_record-recorded :
    (params : WithIdempotencyParams) (hash : String) (r : Response) (db : Db)
    → find_record params (recorded params hash r db) ≡ some (record_of params hash r)
unfolding find_record
find_record-recorded params hash r db = rw (has_key_self params hash r)

module _ (hash_request : String → String) (params : WithIdempotencyParams) where
  abbrev done : Response → Db → Db
  done r after = recorded params (hash_request params.request_body) r after

  create_record-unused :
      (row : IdempotencyRecord) (db : Db)
      → find_record params db ≡ none
      → create_record params row db
        ≡ (ok tt, record db { idempotency_records = row ∷ db.idempotency_records })
  unfolding create_record
  create_record-unused row db unused = rw unused

  runs :
      (handler : Action Db Response) (db after : Db) (r : Response)
      → find_record params db ≡ none
      → handler db ≡ (ok r, after)
      → find_record params after ≡ none
      → with_idempotency hash_request params handler db ≡ (ok (answered_now r), done r after)
  unfolding with_idempotency
  runs handler db after r fresh ran unused = rw (fresh, ran) (rw unused)

  repeats :
      (handler : Action Db Response) (r : Response) (after : Db)
      → with_idempotency hash_request params handler (done r after)
        ≡ (ok (replayed r), done r after)
  unfolding with_idempotency
  repeats handler r after = rw (
    find_record-recorded params (hash_request params.request_body) r after,
    (eq_iff (hash_request params.request_body) (hash_request params.request_body)).1 refl,
  )

  conflicts :
      (body : String) (handler : Action Db Response) (r : Response) (after : Db)
      → hash_request params.request_body ≢ hash_request body
      → with_idempotency hash_request (record params { request_body = body }) handler (done r after)
        ≡ (err idempotency_conflict, done r after)
  unfolding with_idempotency find_record
  conflicts body handler r after other = rw (
    find_record-recorded params (hash_request params.request_body) r after,
    differs (hash_request params.request_body) (hash_request body) other,
  )

  -- The first request runs the handler and records its answer; the same request again, whatever the
  -- handler would do, is answered by the record; and another body under that key is refused.
  pub record IsIdempotent (handler again : Action Db Response) (body : String) (db after : Db)
      (r : Response) : Type 0 where
    pub first :
        with_idempotency hash_request params handler db ≡ (ok (answered_now r), done r after)
    pub second :
        with_idempotency hash_request params again (done r after) ≡ (ok (replayed r), done r after)
    pub other_body :
        with_idempotency hash_request (record params { request_body = body }) again (done r after)
        ≡ (err idempotency_conflict, done r after)

  pub with_idempotency-IsIdempotent :
      (handler again : Action Db Response) (body : String) (db after : Db) (r : Response)
      → find_record params db ≡ none
      → handler db ≡ (ok r, after)
      → find_record params after ≡ none
      → hash_request params.request_body ≢ hash_request body
      → IsIdempotent handler again body db after r
  with_idempotency-IsIdempotent handler again body db after r fresh ran unused other = record {
    first = runs handler db after r fresh ran unused;
    second = repeats again r after;
    other_body = conflicts body again r after other;
  }
