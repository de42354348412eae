-- ===== src/Github/RouteLaws.antt =====
-- src/api/routes/github-webhook-route.ts and src/github/process-pull-request-event.ts: what an
-- unsigned or a repeated delivery does.
use mathlib.Core.Path.{subst}
use shld.Prelude.{
  ℕ, ◌≡◌, ◌≢◌, ◌∙◌, ap, refl, sym, ◌⊎◌, inl, inr, true, false, Option, none, some, List, ◌∷◌, ◌++◌,
  String, str_eq, eq_iff, is_some, any, Bool-cases, Option-cases,
}
use shld.Accounts.Agents.{get_or_create_github_agent_identity}
use shld.Action.{Result, ok, err, gets, ◌>>=◌}
use shld.Action.Ends.{Ends, Ends-bind, Ends-pure}
use shld.Domain.Errors.{DomainError, unique_violation}
use shld.Store.Accounts.{InboundGithubEvent}
use shld.Github.PullRequests.{
  PullRequestWebhookPayload, ProcessPullRequestEventParams, ProcessPullRequestEventResult, skipped,
  duplicate_delivery, SkipReason, unrecognized_payload, untracked_action, unknown_repository,
  created, find_connected, tracked_pull_request_actions, find_event, event_of, record_delivery,
  skip, review_connected, on_payload, process_pull_request_event,
}
use shld.Github.Route.{
  WebhookRequest, WebhookReply, missing_headers, invalid_signature, on_headers,
  github_webhook_route,
}
use shld.Github.Signature.{
  scheme, verify_github_webhook_signature, verify_github_webhook_signature-sign,
}
use shld.Services.Review.{create_security_review}
use shld.Store.{Db}
use shld.Store.Rows.{Repository}

-- the delivery is on record
abbrev pub IsRecorded : ProcessPullRequestEventParams → Db → Type 0
IsRecorded params db = is_some (find_event params.delivery_id db) ≡ true

abbrev with_event : ProcessPullRequestEventParams → Db → Db
with_event params db = record db {
  inbound_github_events = event_of params ∷ db.inbound_github_events;
}

with_event-IsRecorded :
    (params : ProcessPullRequestEventParams) (db : Db) → IsRecorded params (with_event params db)
unfolding find_event
with_event-IsRecorded params db = rw ((eq_iff params.delivery_id params.delivery_id).1 refl)

record_delivery-free :
    (params : ProcessPullRequestEventParams) (db : Db)
    → find_event params.delivery_id db ≡ none
    → record_delivery params db ≡ (ok tt, with_event params db)
unfolding record_delivery
record_delivery-free params db free = rw free

record_delivery-taken :
    (params : ProcessPullRequestEventParams) (db : Db) (e : InboundGithubEvent)
    → find_event params.delivery_id db ≡ some e
    → record_delivery params db ≡ (err unique_violation, db)
unfolding record_delivery
record_delivery-taken params db e taken = rw taken

returned_state :
    {A S : Type 0} {a b : A} {s t : S} {p : Result A × S} → p ≡ (ok a, s) → p ≡ (ok b, t) → s ≡ t
returned_state p q = ap (λ x. x.1) (sym p ∙ q)

refused_state :
    {A S : Type 0} {b : A} {s t : S} {e : DomainError} {p : Result A × S}
    → p ≡ (err e, s)
    → p ≡ (ok b, t)
    → ⊥
refused_state p q = cc

record_delivery-IsRecorded :
    (params : ProcessPullRequestEventParams) (db : Db) (a : Unit {0}) (after : Db)
    → record_delivery params db ≡ (ok a, after)
    → IsRecorded params after
record_delivery-IsRecorded params db a after h =
    elim (Option-cases (find_event params.delivery_id db)) [
      | inr (e, taken) ↦ absurd (refused_state (record_delivery-taken params db e taken) h)
      | inl free ↦
          subst (IsRecorded params) (returned_state (record_delivery-free params db free) h)
            (with_event-IsRecorded params db)
    ]

record_delivery-Ends :
    (params : ProcessPullRequestEventParams) → Ends (IsRecorded params) (record_delivery params)
record_delivery-Ends params = record { at = record_delivery-IsRecorded params }

skip-Ends :
    (params : ProcessPullRequestEventParams) (reason : SkipReason)
    → Ends (IsRecorded params) (skip params reason)
unfolding skip
skip-Ends params reason =
    Ends-pure (record_delivery params) (λ _. skipped reason) (record_delivery-Ends params)

module _ (sha256 : List ℕ → String) (key_text : ℕ → String)
    (params : ProcessPullRequestEventParams) where
  review_connected-Ends :
      (payload : PullRequestWebhookPayload) (repository : Option Repository)
      → Ends (IsRecorded params) (review_connected sha256 key_text params payload repository)
  unfolding review_connected
  review_connected-Ends payload none = skip-Ends params unknown_repository
  review_connected-Ends payload (some repository) =
      Ends-bind (get_or_create_github_agent_identity repository.organization_id) _ λ agent.
        Ends-bind (create_security_review sha256 key_text _) _ λ result.
          Ends-pure (record_delivery params) (λ _. created result.run_id result.status)
            (record_delivery-Ends params)

  on_payload-Ends :
      (payload : Option PullRequestWebhookPayload)
      → Ends (IsRecorded params) (on_payload sha256 key_text params payload)
  unfolding on_payload
  on_payload-Ends none = skip-Ends params unrecognized_payload
  on_payload-Ends (some payload) =
      elim (Bool-cases (any (str_eq payload.action) tracked_pull_request_actions)) [
        | inl tracked ↦
            rw tracked (Ends-bind (gets (find_connected payload)) _ (review_connected-Ends payload))
        | inr other ↦ rw other (skip-Ends params untracked_action)
      ]

  repeated :
      (db : Db)
      → IsRecorded params db
      → process_pull_request_event sha256 key_text params db ≡ (ok (skipped duplicate_delivery), db)
  unfolding process_pull_request_event
  repeated db known = rw known

  fresh_event :
      (db : Db)
      → is_some (find_event params.delivery_id db) ≡ false
      → process_pull_request_event sha256 key_text params db
        ≡ on_payload sha256 key_text params params.payload db
  unfolding process_pull_request_event
  fresh_event db fresh = rw fresh

  processed-IsRecorded :
      (r : ProcessPullRequestEventResult) (db after : Db)
      → process_pull_request_event sha256 key_text params db ≡ (ok r, after)
      → IsRecorded params after
  processed-IsRecorded r db after h =
      elim (Bool-cases (is_some (find_event params.delivery_id db))) [
        | inl known ↦ subst (IsRecorded params) (returned_state (repeated db known) h) known
        | inr fresh ↦
            (on_payload-Ends params.payload).at db r after (sym (fresh_event db fresh) ∙ h)
      ]

  -- A delivery that was processed is skipped when it comes again, and changes nothing, whether it
  -- started a review or was skipped the first time.
  pub process_pull_request_event-again :
      (r : ProcessPullRequestEventResult) (db after : Db)
      → process_pull_request_event sha256 key_text params db ≡ (ok r, after)
      → process_pull_request_event sha256 key_text params after
        ≡ (ok (skipped duplicate_delivery), after)
  process_pull_request_event-again r db after h = repeated after (processed-IsRecorded r db after h)

module _ (hmac : List ℕ → List ℕ → List ℕ) (sha256 : List ℕ → String) (key_text : ℕ → String)
    (webhook_secret : List ℕ) where
  abbrev pub IsRejected : WebhookRequest → Db → Type 0
  IsRejected request db =
      (reply : WebhookReply) × (github_webhook_route hmac sha256 key_text webhook_secret request db
        ≡ (ok reply, db))
      × ((reply ≡ missing_headers) ⊎ (reply ≡ invalid_signature))

  forged :
      (raw_body header : List ℕ)
      → some header ≢ some (scheme ++ hmac webhook_secret raw_body)
      → verify_github_webhook_signature hmac raw_body (some header) webhook_secret ≡ false
  forged raw_body header n =
      elim (Bool-cases
        (verify_github_webhook_signature hmac raw_body (some header) webhook_secret)) [
          | inl good ↦ absurd (
              n (
                ap some
                  (verify_github_webhook_signature-sign hmac raw_body header webhook_secret good)))
          | inr bad ↦ bad
        ]

  on_headers-rejects :
      (raw_body : List ℕ) (signature : Option (List ℕ)) (delivery_id event_type : Option String)
      (body : Option PullRequestWebhookPayload) (db : Db)
      → signature ≢ some (scheme ++ hmac webhook_secret raw_body)
      → (reply : WebhookReply) × (on_headers hmac sha256 key_text webhook_secret
            (some raw_body)
            signature
            delivery_id
            event_type
            body
            db
          ≡ (ok reply, db))
        × ((reply ≡ missing_headers) ⊎ (reply ≡ invalid_signature))
  unfolding on_headers ◌>>=◌
  on_headers-rejects raw_body none delivery_id event_type body db n =
      (missing_headers, refl, inl refl)
  on_headers-rejects raw_body (some header) none event_type body db n =
      (missing_headers, refl, inl refl)
  on_headers-rejects raw_body (some header) (some id) none body db n =
      (missing_headers, refl, inl refl)
  on_headers-rejects raw_body (some header) (some id) (some event) body db n =
      (invalid_signature, rw (forged raw_body header n), inr refl)

  -- A delivery whose signature header is not the one that GitHub makes of the exact bytes of its body
  -- and the secret is answered with 400 or 401, and changes nothing.
  pub github_webhook_route-rejects :
      (request : WebhookRequest) (raw_body : List ℕ) (db : Db)
      → request.raw_body ≡ some raw_body
      → request.signature ≢ some (scheme ++ hmac webhook_secret raw_body)
      → IsRejected request db
  unfolding github_webhook_route
  github_webhook_route-rejects request raw_body db h n = rw h (
      on_headers-rejects raw_body request.signature request.delivery_id request.event_type
        request.body db n)
