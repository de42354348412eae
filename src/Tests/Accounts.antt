-- ===== src/Tests/Accounts.antt =====
-- Sessions, keys, repeated requests, slots and deliveries.
use shld.Prelude.{
  ℕ, ◌+◌, ◌<◌, ◌≡◌, ◌≢◌, refl, none, some, true, false, any, ◌==◌, List, [], ◌∷◌, String, arith,
  eq_iff,
}
use shld.Prelude.Text.{codes}
use shld.Accounts.AgentLaws.{IsSettled, get_or_create_github_agent_identity-IsSettled}
use shld.Accounts.ApiKeys.{generate_api_key, is_well_formed_api_key, safe_compare_hex}
use shld.Accounts.Sessions.{find_session, find_user}
use shld.Accounts.SessionLaws.{IsServed, create_session-IsServed}
use shld.Action.{Action, ok}
use shld.Api.Fairness.{
  Slots, Reach, empty, next, admits, seats, admit_job, seat_job, current_count, current_count-lt,
  has_room, try_acquire,
}
use shld.Api.Idempotency.{WithIdempotencyParams, Response, find_record}
use shld.Api.IdempotencyLaws.{IsIdempotent, with_idempotency-IsIdempotent, recorded}
use shld.Audited.Service.{empty_db}
use shld.Services.Requests.{AuthenticatedAgent}
use shld.Store.{Db}
use shld.Store.Accounts.{User, admin}
use shld.Store.Table.{find_by}
use shld.Tests.Scenario.{hashed}

abbrev params : WithIdempotencyParams
params = record {
  organization_id = 10;
  endpoint = "createSecurityReview";
  idempotency_key = "k1";
  request_body = "{}";
}

abbrev created_response : Response
created_response = record { status = 201; body = "{run}" }

abbrev creates : Action Db Response
creates db = (ok created_response, record db { next_id = 1 })

abbrev same_hash : String → String
same_hash text = text

other_text : same_hash params.request_body ≢ same_hash "[]"
other_text = ground (arith, eq_iff "{}" "[]")

unused : find_record params empty_db ≡ none
unfolding find_record
unused = refl

still_unused : find_record params (record empty_db { next_id = 1 }) ≡ none
unfolding find_record
still_unused = refl

with_idempotency-IsIdempotent_example :
    IsIdempotent same_hash params creates creates "[]" empty_db
      (record empty_db { next_id = 1 })
      created_response
with_idempotency-IsIdempotent_example =
    with_idempotency-IsIdempotent same_hash params creates creates "[]" empty_db
      (record empty_db { next_id = 1 }) created_response unused refl still_unused other_text

-- the same request in parallel is recorded first
abbrev overtaken : Action Db Response
overtaken db = (ok created_response, recorded params "{}" created_response db)

abbrev ada : User
ada = record { id = 7; organization_id = 10; role = admin }

abbrev with_ada : Db
with_ada = record empty_db { users = ada ∷ []; now = 1000 }

no_session : find_session (hashed (codes "t")) with_ada ≡ none
unfolding find_session
no_session = refl

ada_there : find_user 7 with_ada ≡ some ada
unfolding find_user find_by
ada_there = refl

create_session-IsServed_example : IsServed hashed (codes "t") 7 ada with_ada 2000 604802000
create_session-IsServed_example =
    create_session-IsServed hashed (codes "t") 7 ada with_ada 2000 604802000 no_session ada_there
      (omega arith) (omega arith)

abbrev secret : List ℕ
secret = codes "0123456789abcdefghijklmnopqrstuvwxyzABCDEFG"

well_formed : is_well_formed_api_key (generate_api_key hashed secret).raw ≡ true
unfolding is_well_formed_api_key generate_api_key
well_formed = refl

same_digest : safe_compare_hex (codes "00ff") (codes "00FF") ≡ true
unfolding safe_compare_hex
same_digest = refl

get_or_create_github_agent_identity-IsSettled_example :
    (a : AuthenticatedAgent) × (after : Db) × IsSettled 10 with_ada a after
get_or_create_github_agent_identity-IsSettled_example =
    get_or_create_github_agent_identity-IsSettled 10 with_ada

abbrev nobody : Slots
nobody = record { holders = []; admitted = [] }

room : has_room 2 nobody ≡ true
unfolding has_room
room = refl

waits : any (λ j. j == 7) (admit_job 2 7 nobody).admitted ≡ true
unfolding admit_job
waits = refl

abbrev one_seated : Slots
one_seated = seat_job 7 (admit_job 2 7 nobody)

reached : Reach 2 1 one_seated
reached =
    next (next empty (admits 7 nobody room (omega arith))) (seats 7 (admit_job 2 7 nobody) waits)

current_count-lt_example : current_count one_seated < 2 + 1
current_count-lt_example = current_count-lt 2 1 one_seated (omega arith) reached

third_refused :
    try_acquire 2 9 (record { holders = 7 ∷ 8 ∷ []; admitted = [] })
    ≡ (false, record { holders = 7 ∷ 8 ∷ []; admitted = [] })
unfolding try_acquire
third_refused = refl
