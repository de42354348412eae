-- ===== src/Network/Fetch.antt =====
-- src/authz/safe-fetch.ts: a request that follows its redirects by hand. What a lookup and a server
-- answer is a list of answers to come; `log` has what was done, the newest first. `new URL` is a
-- parameter.
use shld.Prelude.{
  ℕ, zero, suc, Bool, ◌&&◌, Option, none, some, List, [], ◌∷◌, leb, ltb, get_or, if◌then◌else◌,
}
use shld.Prelude.Text.{codes}
use shld.Action.{Action, Result, ok, err, pure, throw, lift, or_throw, ◌>>=◌, ◌>>◌}
use shld.Domain.Errors.{target_authorization, plain_error}
use shld.Network.Guard.{assert_public_address}
use shld.Network.Scope.{Url, TargetScope, assert_url_within_authorized_target}

-- `location` is the header, or the first of several; reading or dropping the body may throw
pub record Response : Type 0 where
  pub status_code : ℕ
  pub location : Option (List ℕ)
  pub body : Result (List ℕ)

pub data Event : Type 0 where
  looked_up : List ℕ → Result (List (List ℕ)) → Event
  sent : List ℕ → Event

pub record Net : Type 0 where
  pub lookups : List (Result (List (List ℕ)))
  pub responses : List (Result Response)
  pub log : List Event

pub record SafeFetchOptions : Type 0 where
  pub method : Option (List ℕ)
  pub max_redirects : Option ℕ

pub record SafeFetchResult : Type 0 where
  pub status_code : ℕ
  pub body : List ℕ
  pub final_url : List ℕ

abbrev pub next_answer {ℓ} : {A : Type ℓ} → List (Result A) → Result A
next_answer [] = err plain_error
next_answer (a ∷ answers) = a

abbrev pub later_answers {ℓ} : {A : Type ℓ} → List (Result A) → List (Result A)
later_answers [] = []
later_answers (a ∷ answers) = answers

-- `resolveHostAddresses(hostname)`, with its error as a value
unfoldable pub look_up : List ℕ → Action Net (Result (List (List ℕ)))
look_up hostname net =
    let answer = next_answer net.lookups in
    (
      ok answer,
      record net { lookups = later_answers net.lookups; log = looked_up hostname answer ∷ net.log },
    )

-- `request(url, { maxRedirections: 0 })`
unfoldable pub request : List ℕ → Action Net Response
request url net = (
  next_answer net.responses,
  record net { responses = later_answers net.responses; log = sent url ∷ net.log },
)

abbrev pub is_redirect : ℕ → Bool
is_redirect status = leb 300 status && ltb status 400

module _ (parse_url : List ℕ → Option Url) (resolve_url : List ℕ → List ℕ → Option (List ℕ)) where
  abbrev Again : Type 0
  Again = List ℕ → Action Net SafeFetchResult

  -- a missing or an empty header is refused
  unfoldable pub redirected :
      Again → List ℕ → Response → Option (List ℕ) → Action Net SafeFetchResult
  unfolding ◌>>=◌
  redirected again current response none = throw target_authorization
  redirected again current response (some []) = throw target_authorization
  redirected again current response (some location) = do
    lift response.body
    next ← or_throw (resolve_url location current) plain_error
    again next

  unfoldable pub answered : Again → List ℕ → Response → Action Net SafeFetchResult
  unfolding ◌>>=◌ redirected
  answered again current response =
      if is_redirect response.status_code
      then redirected again current response response.location
      else (do
        body ← lift response.body
        pure (record { status_code = response.status_code; body = body; final_url = current }))

  -- one round of the loop
  unfoldable pub hop : Again → List ℕ → TargetScope → List ℕ → Action Net SafeFetchResult
  unfolding ◌>>=◌ look_up request answered
  hop again method target current = do
    lift (assert_url_within_authorized_target parse_url current method target)
    parsed ← or_throw (parse_url current) plain_error
    addresses ← look_up parsed.hostname
    lift (assert_public_address addresses)
    response ← request current
    answered again current response

  -- the rounds that are left
  unfoldable pub rounds : ℕ → List ℕ → TargetScope → List ℕ → Action Net SafeFetchResult
  unfolding hop
  rounds zero method target current = throw target_authorization
  rounds (suc n) method target current = hop (rounds n method target) method target current

  unfoldable pub fetch_within_authorized_target :
      List ℕ → TargetScope → SafeFetchOptions → Action Net SafeFetchResult
  unfolding rounds
  fetch_within_authorized_target url target options =
      rounds (suc (get_or options.max_redirects 5)) (get_or options.method (codes "GET")) target url
