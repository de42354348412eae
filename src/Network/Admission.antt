-- ===== src/Network/Admission.antt =====
-- src/authz/safe-fetch.ts: what a log of requests must show, and what the checks before a request establish.
use shld.Prelude.{
  ℕ, suc, ◌+◌, ◌≤◌, ◌≡◌, refl, ◌⊎◌, inl, inr, Bool, true, false, Option, none, some, List, [], ◌∷◌,
  All,
}
use shld.Action.{Result, ok, err}
use shld.Domain.Errors.{DomainError}
use shld.Network.Guard.{is_private_or_reserved_address, all_public, admit, assert_public_address}
use shld.Network.Scope.{Url, TargetScope, assert_parsed, assert_url_within_authorized_target}
use shld.Network.ScopeLaws.{LiesWithin, assert_parsed-LiesWithin}
use shld.Network.Fetch.{Event, looked_up, sent, Net, SafeFetchResult}

-- the host was found, and none of its addresses is private or reserved
abbrev pub IsPublic : Result (List (List ℕ)) → Type 0
IsPublic (err e) = ⊥
IsPublic (ok []) = ⊥
IsPublic (ok (a ∷ addresses)) =
    All (λ x. is_private_or_reserved_address x ≡ ok false) (a ∷ addresses)

admit-ok :
    (r : Result Bool) (later : Result (Unit {0}))
    → admit r later ≡ ok tt
    → (r ≡ ok false) × (later ≡ ok tt)
admit-ok (ok true) later h = cc
admit-ok (ok false) later h = (refl, h)
admit-ok (err e) later h = cc

all_public-All :
    (addresses : List (List ℕ))
    → all_public addresses ≡ ok tt
    → All (λ x. is_private_or_reserved_address x ≡ ok false) addresses
unfolding all_public
all_public-All [] h = tt
all_public-All (a ∷ addresses) h =
    let (here, later) = admit-ok _ _ h in (here, all_public-All addresses later)

pub assert_public_address-IsPublic :
    (answer : Result (List (List ℕ))) → assert_public_address answer ≡ ok tt → IsPublic answer
unfolding assert_public_address
assert_public_address-IsPublic (err e) h = cc
assert_public_address-IsPublic (ok []) h = cc
assert_public_address-IsPublic (ok (a ∷ addresses)) h = all_public-All (a ∷ addresses) h

-- the requests in a log
abbrev pub requests : List Event → ℕ
requests [] = 0
requests (looked_up h a ∷ log) = requests log
requests (sent u ∷ log) = suc (requests log)

abbrev pub newest : List Event → Option Event
newest [] = none
newest (e ∷ log) = some e

-- an answer comes from the last request
abbrev pub IsAnswered : Result SafeFetchResult → List Event → Type 0
IsAnswered (ok r) log = newest log ≡ some (sent r.final_url)
IsAnswered (err e) log = Unit

pub Result-cases {ℓ} :
    {A : Type ℓ} (r : Result A) → ((a : A) × (r ≡ ok a)) ⊎ ((e : DomainError) × (r ≡ err e))
Result-cases (ok a) = inl (a, refl)
Result-cases (err e) = inr (e, refl)

module _ (parse_url : List ℕ → Option Url) (method : List ℕ) (target : TargetScope) where
  -- what was checked before the request
  pub record IsAdmitted (u hostname : List ℕ) (answer : Result (List (List ℕ))) : Type 0 where
    pub url : Url
    pub base : Url
    pub parsed : parse_url u ≡ some url
    pub target_parsed : parse_url target.base_url ≡ some base
    pub within : LiesWithin method target url base
    pub same_host : hostname ≡ url.hostname
    pub is_public : IsPublic answer

  -- Each request comes directly after a lookup that admits it.
  abbrev pub IsGuarded : List Event → Type 0
  IsGuarded [] = Unit
  IsGuarded (looked_up h a ∷ log) = IsGuarded log
  IsGuarded (sent u ∷ []) = ⊥
  IsGuarded (sent u ∷ sent v ∷ log) = ⊥
  IsGuarded (sent u ∷ looked_up h a ∷ log) = IsAdmitted u h a × IsGuarded log

  pub record IsSafe (n : ℕ) (before : List Event) (after : Result SafeFetchResult × Net)
      : Type 0 where
    pub guarded : IsGuarded after.1.log
    pub few : requests after.1.log ≤ requests before + n
    pub comes_from : IsAnswered after.0 after.1.log

  admitted :
      (u : List ℕ) (o t : Option Url)
      → parse_url u ≡ o
      → parse_url target.base_url ≡ t
      → assert_parsed method target o t ≡ ok tt
      → (url : Url) × (base : Url) × (parse_url u ≡ some url)
        × (parse_url target.base_url ≡ some base)
        × LiesWithin method target url base
  unfolding assert_parsed
  admitted u none t p q h = cc
  admitted u (some url) none p q h = cc
  admitted u (some url) (some base) p q h =
      (url, base, p, q, assert_parsed-LiesWithin method target url base h)

  pub admits :
      (u : List ℕ)
      → assert_url_within_authorized_target parse_url u method target ≡ ok tt
      → (url : Url) × (base : Url) × (parse_url u ≡ some url)
        × (parse_url target.base_url ≡ some base)
        × LiesWithin method target url base
  unfolding assert_url_within_authorized_target
  admits u h = admitted u (parse_url u) (parse_url target.base_url) refl refl h
