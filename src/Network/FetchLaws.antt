-- ===== src/Network/FetchLaws.antt =====
-- src/authz/safe-fetch.ts: what was checked before each request of a redirected fetch.
use shld.Prelude.{ℕ, Option, List, ◌∷◌, get_or}
use shld.Prelude.Text.{codes}
use shld.Action.{Result}
use shld.Network.Scope.{Url, TargetScope}
use shld.Network.Fetch.{
  Event, looked_up, Net, SafeFetchOptions, SafeFetchResult, next_answer, later_answers,
}
use shld.Network.Admission.{IsGuarded, IsSafe}

module _ (parse_url : List ℕ → Option Url) (method : List ℕ) (target : TargetScope) where
  abbrev Guarded : List Event → Type 0
  Guarded = IsGuarded parse_url method target

  abbrev Safe : ℕ → List Event → Result SafeFetchResult × Net → Type 0
  Safe = IsSafe parse_url method target

  module _ (resolve_url : List ℕ → List ℕ → Option (List ℕ)) where
    abbrev Again : Type 0
    Again = List ℕ → Net → Result SafeFetchResult × Net

    abbrev KeepsSafe : ℕ → Again → Type 0
    KeepsSafe n again = (u : List ℕ) (net : Net) → Guarded net.log → Safe n net.log (again u net)

    module _ (n : ℕ) (again : Again) (ih : KeepsSafe n again) (u : List ℕ) where
      -- the newest event is the lookup of the host
      abbrev looked : Net → Url → Net
      looked net url = record net {
        lookups = later_answers net.lookups;
        log = looked_up url.hostname (next_answer net.lookups) ∷ net.log;
      }

abbrev pub max_redirects_of : SafeFetchOptions → ℕ
max_redirects_of options = get_or options.max_redirects 5

abbrev pub method_of : SafeFetchOptions → List ℕ
method_of options = get_or options.method (codes "GET")
