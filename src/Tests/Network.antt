-- ===== src/Tests/Network.antt =====
-- Addresses, scopes and a redirected fetch.
use shld.Prelude.{
  ℕ, ◌≡◌, refl, true, false, Option, none, some, List, [], ◌∷◌, ◌↔◌, arith, if◌then◌else◌,
}
use shld.Prelude.Text.{codes, text_eq}
use shld.Action.{ok, err}
use shld.Domain.Errors.{target_authorization}
use shld.Network.Fetch.{Net, SafeFetchOptions, looked_up, sent, fetch_within_authorized_target}
use shld.Network.Groups.{Groups, written}
use shld.Network.Guard.{is_private_or_reserved_address, assert_public_address}
use shld.Network.Octets.{Quad, dotted}
use shld.Network.Reserved.{is_reserved, is_private_or_reserved_address-dotted}
use shld.Network.Scope.{
  nothing, compile, Url, TargetScope, matches_scope, assert_parsed,
  assert_url_within_authorized_target,
}
use shld.Network.ScopeLaws.{LiesWithin, assert_parsed_iff}
use shld.Network.Wildcards.{Matches, tests, compile-Matches}
use shld.Network.Spellings.{is_reserved_groups, is_private_or_reserved_address-written}

abbrev metadata : Quad
metadata = record { a = 169; b = 254; c = 169; d = 254 }

is_private_or_reserved_address-dotted_example :
    is_private_or_reserved_address (dotted metadata) ≡ ok (is_reserved metadata)
is_private_or_reserved_address-dotted_example =
    is_private_or_reserved_address-dotted metadata (omega arith)

abbrev unique_local : Groups
unique_local = record { g0 = 0xfd12; g1 = 0; g2 = 0; g3 = 0; g4 = 0; g5 = 0; g6 = 0; g7 = 1 }

is_private_or_reserved_address-written_example :
    is_private_or_reserved_address (written unique_local) ≡ ok (is_reserved_groups unique_local)
is_private_or_reserved_address-written_example =
    is_private_or_reserved_address-written unique_local (omega arith)

-- the addresses of the test suite
mapped_loopback : is_private_or_reserved_address (codes "::ffff:127.0.0.1") ≡ ok true
unfolding is_private_or_reserved_address
mapped_loopback = refl

mapped_loopback_in_hex : is_private_or_reserved_address (codes "::ffff:7f00:1") ≡ ok false
unfolding is_private_or_reserved_address
mapped_loopback_in_hex = refl

local_with_tail : is_private_or_reserved_address (codes "fd12::8.8.8.8") ≡ ok true
unfolding is_private_or_reserved_address
local_with_tail = refl

not_an_address : is_private_or_reserved_address (codes "1:2:3:4:5:6:7:8:9") ≡ ok true
unfolding is_private_or_reserved_address
not_an_address = refl

abbrev app : Url
app = record {
  protocol = codes "https:";
  hostname = codes "app.example";
  port = [];
  pathname = codes "/api/users";
}

abbrev scope : TargetScope
scope = record {
  base_url = codes "b";
  allowed_paths = codes "/api/*" ∷ [];
  excluded_paths = codes "DELETE /api/*" ∷ [];
}

excluded_by_method :
    matches_scope (codes "DELETE /api/*" ∷ []) (codes "delete") (codes "/api/users") ≡ ok true
unfolding matches_scope
excluded_by_method = refl

other_method :
    matches_scope (codes "DELETE /api/*" ∷ []) (codes "GET") (codes "/api/users") ≡ ok false
unfolding matches_scope
other_method = refl

-- `?` in a pattern makes the character before it optional
question_mark : matches_scope (codes "/a?b" ∷ []) (codes "GET") (codes "/b") ≡ ok true
unfolding matches_scope
question_mark = refl

-- two URLs: the target's, and one of another host
abbrev parse : List ℕ → Option Url
parse text =
    if text_eq text (codes "b")
    then some app
    else if text_eq text (codes "e")
    then some (record app { hostname = codes "evil.example" })
    else none

abbrev redirecting : Net
redirecting = record {
  lookups = ok (codes "8.8.8.8" ∷ []) ∷ ok (codes "8.8.8.8" ∷ []) ∷ [];
  responses = ok (record { status_code = 302; location = some (codes "e"); body = ok [] }) ∷ [];
  log = [];
}

abbrev by_default : SafeFetchOptions
by_default = record { method = none; max_redirects = none }

-- the redirect to the other host is not followed
redirect_refused :
    fetch_within_authorized_target parse
      (λ location current. some location)
      (codes "b")
      scope
      by_default
      redirecting
    ≡ (
      err target_authorization,
      record redirecting {
        lookups = ok (codes "8.8.8.8" ∷ []) ∷ [];
        responses = [];
        log = sent (codes "b") ∷ looked_up (codes "app.example") (ok (codes "8.8.8.8" ∷ [])) ∷ [];
      },
    )
unfolding fetch_within_authorized_target text_eq assert_url_within_authorized_target
    assert_public_address
redirect_refused = refl

assert_parsed_iff_example :
    (assert_parsed (codes "GET") scope (some app) (some app) ≡ ok tt)
    ↔ LiesWithin (codes "GET") scope app app
assert_parsed_iff_example = assert_parsed_iff (codes "GET") scope app app

-- a dot is only a dot, and the rest is any run
compile-Matches_example :
    (tests (compile nothing (codes "/v1.0/*")) (codes "/v1.0/a/b") ≡ true)
    ↔ Matches (codes "/v1.0/*") (codes "/v1.0/a/b")
compile-Matches_example = compile-Matches (codes "/v1.0/*") (codes "/v1.0/a/b") refl
