-- ===== src/Network/Guard.antt =====
-- src/authz/network-guard.ts: which addresses are private or reserved, and the check of a host
-- before each request. The lookup of a host's addresses is a parameter.
use shld.Prelude.{ℕ, Bool, true, false, ◌&&◌, Option, none, some, List, [], ◌∷◌, if◌then◌else◌, map}
use shld.Prelude.Text.{codes, to_lower_case, starts_with}
use shld.Action.{Result, ok, err}
use shld.Domain.Errors.{target_authorization}
use shld.Network.Address.{is_ipv4, is_ipv6, in_cidr, is_dotted}

abbrev pub v4_reserved_cidrs : List (List ℕ)
v4_reserved_cidrs = map codes (
    "0.0.0.0/8" ∷ "10.0.0.0/8" ∷ "100.64.0.0/10" ∷ "127.0.0.0/8" ∷ "169.254.0.0/16"
    ∷ "172.16.0.0/12" ∷ "192.0.0.0/24" ∷ "192.0.2.0/24" ∷ "192.168.0.0/16" ∷ "198.18.0.0/15"
    ∷ "198.51.100.0/24" ∷ "203.0.113.0/24" ∷ "224.0.0.0/4" ∷ "240.0.0.0/4" ∷ "255.255.255.255/32"
    ∷ [])

abbrev pub v6_reserved_cidrs : List (List ℕ)
v6_reserved_cidrs = map codes ("::1/128" ∷ "::/128" ∷ "fc00::/7" ∷ "fe80::/10" ∷ "ff00::/8" ∷ [])

-- `cidrs.some((cidr) => inCidr(ip, cidr))`, which stops at the first range that has the address
abbrev pub or_later : Result Bool → Result Bool → Result Bool
or_later (ok true) later = ok true
or_later (ok false) later = later
or_later (err e) later = err e

unfoldable pub in_some_cidr : List ℕ → List (List ℕ) → Result Bool
unfolding in_cidr
in_some_cidr ip [] = ok false
in_some_cidr ip (cidr ∷ cidrs) = or_later (in_cidr ip cidr) (in_some_cidr ip cidrs)

abbrev pub drop_text : List ℕ → List ℕ → List ℕ
drop_text [] cs = cs
drop_text (p ∷ ps) [] = []
drop_text (p ∷ ps) (c ∷ cs) = drop_text ps cs

-- the text that `/^::ffff:(\d+\.\d+\.\d+\.\d+)$/i` captures
unfoldable pub v4_mapped : List ℕ → Option (List ℕ)
unfolding to_lower_case starts_with is_dotted
v4_mapped ip =
    let rest = drop_text (codes "::ffff:") ip in
    if starts_with (to_lower_case ip) (codes "::ffff:") && is_dotted rest then some rest else none

abbrev pub mapped_or : (List ℕ → Result Bool) → Option (List ℕ) → Result Bool → Result Bool
mapped_or again none unmapped = unmapped
mapped_or again (some v4) unmapped = again v4

-- one call, with what its call of itself answers
unfoldable pub classified : (List ℕ → Result Bool) → List ℕ → Result Bool
unfolding is_ipv4 is_ipv6 in_some_cidr v4_mapped
classified again ip =
    if is_ipv4 ip
    then in_some_cidr ip v4_reserved_cidrs
    else if is_ipv6 ip
    then mapped_or again (v4_mapped ip) (in_some_cidr ip v6_reserved_cidrs)
    else ok true

-- What is captured has no colon, so the second call does not call itself.
unfoldable pub is_private_or_reserved_address : List ℕ → Result Bool
unfolding classified
is_private_or_reserved_address = classified (classified (λ _. ok true))

abbrev pub admit : Result Bool → Result (Unit {0}) → Result (Unit {0})
admit (ok true) later = err target_authorization
admit (ok false) later = later
admit (err e) later = err e

unfoldable pub all_public : List (List ℕ) → Result (Unit {0})
unfolding is_private_or_reserved_address
all_public [] = ok tt
all_public (address ∷ addresses) =
    admit (is_private_or_reserved_address address) (all_public addresses)

-- what `lookup` answers, or its error
unfoldable pub assert_public_address : Result (List (List ℕ)) → Result (Unit {0})
unfolding all_public
assert_public_address (err e) = err e
assert_public_address (ok []) = err target_authorization
assert_public_address (ok addresses) = all_public addresses
