-- ===== src/Network/Reserved.antt =====
-- src/authz/network-guard.ts: which IPv4 addresses are private or reserved, by their octets.
use shld.Prelude.{ℕ, ◌/◌, ◌^◌, ◌≡◌, ◌∙◌, Bool, true, ◌&&◌, ◌||◌, some, List, leb, ◌==◌, arith}
use shld.Action.{Result, ok}
use shld.Network.Address.{is_ipv4, ip_to_big_int}
use shld.Network.Guard.{in_some_cidr, classified, is_private_or_reserved_address, v4_reserved_cidrs}
use shld.Network.Octets.{Quad, AreOctets, dotted, value_of, is_ipv4-dotted, ipv4_to_big_int-dotted}

-- IANA's special-purpose blocks, by octets
pub is_reserved : Quad → Bool
is_reserved q =
    q.a == 0
    || q.a == 10
    || (q.a == 100 && leb 64 q.b && leb q.b 127)
    || q.a == 127
    || (q.a == 169 && q.b == 254)
    || (q.a == 172 && leb 16 q.b && leb q.b 31)
    || (q.a == 192 && q.b == 0 && q.c == 0)
    || (q.a == 192 && q.b == 0 && q.c == 2)
    || (q.a == 192 && q.b == 168)
    || (q.a == 198 && leb 18 q.b && leb q.b 19)
    || (q.a == 198 && q.b == 51 && q.c == 100)
    || (q.a == 203 && q.b == 0 && q.c == 113)
    || leb 224 q.a

pub classified-ipv4 :
    (again : List ℕ → Result Bool) (ip : List ℕ)
    → is_ipv4 ip ≡ true
    → classified again ip ≡ in_some_cidr ip v4_reserved_cidrs
unfolding classified
classified-ipv4 again ip h = rw h

module _ (q : Quad) (o : AreOctets q) where
  ip_to_big_int-dotted : ip_to_big_int (dotted q) ≡ some (value_of q, 32)
  unfolding ip_to_big_int
  ip_to_big_int-dotted = rw (is_ipv4-dotted q o, ipv4_to_big_int-dotted q o)

  this_network : (value_of q / 2 ^ 24 == 0) ≡ (q.a == 0)
  this_network = ground arith

  private_ten : (value_of q / 2 ^ 24 == 10) ≡ (q.a == 10)
  private_ten = ground arith

  shared : (value_of q / 2 ^ 22 == 401) ≡ (q.a == 100 && leb 64 q.b && leb q.b 127)
  shared = ground arith

  loopback : (value_of q / 2 ^ 24 == 127) ≡ (q.a == 127)
  loopback = ground arith

  link_local : (value_of q / 2 ^ 16 == 43518) ≡ (q.a == 169 && q.b == 254)
  link_local = ground arith

  private_twelve : (value_of q / 2 ^ 20 == 2753) ≡ (q.a == 172 && leb 16 q.b && leb q.b 31)
  private_twelve = ground arith

  protocols : (value_of q / 2 ^ 8 == 12582912) ≡ (q.a == 192 && q.b == 0 && q.c == 0)
  protocols = ground arith

  examples : (value_of q / 2 ^ 8 == 12582914) ≡ (q.a == 192 && q.b == 0 && q.c == 2)
  examples = ground arith

  private_sixteen : (value_of q / 2 ^ 16 == 49320) ≡ (q.a == 192 && q.b == 168)
  private_sixteen = ground arith

  benchmarks : (value_of q / 2 ^ 17 == 25353) ≡ (q.a == 198 && leb 18 q.b && leb q.b 19)
  benchmarks = ground arith

  more_examples : (value_of q / 2 ^ 8 == 12989284) ≡ (q.a == 198 && q.b == 51 && q.c == 100)
  more_examples = ground arith

  last_examples : (value_of q / 2 ^ 8 == 13303921) ≡ (q.a == 203 && q.b == 0 && q.c == 113)
  last_examples = ground arith

  multicast_or_above :
      (value_of q / 2 ^ 28 == 14 || value_of q / 2 ^ 28 == 15 || value_of q / 2 ^ 0 == 4294967295)
      ≡ leb 224 q.a
  multicast_or_above = ground arith

  pub in_some_cidr-dotted : in_some_cidr (dotted q) v4_reserved_cidrs ≡ ok (is_reserved q)
  unfolding in_some_cidr is_reserved
  in_some_cidr-dotted = rw ip_to_big_int-dotted (
      ground (
        arith, this_network, private_ten, shared, loopback, link_local, private_twelve, protocols,
        examples, private_sixteen, benchmarks, more_examples, last_examples, multicast_or_above,
      ))

  -- An IPv4 address is judged private or reserved exactly if it lies in one of the blocks.
  pub is_private_or_reserved_address-dotted :
      is_private_or_reserved_address (dotted q) ≡ ok (is_reserved q)
  unfolding is_private_or_reserved_address
  is_private_or_reserved_address-dotted =
      classified-ipv4 (classified (λ _. ok true)) (dotted q) (is_ipv4-dotted q o)
      ∙ in_some_cidr-dotted
