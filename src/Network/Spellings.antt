-- ===== src/Network/Spellings.antt =====
-- src/authz/network-guard.ts: which IPv6 addresses are private or reserved, by their groups, and the
-- two spellings of an IPv4 address among them.
use shld.Prelude.{
  ℕ, ◌+◌, ◌/◌, ◌^◌, ◌≡◌, ◌∙◌, ap, refl, Bool, true, false, ◌&&◌, ◌||◌, none, some, List, leb, ◌==◌,
  arith,
}
use shld.Action.{Result, ok}
use shld.Network.Address.{is_ipv4, is_ipv6, ip_to_big_int}
use shld.Network.Guard.{
  in_some_cidr, or_later, classified, v4_mapped, is_private_or_reserved_address, v6_reserved_cidrs,
}
use shld.Network.Groups.{
  Groups, Are16Bits, written, value_of, is_ipv4-written, is_ipv6-written, v4_mapped-written,
  ipv6_to_big_int-written,
}

-- the unspecified and the loopback address, unique local, link-local and multicast addresses
unfoldable pub is_reserved_groups : Groups → Bool
is_reserved_groups g =
    (g.g0 + g.g1 + g.g2 + g.g3 + g.g4 + g.g5 + g.g6 == 0 && leb g.g7 1)
    || g.g0 / 2 ^ 9 == 126
    || g.g0 / 2 ^ 6 == 1018
    || g.g0 / 2 ^ 8 == 255

classified-ipv6 :
    (again : List ℕ → Result Bool) (ip : List ℕ)
    → is_ipv4 ip ≡ false
    → is_ipv6 ip ≡ true
    → v4_mapped ip ≡ none
    → classified again ip ≡ in_some_cidr ip v6_reserved_cidrs
unfolding classified
classified-ipv6 again ip h k m = rw (h, k, m)

ranges :
    (a b c d e : Bool)
    → or_later
        (ok a)
        (or_later (ok b) (or_later (ok c) (or_later (ok d) (or_later (ok e) (ok false)))))
      ≡ ok (a || (b || (c || (d || e))))
ranges true b c d e = refl
ranges false true c d e = refl
ranges false false true d e = refl
ranges false false false true e = refl
ranges false false false false true = refl
ranges false false false false false = refl

abbrev in_v6_ranges : ℕ → Bool
in_v6_ranges v =
    v / 1 == 1
    || (v / 1 == 0 || (v / 2 ^ 121 == 126 || (v / 2 ^ 118 == 1018 || v / 2 ^ 120 == 255)))

in_some_cidr-v6 :
    (ip : List ℕ) (v : ℕ)
    → ip_to_big_int ip ≡ some (v, 128)
    → in_some_cidr ip v6_reserved_cidrs ≡ ok (in_v6_ranges v)
unfolding in_some_cidr
in_some_cidr-v6 ip v h = rw h (
    ranges (v / 1 == 1) (v / 1 == 0) (v / 2 ^ 121 == 126) (v / 2 ^ 118 == 1018)
      (v / 2 ^ 120 == 255))

regrouped :
    (a b c d e z c' d' e' : Bool)
    → (a || b) ≡ z
    → c ≡ c'
    → d ≡ d'
    → e ≡ e'
    → (a || (b || (c || (d || e)))) ≡ (z || c' || d' || e')
regrouped a b c d e z c' d' e' p q r s = ground arith

module _ (g : Groups) (h : Are16Bits g) where
  ip_to_big_int-written : ip_to_big_int (written g) ≡ some (value_of g, 128)
  unfolding ip_to_big_int
  ip_to_big_int-written = rw (is_ipv4-written g h, is_ipv6-written g h, ipv6_to_big_int-written g h)

  zero_or_one :
      (value_of g / 1 == 1 || value_of g / 1 == 0)
      ≡ (g.g0 + g.g1 + g.g2 + g.g3 + g.g4 + g.g5 + g.g6 == 0 && leb g.g7 1)
  zero_or_one = ground arith

  first_seven : (value_of g / 2 ^ 121 == 126) ≡ (g.g0 / 2 ^ 9 == 126)
  first_seven = ground arith

  first_ten : (value_of g / 2 ^ 118 == 1018) ≡ (g.g0 / 2 ^ 6 == 1018)
  first_ten = ground arith

  first_eight : (value_of g / 2 ^ 120 == 255) ≡ (g.g0 / 2 ^ 8 == 255)
  first_eight = ground arith

  in_some_cidr-written : in_some_cidr (written g) v6_reserved_cidrs ≡ ok (is_reserved_groups g)
  unfolding is_reserved_groups
  in_some_cidr-written =
      in_some_cidr-v6 (written g) (value_of g) ip_to_big_int-written
      ∙ ap ok (regrouped _ _ _ _ _ _ _ _ _ zero_or_one first_seven first_ten first_eight)

  pub is_private_or_reserved_address-written :
      is_private_or_reserved_address (written g) ≡ ok (is_reserved_groups g)
  unfolding is_private_or_reserved_address
  is_private_or_reserved_address-written =
      classified-ipv6 (classified (λ _. ok true)) (written g) (is_ipv4-written g h)
        (is_ipv6-written g h) (v4_mapped-written g h)
      ∙ in_some_cidr-written
