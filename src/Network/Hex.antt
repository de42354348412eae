-- ===== src/Network/Hex.antt =====
-- What src/authz/network-guard.ts makes of an IPv6 address group by group.
use shld.Prelude.{
  ℕ, ◌+◌, ◌*◌, ◌/◌, ◌%◌, ◌^◌, ◌<◌, ◌≡◌, refl, true, false, none, some, List, [], ◌∷◌, ◌==◌, arith,
}
use shld.Prelude.Split.{split_on, lacks}
use shld.Network.Address.{
  dot, colon, hex4, hex_char, hex_value, is_hex_digit, is_group, is_ipv6, count_groups, one_more,
  is_exactly, normalized, split_gap, all_parts, to_hex, shift_groups, ipv6_to_big_int,
}
use shld.Network.Colons.{IsWord, is_ipv4-lacks}
use shld.Network.Guard.{v4_mapped}

hex_char-is_hex_digit : (d : ℕ) → d < 16 → is_hex_digit (hex_char d) ≡ true
hex_char-is_hex_digit d h = ground arith

hex_value-hex_char : (d : ℕ) → d < 16 → hex_value (hex_char d) ≡ d
hex_value-hex_char d h = ground arith

hex_char-ne : (c d : ℕ) → is_hex_digit c ≡ false → d < 16 → (hex_char d == c) ≡ false
hex_char-ne c d k h = ground (arith, hex_char-is_hex_digit d)

module _ (n : ℕ) (h : n < 65536) where
  pub hex4-lacks : (c : ℕ) → is_hex_digit c ≡ false → lacks c (hex4 n) ≡ true
  hex4-lacks c k = rw (
    hex_char-ne c (n / 4096) k (omega arith),
    hex_char-ne c (n / 256 % 16) k (omega arith),
    hex_char-ne c (n / 16 % 16) k (omega arith),
    hex_char-ne c (n % 16) k (omega arith),
  )

  pub hex4-is_group : is_group (hex4 n) ≡ true
  hex4-is_group = rw (
    hex_char-is_hex_digit (n / 4096) (omega arith),
    hex_char-is_hex_digit (n / 256 % 16) (omega arith),
    hex_char-is_hex_digit (n / 16 % 16) (omega arith),
    hex_char-is_hex_digit (n % 16) (omega arith),
  )

  to_hex-hex4 : to_hex 0 (hex4 n) ≡ n
  unfolding to_hex
  to_hex-hex4 =
      rw
        (
          hex_value-hex_char (n / 4096) (omega arith),
          hex_value-hex_char (n / 256 % 16) (omega arith),
          hex_value-hex_char (n / 16 % 16) (omega arith),
          hex_value-hex_char (n % 16) (omega arith),
        )
        (omega arith)

pub v4_mapped-hex : (d : ℕ) (cs : List ℕ) → d < 16 → v4_mapped (hex_char d ∷ cs) ≡ none
unfolding v4_mapped
v4_mapped-hex d cs h = ground arith

pub hex4-IsWord : (n : ℕ) → n < 65536 → IsWord (hex4 n)
hex4-IsWord n h = (refl, hex4-lacks n h colon refl)

pub count_one :
    (n : ℕ) (ws : List (List ℕ))
    → n < 65536
    → count_groups (hex4 n ∷ ws) ≡ one_more (count_groups ws)
unfolding count_groups
count_one n [] h = rw (is_ipv4-lacks (hex4 n) (hex4-lacks n h dot refl), hex4-is_group n h)
count_one n (w ∷ ws) h = rw (hex4-is_group n h)

pub count_none : count_groups [] ≡ some 0
unfolding count_groups
count_none = refl

pub shift_none : (acc : ℕ) → shift_groups acc [] ≡ acc
unfolding shift_groups
shift_none acc = refl

pub ipv6_to_big_int-ungapped :
    (ip : List ℕ)
    → normalized ip ≡ ip
    → split_gap ip ≡ none
    → ipv6_to_big_int ip ≡ shift_groups 0 (all_parts ip none)
unfolding ipv6_to_big_int
ipv6_to_big_int-ungapped ip h k = rw (h, k)

pub is_ipv6-ungapped :
    (ip : List ℕ) (parts : List (List ℕ))
    → split_gap ip ≡ none
    → split_on colon ip ≡ parts
    → is_ipv6 ip ≡ is_exactly 8 (count_groups parts)
unfolding is_ipv6
is_ipv6-ungapped ip parts h k = rw (h, k)

pub shift_one :
    (acc n : ℕ) (ws : List (List ℕ))
    → n < 65536
    → shift_groups acc (hex4 n ∷ ws) ≡ shift_groups (acc * 2 ^ 16 + n) ws
unfolding shift_groups
shift_one acc n ws h = rw (to_hex-hex4 n h)
