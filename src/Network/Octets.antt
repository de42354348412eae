-- ===== src/Network/Octets.antt =====
-- What src/authz/network-guard.ts makes of an IPv4 address that is written in the usual way.
use shld.Prelude.{
  false, refl, ◌&&◌, true, all, ℕ, ◌+◌, ◌*◌, ◌/◌, ◌%◌, ◌<◌, ◌≡◌, true, List, [], ◌∷◌, ltb,
  if◌then◌else◌, arith,
}
use shld.Prelude.Split.{lacks-join_with, split_on, join_with, lacks, split_on-join_with}
use shld.Network.Address.{
  colon, is_dotted, non_empty, is_digit, dot, to_decimal, is_octet, is_ipv4, shift_octets,
  ipv4_to_big_int,
}

pub record Quad : Type 0 where
  pub a : ℕ
  pub b : ℕ
  pub c : ℕ
  pub d : ℕ

pub record AreOctets (q : Quad) : Type 0 where
  pub first : q.a < 256
  pub second : q.b < 256
  pub third : q.c < 256
  pub fourth : q.d < 256

-- a number below 1000 in decimal, with no leading zero
unfoldable pub decimal : ℕ → List ℕ
decimal n =
    if ltb n 10
    then (n + b'0') ∷ []
    else if ltb n 100
    then (n / 10 + b'0') ∷ (n % 10 + b'0') ∷ []
    else (n / 100 + b'0') ∷ (n / 10 % 10 + b'0') ∷ (n % 10 + b'0') ∷ []

unfoldable pub dotted : Quad → List ℕ
unfolding decimal join_with
dotted q = join_with dot (decimal q.a ∷ decimal q.b ∷ decimal q.c ∷ decimal q.d ∷ [])

abbrev pub value_of : Quad → ℕ
value_of q = ((q.a * 256 + q.b) * 256 + q.c) * 256 + q.d

pub decimal-lacks : (sep n : ℕ) → n < 1000 → is_digit sep ≡ false → lacks sep (decimal n) ≡ true
unfolding decimal
decimal-lacks sep n h k = ground arith

pub decimal-is_octet : (n : ℕ) → n < 256 → is_octet (decimal n) ≡ true
unfolding decimal is_octet
decimal-is_octet n h = ground arith

pub to_decimal-decimal : (n : ℕ) → n < 1000 → to_decimal 0 (decimal n) ≡ n
unfolding decimal to_decimal
to_decimal-decimal n h = ground arith

octet-lacks-dot : (n : ℕ) → n < 256 → lacks dot (decimal n) ≡ true
octet-lacks-dot n h = decimal-lacks dot n (omega arith) refl

octet-lacks-colon : (n : ℕ) → n < 256 → lacks colon (decimal n) ≡ true
octet-lacks-colon n h = decimal-lacks colon n (omega arith) refl

decimal-digits : (n : ℕ) → n < 256 → (non_empty (decimal n) && all is_digit (decimal n)) ≡ true
unfolding decimal
decimal-digits n h = ground arith

module _ (q : Quad) (o : AreOctets q) where
  pub split_on-dotted :
      split_on dot (dotted q) ≡ decimal q.a ∷ decimal q.b ∷ decimal q.c ∷ decimal q.d ∷ []
  unfolding dotted
  split_on-dotted =
      split_on-join_with dot (decimal q.a) (decimal q.b ∷ decimal q.c ∷ decimal q.d ∷ []) (
        octet-lacks-dot q.a o.first,
        (
          octet-lacks-dot q.b o.second,
          (octet-lacks-dot q.c o.third, (octet-lacks-dot q.d o.fourth, tt)),
        ),
      )

  pub is_ipv4-dotted : is_ipv4 (dotted q) ≡ true
  unfolding is_ipv4
  is_ipv4-dotted = rw (
    split_on-dotted,
    decimal-is_octet q.a o.first,
    decimal-is_octet q.b o.second,
    decimal-is_octet q.c o.third,
    decimal-is_octet q.d o.fourth,
  )

  -- the address is read back as it was written
  pub ipv4_to_big_int-dotted : ipv4_to_big_int (dotted q) ≡ value_of q
  unfolding ipv4_to_big_int shift_octets
  ipv4_to_big_int-dotted = rw split_on-dotted (
      omega (
        arith,
        to_decimal-decimal q.a,
        to_decimal-decimal q.b,
        to_decimal-decimal q.c,
        to_decimal-decimal q.d,
      ))

  pub dotted-lacks-colon : lacks colon (dotted q) ≡ true
  unfolding dotted
  dotted-lacks-colon =
      lacks-join_with colon dot (decimal q.a ∷ decimal q.b ∷ decimal q.c ∷ decimal q.d ∷ []) refl (
        octet-lacks-colon q.a o.first,
        (
          octet-lacks-colon q.b o.second,
          (octet-lacks-colon q.c o.third, (octet-lacks-colon q.d o.fourth, tt)),
        ),
      )

  pub is_dotted-dotted : is_dotted (dotted q) ≡ true
  unfolding is_dotted
  is_dotted-dotted = rw (
    split_on-dotted,
    decimal-digits q.a o.first,
    decimal-digits q.b o.second,
    decimal-digits q.c o.third,
    decimal-digits q.d o.fourth,
  )
