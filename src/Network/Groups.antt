-- ===== src/Network/Groups.antt =====
-- What src/authz/network-guard.ts makes of an IPv6 address that is written in full.
use shld.Prelude.{
  ℕ, ◌+◌, ◌*◌, ◌/◌, ◌^◌, ◌<◌, ◌≡◌, ◌∙◌, ap, refl, true, false, none, some, List, [], ◌∷◌, arith,
  All,
}
use shld.Prelude.Split.{split_on, join_with, lacks, split_on-join_with, lacks-join_with}
use shld.Network.Address.{
  dot, colon, hex4, is_ipv4, is_ipv6, count_groups, is_exactly, split_gap, all_parts, shift_groups,
  ipv6_to_big_int,
}
use shld.Network.Colons.{IsWord, is_ipv4-lacks, normalized-lacks, split_gap-join_with}
use shld.Network.Guard.{v4_mapped}
use shld.Network.Hex.{
  hex4-lacks, v4_mapped-hex, hex4-IsWord, count_one, count_none, shift_one, shift_none,
  is_ipv6-ungapped, ipv6_to_big_int-ungapped,
}

pub record Groups : Type 0 where
  pub g0 : ℕ
  pub g1 : ℕ
  pub g2 : ℕ
  pub g3 : ℕ
  pub g4 : ℕ
  pub g5 : ℕ
  pub g6 : ℕ
  pub g7 : ℕ

abbrev pub parts_of : Groups → List (List ℕ)
parts_of g =
    hex4 g.g0
    ∷ hex4 g.g1
    ∷ hex4 g.g2
    ∷ hex4 g.g3
    ∷ hex4 g.g4
    ∷ hex4 g.g5
    ∷ hex4 g.g6
    ∷ hex4 g.g7
    ∷ []

abbrev pub Are16Bits : Groups → Type 0
Are16Bits g =
    (g.g0 < 65536)
    × (g.g1 < 65536)
    × (g.g2 < 65536)
    × (g.g3 < 65536)
    × (g.g4 < 65536)
    × (g.g5 < 65536)
    × (g.g6 < 65536)
    × (g.g7 < 65536)

abbrev pub value_of : Groups → ℕ
value_of g =
    ((((((g.g0 * 2 ^ 16 + g.g1) * 2 ^ 16 + g.g2) * 2 ^ 16 + g.g3) * 2 ^ 16 + g.g4) * 2 ^ 16 + g.g5)
          * 2 ^ 16
        + g.g6)
      * 2 ^ 16
    + g.g7

-- eight groups of four digits each
unfoldable pub written : Groups → List ℕ
unfolding join_with
written g = join_with colon (parts_of g)

module _ (g : Groups) (h : Are16Bits g) where
  All-parts : (P : List ℕ → Type 0) → ((n : ℕ) → n < 65536 → P (hex4 n)) → All P (parts_of g)
  All-parts P p = (
    p g.g0 h.0,
    (
      p g.g1 h.1,
      (p g.g2 h.2, (p g.g3 h.3, (p g.g4 h.4, (p g.g5 h.5, (p g.g6 h.6, (p g.g7 h.7, tt)))))),
    ),
  )

  written-lacks-dot : lacks dot (written g) ≡ true
  unfolding written
  written-lacks-dot =
      lacks-join_with dot colon (parts_of g) refl
        (All-parts (λ w. lacks dot w ≡ true) (λ n k. hex4-lacks n k dot refl))

  split_on-written : split_on colon (written g) ≡ parts_of g
  unfolding written
  split_on-written =
      split_on-join_with colon (hex4 g.g0) _
        (All-parts (λ w. lacks colon w ≡ true) (λ n k. hex4-lacks n k colon refl))

  split_gap-written : split_gap (written g) ≡ none
  unfolding written
  split_gap-written = split_gap-join_with (parts_of g) (All-parts IsWord hex4-IsWord)

  pub is_ipv4-written : is_ipv4 (written g) ≡ false
  is_ipv4-written = is_ipv4-lacks (written g) written-lacks-dot

  count_groups-parts : count_groups (parts_of g) ≡ some 8
  count_groups-parts = rw (
    count_one g.g0 _ h.0,
    count_one g.g1 _ h.1,
    count_one g.g2 _ h.2,
    count_one g.g3 _ h.3,
    count_one g.g4 _ h.4,
    count_one g.g5 _ h.5,
    count_one g.g6 _ h.6,
    count_one g.g7 _ h.7,
    count_none,
  )

  pub is_ipv6-written : is_ipv6 (written g) ≡ true
  is_ipv6-written =
      is_ipv6-ungapped (written g) (parts_of g) split_gap-written split_on-written
      ∙ ap (is_exactly 8) count_groups-parts

  pub v4_mapped-written : v4_mapped (written g) ≡ none
  unfolding written
  v4_mapped-written = v4_mapped-hex (g.g0 / 4096) _ (omega arith)

  shift_groups-parts : shift_groups 0 (parts_of g) ≡ value_of g
  shift_groups-parts =
      rw
        (
          shift_one 0 g.g0 _ h.0,
          shift_one _ g.g1 _ h.1,
          shift_one _ g.g2 _ h.2,
          shift_one _ g.g3 _ h.3,
          shift_one _ g.g4 _ h.4,
          shift_one _ g.g5 _ h.5,
          shift_one _ g.g6 _ h.6,
          shift_one _ g.g7 _ h.7,
          shift_none,
        )
        (omega arith)

  all_parts-written : all_parts (written g) none ≡ parts_of g
  unfolding all_parts
  all_parts-written = rw split_on-written

  -- the address is read back as it was written
  pub ipv6_to_big_int-written : ipv6_to_big_int (written g) ≡ value_of g
  ipv6_to_big_int-written =
      ipv6_to_big_int-ungapped (written g) (normalized-lacks (written g) written-lacks-dot)
        split_gap-written
      ∙ ap (shift_groups 0) all_parts-written
      ∙ shift_groups-parts
