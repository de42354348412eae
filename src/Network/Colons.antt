-- ===== src/Network/Colons.antt =====
-- Texts without `::`, and texts without a dotted address.
use shld.Prelude.{
  ℕ, ◌≡◌, refl, sym, ap, ◌∙◌, true, false, none, List, [], ◌∷◌, ◌++◌, ◌==◌, arith, All,
}
use shld.Prelude.Split.{join_with, lacks, split_on-lacks}
use shld.Network.Address.{
  dot, colon, is_ipv4, is_dotted, dotted_tail, normalized, split_gap, non_empty,
}

pub is_ipv4-lacks : (text : List ℕ) → lacks dot text ≡ true → is_ipv4 text ≡ false
unfolding is_ipv4
is_ipv4-lacks text h = rw (split_on-lacks dot text h)

is_dotted-lacks : (text : List ℕ) → lacks dot text ≡ true → is_dotted text ≡ false
unfolding is_dotted
is_dotted-lacks text h = rw (split_on-lacks dot text h)

dotted_tail-lacks : (text : List ℕ) → lacks dot text ≡ true → dotted_tail text ≡ none
unfolding dotted_tail
dotted_tail-lacks [] h = refl
dotted_tail-lacks (c ∷ cs) h =
    rw (is_dotted-lacks (c ∷ cs) h) (ground (arith, dotted_tail-lacks cs))

pub normalized-lacks : (text : List ℕ) → lacks dot text ≡ true → normalized text ≡ text
unfolding normalized
normalized-lacks text h = rw (dotted_tail-lacks text h)

split_gap-cons :
    (c : ℕ) (cs : List ℕ) → (c == colon) ≡ false → split_gap cs ≡ none → split_gap (c ∷ cs) ≡ none
unfolding split_gap
split_gap-cons c [] h k = refl
split_gap-cons c (d ∷ cs) h k = ground arith

split_gap-append :
    (w rest : List ℕ) → lacks colon w ≡ true → split_gap rest ≡ none → split_gap (w ++ rest) ≡ none
split_gap-append [] rest h k = k
split_gap-append (c ∷ w) rest h k =
    split_gap-cons c (w ++ rest) (ground arith) (split_gap-append w rest (ground arith) k)

split_gap-colon :
    (c : ℕ) (cs : List ℕ)
    → (c == colon) ≡ false
    → split_gap (c ∷ cs) ≡ none
    → split_gap (colon ∷ c ∷ cs) ≡ none
unfolding split_gap
split_gap-colon c cs h k = ground arith

abbrev pub IsWord : List ℕ → Type 0
IsWord w = (non_empty w ≡ true) × (lacks colon w ≡ true)

split_gap-lacks : (w : List ℕ) → lacks colon w ≡ true → split_gap w ≡ none
unfolding split_gap
split_gap-lacks [] h = refl
split_gap-lacks (c ∷ w) h = split_gap-cons c w (ground arith) (split_gap-lacks w (ground arith))

join_with-cons :
    (sep c : ℕ) (w : List ℕ) (ws : List (List ℕ))
    → join_with sep ((c ∷ w) ∷ ws) ≡ c ∷ join_with sep (w ∷ ws)
unfolding join_with
join_with-cons sep c w [] = refl
join_with-cons sep c w (v ∷ ws) = refl

pub split_gap-join_with :
    (ws : List (List ℕ)) → All IsWord ws → split_gap (join_with colon ws) ≡ none
unfolding join_with
split_gap-join_with [] h = split_gap-lacks [] refl
split_gap-join_with (w ∷ []) h = split_gap-lacks w h.0.1
split_gap-join_with (w ∷ [] ∷ ws) h = cc
split_gap-join_with (w ∷ (c ∷ v) ∷ ws) h =
    let later = split_gap-join_with ((c ∷ v) ∷ ws) h.1 in
    split_gap-append w (colon ∷ join_with colon ((c ∷ v) ∷ ws)) h.0.1 (
      rw (join_with-cons colon c v ws) (
        split_gap-colon c (join_with colon (v ∷ ws)) (ground arith)
          (sym (ap split_gap (join_with-cons colon c v ws)) ∙ later)))
