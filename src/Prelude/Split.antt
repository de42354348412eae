-- ===== src/Prelude/Split.antt =====
-- JavaScript's `text.split(separator)` and `parts.join(separator)`, for a separator of one
-- character, and when the one undoes the other.
use Prim.Native.Nat.{ℕ}
use mathlib.Core.Path.{◌≡◌, refl}
use mathlib.Core.Bool.{Bool, true, false, not}
use mathlib.Core.List.{List, [], ◌∷◌, ◌++◌}
use native.Mathlib.Omega.{arith}
use shld.Prelude.Lists.{all, All}
use shld.Prelude.Tests.{◌==◌, if◌then◌else◌}

abbrev pub onto_first : ℕ → List (List ℕ) → List (List ℕ)
onto_first c [] = (c ∷ []) ∷ []
onto_first c (w ∷ ws) = (c ∷ w) ∷ ws

unfoldable pub split_on : ℕ → List ℕ → List (List ℕ)
split_on sep [] = [] ∷ []
split_on sep (c ∷ cs) =
    let rest = split_on sep cs in if c == sep then [] ∷ rest else onto_first c rest

unfoldable pub join_with : ℕ → List (List ℕ) → List ℕ
join_with sep [] = []
join_with sep (w ∷ []) = w
join_with sep (w ∷ v ∷ ws) = w ++ sep ∷ join_with sep (v ∷ ws)

-- the character does not occur
abbrev pub lacks : ℕ → List ℕ → Bool
lacks sep w = all (λ c. not (c == sep)) w

pub split_on-lacks : (sep : ℕ) (w : List ℕ) → lacks sep w ≡ true → split_on sep w ≡ w ∷ []
unfolding split_on
split_on-lacks sep [] h = refl
split_on-lacks sep (c ∷ w) h = ground (arith, split_on-lacks sep w)

pub split_on-append :
    (sep : ℕ) (w rest : List ℕ)
    → lacks sep w ≡ true
    → split_on sep (w ++ sep ∷ rest) ≡ w ∷ split_on sep rest
unfolding split_on
split_on-append sep [] rest h = ground arith
split_on-append sep (c ∷ w) rest h = ground (arith, split_on-append sep w rest)

pub split_on-join_with :
    (sep : ℕ) (w : List ℕ) (ws : List (List ℕ))
    → All (λ v. lacks sep v ≡ true) (w ∷ ws)
    → split_on sep (join_with sep (w ∷ ws)) ≡ w ∷ ws
unfolding join_with
split_on-join_with sep w [] h = split_on-lacks sep w h.0
split_on-join_with sep w (v ∷ ws) h =
    rw (split_on-append sep w (join_with sep (v ∷ ws)) h.0, split_on-join_with sep v ws h.1)

pub all-append :
    (p : ℕ → Bool) (xs ys : List ℕ) → all p xs ≡ true → all p ys ≡ true → all p (xs ++ ys) ≡ true
all-append p [] ys h k = k
all-append p (x ∷ xs) ys h k = ground (arith, all-append p xs ys)

pub lacks-join_with :
    (c sep : ℕ) (ws : List (List ℕ))
    → (sep == c) ≡ false
    → All (λ v. lacks c v ≡ true) ws
    → lacks c (join_with sep ws) ≡ true
unfolding join_with
lacks-join_with c sep [] other h = refl
lacks-join_with c sep (w ∷ []) other h = h.0
lacks-join_with c sep (w ∷ v ∷ ws) other h =
    all-append (λ x. not (x == c)) w (sep ∷ join_with sep (v ∷ ws)) h.0
      (ground (arith, lacks-join_with c sep (v ∷ ws) other h.1))
