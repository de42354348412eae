-- ===== src/Network/Wildcards.antt =====
-- src/authz/url-scope.ts: which paths a pattern without `?` stands for.
use mathlib.Core.Path.{subst}
use shld.Prelude.{
  ℕ, ◌≡◌, refl, ◌≢◌, ◌↔◌, ◌⊎◌, inl, inr, Bool, true, false, ◌||◌, List, [], ◌∷◌, map, ◌==◌, ==_iff,
  if◌then◌else◌, arith, Bool-cases,
}
use shld.Prelude.Split.{lacks}
use shld.Action.{Result, ok, err}
use shld.Network.Scope.{
  Item, one, any_run, Pending, nothing, atom, run, emit, is_line_end, compile, test_path,
}

abbrev pub star : ℕ
star = b'*'

-- `*` stands for any run of characters without a line's end, and each other character for itself
pub data Matches : List ℕ → List ℕ → Type 0 where
  done : Matches [] []
  same : {c : ℕ} {p s : List ℕ} → c ≢ star → Matches p s → Matches (c ∷ p) (c ∷ s)
  leave : {c : ℕ} {p s : List ℕ} → c ≡ star → Matches p s → Matches (c ∷ p) s
  take :
      {c d : ℕ} {p s : List ℕ}
      → c ≡ star
      → is_line_end d ≡ false
      → Matches (c ∷ p) s
      → Matches (c ∷ p) (d ∷ s)

abbrev item : ℕ → Item
item c = if c == star then any_run else one c

compile-lacks :
    (q : Pending) (p : List ℕ) → lacks b'?' p ≡ true → compile q p ≡ ok (emit q (map item p))
unfolding compile
compile-lacks q [] h = refl
compile-lacks q (c ∷ p) h = elim (Bool-cases (c == b'?')) [
  | inl bad ↦ ground arith
  | inr fine ↦ elim (Bool-cases (c == star)) [
    | inl wild ↦ rw (fine, wild, compile-lacks run p (ground arith))
    | inr plain ↦ rw (fine, plain, compile-lacks (atom c) p (ground arith))
  ]
]

abbrev Decides : List ℕ → Type 0
Decides p = (s : List ℕ) → (test_path (map item p) s ≡ true) ↔ Matches p s

or-cases : (a b : Bool) → (a || b) ≡ true → (a ≡ true) ⊎ (b ≡ true)
or-cases true b h = inl refl
or-cases false b h = inr h

or-true : (b : Bool) → (b || true) ≡ true
or-true true = refl
or-true false = refl

module _ (c : ℕ) (p : List ℕ) (ih : Decides p) where
  one→Matches :
      (s : List ℕ) → c ≢ star → test_path (one c ∷ map item p) s ≡ true → Matches (c ∷ p) s
  unfolding test_path
  one→Matches [] n h = cc
  one→Matches (d ∷ s) n h = elim (Bool-cases (c == d)) [
    | inl e ↦
        subst (λ x. Matches (c ∷ p) (x ∷ s)) ((==_iff c d).0 e) (same n ((ih s).0 (ground arith)))
    | inr e ↦ ground arith
  ]

  Matches→one :
      (s : List ℕ) → c ≢ star → Matches (c ∷ p) s → test_path (one c ∷ map item p) s ≡ true
  unfolding test_path
  Matches→one _ n (same {s = s} _ m) = rw ((==_iff c c).1 refl, (ih s).1 m)
  Matches→one s n (leave e m) = absurd (n e)
  Matches→one _ n (take e _ m) = absurd (n e)

  run→Matches :
      (s : List ℕ) → c ≡ star → test_path (any_run ∷ map item p) s ≡ true → Matches (c ∷ p) s
  unfolding test_path
  run→Matches [] e h = leave e ((ih []).0 h)
  run→Matches (d ∷ s) e h = elim (or-cases (test_path (map item p) (d ∷ s)) _ h) [
    | inl now ↦ leave e ((ih (d ∷ s)).0 now)
    | inr later ↦ take e (ground arith) (run→Matches s e (ground arith))
  ]

  Matches→run :
      (s : List ℕ) → c ≡ star → Matches (c ∷ p) s → test_path (any_run ∷ map item p) s ≡ true
  unfolding test_path
  Matches→run _ e (same n m) = absurd (n e)
  Matches→run [] e (leave _ m) = (ih []).1 m
  Matches→run (d ∷ s) e (leave _ m) = rw ((ih (d ∷ s)).1 m)
  Matches→run (d ∷ s) e (take _ fine m) = rw (fine, Matches→run s e m) (or-true _)

test_path-empty : (s : List ℕ) → test_path [] s ≡ true → Matches [] s
unfolding test_path
test_path-empty [] h = done
test_path-empty (d ∷ s) h = cc

empty-test_path : (s : List ℕ) → Matches [] s → test_path [] s ≡ true
unfolding test_path
empty-test_path [] m = refl
empty-test_path (d ∷ s) m = elim m [ ]

test_path-Decides : (p : List ℕ) → Decides p
test_path-Decides [] s = (test_path-empty s, empty-test_path s)
test_path-Decides (c ∷ p) s = elim (Bool-cases (c == star)) [
  | inl e ↦ rw e (
    run→Matches c p (test_path-Decides p) s ((==_iff c star).0 e),
    Matches→run c p (test_path-Decides p) s ((==_iff c star).0 e),
  )
  | inr n ↦ rw n (
    one→Matches c p (test_path-Decides p) s (ground arith),
    Matches→one c p (test_path-Decides p) s (ground arith),
  )
]

-- whether the pattern's expression compiles, and matches the path
abbrev pub tests : Result (List Item) → List ℕ → Bool
tests (ok items) s = test_path items s
tests (err e) s = false

-- A path pattern without `?` compiles, and matches exactly the paths that it stands for: `*` any run
-- of characters without a line's end, each other character itself, also one that is special in a
-- regular expression.
pub compile-Matches :
    (p s : List ℕ) → lacks b'?' p ≡ true → (tests (compile nothing p) s ≡ true) ↔ Matches p s
compile-Matches p s h = rw (compile-lacks nothing p h) (test_path-Decides p s)
