-- ===== src/Store/Table.antt =====
-- Rows found and updated by a numeric key: `findUnique`, `update` with `where: { id }`.
use shld.Prelude.{
  ℕ, ◌≡◌, Option, none, some, List, [], ◌∷◌, arith, ◌==◌, ==_iff, refl, if◌then◌else◌,
}

module _ {R : Type 0} (key : R → ℕ) where
  unfoldable pub find_by : ℕ → List R → Option R
  find_by k [] = none
  find_by k (r ∷ rs) = if key r == k then some r else find_by k rs

  -- every row with the key is changed
  unfoldable pub update_by : ℕ → (R → R) → List R → List R
  update_by k f [] = []
  update_by k f (r ∷ rs) = (if key r == k then f r else r) ∷ update_by k f rs

  abbrev pub map_option : (R → R) → Option R → Option R
  map_option f none = none
  map_option f (some r) = some (f r)

  pub find_by-update_by :
      (k j : ℕ) (f : R → R) (rs : List R)
      → ((r : R) → key (f r) ≡ key r)
      → find_by j (update_by k f rs)
        ≡ (if k == j then map_option f (find_by j rs) else find_by j rs)
  unfolding find_by update_by
  find_by-update_by k j f [] keeps = ground arith
  find_by-update_by k j f (r ∷ rs) keeps = ground (arith, find_by-update_by k j f rs keeps, keeps r)

  pub find_by-key : (k : ℕ) (r : R) (rs : List R) → find_by k rs ≡ some r → key r ≡ k
  unfolding find_by
  find_by-key k r [] h = ground arith
  find_by-key k r (q ∷ rs) h = ground (arith, find_by-key k r rs)

  pub find_by-updated :
      (k : ℕ) (f : R → R) (r : R) (rs : List R)
      → ((r : R) → key (f r) ≡ key r)
      → find_by k rs ≡ some r
      → find_by k (update_by k f rs) ≡ some (f r)
  find_by-updated k f r rs keeps h = rw (find_by-update_by k k f rs keeps, (==_iff k k).1 refl, h)
