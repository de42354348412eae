-- ===== src/RepoPrep/Durable.antt =====
-- A snapshot that was made is used as it is, and one that was not is made anew:
-- src/repo-prep/repository-preparation.ts.
use shld.Prelude.{
  ℕ, ◌≡◌, refl, true, false, Option, none, some, List, inl, inr, ◌⊎◌, Bool-cases, Option-cases,
}
use shld.Action.{Result, ok, err}
use shld.RepoPrep.Snapshot.{
  PrepareRepositorySnapshotParams, Workspace, Git, is_marked, repo_of, find_snapshot, with_snapshot,
  materialize_anew, materialize,
}
use shld.RepoPrep.SnapshotLaws.{Made, materialize_anew-Made, find_own, with_own}

module _ {Repo : Type 0} (git later : Git Repo) (params : PrepareRepositorySnapshotParams)
    (others : PrepareRepositorySnapshotParams) (id : List ℕ) (w : Workspace Repo) where
  -- a marked directory is left as it is; otherwise the marker is there afterwards exactly if git
  -- did all its work, and nothing but this directory was touched
  abbrev pub Outcome : Result Repo × Workspace Repo → Type 0
  Outcome p =
      ((is_marked (find_snapshot id w) ≡ true) × (p.1 ≡ w))
      ⊎ ((is_marked (find_snapshot id w) ≡ false) × Made git params id w p)

  -- a later call for the same directory, whatever git does then
  abbrev pub Again : Result Repo × Workspace Repo → Type 0
  Again (ok r, after) = materialize later others id after ≡ (ok r, after)
  Again (err e, after) = materialize later others id after ≡ materialize later others id w

  anew_again :
      (repo : Option Repo)
      → materialize_anew later others id (with_snapshot id repo false w)
        ≡ materialize_anew later others id w
  unfolding materialize_anew
  anew_again repo = rw (with_own id none repo false w)

  Made-again :
      is_marked (find_snapshot id w) ≡ false
      → (p : Result Repo × Workspace Repo) → Made git params id w p
      → Again p
  unfolding materialize
  Made-again bare (ok r, after) (made, same) = rw (same, find_own id (some r) true w)
  Made-again bare (err e, after) (failed, repo, same) =
      rw (same, find_own id repo false w, bare) (anew_again repo)

  marked_again :
      is_marked (find_snapshot id w) ≡ true
      → ((materialize git params id w).1 ≡ w) × Again (materialize git params id w)
  unfolding materialize
  marked_again h = elim (Option-cases (repo_of (find_snapshot id w))) [
    | inl empty ↦ rw (h, empty) (refl, refl)
    | inr (r, there) ↦ rw (h, there) (refl, rw (h, there))
  ]

  -- A directory that holds a finished snapshot is used as it is, and nothing is written. Otherwise
  -- the snapshot is made anew: the call returns, and the marker is there, exactly if the clone has
  -- both commits and the head could be checked out, and no other directory is touched. After a call
  -- that returned, any later call for the directory returns the same repository and writes nothing,
  -- whatever git would do by then; after one that failed, a later call does what it would have done
  -- had the failed one not been made.
  pub materialize-IsDurable :
      Outcome (materialize git params id w) × Again (materialize git params id w)
  unfolding materialize
  materialize-IsDurable = elim (Bool-cases (is_marked (find_snapshot id w))) [
    | inl marked ↦ let (same, again) = marked_again marked in (inl (marked, same), again)
    | inr bare ↦
        let made = materialize_anew-Made git params id w in
        rw bare (inr (refl, made), Made-again bare (materialize_anew git params id w) made)
  ]
