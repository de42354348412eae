-- ===== src/RepoPrep/SnapshotLaws.antt =====
-- When a snapshot is made, and when it is used again: src/repo-prep/repository-preparation.ts.
use mathlib.Core.Path.{subst}
use shld.Prelude.{
  ℕ, ◌≡◌, refl, ap, sym, Bool, true, false, Option, none, some, List, [], ◌∷◌, inl, inr, Bool-cases,
}
use shld.Prelude.Text.{text_eq, text_eq_iff}
use shld.Action.{Result, ok, err}
use shld.Network.Admission.{Result-cases}
use shld.RepoPrep.Snapshot.{
  PrepareRepositorySnapshotParams, Workspace, Git, find_snapshot, remove_snapshot, with_snapshot,
  ensure_commit_present, materialize_anew,
}

text_eq_self : (t : List ℕ) → text_eq t t ≡ true
text_eq_self t = (text_eq_iff t t).1 refl

module _ {Repo : Type 0} where
  remove_again :
      (id : List ℕ) (w : Workspace Repo)
      → remove_snapshot id (remove_snapshot id w) ≡ remove_snapshot id w
  unfolding remove_snapshot
  remove_again id [] = refl
  remove_again id (s ∷ w) = elim (Bool-cases (text_eq s.id id)) [
    | inl same ↦ rw same (remove_again id w)
    | inr other ↦ rw (other, other) (ap (λ rest. s ∷ rest) (remove_again id w))
  ]

  remove_own :
      (id : List ℕ) (repo : Option Repo) (marked : Bool) (w : Workspace Repo)
      → remove_snapshot id (with_snapshot id repo marked w) ≡ remove_snapshot id w
  unfolding remove_snapshot
  remove_own id repo marked w = rw (text_eq_self id) (remove_again id w)

  pub with_own :
      (id : List ℕ) (repo before : Option Repo) (marked : Bool) (w : Workspace Repo)
      → with_snapshot id repo marked (with_snapshot id before false w)
        ≡ with_snapshot id repo marked w
  with_own id repo before marked w =
      ap (λ rest. (record { id = id; repo = repo; has_marker = marked }) ∷ rest)
        (remove_own id before false w)

  pub find_own :
      (id : List ℕ) (repo : Option Repo) (marked : Bool) (w : Workspace Repo)
      → find_snapshot id (with_snapshot id repo marked w)
        ≡ some (record { id = id; repo = repo; has_marker = marked })
  unfolding find_snapshot
  find_own id repo marked w = rw (text_eq_self id)

  module _ (git : Git Repo) (params : PrepareRepositorySnapshotParams) (id : List ℕ) where
    abbrev at_commit : List ℕ → Result Repo → Result Repo
    at_commit sha (ok r) = ensure_commit_present git sha r
    at_commit sha (err e) = err e

    abbrev at_checkout : Result Repo → Result Repo
    at_checkout (ok r) = git.checkout r params.head_sha
    at_checkout (err e) = err e

    -- what git makes of the parameters: a clone with both commits, at the head
    abbrev pub fresh_checkout : Result Repo
    fresh_checkout =
        at_checkout
          (at_commit params.base_sha (at_commit params.head_sha (git.clone params.clone_url)))

    -- the marker is there exactly if git did all its work
    abbrev pub Made : Workspace Repo → Result Repo × Workspace Repo → Type 0
    Made w (ok r, after) = (fresh_checkout ≡ ok r) × (after ≡ with_snapshot id (some r) true w)
    Made w (err e, after) =
        (fresh_checkout ≡ err e) × (repo : Option Repo) × (after ≡ with_snapshot id repo false w)

    made :
        {p : Result Repo × Workspace Repo} (w : Workspace Repo) (q : Result Repo × Workspace Repo)
        → p ≡ q
        → Made w q
        → Made w p
    made w q same = subst (Made w) (sym same)

    pub materialize_anew-Made : (w : Workspace Repo) → Made w (materialize_anew git params id w)
    unfolding materialize_anew
    materialize_anew-Made w = elim (Result-cases (git.clone params.clone_url)) [
      | inr (e, failed) ↦
          made w (err e, with_snapshot id none false w) (rw failed) (rw failed, none, refl)
      | inl (r, cloned) ↦ elim (Result-cases (ensure_commit_present git params.head_sha r)) [
        | inr (e, failed) ↦
            made w (err e, with_snapshot id (some r) false w)
              (rw (cloned, failed) (ap (λ t. (err e, t)) (with_own id (some r) none false w)))
              (rw (cloned, failed), some r, refl)
        | inl (s, head) ↦ elim (Result-cases (ensure_commit_present git params.base_sha s)) [
          | inr (e, failed) ↦
              made w (err e, with_snapshot id (some s) false w)
                (rw (
                  cloned,
                  head,
                  failed,
                  with_own id (some r) none false w,
                  with_own id (some s) (some r) false w,
                ))
                (rw (cloned, head, failed), some s, refl)
          | inl (t, base) ↦ elim (Result-cases (git.checkout t params.head_sha)) [
            | inr (e, failed) ↦
                made w (err e, with_snapshot id (some t) false w)
                  (rw (
                    cloned,
                    head,
                    base,
                    failed,
                    with_own id (some r) none false w,
                    with_own id (some s) (some r) false w,
                    with_own id (some t) (some s) false w,
                  ))
                  (rw (cloned, head, base, failed), some t, refl)
            | inl (u, out) ↦
                made w (ok u, with_snapshot id (some u) true w)
                  (rw (
                    cloned,
                    head,
                    base,
                    out,
                    with_own id (some r) none false w,
                    with_own id (some s) (some r) false w,
                    with_own id (some t) (some s) false w,
                    with_own id (some u) (some t) true w,
                  ))
                  (rw (cloned, head, base, out), refl)
          ]
        ]
      ]
    ]
