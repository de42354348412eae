-- ===== src/Tests/RepoPrep.antt =====
-- A diff with a rename, and a snapshot whose first attempt fails.
use shld.Prelude.{ℕ, ◌≡◌, refl, Bool, true, false, none, List, [], ◌∷◌, map, if◌then◌else◌}
use shld.Prelude.Text.{codes}
use shld.Action.{ok, err}
use shld.Domain.Errors.{plain_error}
use shld.RepoPrep.Diff.{compute_changed_files}
use shld.RepoPrep.DiffLaws.{
  Change, add, delete, rename, git_output, file_of, compute_changed_files-git_output,
}
use shld.RepoPrep.Durable.{Outcome, Again, materialize-IsDurable}
use shld.RepoPrep.Languages.{detect_languages_from_paths}
use shld.RepoPrep.Snapshot.{Git, PrepareRepositorySnapshotParams, materialize}

abbrev changes : List Change
changes =
    add (codes "src/a.ts")
    ∷ rename (codes "100") (codes "b.py") (codes "c.py")
    ∷ delete (codes "d")
    ∷ []

compute_changed_files-git_output_example :
    compute_changed_files (git_output changes) ≡ map file_of changes
compute_changed_files-git_output_example =
    compute_changed_files-git_output changes
      ((refl, refl), (((refl, refl), (refl, refl), (refl, refl)), ((refl, refl), tt)))

languages_sorted :
    detect_languages_from_paths
      (codes "src/b.TSX" ∷ codes ".go" ∷ codes "a/x.py" ∷ codes "y.d.ts" ∷ [])
    ≡ "python" ∷ "typescript" ∷ []
unfolding detect_languages_from_paths
languages_sorted = refl

-- a repository is the names of its commits
abbrev online : Bool → Git (List (List ℕ))
online up = record {
  clone = λ url. if up then ok (url ∷ []) else err plain_error;
  has_commit = λ repo sha. true;
  fetch = λ repo sha. none;
  checkout = λ repo sha. ok (sha ∷ repo);
  tree_hash = λ repo sha. ok sha;
  diff = λ repo base head. ok [];
  submodule_issues = λ repo. [];
  exists_sync = λ repo name. false;
  dependencies = λ repo. none;
}

abbrev pair : PrepareRepositorySnapshotParams
pair = record {
  repository_id = codes "r";
  clone_url = codes "u";
  base_sha = codes "aaaaaaa";
  head_sha = codes "bbbbbbb";
  sensitive_path_patterns = none;
}

materialize-IsDurable_example :
    Outcome
      (online false)
      (online true)
      pair
      pair
      (codes "s")
      []
      (materialize (online false) pair (codes "s") [])
    × Again
        (online false)
        (online true)
        pair
        pair
        (codes "s")
        []
        (materialize (online false) pair (codes "s") [])
materialize-IsDurable_example =
    materialize-IsDurable (online false) (online true) pair pair (codes "s") []
