-- ===== src/RepoPrep/Snapshot.antt =====
-- src/repo-prep/repository-preparation.ts. The directories of the snapshots are the state; git is a
-- record of functions on a repository, of which nothing is known. What a clone or a checkout that
-- fails leaves behind is not told apart: nothing reads it. The permissions of the files are left
-- out, since the state is what the paths hold.
use shld.Prelude.{
  ℕ, Bool, true, false, not, ◌&&◌, Option, none, some, List, [], ◌∷◌, ◌++◌, String, find, keep, all,
  leb, length, if◌then◌else◌,
}
use shld.Prelude.Text.{text_eq, trim}
use shld.Action.{Action, Result, ok, err, pure, lift, gets, modify, or_throw, ◌>>=◌, ◌>>◌}
use shld.Domain.Errors.{repository_preparation, plain_error}
use shld.Network.Address.{is_hex_digit}
use shld.Policy.Sensitive.{is_sensitive_text}
use shld.RepoPrep.Diff.{ChangedFile, compute_changed_files}
use shld.RepoPrep.Languages.{detect_languages_from_paths, detect_frameworks_from_manifest}

pub record PrepareRepositorySnapshotParams : Type 0 where
  pub repository_id : List ℕ
  pub clone_url : List ℕ
  pub base_sha : List ℕ
  pub head_sha : List ℕ
  pub sensitive_path_patterns : Option (List String)

-- a path, or `*` for all of them
pub record SubmoduleIssue : Type 0 where
  pub path : List ℕ

-- the directory of a snapshot: the repository in it, and whether the marker file is there
pub record Snapshot (Repo : Type 0) : Type 0 where
  pub id : List ℕ
  pub repo : Option Repo
  pub has_marker : Bool

abbrev pub Workspace : Type 0 → Type 0
Workspace Repo = List (Snapshot Repo)

-- `fetch` gives nothing where it fails
pub record Git (Repo : Type 0) : Type 0 where
  pub clone : List ℕ → Result Repo
  pub has_commit : Repo → List ℕ → Bool
  pub fetch : Repo → List ℕ → Option Repo
  pub checkout : Repo → List ℕ → Result Repo
  pub tree_hash : Repo → List ℕ → Result (List ℕ)
  pub diff : Repo → List ℕ → List ℕ → Result (List ℕ)
  pub submodule_issues : Repo → List SubmoduleIssue
  pub exists_sync : Repo → String → Bool
  pub dependencies : Repo → Option (List String)

pub record SourceSnapshot : Type 0 where
  pub snapshot_id : List ℕ
  pub repository_id : List ℕ
  pub base_sha : List ℕ
  pub head_sha : List ℕ
  pub tree_hash : List ℕ
  pub changed_files : List ChangedFile
  pub detected_languages : List String
  pub detected_frameworks : List String
  pub sensitive_paths : List (List ℕ)
  pub submodule_issues : List SubmoduleIssue

-- `/^[0-9a-f]{7,40}$/i`
abbrev pub is_sha : List ℕ → Bool
is_sha text = leb 7 (length text) && leb (length text) 40 && all is_hex_digit text

-- `path` of each file, where every one has it
abbrev pub with_path : Option (List ℕ) → Option (List (List ℕ)) → Option (List (List ℕ))
with_path (some path) (some paths) = some (path ∷ paths)
with_path _ _ = none

unfoldable pub paths_of : List ChangedFile → Option (List (List ℕ))
paths_of [] = some []
paths_of (f ∷ fs) = with_path f.path (paths_of fs)

module _ {Repo : Type 0} where
  abbrev pub is_marked : Option (Snapshot Repo) → Bool
  is_marked none = false
  is_marked (some s) = s.has_marker

  abbrev pub repo_of : Option (Snapshot Repo) → Option Repo
  repo_of none = none
  repo_of (some s) = s.repo

  unfoldable pub find_snapshot : List ℕ → Workspace Repo → Option (Snapshot Repo)
  find_snapshot id w = find (λ s. text_eq s.id id) w

  -- `rm` with `recursive` and `force`
  unfoldable pub remove_snapshot : List ℕ → Workspace Repo → Workspace Repo
  remove_snapshot id w = keep (λ s. not (text_eq s.id id)) w

  -- what the directory holds from now on
  abbrev pub with_snapshot : List ℕ → Option Repo → Bool → Workspace Repo → Workspace Repo
  with_snapshot id repo has_marker w =
      (record { id = id; repo = repo; has_marker = has_marker }) ∷ remove_snapshot id w

  module _ (git : Git Repo) where
    abbrev pub after_fetch : List ℕ → Option Repo → Result Repo
    after_fetch sha none = err repository_preparation
    after_fetch sha (some r) = if git.has_commit r sha then ok r else err repository_preparation

    unfoldable pub ensure_commit_present : List ℕ → Repo → Result Repo
    ensure_commit_present sha r =
        if git.has_commit r sha then ok r else after_fetch sha (git.fetch r sha)

    -- the directory is made anew, and marked as the last thing
    unfoldable pub materialize_anew :
        PrepareRepositorySnapshotParams → List ℕ → Action (Workspace Repo) Repo
    unfolding ◌>>=◌ ensure_commit_present
    materialize_anew params id = do
      modify (with_snapshot id none false)
      cloned ← lift (git.clone params.clone_url)
      modify (with_snapshot id (some cloned) false)
      with_head ← lift (ensure_commit_present params.head_sha cloned)
      modify (with_snapshot id (some with_head) false)
      with_base ← lift (ensure_commit_present params.base_sha with_head)
      modify (with_snapshot id (some with_base) false)
      checked_out ← lift (git.checkout with_base params.head_sha)
      modify (with_snapshot id (some checked_out) true)
      pure checked_out

    -- `if (!existsSync(markerPath))`, and the repository that is there then
    unfoldable pub materialize :
        PrepareRepositorySnapshotParams → List ℕ → Action (Workspace Repo) Repo
    unfolding ◌>>=◌ materialize_anew find_snapshot
    materialize params id = do
      found ← gets (find_snapshot id)
      if is_marked found then or_throw (repo_of found) plain_error else materialize_anew params id

    module _ (snapshot_id_of : List ℕ → List ℕ) where
      -- 58 is the colon
      abbrev pub compute_snapshot_id : PrepareRepositorySnapshotParams → List ℕ
      compute_snapshot_id params =
          snapshot_id_of (params.repository_id ++ 58 ∷ (params.base_sha ++ 58 ∷ params.head_sha))

      unfoldable pub prepare_repository_snapshot :
          PrepareRepositorySnapshotParams → Action (Workspace Repo) SourceSnapshot
      unfolding ◌>>=◌ materialize compute_changed_files paths_of detect_languages_from_paths
          detect_frameworks_from_manifest trim
      prepare_repository_snapshot params = do
        lift (
            if is_sha params.base_sha && is_sha params.head_sha
            then ok tt
            else err repository_preparation)
        repo ← materialize params (compute_snapshot_id params)
        hash ← lift (git.tree_hash repo params.head_sha)
        raw ← lift (git.diff repo params.base_sha params.head_sha)
        let files = compute_changed_files raw
        paths ← or_throw (paths_of files) plain_error
        pure (record {
          snapshot_id = compute_snapshot_id params;
          repository_id = params.repository_id;
          base_sha = params.base_sha;
          head_sha = params.head_sha;
          tree_hash = trim hash;
          changed_files = files;
          detected_languages = detect_languages_from_paths paths;
          detected_frameworks =
              detect_frameworks_from_manifest (git.exists_sync repo) (git.dependencies repo);
          sensitive_paths =
              keep (λ path. is_sensitive_text path params.sensitive_path_patterns) paths;
          submodule_issues = git.submodule_issues repo;
        })
