-- ===== src/RepoPrep/DiffLaws.antt =====
-- What git writes about a list of changes is read back: `computeChangedFiles` of
-- src/repo-prep/repository-preparation.ts.
use shld.Prelude.{
  ℕ, ◌≡◌, refl, ap, false, true, none, some, List, [], ◌∷◌, ◌++◌, map, All, not, ◌==◌, is_empty,
}
use shld.Prelude.Split.{split_on, lacks, split_on-append, split_on-lacks, all-append}
use shld.Prelude.Text.{trim, is_empty-trim, is_space}
use shld.RepoPrep.Diff.{
  ChangedFile, added, modified, deleted, renamed, changed_file, compute_changed_files,
}

-- the changes of git's manual, with the paths as it writes them and the similarity as its digits
pub data Change : Type 0 where
  add modify delete retype : List ℕ → Change
  rename : List ℕ → List ℕ → List ℕ → Change

-- `A`, `M`, `D`, `T` and `R`, and a tab before each path
abbrev pub line_of : Change → List ℕ
line_of (add p) = 65 ∷ 9 ∷ p
line_of (modify p) = 77 ∷ 9 ∷ p
line_of (delete p) = 68 ∷ 9 ∷ p
line_of (retype p) = 84 ∷ 9 ∷ p
line_of (rename score old new) = (82 ∷ score) ++ (9 ∷ (old ++ 9 ∷ new))

unfoldable pub git_output : List Change → List ℕ
git_output [] = []
git_output (c ∷ cs) = line_of c ++ 10 ∷ git_output cs

abbrev pub file_of : Change → ChangedFile
file_of (add p) = record { path = some p; change_type = added; previous_path = none }
file_of (modify p) = record { path = some p; change_type = modified; previous_path = none }
file_of (delete p) = record { path = some p; change_type = deleted; previous_path = none }
file_of (retype p) = record { path = some p; change_type = modified; previous_path = none }
file_of (rename score old new) = record {
  path = some new;
  change_type = renamed;
  previous_path = some old;
}

-- no tab and no line feed, which git escapes in a path
abbrev pub IsField : List ℕ → Type 0
IsField w = (lacks 9 w ≡ true) × (lacks 10 w ≡ true)

abbrev pub IsWritten : Change → Type 0
IsWritten (add p) = IsField p
IsWritten (modify p) = IsField p
IsWritten (delete p) = IsField p
IsWritten (retype p) = IsField p
IsWritten (rename score old new) = IsField score × IsField old × IsField new

-- one line, which holds no line feed and is not blank
record IsReadBack (c : Change) : Type 0 where
  ends_late : lacks 10 (line_of c) ≡ true
  inked : is_empty (trim (line_of c)) ≡ false
  reads : changed_file (split_on 9 (line_of c)) ≡ file_of c

simple_split :
    (letter : ℕ) (p : List ℕ)
    → lacks 9 (letter ∷ []) ≡ true
    → lacks 9 p ≡ true
    → split_on 9 (letter ∷ 9 ∷ p) ≡ (letter ∷ []) ∷ p ∷ []
simple_split letter p h k = rw (split_on-append 9 (letter ∷ []) p h, split_on-lacks 9 p k)

rename_split :
    (score old new : List ℕ)
    → lacks 9 score ≡ true
    → lacks 9 old ≡ true
    → lacks 9 new ≡ true
    → split_on 9 ((82 ∷ score) ++ (9 ∷ (old ++ 9 ∷ new))) ≡ (82 ∷ score) ∷ old ∷ new ∷ []
rename_split score old new s o n = rw (
  split_on-append 9 (82 ∷ score) (old ++ 9 ∷ new) s,
  split_on-append 9 old new o,
  split_on-lacks 9 new n,
)

line_of-IsReadBack : (c : Change) → IsWritten c → IsReadBack c
unfolding changed_file is_space
line_of-IsReadBack (add p) w = record {
  ends_late = w.1;
  inked = is_empty-trim 65 (9 ∷ p) refl;
  reads = rw (simple_split 65 p refl w.0);
}
line_of-IsReadBack (modify p) w = record {
  ends_late = w.1;
  inked = is_empty-trim 77 (9 ∷ p) refl;
  reads = rw (simple_split 77 p refl w.0);
}
line_of-IsReadBack (delete p) w = record {
  ends_late = w.1;
  inked = is_empty-trim 68 (9 ∷ p) refl;
  reads = rw (simple_split 68 p refl w.0);
}
line_of-IsReadBack (retype p) w = record {
  ends_late = w.1;
  inked = is_empty-trim 84 (9 ∷ p) refl;
  reads = rw (simple_split 84 p refl w.0);
}
line_of-IsReadBack (rename score old new) (s, o, n) = record {
  ends_late =
      all-append (λ c. not (c == 10)) (82 ∷ score) (9 ∷ (old ++ 9 ∷ new)) s.1
        (all-append (λ c. not (c == 10)) old (9 ∷ new) o.1 n.1);
  inked = is_empty-trim 82 (score ++ (9 ∷ (old ++ 9 ∷ new))) refl;
  reads = rw (rename_split score old new s.0 o.0 n.0);
}

-- The files of a diff are those of git's own account, in its order: what git writes about a list of
-- changes, whose paths are as it writes them, without tabs or line feeds, is read back as those
-- changes, and a change of a file's type as a modification.
pub compute_changed_files-git_output :
    (changes : List Change)
    → All IsWritten changes
    → compute_changed_files (git_output changes) ≡ map file_of changes
unfolding compute_changed_files git_output
compute_changed_files-git_output [] w = refl
compute_changed_files-git_output (c ∷ cs) w =
    let line = line_of-IsReadBack c w.0 in
    rw (split_on-append 10 (line_of c) (git_output cs) line.ends_late, line.inked, line.reads)
      (ap (λ fs. file_of c ∷ fs) (compute_changed_files-git_output cs w.1))
