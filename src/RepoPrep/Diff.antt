-- ===== src/RepoPrep/Diff.antt =====
-- `computeChangedFiles` of src/repo-prep/repository-preparation.ts, on the text that
-- `git diff --name-status -M` writes, as its code points.
use shld.Prelude.{ℕ, Option, none, List, [], ◌∷◌, get_elem?, if◌then◌else◌, is_empty}
use shld.Prelude.Split.{split_on}
use shld.Prelude.Text.{text_eq, starts_with, trim}

pub data ChangeType : Type 0 where
  added modified deleted renamed : ChangeType

-- A path is missing where the line has too few parts: the source takes it for granted.
pub record ChangedFile : Type 0 where
  pub path : Option (List ℕ)
  pub change_type : ChangeType
  pub previous_path : Option (List ℕ)

abbrev pub first_part : List (List ℕ) → List ℕ
first_part [] = []
first_part (part ∷ parts) = part

-- one line, whose status is its first part: 82 is `R`, 65 is `A` and 68 is `D`
unfoldable pub changed_file : List (List ℕ) → ChangedFile
unfolding text_eq starts_with
changed_file parts =
    if starts_with (first_part parts) (82 ∷ [])
    then record {
      path = get_elem? parts 2;
      change_type = renamed;
      previous_path = get_elem? parts 1;
    }
    else record {
      path = get_elem? parts 1;
      change_type =
          if text_eq (first_part parts) (65 ∷ [])
          then added
          else if text_eq (first_part parts) (68 ∷ [])
          then deleted
          else modified;
      previous_path = none;
    }

-- `for (const line of lines)`: a blank line is passed over, and a tab ends a part
unfoldable pub files_of_lines : List (List ℕ) → List ChangedFile
unfolding changed_file trim split_on
files_of_lines [] = []
files_of_lines (line ∷ lines) =
    let rest = files_of_lines lines in
    if is_empty (trim line) then rest else changed_file (split_on 9 line) ∷ rest

unfoldable pub compute_changed_files : List ℕ → List ChangedFile
unfolding files_of_lines
compute_changed_files raw = files_of_lines (split_on 10 raw)
