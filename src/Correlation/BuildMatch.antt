-- ===== src/Correlation/BuildMatch.antt =====
-- src/correlation/build-match.ts
use shld.Prelude.{String, Bool, false, Option, none, some, str_eq, if◌then◌else◌, List, ℕ}
use shld.Prelude.Text.{codes, trim, to_lower_case, text_eq}

-- `sha.trim().toLowerCase()`
unfoldable pub normalized_sha : String → List ℕ
normalized_sha sha = to_lower_case (trim (codes sha))

-- The source tests a missing or an empty build id by `!actualTargetBuildId`.
unfoldable pub commit_matches_build : String → Option String → Bool
unfolding normalized_sha
commit_matches_build expected none = false
commit_matches_build expected (some actual) =
    if str_eq actual "" then false else text_eq (normalized_sha expected) (normalized_sha actual)
