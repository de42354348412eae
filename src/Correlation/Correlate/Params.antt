-- ===== src/Correlation/Correlate/Params.antt =====
-- What src/correlation/correlate-strix-validation.ts is given and returns, and what it reads off the
-- first code location.
use shld.Prelude.{ℕ, String, Bool, not, Option, none, some, List, [], ◌∷◌}
use shld.Correlation.BuildMatch.{commit_matches_build}
use shld.Domain.FindingStatus.{FindingStatus}
use shld.Engines.Strix.{StrixCodeLocation, StrixRunResult}
use shld.Store.Rows.{SourceLocation}

pub record CorrelateStrixValidationParams : Type 0 where
  pub organization_id : ℕ
  pub repository_id : ℕ
  pub run_id : ℕ
  pub finding_id : Option ℕ
  pub target_environment_id : ℕ
  pub expected_commit_sha : String
  pub actual_target_build_id : Option String
  pub test_complete : Bool
  pub result : StrixRunResult

pub record CorrelateStrixValidationOutcome : Type 0 where
  pub engine_execution_id : ℕ
  pub validation_id : ℕ
  pub finding_id : ℕ
  pub finding_status : FindingStatus
  pub is_new_finding : Bool
  pub build_mismatch : Bool

abbrev pub build_mismatch : CorrelateStrixValidationParams → Bool
build_mismatch params =
    not (commit_matches_build params.expected_commit_sha params.actual_target_build_id)

abbrev pub first_location : List StrixCodeLocation → Option StrixCodeLocation
first_location [] = none
first_location (l ∷ ls) = some l

abbrev pub file_path_of : Option StrixCodeLocation → Option String
file_path_of none = none
file_path_of (some l) = some l.file_path

abbrev pub symbol_of : Option StrixCodeLocation → Option String
symbol_of none = none
symbol_of (some l) = l.symbol

abbrev pub locations_of : String → Option StrixCodeLocation → List SourceLocation
locations_of commit none = []
locations_of commit (some l) =
    (record {
      file_path = l.file_path;
      start_line = l.start_line;
      end_line = l.end_line;
      commit_sha = commit;
      symbol = l.symbol;
    })
    ∷ []
