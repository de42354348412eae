-- ===== src/Engines/Severity.antt =====
-- The severities and confidences that an engine writes as text: the strict reading of
-- src/adapters/deepsec/normalize.ts, and the loose one of
-- src/correlation/correlate-strix-validation.ts.
use shld.Prelude.{ℕ, String, Option, none, some, List, [], ◌∷◌, get_or, if◌then◌else◌}
use shld.Prelude.Text.{codes, trim, to_lower_case, text_eq}
use shld.Action.{Result, ok, err}
use shld.Domain.Errors.{deepsec_output}
use shld.Store.Rows.{FindingSeverity, FindingConfidence}

-- `raw.trim().toLowerCase()`
unfoldable pub normalized_key : String → List ℕ
normalized_key raw = to_lower_case (trim (codes raw))

-- a `Record<string, T>`, by key
unfoldable pub look_up : {T : Type 0} → List ℕ → List (String × T) → Option T
look_up key [] = none
look_up key ((k, v) ∷ rest) = if text_eq key (codes k) then some v else look_up key rest

abbrev pub severity_map : List (String × FindingSeverity)
severity_map =
    ("critical", FindingSeverity.critical)
    ∷ ("high", FindingSeverity.high)
    ∷ ("medium", FindingSeverity.medium)
    ∷ ("moderate", FindingSeverity.medium)
    ∷ ("low", FindingSeverity.low)
    ∷ ("info", FindingSeverity.info)
    ∷ ("informational", FindingSeverity.info)
    ∷ []

abbrev pub confidence_map : List (String × FindingConfidence)
confidence_map =
    ("high", FindingConfidence.high)
    ∷ ("medium", FindingConfidence.medium)
    ∷ ("low", FindingConfidence.low)
    ∷ []

abbrev pub or_error : {T : Type 0} → Option T → Result T
or_error none = err deepsec_output
or_error (some v) = ok v

unfoldable pub normalize_severity : String → Result FindingSeverity
unfolding normalized_key look_up
normalize_severity raw = or_error (look_up (normalized_key raw) severity_map)

unfoldable pub normalize_confidence : String → Result FindingConfidence
unfolding normalized_key look_up
normalize_confidence raw = or_error (look_up (normalized_key raw) confidence_map)

-- the names that `normalizeSeverityLoose` lets through
abbrev pub severity_names : List (String × FindingSeverity)
severity_names =
    ("critical", FindingSeverity.critical)
    ∷ ("high", FindingSeverity.high)
    ∷ ("medium", FindingSeverity.medium)
    ∷ ("low", FindingSeverity.low)
    ∷ ("info", FindingSeverity.info)
    ∷ []

unfoldable pub normalize_severity_loose : String → FindingSeverity
unfolding normalized_key look_up
normalize_severity_loose raw =
    get_or (look_up (normalized_key raw) severity_names) FindingSeverity.medium

unfoldable pub normalize_confidence_loose : String → FindingConfidence
unfolding normalized_key look_up
normalize_confidence_loose raw =
    get_or (look_up (normalized_key raw) confidence_map) FindingConfidence.medium
