-- ===== src/Policy/Classifier.antt =====
-- src/policy/change-classifier.ts. The categories of earlier findings are texts; a reason is data.
use shld.Prelude.{
  ℕ, String, Bool, true, false, ◌&&◌, ◌||◌, Option, some, List, [], ◌∷◌, ◌++◌, any, keep, find, map,
  length, leb, ltb, ◌==◌, get_or, str_eq, if◌then◌else◌,
}
use shld.Prelude.Text.{codes, to_lower_case, text_eq, includes_text}
use mathlib.Core.List.{reverse}
use shld.Policy.Sensitive.{find_sensitive_paths}
use shld.Policy.Categories.{
  Category, category_name, same_category, category_patterns, category_priority,
  is_high_risk_category, dependency_manifest_basenames, authentication, authorization,
  secrets_exposure, dependency_change, repository_policy,
}

pub data RiskLevel : Type 0 where
  critical high medium low : RiskLevel

pub data RecommendedReview : Type 0 where
  none deepsec_diff : RecommendedReview

pub record ClassifyChangeFileInput : Type 0 where
  pub path : String
  pub change_type : String

pub record ClassifyChangeInput : Type 0 where
  pub changed_files : List ClassifyChangeFileInput
  pub sensitive_path_patterns : Option (List String)
  pub previous_finding_categories : Option (List String)

pub data ChangeReason : Type 0 where
  touches_sensitive_path : Category → String → ChangeReason
  had_findings_before : Category → ChangeReason
  nothing_matched : ChangeReason

pub record ChangeClassification : Type 0 where
  pub risk_level : RiskLevel
  pub security_sensitive : Bool
  pub categories : List Category
  pub recommended_review : RecommendedReview
  pub requires_preview_target : Bool
  pub reasons : List ChangeReason

-- the entries of `categoryHits`, in the order of their keys
abbrev pub Hits : Type 0
Hits = List (Category × List String)

abbrev push_new : String → List String → List String
push_new path files = if any (str_eq path) files then files else files ++ (path ∷ [])

unfoldable pub record_hit : Category → String → Hits → Hits
record_hit category path [] = (category, path ∷ []) ∷ []
record_hit category path ((c, files) ∷ hits) =
    let rest = record_hit category path hits in
    if same_category c category then (c, push_new path files) ∷ hits else (c, files) ∷ rest

-- the part behind the last slash
take_segment : List ℕ → List ℕ
take_segment [] = []
take_segment (c ∷ cs) = let rest = take_segment cs in if c == 47 then [] else c ∷ rest

-- `lower.split("/").pop()`
unfoldable pub basename : List ℕ → List ℕ
unfolding take_segment
basename path = reverse (take_segment (reverse path))

-- the category whose turn ends the inner loop
unfoldable pub pattern_category : String → Option Category
pattern_category path =
    find
      (λ c. any (λ p. includes_text (to_lower_case (codes path)) (codes p)) (category_patterns c))
      category_priority

unfoldable pub is_manifest : String → Bool
is_manifest path =
    any (λ m. text_eq (basename (to_lower_case (codes path))) (codes m))
      dependency_manifest_basenames

abbrev pub hit_pattern : Option Category → String → Hits → Hits
hit_pattern Option.none path hits = hits
hit_pattern (some category) path hits = record_hit category path hits

-- the body of the loop over the files
unfoldable pub hit_file : String → Hits → Hits
hit_file path hits =
    let found = hit_pattern (pattern_category path) path hits in
    if is_manifest path then record_hit dependency_change path found else found

unfoldable pub hit_files : List String → Hits → Hits
hit_files [] hits = hits
hit_files (path ∷ paths) hits = hit_files paths (hit_file path hits)

-- the loop over the sensitive paths
unfoldable pub hit_policy : List String → Hits → Hits
hit_policy [] hits = hits
hit_policy (path ∷ paths) hits = hit_policy paths (record_hit repository_policy path hits)

abbrev pub policy_paths : Option (List String) → List String → List String
policy_paths (some (p ∷ patterns)) paths = find_sensitive_paths paths (some (p ∷ patterns))
policy_paths _ paths = []

unfoldable pub category_hits : ClassifyChangeInput → Hits
category_hits input =
    let paths = map (λ f. f.path) input.changed_files in
    hit_policy (policy_paths input.sensitive_path_patterns paths) (hit_files paths [])

abbrev pub was_found_before : ClassifyChangeInput → Category → Bool
was_found_before input c =
    any (str_eq (category_name c)) (get_or input.previous_finding_categories [])

-- `categoryHits.get(category)![0]`
abbrev first_example : List String → String
first_example [] = ""
first_example (path ∷ paths) = path

unfoldable pub reasons_of : ClassifyChangeInput → Hits → List ChangeReason
reasons_of input [] = []
reasons_of input ((c, files) ∷ hits) =
    touches_sensitive_path c (first_example files)
    ∷ ((if was_found_before input c then had_findings_before c ∷ [] else [])
        ++ reasons_of input hits)

abbrev pub is_high_hit : ClassifyChangeInput → Category → Bool
is_high_hit input c = is_high_risk_category c || was_found_before input c

unfoldable pub risk_of : List Category → List Category → RiskLevel
risk_of [] high_hits = low
risk_of (c ∷ cs) [] = medium
risk_of (c ∷ cs) (h ∷ hs) =
    let has_secrets = any (λ d. same_category d secrets_exposure) (c ∷ cs) in
    let has_auth_combo =
      any (λ d. same_category d authentication) (c ∷ cs)
      || any (λ d. same_category d authorization) (c ∷ cs) in
    if leb 3 (length (h ∷ hs)) || (has_secrets && has_auth_combo) then critical else high

abbrev pub is_elevated : RiskLevel → Bool
is_elevated critical = true
is_elevated high = true
is_elevated _ = false

abbrev or_nothing : List ChangeReason → List ChangeReason
or_nothing [] = nothing_matched ∷ []
or_nothing (r ∷ rs) = r ∷ rs

unfoldable pub classify_change : ClassifyChangeInput → ChangeClassification
classify_change input =
    let hits = category_hits input in
    let categories = map (λ h. h.0) hits in
    let security_sensitive = ltb 0 (length categories) in
    let risk_level = risk_of categories (keep (is_high_hit input) categories) in
    record {
      risk_level = risk_level;
      security_sensitive = security_sensitive;
      categories = categories;
      recommended_review = if security_sensitive then deepsec_diff else RecommendedReview.none;
      requires_preview_target = is_elevated risk_level;
      reasons = or_nothing (reasons_of input hits);
    }
