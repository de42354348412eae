-- ===== src/Tests/Classifier.antt =====
-- The change classifier on a change of a login page and of a lock file.
use shld.Prelude.{◌≡◌, ◌↔◌, none, [], ◌∷◌}
use shld.Policy.Classifier.{ClassifyChangeInput, classify_change, deepsec_diff, low}
use shld.Policy.ClassifierLaws.{TouchesSomething, classify_change-sensitive}

abbrev login_change : ClassifyChangeInput
login_change = record {
  changed_files =
      record { path = "src/login/page.ts"; change_type = "modified" }
      ∷ record { path = "web/yarn.lock"; change_type = "modified" }
      ∷ [];
  sensitive_path_patterns = none;
  previous_finding_categories = none;
}

classify_change-sensitive_example :
    (((classify_change login_change).recommended_review ≡ deepsec_diff)
      ↔ TouchesSomething login_change)
    × (((classify_change login_change).risk_level ≡ low) ↔ (¬ TouchesSomething login_change))
classify_change-sensitive_example = classify_change-sensitive login_change
