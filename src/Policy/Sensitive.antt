-- ===== src/Policy/Sensitive.antt =====
-- src/policy/sensitive-patterns.ts
use shld.Prelude.{ℕ, String, Bool, Option, List, [], ◌∷◌, any, keep, get_or}
use shld.Prelude.Text.{codes, to_lower_case, includes_text}

abbrev pub default_sensitive_path_patterns : List String
default_sensitive_path_patterns =
    "auth" ∷ "authentication" ∷ "authorization" ∷ "permission" ∷ "role" ∷ "middleware" ∷ "api"
    ∷ "route" ∷ "billing" ∷ "payment" ∷ "upload" ∷ "file" ∷ "admin" ∷ "database" ∷ "polic"
    ∷ "secret" ∷ "environment" ∷ "infra" ∷ "deserializ" ∷ "webhook" ∷ "job" ∷ "queue" ∷ []

-- a path as its code points; no patterns stand for the default
abbrev pub is_sensitive_text : List ℕ → Option (List String) → Bool
is_sensitive_text path patterns =
    any (λ pattern. includes_text (to_lower_case path) (to_lower_case (codes pattern)))
      (get_or patterns default_sensitive_path_patterns)

unfoldable pub is_sensitive_path : String → Option (List String) → Bool
is_sensitive_path file_path patterns = is_sensitive_text (codes file_path) patterns

unfoldable pub find_sensitive_paths : List String → Option (List String) → List String
find_sensitive_paths paths patterns = keep (λ path. is_sensitive_path path patterns) paths
