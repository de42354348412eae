-- ===== src/Policy/Categories.antt =====
-- The tables of src/policy/change-classifier.ts. A category that the classifier can name is data, with
-- its text.
use shld.Prelude.{◌≡◌, ◌↔◌, ℕ, String, Bool, true, false, List, [], ◌∷◌, ◌==◌, arith}

pub data Category : Type 0 where
  authentication authorization tenant_isolation payment_manipulation file_handling secrets_exposure
        infrastructure deserialization webhooks background_jobs api_surface data_access
        dependency_change repository_policy :
      Category

abbrev pub category_name : Category → String
category_name authentication = "authentication"
category_name authorization = "authorization"
category_name tenant_isolation = "tenant-isolation"
category_name payment_manipulation = "payment-manipulation"
category_name file_handling = "file-handling"
category_name secrets_exposure = "secrets-exposure"
category_name infrastructure = "infrastructure"
category_name deserialization = "deserialization"
category_name webhooks = "webhooks"
category_name background_jobs = "background-jobs"
category_name api_surface = "api-surface"
category_name data_access = "data-access"
category_name dependency_change = "dependency-change"
category_name repository_policy = "repository-policy"

category_code : Category → ℕ
category_code authentication = 0
category_code authorization = 1
category_code tenant_isolation = 2
category_code payment_manipulation = 3
category_code file_handling = 4
category_code secrets_exposure = 5
category_code infrastructure = 6
category_code deserialization = 7
category_code webhooks = 8
category_code background_jobs = 9
category_code api_surface = 10
category_code data_access = 11
category_code dependency_change = 12
category_code repository_policy = 13

-- `a === b` of two categories
unfoldable pub same_category : Category → Category → Bool
unfolding category_code
same_category a b = category_code a == category_code b

pub same_category_iff : (a b : Category) → (same_category a b ≡ true) ↔ (a ≡ b)
unfolding same_category category_code
same_category_iff a b = ground arith

-- `CATEGORY_PATTERNS`, which has no entry for the last two
abbrev pub category_patterns : Category → List String
category_patterns authentication = "auth" ∷ "authentication" ∷ "login" ∷ "session" ∷ []
category_patterns authorization =
    "authorization" ∷ "permission" ∷ "role" ∷ "middleware" ∷ "admin" ∷ "polic" ∷ []
category_patterns tenant_isolation = "tenant" ∷ "organization" ∷ "workspace" ∷ []
category_patterns payment_manipulation = "billing" ∷ "payment" ∷ "invoice" ∷ "checkout" ∷ []
category_patterns file_handling = "upload" ∷ "file" ∷ "attachment" ∷ []
category_patterns secrets_exposure =
    "secret" ∷ "credential" ∷ "environment" ∷ "apikey" ∷ "api_key" ∷ []
category_patterns infrastructure = "infra" ∷ "deploy" ∷ "docker" ∷ "kubernetes" ∷ "terraform" ∷ []
category_patterns deserialization = "deserializ" ∷ "unmarshal" ∷ "pickle" ∷ []
category_patterns webhooks = "webhook" ∷ []
category_patterns background_jobs = "job" ∷ "queue" ∷ "worker" ∷ "cron" ∷ []
category_patterns api_surface = "api" ∷ "route" ∷ "endpoint" ∷ "controller" ∷ []
category_patterns data_access = "database" ∷ "migration" ∷ "schema" ∷ "repository" ∷ []
category_patterns _ = []

abbrev pub dependency_manifest_basenames : List String
dependency_manifest_basenames =
    "package.json" ∷ "package-lock.json" ∷ "pnpm-lock.yaml" ∷ "yarn.lock" ∷ "requirements.txt"
    ∷ "pipfile.lock" ∷ "poetry.lock" ∷ "gemfile.lock" ∷ "go.sum" ∷ "go.mod" ∷ "cargo.lock"
    ∷ "cargo.toml" ∷ "pom.xml" ∷ "build.gradle" ∷ "composer.lock" ∷ []

abbrev pub category_priority : List Category
category_priority =
    secrets_exposure ∷ payment_manipulation ∷ authorization ∷ authentication ∷ tenant_isolation
    ∷ deserialization ∷ webhooks ∷ background_jobs ∷ infrastructure ∷ file_handling ∷ data_access
    ∷ api_surface ∷ []

abbrev pub is_high_risk_category : Category → Bool
is_high_risk_category authentication = true
is_high_risk_category authorization = true
is_high_risk_category tenant_isolation = true
is_high_risk_category payment_manipulation = true
is_high_risk_category secrets_exposure = true
is_high_risk_category deserialization = true
is_high_risk_category _ = false
