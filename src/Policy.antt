-- ===== src/Policy.antt =====
-- src/policy: which change is risky, and which finding is worth a runtime validation.
pub mod Routing
pub mod Apply
pub mod Sensitive
pub mod Categories
pub mod Classifier
pub mod ClassifierLaws
