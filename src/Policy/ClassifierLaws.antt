-- ===== src/Policy/ClassifierLaws.antt =====
-- What the loops of src/policy/change-classifier.ts find.
use shld.Prelude.{
  ap, sym, ◌∙◌, ◌≡◌, ◌↔◌, refl, String, Bool, true, false, ◌&&◌, ◌||◌, Option, some, List, [], ◌∷◌,
  any, keep, map, arith, if◌then◌else◌, ltb, length,
}
use shld.Policy.Categories.{
  Category, same_category, same_category_iff, dependency_change, repository_policy,
}
use shld.Policy.Sensitive.{is_sensitive_path, find_sensitive_paths}
use shld.Policy.Classifier.{
  ClassifyChangeInput, Hits, record_hit, hit_pattern, hit_file, hit_files, hit_policy,
  pattern_category, is_manifest, policy_paths, category_hits, classify_change, low, risk_of,
  deepsec_diff, RecommendedReview, is_high_hit,
}

-- the category has an entry
abbrev pub has_hit : Category → Hits → Bool
has_hit c hits = any (λ h. same_category h.0 c) hits

same_category_refl : (c : Category) → same_category c c ≡ true
same_category_refl c = (same_category_iff c c).1 refl

has_hit-record :
    (c d : Category) (path : String) (hits : Hits)
    → has_hit c (record_hit d path hits) ≡ (same_category d c || has_hit c hits)
unfolding record_hit
has_hit-record c d path [] = ground arith
has_hit-record c d path ((e, files) ∷ hits) =
    ground (arith, has_hit-record c d path hits, same_category_iff e d)

-- the category that the priorities give to a path
abbrev pub is_category : Category → Option Category → Bool
is_category c Option.none = false
is_category c (some d) = same_category d c

-- a file touches the category of its first matching pattern, and it is a change of a dependency if
-- it is named like a manifest
abbrev pub file_touches : Category → String → Bool
file_touches c path =
    is_category c (pattern_category path) || (is_manifest path && same_category dependency_change c)

has_hit-pattern :
    (c : Category) (o : Option Category) (path : String) (hits : Hits)
    → has_hit c (hit_pattern o path hits) ≡ (is_category c o || has_hit c hits)
has_hit-pattern c Option.none path hits = refl
has_hit-pattern c (some d) path hits = has_hit-record c d path hits

has_hit-file :
    (c : Category) (path : String) (hits : Hits)
    → has_hit c (hit_file path hits) ≡ (file_touches c path || has_hit c hits)
unfolding hit_file
has_hit-file c path hits = ground (
  arith,
  has_hit-pattern c (pattern_category path) path hits,
  has_hit-record c dependency_change path (hit_pattern (pattern_category path) path hits),
)

has_hit-files :
    (c : Category) (paths : List String) (hits : Hits)
    → has_hit c (hit_files paths hits) ≡ (any (file_touches c) paths || has_hit c hits)
unfolding hit_files
has_hit-files c [] hits = refl
has_hit-files c (path ∷ paths) hits =
    ground (arith, has_hit-files c paths (hit_file path hits), has_hit-file c path hits)

has_hit-policy :
    (c : Category) (paths : List String) (hits : Hits)
    → has_hit c (hit_policy paths hits)
      ≡ (any (λ _. same_category repository_policy c) paths || has_hit c hits)
unfolding hit_policy
has_hit-policy c [] hits = refl
has_hit-policy c (path ∷ paths) hits = ground (
  arith,
  has_hit-policy c paths (record_hit repository_policy path hits),
  has_hit-record c repository_policy path hits,
)

-- a path is under the repository's own patterns, where there are any
abbrev pub under_policy : Option (List String) → String → Bool
under_policy (some (p ∷ patterns)) path = is_sensitive_path path (some (p ∷ patterns))
under_policy _ path = false

any-find :
    (b : Bool) (patterns : Option (List String)) (paths : List String)
    → any (λ _. b) (find_sensitive_paths paths patterns)
      ≡ any (λ path. is_sensitive_path path patterns && b) paths
unfolding find_sensitive_paths
any-find b patterns [] = refl
any-find b patterns (path ∷ paths) = ground (arith, any-find b patterns paths)

any-none : (paths : List String) → any (λ _. false) paths ≡ false
any-none [] = refl
any-none (path ∷ paths) = any-none paths

any-policy :
    (b : Bool) (patterns : Option (List String)) (paths : List String)
    → any (λ _. b) (policy_paths patterns paths)
      ≡ any (λ path. under_policy patterns path && b) paths
any-policy b Option.none paths = sym (any-none paths)
any-policy b (some []) paths = sym (any-none paths)
any-policy b (some (p ∷ patterns)) paths = any-find b (some (p ∷ patterns)) paths

-- What a changed path touches, as the input has it: the category of the first pattern that matches
-- it, in the order of priority; dependencies, if it is named like a manifest; the repository's
-- policy, if it is under one of its patterns.
abbrev pub touches : ClassifyChangeInput → Category → String → Bool
touches input c path =
    (under_policy input.sensitive_path_patterns path && same_category repository_policy c)
    || file_touches c path

any-or :
    (p q : String → Bool) (paths : List String)
    → (any p paths || any q paths) ≡ any (λ path. p path || q path) paths
any-or p q [] = refl
any-or p q (path ∷ paths) = ground (arith, any-or p q paths)

has_hit-false : (b : Bool) → (b || false) ≡ b
has_hit-false b = ground arith

-- The classifier names a category exactly if some changed path touches it.
pub has_hit-category :
    (input : ClassifyChangeInput) (c : Category)
    → has_hit c (category_hits input)
      ≡ any (touches input c) (map (λ f. f.path) input.changed_files)
unfolding category_hits
has_hit-category input c =
    let paths = map (λ f. f.path) input.changed_files in
    let b = same_category repository_policy c in
    let policy = input.sensitive_path_patterns in
    has_hit-policy c (policy_paths policy paths) (hit_files paths [])
    ∙ ap (λ x. x || has_hit c (hit_files paths [])) (any-policy b policy paths)
    ∙ ap (λ x. any (λ path. under_policy policy path && b) paths || x)
        (has_hit-files c paths [] ∙ has_hit-false _)
    ∙ any-or (λ path. under_policy policy path && b) (file_touches c) paths

-- `categories.includes(c)`
abbrev pub names_category : Category → List Category → Bool
names_category c categories = any (λ d. same_category d c) categories

names-map : (c : Category) (hits : Hits) → names_category c (map (λ h. h.0) hits) ≡ has_hit c hits
names-map c [] = refl
names-map c (h ∷ hits) = ground (arith, names-map c hits)

some_named :
    (categories : List Category)
    → (ltb 0 (length categories) ≡ true) ↔ ((c : Category) × (names_category c categories ≡ true))
some_named [] = (λ h. ground arith, λ (c, h). ground arith)
some_named (d ∷ ds) =
    (λ h. (d, ap (λ b. b || names_category d ds) (same_category_refl d)), λ k. ground arith)

low_iff_empty :
    (categories high_hits : List Category)
    → (risk_of categories high_hits ≡ low) ↔ (ltb 0 (length categories) ≡ false)
unfolding risk_of
low_iff_empty [] high_hits = (λ h. refl, λ h. refl)
low_iff_empty (c ∷ cs) [] = (λ h. ground arith, λ h. ground arith)
low_iff_empty (c ∷ cs) (d ∷ ds) = (λ h. ground arith, λ h. ground arith)

-- some changed path touches some category
abbrev pub TouchesSomething : ClassifyChangeInput → Type 0
TouchesSomething input =
    (c : Category) × (any (touches input c) (map (λ f. f.path) input.changed_files) ≡ true)

sensitive_iff :
    (input : ClassifyChangeInput)
    → ((classify_change input).security_sensitive ≡ true) ↔ TouchesSomething input
unfolding classify_change
sensitive_iff input =
    let named = some_named (map (λ h. h.0) (category_hits input)) in
    let same = λ (c : Category). names-map c (category_hits input) ∙ has_hit-category input c in
    (λ h. let (c, k) = named.0 h in (c, sym (same c) ∙ k), λ (c, k). named.1 (c, same c ∙ k))

review_iff :
    (b : Bool) → ((if b then deepsec_diff else RecommendedReview.none) ≡ deepsec_diff) ↔ (b ≡ true)
review_iff true = (λ h. refl, λ h. refl)
review_iff false = (λ h. ground arith, λ h. ground arith)

false_iff_not : {A : Type 0} (b : Bool) → ((b ≡ true) ↔ A) → (b ≡ false) ↔ (¬ A)
false_iff_not true (f, g) = (λ h a. ground arith, λ n. ground (arith, n (f refl)))
false_iff_not false (f, g) = (λ h a. ground (arith, g a), λ n. refl)

iff_trans : {A B C : Type 0} → (A ↔ B) → (B ↔ C) → (A ↔ C)
iff_trans (f, g) (h, k) = (λ a. h (f a), λ c. g (k c))

-- A source review is recommended exactly if some changed path touches some category, and the risk
-- is low exactly if none does.
pub classify_change-sensitive :
    (input : ClassifyChangeInput)
    → (((classify_change input).recommended_review ≡ deepsec_diff) ↔ TouchesSomething input)
      × (((classify_change input).risk_level ≡ low) ↔ (¬ TouchesSomething input))
unfolding classify_change
classify_change-sensitive input =
    let sensitive = (classify_change input).security_sensitive in
    let categories = (classify_change input).categories in
    (
      iff_trans (review_iff sensitive) (sensitive_iff input),
      iff_trans (low_iff_empty categories (keep (is_high_hit input) categories))
          (false_iff_not sensitive (sensitive_iff input)),
    )
