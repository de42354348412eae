-- ===== src/Correlation/Fingerprint.antt =====
-- src/correlation/fingerprint.ts. The hash of node:crypto is a parameter.
use shld.Prelude.{ℕ, String, Bool, false, Option, List, [], ◌∷◌, ◌++◌, if◌then◌else◌, get_or}
use shld.Prelude.Text.{codes, trim, to_lower_case, is_space}

pub record FingerprintInput : Type 0 where
  -- the repository's key as a text
  pub repository_id : String
  pub category : String
  pub file_path : String
  pub symbol : Option String
  pub title : String

-- `text.replace(/\s+/g, " ")`: `within` says whether the character before was white space
collapse_from : Bool → List ℕ → List ℕ
collapse_from within [] = []
collapse_from within (c ∷ cs) =
    let rest = collapse_from (is_space c) cs in
    if is_space c then (if within then rest else 32 ∷ rest) else c ∷ rest

unfoldable pub collapse_spaces : List ℕ → List ℕ
unfolding collapse_from
collapse_spaces = collapse_from false

-- `parts.join("::")`
unfoldable pub join_parts : List (List ℕ) → List ℕ
join_parts [] = []
join_parts (p ∷ []) = p
join_parts (p ∷ q ∷ ps) = p ++ (58 ∷ 58 ∷ join_parts (q ∷ ps))

unfoldable pub fingerprint_text : FingerprintInput → List ℕ
unfolding join_parts collapse_spaces
fingerprint_text input = join_parts (
    codes input.repository_id
    ∷ to_lower_case (trim (codes input.category))
    ∷ codes input.file_path
    ∷ codes (get_or input.symbol "")
    ∷ collapse_spaces (to_lower_case (trim (codes input.title)))
    ∷ [])

module _ (sha256 : List ℕ → String) where
  unfoldable pub compute_finding_fingerprint : FingerprintInput → String
  unfolding fingerprint_text
  compute_finding_fingerprint input = sha256 (fingerprint_text input)
