-- ===== src/RepoPrep/Languages.antt =====
-- src/repo-prep/language-detection.ts, on texts as their code points. Whether a file is in the
-- snapshot, and the names of the dependencies in its package.json, if that can be read, are
-- parameters.
use shld.Prelude.{
  ℕ, Bool, true, false, ◌&&◌, ◌||◌, Option, none, some, List, [], ◌∷◌, ◌++◌, map, String, str_eq,
  keep, any, find, ltb, is_empty, ◌==◌, if◌then◌else◌,
}
use mathlib.Core.Option.{map as option_map}
use shld.Prelude.Split.{split_on}
use shld.Prelude.Text.{codes, text_eq, to_lower_case}

abbrev pub extension_language_map : List (String × String)
extension_language_map =
    (".ts", "typescript")
    ∷ (".tsx", "typescript")
    ∷ (".js", "javascript")
    ∷ (".jsx", "javascript")
    ∷ (".mjs", "javascript")
    ∷ (".py", "python")
    ∷ (".go", "go")
    ∷ (".rb", "ruby")
    ∷ (".java", "java")
    ∷ (".kt", "kotlin")
    ∷ (".rs", "rust")
    ∷ (".php", "php")
    ∷ (".cs", "csharp")
    ∷ (".c", "c")
    ∷ (".cpp", "cpp")
    ∷ (".swift", "swift")
    ∷ []

-- a name while it is read from the left: before its first character, before a dot that is not the
-- first character, or past the last such dot, with the dot and what follows it
pub data Reading : Type 0 where
  at_start within : Reading
  past_dot : List ℕ → Reading

abbrev pub reads : Reading → ℕ → Reading
reads at_start c = within
reads within c = if c == b'.' then past_dot (c ∷ []) else within
reads (past_dot ext) c = if c == b'.' then past_dot (c ∷ []) else past_dot (ext ++ c ∷ [])

unfoldable pub read_name : Reading → List ℕ → Reading
read_name so_far [] = so_far
read_name so_far (c ∷ cs) = read_name (reads so_far c) cs

abbrev pub extension_of : Reading → List ℕ
extension_of (past_dot ext) = ext
extension_of _ = []

-- the last part that is not empty
unfoldable pub base_name : List (List ℕ) → List ℕ
base_name [] = []
base_name (part ∷ parts) = let rest = base_name parts in if is_empty rest then part else rest

-- Node's `path.extname`
unfoldable pub extname : List ℕ → List ℕ
unfolding read_name base_name split_on
extname path = extension_of (read_name at_start (base_name (split_on b'/' path)))

unfoldable pub language_of : List ℕ → Option String
unfolding extname to_lower_case text_eq
language_of path =
    option_map (λ e. e.1)
      (find (λ e. text_eq (codes e.0) (to_lower_case (extname path))) extension_language_map)

-- `languages.add(language)`
abbrev pub add_language : String → List String → List String
add_language l ls = if any (str_eq l) ls then ls else ls ++ l ∷ []

abbrev pub added_of : Option String → List String → List String
added_of none ls = ls
added_of (some l) ls = add_language l ls

unfoldable pub languages_of : List (List ℕ) → List String → List String
unfolding language_of
languages_of [] ls = ls
languages_of (path ∷ paths) ls = languages_of paths (added_of (language_of path) ls)

-- the order of `sort()`
unfoldable pub text_lt : List ℕ → List ℕ → Bool
text_lt a [] = false
text_lt [] (b ∷ bs) = true
text_lt (a ∷ as') (b ∷ bs) = ltb a b || (a == b && text_lt as' bs)

unfoldable pub insert_text : String → List String → List String
unfolding text_lt
insert_text l [] = l ∷ []
insert_text l (m ∷ ms) =
    let rest = insert_text l ms in if text_lt (codes m) (codes l) then m ∷ rest else l ∷ m ∷ ms

unfoldable pub sort_texts : List String → List String
unfolding insert_text
sort_texts [] = []
sort_texts (l ∷ ls) = insert_text l (sort_texts ls)

unfoldable pub detect_languages_from_paths : List (List ℕ) → List String
unfolding languages_of sort_texts
detect_languages_from_paths paths = sort_texts (languages_of paths [])

abbrev pub node_framework_dependencies : List String
node_framework_dependencies =
    "next" ∷ "express" ∷ "fastify" ∷ "react" ∷ "vue" ∷ "koa" ∷ "@nestjs/core" ∷ []

abbrev pub framework_name : String → String
framework_name dep = if str_eq dep "@nestjs/core" then "nestjs" else dep

-- the dependencies with a version that is not empty; none where the file is missing or malformed
abbrev pub node_frameworks : Option (List String) → List String
node_frameworks none = []
node_frameworks (some deps) =
    map framework_name (keep (λ dep. any (str_eq dep) deps) node_framework_dependencies)

abbrev pub said_if : Bool → String → List String
said_if true framework = framework ∷ []
said_if false framework = []

unfoldable pub detect_frameworks_from_manifest :
    (String → Bool) → Option (List String) → List String
detect_frameworks_from_manifest exists_sync dependencies =
    node_frameworks dependencies
    ++ said_if (exists_sync "requirements.txt" || exists_sync "pyproject.toml") "python-project"
    ++ said_if (exists_sync "go.mod") "go-module"
    ++ said_if (exists_sync "Gemfile") "ruby-project"
