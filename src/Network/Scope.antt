-- ===== src/Network/Scope.antt =====
-- src/authz/url-scope.ts: whether a URL lies in the scope of a target. `new URL` is a parameter, and
-- the regular expression that a pattern becomes is kept as a list of items.
use shld.Prelude.{
  ℕ, ◌-◌, Bool, true, false, not, ◌&&◌, ◌||◌, Option, none, some, List, [], ◌∷◌, map, leb, ◌==◌,
  if◌then◌else◌, all,
}
use shld.Prelude.Text.{codes, text_eq, starts_with, trim, trim_start, is_space}
use shld.Action.{Result, ok, err}
use shld.Domain.Errors.{target_authorization, plain_error}
use shld.Network.Guard.{or_later, drop_text}

pub record Url : Type 0 where
  pub protocol : List ℕ
  pub hostname : List ℕ
  pub port : List ℕ
  pub pathname : List ℕ

pub record TargetScope : Type 0 where
  pub base_url : List ℕ
  pub allowed_paths : List (List ℕ)
  pub excluded_paths : List (List ℕ)

-- what stands in the regular expression of a path: a character, `c?`, or `.*`
pub data Item : Type 0 where
  one : ℕ → Item
  optional : ℕ → Item
  any_run : Item

pub record ScopePattern : Type 0 where
  pub method : List ℕ
  pub path_regex : List Item

-- the characters that `.` does not match
abbrev pub is_line_end : ℕ → Bool
is_line_end c = c == 10 || c == 13 || c == 0x2028 || c == 0x2029

-- what a `?` that comes next would apply to
pub data Pending : Type 0 where
  nothing : Pending
  atom : ℕ → Pending
  maybe : ℕ → Pending
  run : Pending

abbrev pub emit : Pending → List Item → List Item
emit nothing items = items
emit (atom c) items = one c ∷ items
emit (maybe c) items = optional c ∷ items
emit run items = any_run ∷ items

abbrev pub emit_before : Pending → Result (List Item) → Result (List Item)
emit_before p (ok items) = ok (emit p items)
emit_before p (err e) = err e

-- `?` is not escaped: it makes the character before it optional. After `c?` and `.*` it changes
-- only the order of the search; elsewhere the expression is refused.
abbrev pub on_question : Pending → (Pending → Result (List Item)) → Result (List Item)
on_question nothing next = err plain_error
on_question (atom c) next = next (maybe c)
on_question (maybe c) next = emit_before (maybe c) (next nothing)
on_question run next = emit_before run (next nothing)

-- `new RegExp` of the escaped pattern
unfoldable pub compile : Pending → List ℕ → Result (List Item)
compile p [] = ok (emit p [])
compile p (c ∷ cs) =
    let next = λ (q : Pending). compile q cs in
    if c == b'?'
    then on_question p next
    else if c == b'*'
    then emit_before p (next run)
    else emit_before p (next (atom c))

-- `pathRegex.test(path)`
unfoldable pub test_path : List Item → List ℕ → Bool
test_path [] [] = true
test_path [] (d ∷ s) = false
test_path (one c ∷ items) [] = false
test_path (one c ∷ items) (d ∷ s) = c == d && test_path items s
test_path (optional c ∷ items) [] = test_path items []
test_path (optional c ∷ items) (d ∷ s) = test_path items (d ∷ s) || (c == d && test_path items s)
test_path (any_run ∷ items) [] = test_path items []
test_path (any_run ∷ items) (d ∷ s) =
    test_path items (d ∷ s) || (not (is_line_end d) && test_path (any_run ∷ items) s)

abbrev pub upper_code : ℕ → ℕ
upper_code c = if leb b'a' c && leb c b'z' then c - 32 else c

-- `text.toUpperCase()`, of ASCII text
abbrev pub to_upper_case : List ℕ → List ℕ
to_upper_case = map upper_code

abbrev pub http_methods : List (List ℕ)
http_methods = map codes ("GET" ∷ "POST" ∷ "PUT" ∷ "PATCH" ∷ "DELETE" ∷ "HEAD" ∷ "OPTIONS" ∷ [])

abbrev pub starts_with_space : List ℕ → Bool
starts_with_space [] = false
starts_with_space (c ∷ cs) = is_space c

abbrev pub is_line : List ℕ → Bool
is_line [] = false
is_line cs = all (λ c. not (is_line_end c)) cs

-- the two groups of `/^(GET|…)\s+(.+)$/i`; the text is trimmed, so that `\s+` takes all the space
unfoldable pub method_match : List (List ℕ) → List ℕ → Option (List ℕ × List ℕ)
unfolding starts_with trim_start
method_match [] text = none
method_match (m ∷ ms) text =
    let rest = drop_text m text in
    if starts_with (to_upper_case text) m && starts_with_space rest && is_line (trim_start rest)
    then some (m, trim_start rest)
    else method_match ms text

abbrev pub pattern_of : List ℕ → Result (List Item) → Result ScopePattern
pattern_of m (ok items) = ok (record { method = m; path_regex = items })
pattern_of m (err e) = err e

abbrev pub scope_pattern : List ℕ → Option (List ℕ × List ℕ) → Result ScopePattern
scope_pattern text none = pattern_of (codes "*") (compile nothing text)
scope_pattern text (some (m, path)) = pattern_of m (compile nothing path)

unfoldable pub parse_scope_pattern : List ℕ → Result ScopePattern
unfolding trim method_match compile
parse_scope_pattern pattern_text =
    let trimmed = trim pattern_text in scope_pattern trimmed (method_match http_methods trimmed)

abbrev pub applies : List ℕ → List ℕ → Result ScopePattern → Result Bool
applies method pathname (ok parsed) = ok (
    (text_eq parsed.method (codes "*") || text_eq parsed.method (to_upper_case method))
    && test_path parsed.path_regex pathname)
applies method pathname (err e) = err e

unfoldable pub matches_scope : List (List ℕ) → List ℕ → List ℕ → Result Bool
unfolding parse_scope_pattern test_path text_eq
matches_scope [] method pathname = ok false
matches_scope (p ∷ ps) method pathname =
    or_later (applies method pathname (parse_scope_pattern p)) (matches_scope ps method pathname)

abbrev pub is_empty : List ℕ → Bool
is_empty [] = true
is_empty cs = false

unfoldable pub default_port : List ℕ → List ℕ
unfolding text_eq
default_port protocol = if text_eq protocol (codes "https:") then codes "443" else codes "80"

-- `url.port || defaultPort(url.protocol)`
abbrev pub port_of : Url → List ℕ
port_of url = if is_empty url.port then default_port url.protocol else url.port

unfoldable pub matches_authority : Url → Url → Bool
unfolding default_port text_eq
matches_authority url base =
    text_eq url.protocol base.protocol
    && text_eq url.hostname base.hostname
    && text_eq (port_of url) (port_of base)

abbrev pub refuse_if : Bool → Result (Unit {0}) → Result (Unit {0})
refuse_if true later = err target_authorization
refuse_if false later = later

abbrev pub refuse_when : Result Bool → Result (Unit {0}) → Result (Unit {0})
refuse_when (ok b) later = refuse_if b later
refuse_when (err e) later = err e

-- `excludedPaths.length > 0 && matchesScope(…)`
abbrev pub is_excluded : List (List ℕ) → List ℕ → List ℕ → Result Bool
is_excluded [] method pathname = ok false
is_excluded (p ∷ ps) method pathname = matches_scope (p ∷ ps) method pathname

abbrev pub negated : Result Bool → Result Bool
negated (ok b) = ok (not b)
negated (err e) = err e

-- `allowedPaths.length > 0 && !matchesScope(…)`
abbrev pub is_outside : List (List ℕ) → List ℕ → List ℕ → Result Bool
is_outside [] method pathname = ok false
is_outside (p ∷ ps) method pathname = negated (matches_scope (p ∷ ps) method pathname)

unfoldable pub assert_parsed : List ℕ → TargetScope → Option Url → Option Url → Result (Unit {0})
unfolding matches_authority matches_scope
assert_parsed method target none base = err target_authorization
assert_parsed method target (some url) none = err target_authorization
assert_parsed method target (some url) (some base) =
    refuse_if
      (not (text_eq url.protocol (codes "http:")) && not (text_eq url.protocol (codes "https:")))
      (refuse_if (not (matches_authority url base)) (
        refuse_when (is_excluded target.excluded_paths method url.pathname)
          (refuse_when (is_outside target.allowed_paths method url.pathname) (ok tt))))

unfoldable pub assert_url_within_authorized_target :
    (List ℕ → Option Url) → List ℕ → List ℕ → TargetScope → Result (Unit {0})
unfolding assert_parsed
assert_url_within_authorized_target parse_url raw_url method target =
    assert_parsed method target (parse_url raw_url) (parse_url target.base_url)
