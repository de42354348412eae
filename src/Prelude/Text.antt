-- ===== src/Prelude/Text.antt =====
-- JavaScript's string methods, on the list of a text's code points. `to_lower_case` is that of
-- ASCII text: it leaves a letter outside ASCII as it is.
use Prim.Native.Nat.{ℕ, ◌+◌}
use Prim.Native.Char.{code}
use Prim.Native.String.{String}
use mathlib.Core.Path.{◌≡◌, refl}
use mathlib.Core.Logic.{◌↔◌, inl, inr}
use mathlib.Core.Bool.{Bool, true, false, ◌&&◌, ◌||◌}
use mathlib.Core.List.{List, [], ◌∷◌, ◌++◌, map, reverse, reverse-cons}
use native.Mathlib.Omega.{arith}
use shld.Prelude.Lists.{is_empty}
use shld.Prelude.Tests.{Bool-cases, leb, ◌==◌, if◌then◌else◌}

abbrev pub codes : String → List ℕ
codes String.[] = []
codes (String.◌∷◌ c s) = code c ∷ codes s

-- `a === b`
unfoldable pub text_eq : List ℕ → List ℕ → Bool
text_eq [] [] = true
text_eq [] (b ∷ bs) = false
text_eq (a ∷ as') [] = false
text_eq (a ∷ as') (b ∷ bs) = a == b && text_eq as' bs

pub text_eq_iff : (a b : List ℕ) → (text_eq a b ≡ true) ↔ (a ≡ b)
unfolding text_eq
text_eq_iff [] [] = ground arith
text_eq_iff [] (b ∷ bs) = ground arith
text_eq_iff (a ∷ as') [] = ground arith
text_eq_iff (a ∷ as') (b ∷ bs) = ground (arith, text_eq_iff as' bs)

lower_code : ℕ → ℕ
lower_code c = if leb 65 c && leb c 90 then c + 32 else c

-- `text.toLowerCase()`
unfoldable pub to_lower_case : List ℕ → List ℕ
unfolding lower_code
to_lower_case = map lower_code

-- the white space and line terminators of ECMAScript
unfoldable pub is_space : ℕ → Bool
is_space c =
    (leb 9 c && leb c 13)
    || c == 32
    || c == 160
    || c == 0x1680
    || (leb 0x2000 c && leb c 0x200a)
    || c == 0x2028
    || c == 0x2029
    || c == 0x202f
    || c == 0x205f
    || c == 0x3000
    || c == 0xfeff

unfoldable pub trim_start : List ℕ → List ℕ
unfolding is_space
trim_start [] = []
trim_start (c ∷ cs) = let rest = trim_start cs in if is_space c then rest else c ∷ cs

-- `text.trim()`
unfoldable pub trim : List ℕ → List ℕ
unfolding trim_start
trim cs = reverse (trim_start (reverse (trim_start cs)))

is_empty-append : (xs : List ℕ) (c : ℕ) → is_empty (xs ++ c ∷ []) ≡ false
is_empty-append [] c = refl
is_empty-append (x ∷ xs) c = refl

is_empty-trim_start :
    (xs : List ℕ) (c : ℕ) → is_space c ≡ false → is_empty (trim_start (xs ++ c ∷ [])) ≡ false
unfolding trim_start
is_empty-trim_start [] c ink = rw ink
is_empty-trim_start (x ∷ xs) c ink = elim (Bool-cases (is_space x)) [
  | inl space ↦ rw space (is_empty-trim_start xs c ink)
  | inr other ↦ rw other
]

is_empty-reverse : (xs : List ℕ) → is_empty (reverse xs) ≡ is_empty xs
is_empty-reverse [] = refl
is_empty-reverse (x ∷ xs) = rw (reverse-cons x xs) (is_empty-append (reverse xs) x)

-- What begins with a character that is no white space is not blank.
pub is_empty-trim : (c : ℕ) (cs : List ℕ) → is_space c ≡ false → is_empty (trim (c ∷ cs)) ≡ false
unfolding trim
is_empty-trim c cs ink =
    rw (is_empty-reverse (trim_start (reverse (trim_start (c ∷ cs)))), ink, reverse-cons c cs)
      (is_empty-trim_start (reverse cs) c ink)

-- `text.startsWith(prefix)`
unfoldable pub starts_with : List ℕ → List ℕ → Bool
starts_with cs [] = true
starts_with [] (p ∷ ps) = false
starts_with (c ∷ cs) (p ∷ ps) = c == p && starts_with cs ps

-- `text.includes(part)`
unfoldable pub includes_text : List ℕ → List ℕ → Bool
unfolding starts_with
includes_text [] part = starts_with [] part
includes_text (c ∷ cs) part = starts_with (c ∷ cs) part || includes_text cs part
