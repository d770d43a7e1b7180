-- ===== src/Base/Text.antt =====
-- Texts whose characters the code reads: lists of UTF-16 code units, with the methods of JavaScript's
-- strings that the code calls on them.
use Prim.Native.Nat.{ℕ, ◌+◌}
use Prim.Native.Char.{code}
use Prim.Native.String.{String}
use mathlib.Core.Path.{◌≡◌, refl, ap, ◌∙◌}
use mathlib.Core.Bool.{Bool, true, false, ◌&&◌, ◌||◌}
use mathlib.Core.List.{List, [], ◌∷◌}
use native.Mathlib.Omega.{arith}
use logistics_center.Base.Tests.{if◌then◌else◌, ◌==◌, leb}
use logistics_center.Base.Lists.{contains, all}

abbrev pub Text : Type 0
Text = List ℕ

-- The code units of an ASCII literal.
abbrev pub codes : String → Text
codes String.[] = []
codes (String.◌∷◌ c s) = code c ∷ codes s

abbrev pub text_eq : Text → Text → Bool
text_eq [] [] = true
text_eq [] (y ∷ ys) = false
text_eq (x ∷ xs) [] = false
text_eq (x ∷ xs) (y ∷ ys) = x == y && text_eq xs ys

pub text_eq-eq : (xs ys : Text) → text_eq xs ys ≡ true → xs ≡ ys
text_eq-eq [] [] h = refl
text_eq-eq [] (y ∷ ys) h = cc
text_eq-eq (x ∷ xs) [] h = cc
text_eq-eq (x ∷ xs) (y ∷ ys) h = ground (arith, text_eq-eq xs ys)

pub text_eq_refl : (xs : Text) → text_eq xs xs ≡ true
text_eq_refl [] = refl
text_eq_refl (x ∷ xs) = ground (arith, text_eq_refl xs)

pub text_eq_euclid : (a b c : Text) → text_eq a b ≡ true → text_eq c b ≡ true → text_eq a c ≡ true
text_eq_euclid a b c h k =
    ap (λ x. text_eq x c) (text_eq-eq a b h) ∙ ap (text_eq b) (text_eq-eq c b k) ∙ text_eq_refl b

abbrev pub is_empty : Text → Bool
is_empty [] = true
is_empty (x ∷ xs) = false

-- `text.startsWith(prefix)`
abbrev pub starts_with : Text → Text → Bool
starts_with xs [] = true
starts_with [] (p ∷ ps) = false
starts_with (x ∷ xs) (p ∷ ps) = x == p && starts_with xs ps

-- The white space and line terminators of ECMAScript, which `trim` takes away.
abbrev white_space : List ℕ
white_space =
    9 ∷ 10 ∷ 11 ∷ 12 ∷ 13 ∷ 32 ∷ 160 ∷ 0x1680 ∷ 0x2028 ∷ 0x2029 ∷ 0x202f ∷ 0x205f ∷ 0x3000 ∷ 0xfeff
    ∷ []

abbrev pub is_white_space : ℕ → Bool
is_white_space c = contains c white_space || (leb 0x2000 c && leb c 0x200a)

-- `!text.trim()`: nothing but white space.
unfoldable pub is_blank : Text → Bool
is_blank text = all is_white_space text

-- `text.toLowerCase()`, on the letters of ASCII; other characters are kept.
abbrev pub to_lower : ℕ → ℕ
to_lower c = if leb b'A' c && leb c b'Z' then c + 32 else c

abbrev pub to_lower_case : Text → Text
to_lower_case [] = []
to_lower_case (c ∷ s) = to_lower c ∷ to_lower_case s

-- `text.trim()`
abbrev pub trim_start : Text → Text
trim_start [] = []
trim_start (c ∷ s) = let rest = trim_start s in if is_white_space c then rest else c ∷ s

abbrev pub trim_end : Text → Text
trim_end [] = []
trim_end (c ∷ s) =
    let rest = trim_end s in if is_empty rest && is_white_space c then [] else c ∷ rest

abbrev pub trim : Text → Text
trim text = trim_end (trim_start text)
